-- ===== src/Scheduler/Queued.antt =====
-- An event is in the queue of the priority that it was queued with, and in no other: what the queues
-- and `prio_appl` of each event have to do with each other.
use udptun.Prelude.{
  ℕ, suc, ◌≤◌, ◌≡◌, sym, ap, ◌∙◌, Bool, true, false, List, Option, none, some, arith, ◌==◌,
  if◌then◌else◌, find, put, insert, remove, member, find-put, find-erase, member-insert,
  member-remove, Option-cases, inl, inr, length,
}
use udptun.Prelude.Sorted.{
  Ordered, put-Ordered, erase-Ordered, length-erase, length-erase_lt, length-put,
}
use udptun.Scheduler.{Scheduler, set_or, enqueue, dequeue, move}
use udptun.Scheduler.Poll.{queue_at, unqueue}

abbrev pub is_at : ℕ → Option ℕ → Bool
is_at p none = false
is_at p (some q) = q == p

pub record Queued (s : Scheduler) : Type 0 where
  pub placed : (ev p : ℕ) → member ev (queue_at p s) ≡ is_at p (find ev s.applied)
  pub ordered : Ordered s.applied

-- The queue of a priority after one of the queues was replaced.
pub set_or-put :
    (p q : ℕ) (evs : List ℕ) (queues : List (ℕ × List ℕ))
    → set_or (find p (put q evs queues)) ≡ (if q == p then evs else set_or (find p queues))
set_or-put p q evs queues = rw (find-put p q evs queues) (ground arith)

pub enqueue-Queued : (prio ev : ℕ) (s : Scheduler) → Queued s → Queued (enqueue prio ev s)
unfolding enqueue
enqueue-Queued prio ev s h = elim (Option-cases (find ev s.applied)) [
  | inr (p, e) ↦ rw (e, enqueue) h
  | inl e ↦
      rw (e, enqueue)
        (record {
          placed = λ x p. ground (
            arith,
            h.placed x p,
            h.placed x prio,
            h.placed ev p,
            e,
            set_or-put p prio (insert ev (set_or (find prio s.queues))) s.queues,
            member-insert x ev (set_or (find prio s.queues)),
            find-put x ev prio s.applied,
          );
          ordered = put-Ordered ev prio s.applied h.ordered;
        })
]

dequeue-Queued : (ev : ℕ) (s : Scheduler) → Queued s → Queued (dequeue ev s)
unfolding dequeue
dequeue-Queued ev s h = elim (Option-cases (find ev s.applied)) [
  | inl e ↦ rw (e, dequeue) h
  | inr (q, e) ↦
      rw (e, dequeue)
        (record {
          placed = λ x p. ground (
            arith,
            h.placed x p,
            h.placed x q,
            h.placed ev p,
            e,
            set_or-put p q (remove ev (set_or (find q s.queues))) s.queues,
            member-remove x ev (set_or (find q s.queues)),
            find-erase x ev s.applied,
          );
          ordered = erase-Ordered ev s.applied h.ordered;
        })
]

-- A state with the same queues.
pub Queued-same :
    (s t : Scheduler) → t.queues ≡ s.queues → t.applied ≡ s.applied → Queued s → Queued t
Queued-same s t q a h = record {
  placed = λ ev p. rw (q, a) (h.placed ev p);
  ordered = rw a h.ordered;
}

-- The event that is about to be notified leaves its queue.
unqueue-Queued :
    (p ev : ℕ) (s : Scheduler)
    → member ev (queue_at p s) ≡ true
    → Queued s
    → Queued (unqueue p ev s)
unqueue-Queued p ev s e h = record {
  placed = λ x q. ground (
    arith,
    h.placed x q,
    h.placed x p,
    h.placed ev q,
    h.placed ev p,
    e,
    set_or-put q p (remove ev (set_or (find p s.queues))) s.queues,
    member-remove x ev (set_or (find p s.queues)),
    find-erase x ev s.applied,
  );
  ordered = erase-Ordered ev s.applied h.ordered;
}

-- `Event::prio` takes an event that is queued to its new queue.
move-Queued :
    (q p ev : ℕ) (s : Scheduler) → find ev s.applied ≡ some q → Queued s → Queued (move q p ev s)
move-Queued q p ev s e h = record {
  placed = λ x r. ground (
    arith,
    h.placed x r,
    h.placed x p,
    h.placed x q,
    h.placed ev r,
    h.placed ev p,
    h.placed ev q,
    e,
    set_or-put r p
        (insert ev (set_or (find p (put q (remove ev (set_or (find q s.queues))) s.queues))))
        (put q (remove ev (set_or (find q s.queues))) s.queues),
    set_or-put r q (remove ev (set_or (find q s.queues))) s.queues,
    set_or-put p q (remove ev (set_or (find q s.queues))) s.queues,
    member-insert x ev (set_or (find p (put q (remove ev (set_or (find q s.queues))) s.queues))),
    member-remove x ev (set_or (find q s.queues)),
    find-put x ev p s.applied,
  );
  ordered = put-Ordered ev p s.applied h.ordered;
}

-- And at most so many events are queued.
pub record AtMost (n : ℕ) (s : Scheduler) : Type 0 where
  pub queued : Queued s
  pub few : length s.applied ≤ n

pub AtMost-same :
    (n : ℕ) (s t : Scheduler)
    → t.queues ≡ s.queues
    → t.applied ≡ s.applied
    → AtMost n s
    → AtMost n t
AtMost-same n s t q a h = record { queued = Queued-same s t q a h.queued; few = rw a h.few }

length-dequeue : (ev : ℕ) (s : Scheduler) → length (dequeue ev s).applied ≤ length s.applied
unfolding dequeue
length-dequeue ev s = ground (arith, length-erase ev s.applied)

pub dequeue-AtMost : (n ev : ℕ) (s : Scheduler) → AtMost n s → AtMost n (dequeue ev s)
dequeue-AtMost n ev s h = record {
  queued = dequeue-Queued ev s h.queued;
  few = omega (arith, length-dequeue ev s, h.few);
}

pub unqueue-AtMost :
    (n p ev : ℕ) (s : Scheduler)
    → member ev (queue_at p s) ≡ true
    → AtMost (suc n) s
    → AtMost n (unqueue p ev s)
unqueue-AtMost n p ev s m h = record {
  queued = unqueue-Queued p ev s m h.queued;
  few = elim (Option-cases (find ev s.applied)) [
    | inl e ↦ absurd (not_applied (sym m ∙ h.queued.placed ev p ∙ ap (is_at p) e))
    | inr (q, e) ↦ omega (arith, length-erase_lt ev q s.applied e, h.few)
  ];
}
  where
    not_applied : true ≡ false → ⊥
    not_applied e = cc

pub move-AtMost :
    (n q p ev : ℕ) (s : Scheduler)
    → find ev s.applied ≡ some q
    → AtMost n s
    → AtMost n (move q p ev s)
move-AtMost n q p ev s e h = record {
  queued = move-Queued q p ev s e h.queued;
  few = rw (length-put ev p q s.applied h.queued.ordered e) h.few;
}

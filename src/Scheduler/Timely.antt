-- ===== src/Scheduler/Timely.antt =====
-- Each timed event is in the table at the time that it is set for, and at no other.
use udptun.Prelude.{
  ℕ, ◌≤◌, ◌<◌, ◌≡◌, refl, ◌∙◌, true, false, List, [], ◌∷◌, none, some, arith, leb, ◌==◌,
  if◌then◌else◌, find, put, member, insert, remove, find-put, find-erase, member-insert,
  member-remove, Option-cases, Bool-cases, inl, inr,
}
use udptun.Prelude.Sorted.{Ordered, put-Ordered, find-Above}
use udptun.Scheduler.{
  Scheduler, set_or, dequeue, add_time, take_time, set_timed, unset_timed, cancel_timed,
}
use udptun.Scheduler.Collected.{Timely, due-Timely, whens-collect, table-collect}
use udptun.Scheduler.LeftOver.{due_events, left_over, find-left_over}
use udptun.Scheduler.Poll.{collect}
use udptun.Scheduler.Queued.{is_at, set_or-put}

fresh-Timely :
    (when ev : ℕ) (s : Scheduler)
    → find ev s.whens ≡ none
    → Timely s
    → Timely (record s { table = add_time when ev s.table; whens = put ev when s.whens })
unfolding add_time
fresh-Timely when ev s e h = record {
  times = put-Ordered when _ s.table h.times;
  placed = λ x t. ground (
    arith,
    h.placed x t,
    h.placed x when,
    h.placed ev t,
    e,
    set_or-put t when (insert ev (set_or (find when s.table))) s.table,
    member-insert x ev (set_or (find when s.table)),
    find-put x ev when s.whens,
  );
}

unset_timed-Timely : (ev : ℕ) (s : Scheduler) → Timely s → Timely (unset_timed ev s)
unfolding unset_timed take_time
unset_timed-Timely ev s h = elim (Option-cases (find ev s.whens)) [
  | inl e ↦ rw (e, unset_timed) h
  | inr (old, e) ↦
      rw (e, unset_timed)
        (record {
          times = put-Ordered old _ s.table h.times;
          placed = λ x t. ground (
            arith,
            h.placed x t,
            h.placed x old,
            h.placed ev t,
            e,
            set_or-put t old (remove ev (set_or (find old s.table))) s.table,
            member-remove x ev (set_or (find old s.table)),
            find-erase x ev s.whens,
          );
        })
]

moved-Timely :
    (old when ev : ℕ) (s : Scheduler)
    → find ev s.whens ≡ some old
    → Timely s
    → Timely (record s {
      table = add_time when ev (take_time old ev s.table);
      whens = put ev when s.whens;
    })
unfolding add_time take_time
moved-Timely old when ev s e h = record {
  times = put-Ordered when _ _ (put-Ordered old _ s.table h.times);
  placed = λ x t. ground (
    arith,
    h.placed x t,
    h.placed x when,
    h.placed x old,
    h.placed ev t,
    h.placed ev when,
    h.placed ev old,
    e,
    set_or-put t when
        (insert ev (set_or (find when (put old (remove ev (set_or (find old s.table))) s.table))))
        (put old (remove ev (set_or (find old s.table))) s.table),
    set_or-put t old (remove ev (set_or (find old s.table))) s.table,
    set_or-put when old (remove ev (set_or (find old s.table))) s.table,
    member-insert x ev
        (set_or (find when (put old (remove ev (set_or (find old s.table))) s.table))),
    member-remove x ev (set_or (find old s.table)),
    find-put x ev when s.whens,
  );
}

set_timed-Timely : (when ev : ℕ) (s : Scheduler) → Timely s → Timely (set_timed when ev s)
unfolding set_timed
set_timed-Timely when ev s h = elim (Option-cases (find ev s.whens)) [
  | inl e ↦ rw (e, set_timed) (fresh-Timely when ev s e h)
  | inr (old, e) ↦ elim (Bool-cases (old == when)) [
    | inl b ↦ rw (e, set_timed, b) h
    | inr b ↦ rw (e, set_timed, b) (moved-Timely old when ev s e h)
  ]
]

Timely-same : (s t : Scheduler) → t.table ≡ s.table → t.whens ≡ s.whens → Timely s → Timely t
Timely-same s t q a h = record { times = rw q h.times; placed = λ ev u. rw (q, a) (h.placed ev u) }

dequeue_times :
    (ev : ℕ) (s : Scheduler) → ((dequeue ev s).table ≡ s.table) × ((dequeue ev s).whens ≡ s.whens)
unfolding dequeue
dequeue_times ev s = ground arith

cancel_timed-Timely : (ev : ℕ) (s : Scheduler) → Timely s → Timely (cancel_timed ev s)
unfolding cancel_timed
cancel_timed-Timely ev s h =
    let (t, w) = dequeue_times ev s in
    unset_timed-Timely ev (dequeue ev s) (Timely-same s (dequeue ev s) t w h)

left_over-Ordered :
    (now : ℕ) (table : List (ℕ × List ℕ)) → Ordered table → Ordered (left_over now table)
left_over-Ordered now [] o = tt
left_over-Ordered now ((when, evs) ∷ table) (a, o) = elim (Bool-cases (leb when now)) [
  | inl b ↦ rw b (left_over-Ordered now table o)
  | inr b ↦ rw b (a, o)
]

-- A time that has come is not in the table any more.
find-left_over_le :
    (t now : ℕ) (table : List (ℕ × List ℕ))
    → Ordered table
    → t ≤ now
    → find t (left_over now table) ≡ none
unfolding find
find-left_over_le t now [] o l = refl
find-left_over_le t now ((k, es) ∷ table) (a, o) l = elim (Bool-cases (leb k now)) [
  | inl b ↦ rw b (find-left_over_le t now table o l)
  | inr b ↦
      let other : (k == t) ≡ false = ground arith in
      let below : t ≤ k = ground arith in rw (b, other) (find-Above t k table below a)
]

member-none : (x : ℕ) → member x (set_or none) ≡ false
unfolding member
member-none x = refl

collect-Timely : (now : ℕ) (s : Scheduler) → Timely s → Timely (collect now s)
collect-Timely now s h = record {
  times = rw (table-collect now s) (left_over-Ordered now s.table h.times);
  placed = λ x t.
      rw (table-collect now s, whens-collect x now s)
        (elim (Bool-cases (leb t now)) [ inl b ↦ past x t b | inr b ↦ future x t b ]);
}
  where
    past :
        (x t : ℕ)
        → leb t now ≡ true
        → member x (set_or (find t (left_over now s.table)))
          ≡ is_at t (if member x (due_events now s.table) then none else find x s.whens)
    past x t b =
        let le : t ≤ now = ground arith in
        rw (find-left_over_le t now s.table h.times le) (
          member-none x ∙ elim (Option-cases (find x s.whens)) [
            | inl e ↦ rw e (ground arith)
            | inr (u, e) ↦ let d = due-Timely x u now s h e in rw (e, d) (ground (arith, b))
          ])

    future :
        (x t : ℕ)
        → leb t now ≡ false
        → member x (set_or (find t (left_over now s.table)))
          ≡ is_at t (if member x (due_events now s.table) then none else find x s.whens)
    future x t b =
        let lt : now < t = ground arith in
        rw (find-left_over t now s.table lt) (
          h.placed x t ∙ elim (Option-cases (find x s.whens)) [
            | inl e ↦ rw e (ground arith)
            | inr (u, e) ↦ let d = due-Timely x u now s h e in rw (e, d) (ground (arith, b))
          ])

-- A call on a timed event, or the collection of those that are due.
pub data TimedCall : Type 0 where
  sets : ℕ → ℕ → TimedCall
  cancels : ℕ → TimedCall
  collects : ℕ → TimedCall

unfoldable pub call : TimedCall → Scheduler → Scheduler
call (sets when ev) s = set_timed when ev s
call (cancels ev) s = cancel_timed ev s
call (collects now) s = collect now s

unfoldable pub calls : List TimedCall → Scheduler → Scheduler
calls [] s = s
calls (c ∷ cs) s = calls cs (call c s)

call-Timely : (c : TimedCall) (s : Scheduler) → Timely s → Timely (call c s)
unfolding call
call-Timely (sets when ev) s h = set_timed-Timely when ev s h
call-Timely (cancels ev) s h = cancel_timed-Timely ev s h
call-Timely (collects now) s h = collect-Timely now s h

-- When the table is in the order of its times, and each timed event is in it at the time that it
-- is set for and at no other, as in a new scheduler, this is so after any calls that set and
-- cancel timed events and any collections of those that are due.
pub calls-Timely : (cs : List TimedCall) (s : Scheduler) → Timely s → Timely (calls cs s)
unfolding calls
calls-Timely [] s h = h
calls-Timely (c ∷ cs) s h = calls-Timely cs (call c s) (call-Timely c s h)

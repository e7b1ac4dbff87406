-- ===== src/Scheduler/Enqueued.antt =====
-- What putting events in the queues changes.
use udptun.Prelude.{
  ℕ, ◌≡◌, refl, ap, ◌∙◌, Bool, true, false, ◌||◌, List, [], ◌∷◌, none, some, arith, ◌==◌,
  if◌then◌else◌, find, erase, member, find-put, find-erase,
}
use udptun.Scheduler.{Scheduler, enqueue, prio_of}
use udptun.Scheduler.Poll.{enqueue_all, fire_timed}

-- The event waits in a queue.
abbrev pub in_queue : ℕ → Scheduler → Bool
in_queue ev s = elim (find ev s.applied) [ none ↦ false | some p ↦ true ]

pub in_queue-enqueue :
    (x prio ev : ℕ) (s : Scheduler) → in_queue x (enqueue prio ev s) ≡ ((ev == x) || in_queue x s)
unfolding enqueue
in_queue-enqueue x prio ev s = ground (arith, find-put x ev prio s.applied)

pub whens-enqueue : (prio ev : ℕ) (s : Scheduler) → (enqueue prio ev s).whens ≡ s.whens
unfolding enqueue
whens-enqueue prio ev s = ground arith

pub in_queue-fire_timed :
    (x : ℕ) (evs : List ℕ) (s : Scheduler)
    → in_queue x (fire_timed evs s) ≡ (member x evs || in_queue x s)
unfolding fire_timed member
in_queue-fire_timed x [] s = refl
in_queue-fire_timed x (ev ∷ evs) s =
    let t : Scheduler = record s { whens = erase ev s.whens } in
    ground (
      arith,
      in_queue-fire_timed x evs (enqueue (prio_of ev t) ev t),
      in_queue-enqueue x (prio_of ev t) ev t,
    )

pub whens-fire_timed :
    (x : ℕ) (evs : List ℕ) (s : Scheduler)
    → find x (fire_timed evs s).whens ≡ (if member x evs then none else find x s.whens)
unfolding fire_timed member
whens-fire_timed x [] s = refl
whens-fire_timed x (ev ∷ evs) s =
    let t : Scheduler = record s { whens = erase ev s.whens } in
    ground (
      arith,
      whens-fire_timed x evs (enqueue (prio_of ev t) ev t),
      ap (find x) (whens-enqueue (prio_of ev t) ev t),
      find-erase x ev s.whens,
    )

pub in_queue-enqueue_all :
    (x : ℕ) (evs : List ℕ) (s : Scheduler)
    → in_queue x (enqueue_all evs s) ≡ (member x evs || in_queue x s)
unfolding enqueue_all member
in_queue-enqueue_all x [] s = refl
in_queue-enqueue_all x (ev ∷ evs) s = ground (
  arith,
  in_queue-enqueue_all x evs (enqueue (prio_of ev s) ev s),
  in_queue-enqueue x (prio_of ev s) ev s,
)

pub rest-enqueue_all :
    (evs : List ℕ) (s : Scheduler)
    → ((enqueue_all evs s).whens ≡ s.whens) × ((enqueue_all evs s).table ≡ s.table)
unfolding enqueue_all
rest-enqueue_all [] s = (refl, refl)
rest-enqueue_all (ev ∷ evs) s =
    let (w, t) = rest-enqueue_all evs (enqueue (prio_of ev s) ev s) in
    (w ∙ whens-enqueue (prio_of ev s) ev s, t ∙ table-enqueue)
  where
    table-enqueue : (enqueue (prio_of ev s) ev s).table ≡ s.table
    table-enqueue = unfold enqueue in ground arith

idleness-enqueue : (prio ev : ℕ) (s : Scheduler) → (enqueue prio ev s).idleness ≡ s.idleness
unfolding enqueue
idleness-enqueue prio ev s = ground arith

pub idleness-fire_timed : (evs : List ℕ) (s : Scheduler) → (fire_timed evs s).idleness ≡ s.idleness
unfolding fire_timed
idleness-fire_timed [] s = refl
idleness-fire_timed (ev ∷ evs) s =
    let t : Scheduler = record s { whens = erase ev s.whens } in
    idleness-fire_timed evs (enqueue (prio_of ev t) ev t) ∙ idleness-enqueue (prio_of ev t) ev t

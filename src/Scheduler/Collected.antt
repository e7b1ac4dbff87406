-- ===== src/Scheduler/Collected.antt =====
-- The events that are due are put in the queues.
use udptun.Prelude.{
  ℕ, ◌≤◌, ◌<◌, ◌≡◌, refl, sym, ap, ◌∙◌, true, false, ◌||◌, List, [], ◌∷◌, none, some, arith, leb,
  if◌then◌else◌, find, member, Option-cases, Bool-cases, inl, inr, ==_refl,
}
use udptun.Prelude.Sorted.{Ordered}
use udptun.Scheduler.{Scheduler, set_or}
use udptun.Scheduler.Poll.{fire_timed, collect_timed, collect_idle, collect}
use udptun.Scheduler.Queued.{is_at}
use udptun.Scheduler.Enqueued.{
  in_queue, in_queue-enqueue_all, rest-enqueue_all, idleness-fire_timed,
}
use udptun.Scheduler.LeftOver.{
  due_events, left_over, in_queue-collect_timed, whens-collect_timed, table-collect_timed,
  due_member, member_due, find-left_over,
}

-- An event is in the table at the time that it is set for, and at no other.
pub record Timely (s : Scheduler) : Type 0 where
  pub times : Ordered s.table
  pub placed : (ev t : ℕ) → member ev (set_or (find t s.table)) ≡ is_at t (find ev s.whens)

-- What is due waits in a queue, and no longer in the table; what is later, and what was queued, is as
-- before.
pub record Due (now : ℕ) (s s' : Scheduler) : Type 0 where
  pub due :
      (ev t : ℕ)
      → find ev s.whens ≡ some t
      → t ≤ now
      → (in_queue ev s' ≡ true) × (find ev s'.whens ≡ none)
  pub later :
      (ev t : ℕ)
      → find ev s.whens ≡ some t
      → now < t
      → (find ev s'.whens ≡ some t) × (find t s'.table ≡ find t s.table)
  pub idle : (ev : ℕ) → member ev s.idleness ≡ true → in_queue ev s' ≡ true
  pub none_idle : s'.idleness ≡ []
  pub kept : (ev : ℕ) → in_queue ev s ≡ true → in_queue ev s' ≡ true

idleness-collect_timed :
    (now : ℕ) (table : List (ℕ × List ℕ)) (s : Scheduler)
    → (collect_timed now table s).idleness ≡ s.idleness
unfolding collect_timed
idleness-collect_timed now [] s = refl
idleness-collect_timed now ((when, evs) ∷ table) s = elim (Bool-cases (leb when now)) [
  | inl b ↦ rw b (idleness-collect_timed now table (fire_timed evs s) ∙ idleness-fire_timed evs s)
  | inr b ↦ rw b refl
]

in_queue-collect :
    (x now : ℕ) (s : Scheduler)
    → in_queue x (collect now s)
      ≡ (member x (due_events now s.table) || (member x s.idleness || in_queue x s))
unfolding collect collect_idle
in_queue-collect x now s =
    let timed : Scheduler = collect_timed now s.table s in
    in_queue-enqueue_all x timed.idleness timed
    ∙ ground (
      arith,
      ap (member x) (idleness-collect_timed now s.table s),
      in_queue-collect_timed x now s.table s,
    )

pub whens-collect :
    (x now : ℕ) (s : Scheduler)
    → find x (collect now s).whens
      ≡ (if member x (due_events now s.table) then none else find x s.whens)
unfolding collect collect_idle
whens-collect x now s =
    let timed : Scheduler = collect_timed now s.table s in
    ap (find x) (rest-enqueue_all timed.idleness timed).0 ∙ whens-collect_timed x now s.table s

pub table-collect : (now : ℕ) (s : Scheduler) → (collect now s).table ≡ left_over now s.table
unfolding collect collect_idle
table-collect now s =
    let timed : Scheduler = collect_timed now s.table s in
    (rest-enqueue_all timed.idleness timed).1 ∙ table-collect_timed now s.table s

-- An event that is set for a time is due just when the time has come.
pub due-Timely :
    (x t now : ℕ) (s : Scheduler)
    → Timely s
    → find x s.whens ≡ some t
    → member x (due_events now s.table) ≡ leb t now
due-Timely x t now s h e = elim (Bool-cases (leb t now)) [
  | inl b ↦
      let le : t ≤ now = ground arith in
      let here : member x (set_or (find t s.table)) ≡ true =
        h.placed x t ∙ ap (is_at t) e ∙ ==_refl t in
      elim (Option-cases (find t s.table)) [
        | inl f ↦ absurd (nowhere (sym (ap (λ o. member x (set_or o)) f) ∙ here))
        | inr (evs, f) ↦ rw b (
            due_member x t now evs s.table h.times f le
              (sym (ap (λ o. member x (set_or o)) f) ∙ here))
      ]
  | inr b ↦ rw b (elim (Bool-cases (member x (due_events now s.table))) [
    | inr m ↦ m
    | inl m ↦
        let (k, l, n) = member_due x now s.table h.times m in
        let at_k : is_at k (some t) ≡ true = sym (ap (is_at k) e) ∙ sym (h.placed x k) ∙ n in
        absurd (late k l at_k b)
  ])
]
  where
    nowhere : member x [] ≡ true → ⊥
    nowhere m = unfold member in cc

    late : (k : ℕ) → k ≤ now → is_at k (some t) ≡ true → leb t now ≡ false → ⊥
    late k l m b = ground arith

-- When each event that is set is in the table at its time and only there: whatever is due when the
-- events are collected, a timed event whose time has come or an idle event that was set, waits in
-- a queue then, and is not set any more; a timed event for a later time stays set for it, and no
-- event leaves a queue.
pub collect-Due : (now : ℕ) (s : Scheduler) → Timely s → Due now s (collect now s)
collect-Due now s h = record {
  due = λ ev t e l.
      let b : leb t now ≡ true = ground arith in
      let d : member ev (due_events now s.table) ≡ true = due-Timely ev t now s h e ∙ b in
      (rw (in_queue-collect ev now s, d) refl, rw (whens-collect ev now s, d) refl);
  later = λ ev t e l.
      let b : leb t now ≡ false = ground arith in
      let d : member ev (due_events now s.table) ≡ false = due-Timely ev t now s h e ∙ b in
      (
        rw (whens-collect ev now s, d) e,
        ap (find t) (table-collect now s) ∙ find-left_over t now s.table l,
      );
  idle = λ ev m. rw (in_queue-collect ev now s, m) (ground arith);
  none_idle = none_left;
  kept = λ ev m. rw (in_queue-collect ev now s) (ground (arith, m));
}
  where
    none_left : (collect now s).idleness ≡ []
    none_left = unfold collect collect_idle in refl

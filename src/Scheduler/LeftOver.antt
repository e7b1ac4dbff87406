-- ===== src/Scheduler/LeftOver.antt =====
-- The timed events that are due, and those that are left.
use udptun.Prelude.{
  ℕ, ◌≤◌, ◌<◌, ◌≡◌, refl, sym, ap, ◌∙◌, true, false, ◌||◌, List, [], ◌∷◌, ◌++◌, none, some, arith,
  leb, ◌==◌, if◌then◌else◌, find, member, Bool-cases, inl, inr, ==_refl,
}
use udptun.Prelude.Sorted.{Ordered, find-Above}
use udptun.Scheduler.{Scheduler, set_or}
use udptun.Scheduler.Poll.{fire_timed, collect_timed}
use udptun.Scheduler.Enqueued.{in_queue, in_queue-fire_timed, whens-fire_timed}

-- The events of the times up to now, and the table without these times.
abbrev pub due_events : ℕ → List (ℕ × List ℕ) → List ℕ
due_events now [] = []
due_events now ((when, evs) ∷ table) =
    let rest = due_events now table in if leb when now then evs ++ rest else []

abbrev pub left_over : ℕ → List (ℕ × List ℕ) → List (ℕ × List ℕ)
left_over now [] = []
left_over now ((when, evs) ∷ table) =
    let rest = left_over now table in if leb when now then rest else (when, evs) ∷ table

member-append :
    (x : ℕ) (evs more : List ℕ) → member x (evs ++ more) ≡ (member x evs || member x more)
unfolding member
member-append x [] more = refl
member-append x (ev ∷ evs) more = ground (arith, member-append x evs more)

pub in_queue-collect_timed :
    (x now : ℕ) (table : List (ℕ × List ℕ)) (s : Scheduler)
    → in_queue x (collect_timed now table s) ≡ (member x (due_events now table) || in_queue x s)
unfolding collect_timed member
in_queue-collect_timed x now [] s = refl
in_queue-collect_timed x now ((when, evs) ∷ table) s = elim (Bool-cases (leb when now)) [
  | inl b ↦ rw b (
      in_queue-collect_timed x now table (fire_timed evs s)
      ∙ ground (arith, member-append x evs (due_events now table), in_queue-fire_timed x evs s))
  | inr b ↦ rw b refl
]

pub whens-collect_timed :
    (x now : ℕ) (table : List (ℕ × List ℕ)) (s : Scheduler)
    → find x (collect_timed now table s).whens
      ≡ (if member x (due_events now table) then none else find x s.whens)
unfolding collect_timed member
whens-collect_timed x now [] s = refl
whens-collect_timed x now ((when, evs) ∷ table) s = elim (Bool-cases (leb when now)) [
  | inl b ↦ rw b (
      whens-collect_timed x now table (fire_timed evs s)
      ∙ ground (arith, member-append x evs (due_events now table), whens-fire_timed x evs s))
  | inr b ↦ rw b refl
]

pub table-collect_timed :
    (now : ℕ) (table : List (ℕ × List ℕ)) (s : Scheduler)
    → (collect_timed now table s).table ≡ left_over now table
unfolding collect_timed
table-collect_timed now [] s = refl
table-collect_timed now ((when, evs) ∷ table) s = elim (Bool-cases (leb when now)) [
  | inl b ↦ rw b (table-collect_timed now table (fire_timed evs s))
  | inr b ↦ rw b refl
]

-- An event of a time up to now is due.
pub due_member :
    (x t now : ℕ) (evs : List ℕ) (table : List (ℕ × List ℕ))
    → Ordered table
    → find t table ≡ some evs
    → t ≤ now
    → member x evs ≡ true
    → member x (due_events now table) ≡ true
unfolding find
due_member x t now evs [] o f l m = cc
due_member x t now evs ((k, es) ∷ table) (a, o) f l m = elim (Bool-cases (k == t)) [
  | inl b ↦
      let found : some es ≡ some evs = rw b at f in
      let same : es ≡ evs = cc in
      let due : leb k now ≡ true = ground arith in
      rw due (ground (arith, member-append x es (due_events now table), ap (member x) same, m))
  | inr b ↦ elim (Bool-cases (leb k now)) [
    | inl c ↦ rw c (
        ground (
          arith,
          member-append x es (due_events now table),
          due_member x t now evs table o (rw b at f) l m,
        ))
    | inr c ↦
        let later : t ≤ k = ground arith in
        absurd (absent (sym (find-Above t k table later a) ∙ rw b at f))
  ]
]
  where
    absent : none ≡ some evs → ⊥
    absent h = cc

-- A due event is of a time up to now.
pub member_due :
    (x now : ℕ) (table : List (ℕ × List ℕ))
    → Ordered table
    → member x (due_events now table) ≡ true
    → (k : ℕ) × (k ≤ now) × (member x (set_or (find k table)) ≡ true)
unfolding find member
member_due x now [] o m = cc
member_due x now ((k, es) ∷ table) (a, o) m = elim (Bool-cases (leb k now)) [
  | inr b ↦ absurd (nothing (rw b at m))
  | inl b ↦
      let due : member x (es ++ due_events now table) ≡ true = rw b at m in
      let le : k ≤ now = ground arith in
      elim (Bool-cases (member x es)) [
        | inl c ↦ (k, le, rw (==_refl k) c)
        | inr c ↦
            let (j, l, n) =
              member_due x now table o
                (ground (arith, sym (member-append x es (due_events now table)) ∙ due, c)) in
            (
              j,
              l,
              elim (Bool-cases (k == j)) [
                | inl e ↦
                    let le_j : j ≤ k = ground arith in
                    absurd (nothing (rw (find-Above j k table le_j a) at n))
                | inr e ↦ rw e n
              ],
            )
      ]
]
  where
    nothing : false ≡ true → ⊥
    nothing h = cc

pub find-left_over :
    (t now : ℕ) (table : List (ℕ × List ℕ)) → now < t → find t (left_over now table) ≡ find t table
unfolding find
find-left_over t now [] l = refl
find-left_over t now ((k, es) ∷ table) l = elim (Bool-cases (leb k now)) [
  | inl b ↦
      let other : (k == t) ≡ false = ground arith in rw (b, other) (find-left_over t now table l)
  | inr b ↦ rw b refl
]

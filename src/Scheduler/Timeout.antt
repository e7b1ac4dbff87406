-- ===== src/Scheduler/Timeout.antt =====
-- How long `poll` may wait.
use udptun.Prelude.{
  ℕ, ◌+◌, ◌-◌, ◌⊎◌, ◌*◌, ◌/◌, ◌≤◌, ◌<◌, ◌≡◌, ◌≢◌, ◌↔◌, refl, sym, ap, ◌∙◌, true, false, List, [],
  ◌∷◌, Option, none, some, arith, Outcome, ok, fault, undefined, ltb, ◌==◌, find, Bool-cases,
  List-cases, inl, inr, min,
}
use udptun.Prelude.Sorted.{Above, Ordered, find-Above}
use udptun.Scheduler.{Scheduler, all_empty, drop_empty, timeout, int_max}

-- What is left when the leading entries that are empty are dropped, before an entry that is not.
abbrev Leads : ℕ → List ℕ → List (ℕ × List ℕ) → Type 0
Leads t es m =
    (k : ℕ) × (us : List ℕ) × (more : List (ℕ × List ℕ)) × (drop_empty m ≡ (k, us) ∷ more)
    × (k ≤ t)
    × (find t ((k, us) ∷ more) ≡ some es)

find_le :
    (t k : ℕ) (us es : List ℕ) (m : List (ℕ × List ℕ))
    → Above k m
    → find t ((k, us) ∷ m) ≡ some es
    → k ≤ t
unfolding find
find_le t k us es m a h = elim (Bool-cases (ltb t k)) [
  | inl b ↦
      let lt : t < k = ground arith in
      let e : (k == t) ≡ false = ground arith in
      absurd (no_value (sym (find-Above t k m (omega arith) a) ∙ rw e at h))
  | inr b ↦ ground arith
]
  where
    no_value : ◌≡◌ {A = Option (List ℕ)} none (some es) → ⊥
    no_value h = cc

drop_empty-Leads :
    (t e : ℕ) (es : List ℕ) (m : List (ℕ × List ℕ))
    → Ordered m
    → find t m ≡ some (e ∷ es)
    → Leads t (e ∷ es) m
unfolding find
drop_empty-Leads t e es [] o h = absurd (no_value h)
  where
    no_value : ◌≡◌ {A = Option (List ℕ)} none (some (e ∷ es)) → ⊥
    no_value h = cc
drop_empty-Leads t e es ((k, []) ∷ m) (a, o) h = elim (Bool-cases (k == t)) [
  | inl b ↦ absurd (no_event (rw b at h))
  | inr b ↦ drop_empty-Leads t e es m o (rw b at h)
]
  where
    no_event : ◌≡◌ {A = Option (List ℕ)} (some []) (some (e ∷ es)) → ⊥
    no_event h = cc
drop_empty-Leads t e es ((k, u ∷ us) ∷ m) (a, o) h =
    (k, u ∷ us, m, refl, find_le t k (u ∷ us) (e ∷ es) m a h, h)

timeout_busy :
    (now : ℕ) (s : Scheduler) → all_empty s.queues ≡ false → timeout now s ≡ ok (some 0, s)
unfolding timeout
timeout_busy now s b = ground arith

timeout_idle :
    (now i : ℕ) (is : List ℕ) (s : Scheduler)
    → all_empty s.queues ≡ true
    → s.idleness ≡ i ∷ is
    → timeout now s ≡ ok (some 0, s)
unfolding timeout
timeout_idle now i is s b e = ground arith

timeout_first :
    (now k : ℕ) (us : List ℕ) (more : List (ℕ × List ℕ)) (x : ℕ × List ℕ) (xs : List (ℕ × List ℕ))
    (s : Scheduler)
    → all_empty s.queues ≡ true
    → s.idleness ≡ []
    → s.table ≡ x ∷ xs
    → drop_empty s.table ≡ (k, us) ∷ more
    → timeout now s
      ≡ ok (some (min int_max ((k - now) / 1000000)), record s { table = (k, us) ∷ more })
unfolding timeout
timeout_first now k us more x xs s b e f g = ground arith

-- The first time that is left is one that an event is set for.
drop_empty-find :
    (k : ℕ) (us : List ℕ) (more m : List (ℕ × List ℕ))
    → Ordered m
    → drop_empty m ≡ (k, us) ∷ more
    → (e : ℕ) × (es : List ℕ) × (find k m ≡ some (e ∷ es))
unfolding find
drop_empty-find k us more [] o h = cc
drop_empty-find k us more ((j, []) ∷ m) (a, o) h =
    let (e, es, f) = drop_empty-find k us more m o h in
    elim (Bool-cases (j == k)) [
      | inl b ↦ let le : k ≤ j = ground arith in absurd (unset (sym (find-Above k j m le a) ∙ f))
      | inr b ↦ (e, es, rw b f)
    ]
  where
    unset : {w : List ℕ} → ◌≡◌ {A = Option (List ℕ)} none (some w) → ⊥
    unset h = cc
drop_empty-find k us more ((j, e ∷ es) ∷ m) (a, o) h =
    let same : j ≡ k = cc in let b : (j == k) ≡ true = ground arith in (e, es, rw b refl)

-- Why a wait is not longer: an event is queued or idle, it is as long as it can be, or a timed event
-- is due less than a millisecond after it.
abbrev pub Needed : ℕ → Scheduler → ℕ → Type 0
Needed now s d =
    (all_empty s.queues ≡ false)
    ⊎ (s.idleness ≢ [])
    ⊎ (d ≡ int_max)
    ⊎ ((k : ℕ) × (e : ℕ) × (es : List ℕ) × (find k s.table ≡ some (e ∷ es))
        × (k - now < (d + 1) * 1000000))

-- When the table is in the order of its times and an event is set for a time, the scheduler waits
-- for no longer than until then, and the event is still set. It does not wait for less than it
-- needs to either: unless an event is queued or idle, it waits for as long as it can, or some
-- event is set for a time less than a millisecond after the wait.
pub timeout-in_time :
    (now t e : ℕ) (es : List ℕ) (s : Scheduler)
    → Ordered s.table
    → find t s.table ≡ some (e ∷ es)
    → (d : ℕ) × (s' : Scheduler) × (timeout now s ≡ ok (some d, s'))
      × (d * 1000000 ≤ t - now)
      × Needed now s d
      × (find t s'.table ≡ some (e ∷ es))
timeout-in_time now t e es s o h = elim (Bool-cases (all_empty s.queues)) [
  | inr b ↦ (0, s, timeout_busy now s b, omega arith, inl b, h)
  | inl b ↦ elim (List-cases s.idleness) [
    | inr (i, more, f) ↦
        (0, s, timeout_idle now i more s b f, omega arith, inr (inl (λ z. no_entry (sym z ∙ f))), h)
    | inl f ↦
        let (k, us, more, g, le, found) = drop_empty-Leads t e es s.table o h in
        elim (List-cases s.table) [
          | inr (x, xs, l) ↦ (
            _,
            _,
            timeout_first now k us more x xs s b f l g,
            omega arith,
            inr (inr (first_needed k us more g)),
            found,
          )
          | inl l ↦ absurd (no_entry (sym (ap drop_empty l) ∙ g))
        ]
  ]
]
  where
    no_entry : {A : Type 0} {x : A} {xs : List A} → ◌≡◌ {A = List A} [] (x ∷ xs) → ⊥
    no_entry h = cc

    first_needed :
        (k : ℕ) (us : List ℕ) (more : List (ℕ × List ℕ))
        → drop_empty s.table ≡ (k, us) ∷ more
        → (min int_max ((k - now) / 1000000) ≡ int_max)
          ⊎ ((k' : ℕ) × (e' : ℕ) × (es' : List ℕ) × (find k' s.table ≡ some (e' ∷ es'))
              × (k' - now < (min int_max ((k - now) / 1000000) + 1) * 1000000))
    first_needed k us more g = elim (Bool-cases (ltb int_max ((k - now) / 1000000))) [
      | inl b ↦ inl (ground arith)
      | inr b ↦
          let (e', es', f) = drop_empty-find k us more s.table o g in
          inr (k, e', es', f, ground arith)
    ]

timeout_none :
    (now : ℕ) (x : ℕ × List ℕ) (xs : List (ℕ × List ℕ)) (s : Scheduler)
    → all_empty s.queues ≡ true
    → s.idleness ≡ []
    → s.table ≡ x ∷ xs
    → drop_empty s.table ≡ []
    → timeout now s ≡ fault undefined
unfolding timeout
timeout_none now x xs s q i t d = ground arith

-- Nothing is queued or idle, and the table has entries, but none of them has an event.
abbrev pub Exhausted : Scheduler → Type 0
Exhausted s =
    (all_empty s.queues ≡ true) × (s.idleness ≡ []) × (s.table ≢ []) × (all_empty s.table ≡ true)

drop_empty-nil : (m : List (ℕ × List ℕ)) → all_empty m ≡ true → drop_empty m ≡ []
drop_empty-nil [] h = refl
drop_empty-nil ((k, []) ∷ m) h = drop_empty-nil m h
drop_empty-nil ((k, e ∷ es) ∷ m) h = cc

all_empty-nil : (m : List (ℕ × List ℕ)) → drop_empty m ≡ [] → all_empty m ≡ true
all_empty-nil [] h = refl
all_empty-nil ((k, []) ∷ m) h = all_empty-nil m h
all_empty-nil ((k, e ∷ es) ∷ m) h = cc

timeout_faults : (now : ℕ) (s : Scheduler) → Exhausted s → timeout now s ≡ fault undefined
timeout_faults now s (q, i, t, e) = elim (List-cases s.table) [
  | inl l ↦ absurd (t l)
  | inr (x, xs, l) ↦ timeout_none now x xs s q i l (drop_empty-nil s.table e)
]

timeout_unset :
    (now : ℕ) (s : Scheduler)
    → all_empty s.queues ≡ true
    → s.idleness ≡ []
    → s.table ≡ []
    → timeout now s ≡ ok (none, s)
unfolding timeout
timeout_unset now s q i t = ground arith

returned :
    (o : Outcome (Option ℕ × Scheduler)) (r : Option ℕ × Scheduler)
    → o ≡ ok r
    → o ≡ fault undefined
    → ⊥
returned o r e h = cc

timeout_faulted : (now : ℕ) (s : Scheduler) → timeout now s ≡ fault undefined → Exhausted s
timeout_faulted now s h = elim (Bool-cases (all_empty s.queues)) [
  | inr b ↦ absurd (returned _ _ (timeout_busy now s b) h)
  | inl b ↦ elim (List-cases s.idleness) [
    | inr (i, more, f) ↦ absurd (returned _ _ (timeout_idle now i more s b f) h)
    | inl f ↦ elim (List-cases s.table) [
      | inl l ↦ absurd (returned _ _ (timeout_unset now s b f l) h)
      | inr (x, xs, l) ↦ elim (List-cases (drop_empty s.table)) [
        | inr ((k, us), more, g) ↦
            absurd (returned _ _ (timeout_first now k us more x xs s b f l g) h)
        | inl g ↦ (b, f, λ e. cc, all_empty-nil s.table g)
      ]
    ]
  ]
]

-- `timeout` uses the entry at the end of the table, which is undefined, exactly when no event is
-- queued or idle, and the table has entries, of which none has an event, as when all the events
-- that were set have been cancelled.
pub timeout-Exhausted : (now : ℕ) (s : Scheduler) → (timeout now s ≡ fault undefined) ↔ Exhausted s
timeout-Exhausted now s = (timeout_faulted now s, timeout_faults now s)

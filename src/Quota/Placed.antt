-- ===== src/Quota/Placed.antt =====
-- A user in the age sequence of a quota, and the maps that change with it.
use udptun.Prelude.{
  ℕ, ◌≡◌, refl, sym, ap, ◌∙◌, Bool, true, false, not, ◌&&◌, List, [], ◌∷◌, Option, none, some,
  arith, ◌==◌, if◌then◌else◌, find, put, member, insert, remove, find-put, find-erase,
  member-insert, member-remove, Bool-cases, Option-cases, inl, inr,
}
use udptun.Quota.{Quota, user_data, is_empty, shrink, erase_from_sequence, insert_into_sequence}

abbrev in_set : ℕ → Option (List ℕ) → Bool
in_set u none = false
in_set u (some us) = member u us

-- Whether the sequence has the user at this age.
abbrev pub has : ℕ → ℕ → List (ℕ × List ℕ) → Bool
has u when ages = in_set u (find when ages)

-- A user is in the sequence at its age, if it has one, and only there.
abbrev pub Placed : Quota → Type 0
Placed q =
    (u when : ℕ)
    → has u when q.ages ≡ (not (when == 0) && ((user_data (find u q.users)).age == when))

is_empty-member : (u : ℕ) (us : List ℕ) → is_empty us ≡ true → member u us ≡ false
unfolding member
is_empty-member u [] e = refl
is_empty-member u (x ∷ xs) e = absurd (true_false e)
  where
    true_false : ◌≡◌ {A = Bool} false true → ⊥
    true_false h = cc

has-shrink :
    (u w when : ℕ) (left : List ℕ) (ages : List (ℕ × List ℕ))
    → has u w (shrink when left ages) ≡ (if when == w then member u left else has u w ages)
has-shrink u w when left ages = elim (Bool-cases (is_empty left)) [
  | inl e ↦ let z = is_empty-member u left e in rw e (ground (arith, find-erase w when ages, z))
  | inr e ↦ rw e (ground (arith, find-put w when left ages))
]

erase_zero :
    (user when : ℕ) (ages : List (ℕ × List ℕ))
    → (when == 0) ≡ true
    → erase_from_sequence user when ages ≡ ages
unfolding erase_from_sequence
erase_zero user when ages z = ground arith

erase_none :
    (user when : ℕ) (ages : List (ℕ × List ℕ))
    → find when ages ≡ none
    → erase_from_sequence user when ages ≡ ages
unfolding erase_from_sequence
erase_none user when ages e = ground arith

erase_other :
    (user when : ℕ) (ages : List (ℕ × List ℕ)) (us : List ℕ)
    → find when ages ≡ some us
    → member user us ≡ false
    → erase_from_sequence user when ages ≡ ages
unfolding erase_from_sequence
erase_other user when ages us e m = ground arith

erase_member :
    (user when : ℕ) (ages : List (ℕ × List ℕ)) (us : List ℕ)
    → (when == 0) ≡ false
    → find when ages ≡ some us
    → member user us ≡ true
    → erase_from_sequence user when ages ≡ shrink when (remove user us) ages
unfolding erase_from_sequence
erase_member user when ages us z e m = rw (z, e, m) refl

has_at :
    (u w when : ℕ) (ages : List (ℕ × List ℕ)) (o : Option (List ℕ))
    → find when ages ≡ o
    → (when == w) ≡ true
    → has u w ages ≡ in_set u o
has_at u w when ages o e b =
    let same : when ≡ w = ground arith in ap (in_set u) (ap (λ x. find x ages) (sym same) ∙ e)

-- `has`, by the user and the age that are taken out.
abbrev taken_out : ℕ → ℕ → ℕ → ℕ → Bool → Bool
taken_out u w user when was = if not (when == 0) && ((user == u) && (when == w)) then false else was

member_other :
    (u user : ℕ) (us : List ℕ)
    → member user us ≡ false
    → member u us ≡ (if (user == u) && true then false else member u us)
member_other u user us m = elim (Bool-cases (user == u)) [
  | inl b ↦ let same : user ≡ u = ground arith in rw b (ap (λ x. member x us) (sym same) ∙ m)
  | inr b ↦ rw b refl
]

pub has-erase :
    (u w user when : ℕ) (ages : List (ℕ × List ℕ))
    → has u w (erase_from_sequence user when ages) ≡ taken_out u w user when (has u w ages)
has-erase u w user when ages = elim (Bool-cases (when == 0)) [
  | inl z ↦ rw (erase_zero user when ages z, z) refl
  | inr z ↦ elim (Option-cases (find when ages)) [
    | inl e ↦
        rw (erase_none user when ages e, z)
          (elim (Bool-cases (when == w)) [
            | inl b ↦ rw (has_at u w when ages none e b, b) ground arith
            | inr b ↦ rw b ground arith
          ])
    | inr (us, e) ↦ elim (Bool-cases (member user us)) [
      | inl m ↦
          rw (erase_member user when ages us z e m, has-shrink, member-remove, z)
            (elim (Bool-cases (when == w)) [
              | inl b ↦ rw (has_at u w when ages (some us) e b, b) ground arith
              | inr b ↦ rw b ground arith
            ])
      | inr m ↦
          rw (erase_other user when ages us e m, z)
            (elim (Bool-cases (when == w)) [
              | inl b ↦ rw (has_at u w when ages (some us) e b, b) (member_other u user us m)
              | inr b ↦ rw b ground arith
            ])
    ]
  ]
]

insert-none :
    (user when : ℕ) (ages : List (ℕ × List ℕ))
    → find when ages ≡ none
    → insert_into_sequence user when ages ≡ put when (insert user []) ages
unfolding insert_into_sequence
insert-none user when ages e = ground arith

insert-some :
    (user when : ℕ) (ages : List (ℕ × List ℕ)) (us : List ℕ)
    → find when ages ≡ some us
    → insert_into_sequence user when ages ≡ put when (insert user us) ages
unfolding insert_into_sequence
insert-some user when ages us e = ground arith

has-put :
    (u w when : ℕ) (us : List ℕ) (ages : List (ℕ × List ℕ))
    → has u w (put when us ages) ≡ (if when == w then member u us else has u w ages)
has-put u w when us ages = ground (arith, find-put w when us ages)

member-nil : (u : ℕ) → member u [] ≡ false
unfolding member
member-nil u = refl

pub has-insert :
    (u w user when : ℕ) (ages : List (ℕ × List ℕ))
    → has u w (insert_into_sequence user when ages)
      ≡ (if (user == u) && (when == w) then true else has u w ages)
has-insert u w user when ages = elim (Option-cases (find when ages)) [
  | inl e ↦
      rw (insert-none user when ages e, has-put, member-insert, member-nil u)
        (elim (Bool-cases (when == w)) [
          | inl b ↦ rw (has_at u w when ages none e b, b) ground arith
          | inr b ↦ rw b ground arith
        ])
  | inr (us, e) ↦
      rw (insert-some user when ages us e, has-put, member-insert)
        (elim (Bool-cases (when == w)) [
          | inl b ↦ rw (has_at u w when ages (some us) e b, b) ground arith
          | inr b ↦ rw b ground arith
        ])
]

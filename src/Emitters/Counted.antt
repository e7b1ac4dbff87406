-- ===== src/Emitters/Counted.antt =====
-- How many of the required destinations an address serves, and the entries that `count_all` makes.
use mathlib.Core.List.{Memᴰ}
use udptun.Prelude.{
  ℕ, suc, ◌≡◌, refl, sym, ap, subst, ◌∙◌, ◌⊎◌, Bool, false, ◌||◌, ◌&&◌, List, [], ◌∷◌, none, some,
  arith, Outcome, Fault, ok, fault, ◌==◌, if◌then◌else◌, find, Bool-cases, Option-cases,
  Outcome-cases, inl, inr,
}
use udptun.Destinations.{AddrInfo, Destination, Store, check, check_at, find_option, is_some}
use udptun.Prelude.Members.{mem_uncons}
use udptun.Emitters.{count_required, count_all}

-- Whether a destination has a socket address of the family and protocol of the address.
abbrev pub offers : AddrInfo → List AddrInfo → Bool
offers ai [] = false
offers ai (o ∷ os) = (o.family == ai.family) && (o.protocol == ai.protocol) || offers ai os

abbrev pub serves : Store → AddrInfo → ℕ → Bool
serves store ai ptr = elim (find ptr store) [ none ↦ false | some d ↦ offers ai d.options ]

-- How many of the destinations it serves.
abbrev pub served : Store → AddrInfo → List ℕ → ℕ
served store ai [] = 0
served store ai (ptr ∷ required) =
    if serves store ai ptr then suc (served store ai required) else served store ai required

find_option-offers :
    (ai : AddrInfo) (os : List AddrInfo)
    → is_some (find_option ai.family ai.protocol os) ≡ offers ai os
unfolding find_option
find_option-offers ai [] = refl
find_option-offers ai (o ∷ os) = ground (arith, find_option-offers ai os)

check-offers :
    (ai : AddrInfo) (d : Destination) (b : Bool)
    → check ai.family ai.protocol d ≡ ok b
    → b ≡ offers ai d.options
unfolding check
check-offers ai d b e = ground (arith, find_option-offers ai d.options)

check_at-serves :
    (store : Store) (ai : AddrInfo) (ptr : ℕ) (b : Bool)
    → check_at ai.family ai.protocol store ptr ≡ ok b
    → b ≡ serves store ai ptr
unfolding check_at
check_at-serves store ai ptr b e = elim (Option-cases (find ptr store)) [
  | inl f ↦ ground arith
  | inr (d, f) ↦ rw (f, serves) (check-offers ai d b (rw (f, check_at) at e))
]

count_required-served :
    (store : Store) (ai : AddrInfo) (required : List ℕ) (n : ℕ)
    → count_required store ai required ≡ ok n
    → n ≡ served store ai required
unfolding count_required
count_required-served store ai [] n e = ground arith
count_required-served store ai (ptr ∷ required) n e =
    elim (Outcome-cases (check_at ai.family ai.protocol store ptr)) [
      | inl (x, f) ↦ absurd (threw (rw (f, count_required) at e))
      | inr (b, f) ↦ elim (Outcome-cases (count_required store ai required)) [
        | inl (x, g) ↦ absurd (threw (rw (f, count_required, g) at e))
        | inr (m, g) ↦
            let k = check_at-serves store ai ptr b f in
            let l = count_required-served store ai required m g in
            let same : ok (if b then suc m else m) ≡ ok n = rw (f, count_required, g) at e in
            let is_n : (if b then suc m else m) ≡ n = cc in
            sym is_n
            ∙ ap (λ x. if b then suc x else x) l
            ∙ ap (λ x. if x then suc (served store ai required) else served store ai required) k
      ]
    ]
  where
    threw : {x : Fault} → ◌≡◌ {A = Outcome ℕ} (fault x) (ok n) → ⊥
    threw h = cc

-- An entry for each address that serves some destination, with how many.
pub record Counted (store : Store) (required : List ℕ) (infos : List AddrInfo)
    (counters : List (AddrInfo × ℕ)) : Type 0 where
  pub entry :
      (ai : AddrInfo) (n : ℕ)
      → Memᴰ (ai, n) counters
      → Memᴰ ai infos × (n ≡ served store ai required) × ((n == 0) ≡ false)
  pub all :
      (ai : AddrInfo)
      → Memᴰ ai infos
      → (served store ai required ≡ 0) ⊎ Memᴰ (ai, served store ai required) counters

Counted-nil : (store : Store) (required : List ℕ) → Counted store required [] []
Counted-nil store required = record { entry = λ ai n m. elim m [ ]; all = λ ai m. elim m [ ] }

Counted-skip :
    (store : Store) (required : List ℕ) (ai : AddrInfo) (infos : List AddrInfo)
    (counters : List (AddrInfo × ℕ))
    → served store ai required ≡ 0
    → Counted store required infos counters
    → Counted store required (ai ∷ infos) counters
Counted-skip store required ai infos counters z c = record {
  entry = λ x n m. let (i, e, p) = c.entry x n m in (Memᴰ.tail i, e, p);
  all = λ x m. elim (mem_uncons m) [
    | inl same ↦ inl (ap (λ y. served store y required) same ∙ z)
    | inr t ↦ c.all x t
  ];
}

Counted-take :
    (store : Store) (required : List ℕ) (ai : AddrInfo) (n : ℕ) (infos : List AddrInfo)
    (counters : List (AddrInfo × ℕ))
    → n ≡ served store ai required
    → (n == 0) ≡ false
    → Counted store required infos counters
    → Counted store required (ai ∷ infos) ((ai, n) ∷ counters)
Counted-take store required ai n infos counters s p c = record {
  entry = λ x k m. elim (mem_uncons m) [
    | inl same ↦
        let is_ai : x ≡ ai = ap (λ q. q.0) same in
        let is_n : k ≡ n = ap (λ q. q.1) same in
        (
          Memᴰ.head is_ai,
          is_n ∙ s ∙ ap (λ y. served store y required) (sym is_ai),
          ap (λ y. y == 0) is_n ∙ p,
        )
    | inr t ↦ let (i, e, q) = c.entry x k t in (Memᴰ.tail i, e, q)
  ];
  all = λ x m. elim (mem_uncons m) [
    | inl same ↦
        inr (Memᴰ.head (ap (λ y. (y, served store y required)) same ∙ ap (λ j. (ai, j)) (sym s)))
    | inr t ↦ elim (c.all x t) [ inl z ↦ inl z | inr u ↦ inr (Memᴰ.tail u) ]
  ];
}

pub count_all-Counted :
    (store : Store) (required : List ℕ) (infos : List AddrInfo) (counters : List (AddrInfo × ℕ))
    → count_all store required infos ≡ ok counters
    → Counted store required infos counters
unfolding count_all
count_all-Counted store required [] counters e =
    let same : [] ≡ counters = cc in
    subst (Counted store required []) same (Counted-nil store required)
count_all-Counted store required (ai ∷ infos) counters e =
    elim (Outcome-cases (count_required store ai required)) [
      | inl (x, f) ↦ absurd (threw (rw (f, count_all) at e))
      | inr (n, f) ↦ elim (Outcome-cases (count_all store required infos)) [
        | inl (x, g) ↦ absurd (threw (rw (f, count_all, g) at e))
        | inr (rest, g) ↦
            let c = count_all-Counted store required infos rest g in
            let s = count_required-served store ai required n f in
            elim (Bool-cases (n == 0)) [
              | inl z ↦
                  let same : ok rest ≡ ok counters = rw (f, count_all, g, z) at e in
                  let is_rest : rest ≡ counters = cc in
                  let none_served : served store ai required ≡ 0 = ground arith in
                  subst (Counted store required (ai ∷ infos)) is_rest
                    (Counted-skip store required ai infos rest none_served c)
              | inr z ↦
                  let same : ok ((ai, n) ∷ rest) ≡ ok counters = rw (f, count_all, g, z) at e in
                  let is_more : (ai, n) ∷ rest ≡ counters = cc in
                  subst (Counted store required (ai ∷ infos)) is_more
                    (Counted-take store required ai n infos rest s z c)
            ]
      ]
    ]
  where
    threw : {x : Fault} → ◌≡◌ {A = Outcome (List (AddrInfo × ℕ))} (fault x) (ok counters) → ⊥
    threw h = cc

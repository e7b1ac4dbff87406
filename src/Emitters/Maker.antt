-- ===== src/Emitters/Maker.antt =====
-- What `EmitterMaker` chooses and matches, once the required destinations are activated.
use udptun.Prelude.{
  ℕ, suc, ◌≡◌, refl, sym, ap, subst, ◌∙◌, Bool, true, List, [], ◌∷◌, none, some, arith, Outcome, ok,
  fault, thrown, ◌==◌, if◌then◌else◌, find, insert, member, member-insert, Bool-cases, Option-cases,
  inl, inr,
}
use udptun.Destinations.{AddrInfo, Destination, Store, check, check_at, find_option, is_some}
use udptun.Emitters.{
  World, EmitterMaker, count_required, count_all, choose, sort_counts, match_required, take_best,
  make_maker,
}

-- The destination exists and has been activated.
abbrev pub IsActive : Store → ℕ → Type 0
IsActive store ptr = (d : Destination) × (find ptr store ≡ some d) × (d.activated ≡ true)

abbrev pub AllActive : Store → List ℕ → Type 0
AllActive store [] = Unit {0}
AllActive store (ptr ∷ ptrs) = IsActive store ptr × AllActive store ptrs

check_active :
    (family protocol : ℕ) (d : Destination)
    → d.activated ≡ true
    → check family protocol d ≡ ok (is_some (find_option family protocol d.options))
unfolding check
check_active family protocol d a = ground arith

pub check_at_found :
    (family protocol ptr : ℕ) (store : Store) (d : Destination)
    → find ptr store ≡ some d
    → check_at family protocol store ptr ≡ check family protocol d
unfolding check_at
check_at_found family protocol ptr store d e = ground arith

-- An activated destination can be checked.
pub check_at-active :
    (family protocol : ℕ) (store : Store) (ptr : ℕ)
    → IsActive store ptr
    → (b : Bool) × (check_at family protocol store ptr ≡ ok b)
check_at-active family protocol store ptr (d, e, a) = (
  is_some (find_option family protocol d.options),
  check_at_found family protocol ptr store d e ∙ check_active family protocol d a,
)

count_required-ok :
    (store : Store) (ai : AddrInfo) (required : List ℕ)
    → AllActive store required
    → (n : ℕ) × (count_required store ai required ≡ ok n)
unfolding count_required
count_required-ok store ai [] a = (0, refl)
count_required-ok store ai (ptr ∷ required) a =
    let (b, e) = check_at-active ai.family ai.protocol store ptr a.0 in
    let (n, f) = count_required-ok store ai required a.1 in (if b then suc n else n, rw (e, f) refl)

pub count_all-ok :
    (store : Store) (required : List ℕ) (infos : List AddrInfo)
    → AllActive store required
    → (counters : List (AddrInfo × ℕ)) × (count_all store required infos ≡ ok counters)
unfolding count_all
count_all-ok store required [] a = ([], refl)
count_all-ok store required (ai ∷ infos) a =
    let (n, e) = count_required-ok store ai required a in
    let (rest, f) = count_all-ok store required infos a in
    (if n == 0 then rest else (ai, n) ∷ rest, rw (e, f) refl)

-- The matched destinations are those required that the address is good for.
pub record Matched (store : Store) (ai : AddrInfo) (required matched : List ℕ) : Type 0 where
  pub asked : (ptr : ℕ) → member ptr matched ≡ true → member ptr required ≡ true
  pub fits :
      (ptr : ℕ) → member ptr matched ≡ true → check_at ai.family ai.protocol store ptr ≡ ok true

member-cons :
    (q ptr : ℕ) (s : List ℕ) → member q (ptr ∷ s) ≡ (if ptr == q then true else member q s)
unfolding member
member-cons q ptr s = refl

Matched-skip :
    (store : Store) (ai : AddrInfo) (ptr : ℕ) (required matched : List ℕ)
    → Matched store ai required matched
    → Matched store ai (ptr ∷ required) matched
Matched-skip store ai ptr required matched m = record {
  asked = λ q h. ground (arith, member-cons q ptr required, m.asked q h);
  fits = m.fits;
}

Matched-add :
    (store : Store) (ai : AddrInfo) (ptr : ℕ) (required matched : List ℕ)
    → check_at ai.family ai.protocol store ptr ≡ ok true
    → Matched store ai required matched
    → Matched store ai (ptr ∷ required) (insert ptr matched)
Matched-add store ai ptr required matched c m = record {
  asked = λ q h. elim (Bool-cases (ptr == q)) [
    | inl b ↦ rw (member-cons q ptr required, b) refl
    | inr b ↦
        rw (member-cons q ptr required, b) (m.asked q (rw (member-insert q ptr matched, b) at h))
  ];
  fits = λ q h. elim (Bool-cases (ptr == q)) [
    | inl b ↦ let same : ptr ≡ q = ground arith in rw (sym same) c
    | inr b ↦ m.fits q (rw (member-insert q ptr matched, b) at h)
  ];
}

match_required-Matched :
    (store : Store) (ai : AddrInfo) (required : List ℕ)
    → AllActive store required
    → (matched : List ℕ) × (match_required store ai required ≡ ok matched)
      × Matched store ai required matched
unfolding match_required
match_required-Matched store ai [] a =
    ([], refl, record { asked = λ ptr h. h; fits = λ ptr h. absurd (no_member ptr h) })
  where
    no_member : (ptr : ℕ) → member ptr [] ≡ true → ⊥
    no_member ptr h = unfold member in cc
match_required-Matched store ai (ptr ∷ required) a =
    let (b, e) = check_at-active ai.family ai.protocol store ptr a.0 in
    let (rest, f, m) = match_required-Matched store ai required a.1 in
    elim (Bool-cases b) [
      | inl t ↦ (
        insert ptr rest,
        rw (e, f, t) refl,
        Matched-add store ai ptr required rest (e ∙ ap ok t) m,
      )
      | inr t ↦ (rest, rw (e, f, t) refl, Matched-skip store ai ptr required rest m)
    ]

-- A maker that matches a destination has a bound socket, and what it matches fits its address.
pub record Chosen (store : Store) (required : List ℕ) (mkr : EmitterMaker) (ai : AddrInfo) (fd : ℕ)
    : Type 0 where
  pub is_chosen : mkr.chosen ≡ some (ai, fd)
  pub matched : Matched store ai required mkr.matched

-- How the constructor of a maker ends: with an exception of `get_address_info`, with nothing matched,
-- or with a socket.
pub data MadeMaker (world : World) (store : Store) (required : List ℕ) (o : Outcome EmitterMaker)
    : Type 0 where
  threw : o ≡ fault thrown → MadeMaker world store required o
  unmatched :
      (mkr : EmitterMaker) → o ≡ ok mkr → mkr.matched ≡ [] → MadeMaker world store required o
  matching :
      (mkr : EmitterMaker) (ai : AddrInfo) (fd : ℕ)
      → o ≡ ok mkr
      → Chosen store required mkr ai fd
      → MadeMaker world store required o

make_maker-none :
    (world : World) (store : Store) (required : List ℕ)
    → world.infos ≡ none
    → make_maker world store required ≡ fault thrown
unfolding make_maker
make_maker-none world store required e = ground arith

make_maker-some :
    (world : World) (store : Store) (required : List ℕ) (infos : List AddrInfo)
    (counters : List (AddrInfo × ℕ))
    → world.infos ≡ some infos
    → count_all store required infos ≡ ok counters
    → make_maker world store required ≡ take_best world store required (sort_counts counters)
unfolding make_maker
make_maker-some world store required infos counters e f = ground arith

take_best-none :
    (world : World) (store : Store) (required : List ℕ) (seq : List (AddrInfo × ℕ))
    → choose world seq ≡ none
    → take_best world store required seq ≡ ok (record { chosen = none; matched = [] })
unfolding take_best
take_best-none world store required seq e = ground arith

take_best-some :
    (world : World) (store : Store) (required matched : List ℕ) (seq : List (AddrInfo × ℕ))
    (best : AddrInfo × ℕ)
    → choose world seq ≡ some best
    → match_required store best.0 required ≡ ok matched
    → take_best world store required seq ≡ ok (record { chosen = some best; matched = matched })
unfolding take_best
take_best-some world store required matched seq best e f = ground arith

take_best-MadeMaker :
    (world : World) (store : Store) (required : List ℕ) (seq : List (AddrInfo × ℕ))
    → AllActive store required
    → MadeMaker world store required (take_best world store required seq)
take_best-MadeMaker world store required seq a = elim (Option-cases (choose world seq)) [
  | inl g ↦
      unmatched (record { chosen = none; matched = [] }) (take_best-none world store required seq g)
        refl
  | inr ((ai, fd), g) ↦
      let (matched, h, m) = match_required-Matched store ai required a in
      matching (record { chosen = some (ai, fd); matched = matched }) ai fd
        (take_best-some world store required matched seq (ai, fd) g h)
        (record { is_chosen = refl; matched = m })
]

pub make_maker-MadeMaker :
    (world : World) (store : Store) (required : List ℕ)
    → AllActive store required
    → MadeMaker world store required (make_maker world store required)
make_maker-MadeMaker world store required a = elim (Option-cases world.infos) [
  | inl e ↦ threw (make_maker-none world store required e)
  | inr (infos, e) ↦
      let (counters, f) = count_all-ok store required infos a in
      subst (MadeMaker world store required)
        (sym (make_maker-some world store required infos counters e f))
        (take_best-MadeMaker world store required (sort_counts counters) a)
]

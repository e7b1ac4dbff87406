-- ===== src/Destinations/Bank/Names.antt =====
-- Which names a loaded bank has.
use udptun.Prelude.{
  ℕ, suc, ◌≡◌, refl, sym, ap, Bool, false, ◌||◌, List, [], ◌∷◌, Option, Outcome, Fault, ok, fault,
  thrown, ◌==◌, find, put, insert, find-put, arith, Option-cases, Outcome-cases, inl, inr,
}
use udptun.Destinations.{Config, Store, new_destination, is_some}
use udptun.Destinations.Bank.{
  Bank, load_singletons, set_at, insert_at, add_singletons, add_members, add_groups, load,
}

abbrev pub in_singletons : ℕ → List (ℕ × Option Config) → Bool
in_singletons name [] = false
in_singletons name ((key, cfg) ∷ rest) = (key == name) || in_singletons name rest

abbrev pub in_members : ℕ → ℕ → List ℕ → Bool
in_members name key [] = false
in_members name key (n ∷ ns) = (key == name) || in_members name key ns

-- A group without members gives no name.
abbrev pub in_groups : ℕ → List (ℕ × List ℕ) → Bool
in_groups name [] = false
in_groups name ((key, names) ∷ rest) = in_members name key names || in_groups name rest

abbrev pub is_configured : ℕ → List (ℕ × Option Config) → List (ℕ × List ℕ) → Bool
is_configured name singletons groups = in_singletons name singletons || in_groups name groups

abbrev has {ℓ} : {V : Type ℓ} → ℕ → List (ℕ × V) → Bool
has name m = is_some (find name m)

has-put {ℓ} :
    {V : Type ℓ} (name key : ℕ) (v : V) (m : List (ℕ × V))
    → has name (put key v m) ≡ ((key == name) || has name m)
has-put name key v m = rw (find-put name key v m) (ground arith)

abbrev listed : ℕ → List (ℕ × ℕ) → Bool
listed name [] = false
listed name ((key, ptr) ∷ rest) = (key == name) || listed name rest

listed-put :
    (name key v : ℕ) (m : List (ℕ × ℕ))
    → listed name (put key v m) ≡ ((key == name) || listed name m)
unfolding put
listed-put name key v [] = refl
listed-put name key v ((k, w) ∷ m) = ground (arith, listed-put name key v m)

has-add_singletons :
    (name : ℕ) (t : List (ℕ × ℕ)) (tab : Bank)
    → has name (add_singletons t tab) ≡ (listed name t || has name tab)
unfolding add_singletons insert_at
has-add_singletons name [] tab = refl
has-add_singletons name ((key, ptr) ∷ t) tab = ground (
  arith,
  has-add_singletons name t (insert_at key ptr tab),
  has-put name key (insert ptr (set_at key tab)) tab,
)

has-insert_at :
    (name key ptr : ℕ) (tab : Bank)
    → has name (insert_at key ptr tab) ≡ ((key == name) || has name tab)
unfolding insert_at
has-insert_at name key ptr tab = has-put name key (insert ptr (set_at key tab)) tab

has-add_members :
    (name key : ℕ) (names : List ℕ) (t : List (ℕ × ℕ)) (tab tab' : Bank)
    → add_members key names t tab ≡ ok tab'
    → has name tab' ≡ (in_members name key names || has name tab)
unfolding add_members
has-add_members name key [] t tab tab' e = ap (has name) (sym (cc))
has-add_members name key (n ∷ ns) t tab tab' e = elim (Option-cases (find n t)) [
  | inl f ↦ absurd (no_bank (rw (f, add_members) at e))
  | inr (ptr, f) ↦
      let ih : has name tab' ≡ (in_members name key ns || has name (insert_at key ptr tab)) =
        has-add_members name key ns t (insert_at key ptr tab) tab' (rw (f, add_members) at e) in
      ground (arith, ih, has-insert_at name key ptr tab)
]
  where
    no_bank : ◌≡◌ {A = Outcome Bank} (fault thrown) (ok tab') → ⊥
    no_bank h = cc

has-add_groups :
    (name : ℕ) (groups : List (ℕ × List ℕ)) (t : List (ℕ × ℕ)) (tab tab' : Bank)
    → add_groups groups t tab ≡ ok tab'
    → has name tab' ≡ (in_groups name groups || has name tab)
unfolding add_groups
has-add_groups name [] t tab tab' e = ap (has name) (sym (cc))
has-add_groups name ((key, names) ∷ rest) t tab tab' e =
    elim (Outcome-cases (add_members key names t tab)) [
      | inl (x, f) ↦ absurd (no_bank (rw f at e))
      | inr (mid, f) ↦
          let ih : has name tab' ≡ (in_groups name rest || has name mid) =
            has-add_groups name rest t mid tab' (rw f at e) in
          ground (arith, ih, has-add_members name key names t tab mid f)
    ]
  where
    no_bank : {x : Fault} → ◌≡◌ {A = Outcome Bank} (fault x) (ok tab') → ⊥
    no_bank h = cc

listed-load_singletons :
    (name next : ℕ) (singletons : List (ℕ × Option Config)) (t t' : List (ℕ × ℕ))
    (store store' : Store)
    → load_singletons next singletons t store ≡ ok (t', store')
    → listed name t' ≡ (in_singletons name singletons || listed name t)
unfolding load_singletons
listed-load_singletons name next [] t t' store store' e = ap (listed name) (sym (cc))
listed-load_singletons name next ((key, cfg) ∷ rest) t t' store store' e =
    elim (Outcome-cases (new_destination cfg)) [
      | inl (x, f) ↦ absurd (no_store (rw f at e))
      | inr (d, f) ↦
          let ih : listed name t' ≡ (in_singletons name rest || listed name (put key next t)) =
            listed-load_singletons name (suc next) rest (put key next t) t' (put next d store)
              store' (rw f at e) in
          ground (arith, ih, listed-put name key next t)
    ]
  where
    no_store :
        {x : Fault} → ◌≡◌ {A = Outcome (List (ℕ × ℕ) × Store)} (fault x) (ok (t', store')) → ⊥
    no_store h = cc

has-nil : (name : ℕ) → has {V = List ℕ} name [] ≡ false
unfolding find
has-nil name = refl

-- A loaded bank has the names of the configuration.
pub has-load :
    (name : ℕ) (singletons : List (ℕ × Option Config)) (groups : List (ℕ × List ℕ)) (tab : Bank)
    (store : Store)
    → load singletons groups ≡ ok (tab, store)
    → is_some (find name tab) ≡ is_configured name singletons groups
unfolding load
has-load name singletons groups tab store e =
    elim (Outcome-cases (load_singletons 0 singletons [] [])) [
      | inl (x, f) ↦ absurd (no_bank (rw f at e))
      | inr ((t, s), f) ↦ elim (Outcome-cases (add_groups groups t (add_singletons t []))) [
        | inl (x, g) ↦ absurd (no_bank (rw (f, g) at e))
        | inr (tab', g) ↦
            let pair : ◌≡◌ {A = Outcome (Bank × Store)} (ok (tab', s)) (ok (tab, store)) =
              rw (f, g) at e in
            let same : tab' ≡ tab = cc in
            let groups_in : has name tab'
                ≡ (in_groups name groups || has name (add_singletons t [])) =
              has-add_groups name groups t (add_singletons t []) tab' g in
            let all_in : has name tab' ≡ is_configured name singletons groups = ground (
              arith,
              groups_in,
              has-add_singletons name t [],
              has-nil name,
              listed-load_singletons name 0 singletons [] t [] s f,
            ) in
            rw (sym same) all_in
      ]
    ]
  where
    no_bank : {x : Fault} → ◌≡◌ {A = Outcome (Bank × Store)} (fault x) (ok (tab, store)) → ⊥
    no_bank h = cc

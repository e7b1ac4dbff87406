-- ===== src/Destinations/Bank/Seek.antt =====
-- What a loaded bank gives for a name and a hash.
use udptun.Prelude.{
  ℕ, zero, suc, ◌%◌, ◌<◌, ◌≡◌, ◌⊎◌, refl, sym, subst, ◌∙◌, true, List, [], ◌∷◌, Option, none, some,
  Outcome, Fault, ok, fault, thrown, length, get_or, find, put, member, find-put, arith,
  Option-cases, Outcome-cases, inl, inr, ==_refl,
}
use udptun.Destinations.{Config, Store, new_destination}
use udptun.Destinations.Bank.{
  Bank, load_singletons, insert_at, add_singletons, add_members, add_groups, load, seek,
}
use udptun.Destinations.Bank.Stored.{
  IsStored, IsBank, AllStored, AllStored-put, put-AllStored, find-AllStored, insert_at-IsBank,
}

add_singletons-IsBank :
    (store : Store) (t : List (ℕ × ℕ)) (tab : Bank)
    → AllStored store t
    → IsBank store tab
    → IsBank store (add_singletons t tab)
unfolding add_singletons
add_singletons-IsBank store [] tab a h = h
add_singletons-IsBank store ((key, ptr) ∷ t) tab a h =
    add_singletons-IsBank store t (insert_at key ptr tab) a.1
      (insert_at-IsBank store key ptr tab a.0 h)

get_or-member : (s : List ℕ) (i : ℕ) → i < length s → member (get_or s i 0) s ≡ true
unfolding member
get_or-member [] i h = absurd (omega arith)
get_or-member (x ∷ s) zero h = rw (==_refl x) refl
get_or-member (x ∷ s) (suc i) h = ground (arith, get_or-member s i (omega arith))

add_members-IsBank :
    (store : Store) (key : ℕ) (names : List ℕ) (t : List (ℕ × ℕ)) (tab tab' : Bank)
    → AllStored store t
    → IsBank store tab
    → add_members key names t tab ≡ ok tab'
    → IsBank store tab'
unfolding add_members
add_members-IsBank store key [] t tab tab' a h e = subst (IsBank store) (cc) h
add_members-IsBank store key (name ∷ names) t tab tab' a h e = elim (Option-cases (find name t)) [
  | inl f ↦ absurd (no_bank (rw (f, add_members) at e))
  | inr (ptr, f) ↦
      add_members-IsBank store key names t (insert_at key ptr tab) tab' a
        (insert_at-IsBank store key ptr tab (find-AllStored store name ptr t a f) h)
        (rw (f, add_members) at e)
]
  where
    no_bank : ◌≡◌ {A = Outcome Bank} (fault thrown) (ok tab') → ⊥
    no_bank h = cc

add_groups-IsBank :
    (store : Store) (groups : List (ℕ × List ℕ)) (t : List (ℕ × ℕ)) (tab tab' : Bank)
    → AllStored store t
    → IsBank store tab
    → add_groups groups t tab ≡ ok tab'
    → IsBank store tab'
unfolding add_groups
add_groups-IsBank store [] t tab tab' a h e = subst (IsBank store) (cc) h
add_groups-IsBank store ((key, names) ∷ rest) t tab tab' a h e =
    elim (Outcome-cases (add_members key names t tab)) [
      | inl (x, f) ↦ absurd (no_bank (rw f at e))
      | inr (mid, f) ↦
          add_groups-IsBank store rest t mid tab' a
            (add_members-IsBank store key names t tab mid a h f) (rw f at e)
    ]
  where
    no_bank : {x : Fault} → ◌≡◌ {A = Outcome Bank} (fault x) (ok tab') → ⊥
    no_bank h = cc

load_singletons-AllStored :
    (next : ℕ) (singletons : List (ℕ × Option Config)) (t t' : List (ℕ × ℕ)) (store store' : Store)
    → AllStored store t
    → load_singletons next singletons t store ≡ ok (t', store')
    → AllStored store' t'
unfolding load_singletons
load_singletons-AllStored next [] t t' store store' a e =
    let same_t : t ≡ t' = cc in
    let same_store : store ≡ store' = cc in rw (sym same_t, sym same_store) a
load_singletons-AllStored next ((key, cfg) ∷ rest) t t' store store' a e =
    elim (Outcome-cases (new_destination cfg)) [
      | inl (x, f) ↦ absurd (no_store (rw f at e))
      | inr (d, f) ↦
          let new : IsStored (put next d store) next =
            rw (find-put next next d store, ==_refl next) refl in
          load_singletons-AllStored (suc next) rest (put key next t) t' (put next d store) store'
            (put-AllStored (put next d store) key next t new (AllStored-put store next d t a))
            (rw f at e)
    ]
  where
    no_store :
        {x : Fault} → ◌≡◌ {A = Outcome (List (ℕ × ℕ) × Store)} (fault x) (ok (t', store')) → ⊥
    no_store h = cc

find-nil : (name : ℕ) → find {V = List ℕ} name [] ≡ none
unfolding find
find-nil name = refl

nil-IsBank : (store : Store) → IsBank store []
nil-IsBank store name s e = absurd (no_set (sym (find-nil name) ∙ e))
  where
    no_set : ◌≡◌ {A = Option (List ℕ)} none (some s) → ⊥
    no_set h = cc

pub load-IsBank :
    (singletons : List (ℕ × Option Config)) (groups : List (ℕ × List ℕ)) (tab : Bank)
    (store : Store)
    → load singletons groups ≡ ok (tab, store)
    → IsBank store tab
unfolding load
load-IsBank singletons groups tab store e =
    elim (Outcome-cases (load_singletons 0 singletons [] [])) [
      | inl (x, f) ↦ absurd (no_bank (rw f at e))
      | inr ((t, s), f) ↦ elim (Outcome-cases (add_groups groups t (add_singletons t []))) [
        | inl (x, g) ↦ absurd (no_bank (rw (f, g) at e))
        | inr (tab', g) ↦
            let pair : ◌≡◌ {A = Outcome (Bank × Store)} (ok (tab', s)) (ok (tab, store)) =
              rw (f, g) at e in
            let same : tab' ≡ tab = cc in
            let same_store : s ≡ store = cc in
            let stored : AllStored s t = load_singletons-AllStored 0 singletons [] t [] s tt f in
            let bank : IsBank s tab' =
              add_groups-IsBank s groups t (add_singletons t []) tab' stored
                (add_singletons-IsBank s t [] stored (nil-IsBank s)) g in
            rw (sym same, sym same_store) bank
      ]
    ]
  where
    no_bank : {x : Fault} → ◌≡◌ {A = Outcome (Bank × Store)} (fault x) (ok (tab, store)) → ⊥
    no_bank h = cc

seek_absent : (name hash : ℕ) (tab : Bank) → find name tab ≡ none → seek name hash tab ≡ ok none
unfolding seek
seek_absent name hash tab e = ground arith

seek_present :
    (name hash : ℕ) (s : List ℕ) (tab : Bank)
    → find name tab ≡ some s
    → 0 < length s
    → seek name hash tab ≡ ok (some (get_or s (hash % length s) 0))
unfolding seek
seek_present name hash s tab e pos = ground arith

mod_lt : (m n : ℕ) → 0 < n → m % n < n
mod_lt m n h = grind arith

-- On such a bank `seek` gives a destination of the store, or none where there is no set.
pub seek-IsBank :
    (name hash : ℕ) (store : Store) (tab : Bank)
    → IsBank store tab
    → ((find name tab ≡ none) × (seek name hash tab ≡ ok none))
      ⊎ ((ptr : ℕ) × (s : List ℕ) × (find name tab ≡ some s)
          × (seek name hash tab ≡ ok (some ptr))
          × IsStored store ptr)
seek-IsBank name hash store tab h = elim (Option-cases (find name tab)) [
  | inl f ↦ inl (f, seek_absent name hash tab f)
  | inr (s, f) ↦
      let (pos, stored) = h name s f in
      inr (
        get_or s (hash % length s) 0,
        s,
        f,
        seek_present name hash s tab f pos,
        stored _ (get_or-member s (hash % length s) (mod_lt hash (length s) pos)),
      )
]

-- ===== src/Destinations/Bank.antt =====
-- `DestinationBank`: destbank.hh and destbank.cc. The bank is loaded when it is empty. The
-- entries of the configuration are in the order in which they are iterated.
pub mod Stored
pub mod Seek
pub mod Names
pub mod Loaded
use udptun.Prelude.{
  ℕ, zero, suc, ◌%◌, Bool, true, false, List, [], ◌∷◌, Option, none, some, Outcome, ok, fault,
  undefined, thrown, ◌>>=◌, length, get_or, ◌==◌, if◌then◌else◌, find, put, insert, not,
}
use udptun.Destinations.{Config, Store, new_destination, is_some}

-- From a name to its set of destinations.
abbrev pub Bank : Type 0
Bank = List (ℕ × List ℕ)

-- `clear`
abbrev pub clear_bank : Bank → Bank
clear_bank tab = []

-- A pointer is numbered by the number of destinations that were made before.
unfoldable pub load_singletons :
    ℕ → List (ℕ × Option Config) → List (ℕ × ℕ) → Store → Outcome (List (ℕ × ℕ) × Store)
load_singletons next [] singtab store = ok (singtab, store)
load_singletons next ((key, cfg) ∷ rest) singtab store = new_destination cfg >>= λ d.
    load_singletons (suc next) rest (put key next singtab) (put next d store)

unfoldable pub set_at : ℕ → Bank → List ℕ
set_at key alttab = elim (find key alttab) [ none ↦ [] | some s ↦ s ]

-- `alttab[key].insert(ptr)`
unfoldable pub insert_at : ℕ → ℕ → Bank → Bank
insert_at key ptr alttab = put key (insert ptr (set_at key alttab)) alttab

unfoldable pub add_singletons : List (ℕ × ℕ) → Bank → Bank
add_singletons [] alttab = alttab
add_singletons ((key, ptr) ∷ rest) alttab = add_singletons rest (insert_at key ptr alttab)

unfoldable pub add_members : ℕ → List ℕ → List (ℕ × ℕ) → Bank → Outcome Bank
add_members key [] singtab alttab = ok alttab
add_members key (name ∷ names) singtab alttab = elim (find name singtab) [
  | none ↦ fault thrown
  | some ptr ↦ add_members key names singtab (insert_at key ptr alttab)
]

unfoldable pub add_groups : List (ℕ × List ℕ) → List (ℕ × ℕ) → Bank → Outcome Bank
add_groups [] singtab alttab = ok alttab
add_groups ((key, names) ∷ rest) singtab alttab =
    add_members key names singtab alttab >>= λ alttab'. add_groups rest singtab alttab'

unfoldable pub load : List (ℕ × Option Config) → List (ℕ × List ℕ) → Outcome (Bank × Store)
load singletons groups = do
  (singtab, store) ← load_singletons 0 singletons [] []
  tab ← add_groups groups singtab (add_singletons singtab [])
  ok (tab, store)

-- None is a null pointer.
unfoldable pub seek : ℕ → ℕ → Bank → Outcome (Option ℕ)
seek name hash tab = elim (find name tab) [
  | none ↦ ok none
  | some s ↦ if length s == 0 then fault undefined else ok (some (get_or s (hash % length s) 0))
]

unfoldable pub missing : ℕ → Bank → Bool
missing name tab = not (is_some (find name tab))

-- ===== src/Addresses/Set.antt =====
-- The set of addresses that an egress listens on.
use mathlib.Core.List.{Memᴰ}
use udptun.Prelude.{◌≡◌, ◌⊎◌, ◌↔◌, ◌∙◌, true, false, List, [], ◌∷◌, Bool-cases, inl, inr}
use udptun.Prelude.Members.{mem_uncons, mem_cons, mem_cons_map, mem_map_cons}
use udptun.Addresses.{AddressEntry, entry_less, emplace_entry, entries}
use udptun.Addresses.Order.{entry_less_irrefl, entry_less_trans, entry_less-ext}

-- Each entry is less than all those after it.
abbrev pub Before : AddressEntry → List AddressEntry → Type 0
Before a [] = Unit {0}
Before a (b ∷ set) = (entry_less a b ≡ true) × Before a set

abbrev pub Ascends : List AddressEntry → Type 0
Ascends [] = Unit {0}
Ascends (a ∷ set) = Before a set × Ascends set

Before-trans :
    (a b : AddressEntry) (set : List AddressEntry)
    → entry_less a b ≡ true
    → Before b set
    → Before a set
Before-trans a b [] h k = tt
Before-trans a b (c ∷ set) h k = (entry_less_trans a b c h k.0, Before-trans a b set h k.1)

emplace_entry-Before :
    (b a : AddressEntry) (set : List AddressEntry)
    → entry_less b a ≡ true
    → Before b set
    → Before b (emplace_entry a set)
unfolding emplace_entry
emplace_entry-Before b a [] h k = (h, tt)
emplace_entry-Before b a (c ∷ set) h k = elim (Bool-cases (entry_less a c)) [
  | inl e ↦ rw e (h, k)
  | inr e ↦ elim (Bool-cases (entry_less c a)) [
    | inl f ↦ rw (e, f) (k.0, emplace_entry-Before b a set h k.1)
    | inr f ↦ rw (e, f) k
  ]
]

emplace_entry-Ascends :
    (a : AddressEntry) (set : List AddressEntry) → Ascends set → Ascends (emplace_entry a set)
unfolding emplace_entry
emplace_entry-Ascends a [] h = (tt, tt)
emplace_entry-Ascends a (b ∷ set) h = elim (Bool-cases (entry_less a b)) [
  | inl e ↦ rw e ((e, Before-trans a b set e h.0), h)
  | inr e ↦ elim (Bool-cases (entry_less b a)) [
    | inl f ↦ rw (e, f) (emplace_entry-Before b a set f h.0, emplace_entry-Ascends a set h.1)
    | inr f ↦ rw (e, f) h
  ]
]

mem_of-emplace_entry :
    (x a : AddressEntry) (set : List AddressEntry)
    → Memᴰ x (emplace_entry a set)
    → (x ≡ a) ⊎ Memᴰ x set
unfolding emplace_entry
mem_of-emplace_entry x a [] m = mem_uncons m
mem_of-emplace_entry x a (b ∷ set) m = elim (Bool-cases (entry_less a b)) [
  | inl e ↦ mem_uncons (rw e at m)
  | inr e ↦ elim (Bool-cases (entry_less b a)) [
    | inl f ↦ mem_cons_map (mem_of-emplace_entry x a set) (rw (e, f) at m)
    | inr f ↦ inr (rw (e, f) at m)
  ]
]

mem-emplace_entry :
    (x a : AddressEntry) (set : List AddressEntry)
    → (x ≡ a) ⊎ Memᴰ x set
    → Memᴰ x (emplace_entry a set)
unfolding emplace_entry
mem-emplace_entry x a [] m = mem_cons m
mem-emplace_entry x a (b ∷ set) m = elim (Bool-cases (entry_less a b)) [
  | inl e ↦ rw e (mem_cons m)
  | inr e ↦ elim (Bool-cases (entry_less b a)) [
    | inl f ↦ rw (e, f) (mem_map_cons (mem-emplace_entry x a set) m)
    | inr f ↦
        rw (e, f) (elim m [ inl same ↦ Memᴰ.head (same ∙ entry_less-ext a b e f) | inr t ↦ t ])
  ]
]

pub entries-Ascends : (info set : List AddressEntry) → Ascends set → Ascends (entries info set)
unfolding entries
entries-Ascends [] set h = h
entries-Ascends (a ∷ info) set h =
    entries-Ascends info (emplace_entry a set) (emplace_entry-Ascends a set h)

mem_of-entries :
    (x : AddressEntry) (info set : List AddressEntry)
    → Memᴰ x (entries info set)
    → Memᴰ x set ⊎ Memᴰ x info
unfolding entries
mem_of-entries x [] set m = inl m
mem_of-entries x (a ∷ info) set m = elim (mem_of-entries x info (emplace_entry a set) m) [
  | inr t ↦ inr (Memᴰ.tail t)
  | inl t ↦ elim (mem_of-emplace_entry x a set t) [ inl e ↦ inr (Memᴰ.head e) | inr u ↦ inl u ]
]

mem-entries :
    (x : AddressEntry) (info set : List AddressEntry)
    → Memᴰ x set ⊎ Memᴰ x info
    → Memᴰ x (entries info set)
unfolding entries
mem-entries x [] set (inl m) = m
mem-entries x [] set (inr m) = elim m [ ]
mem-entries x (a ∷ info) set (inl m) =
    mem-entries x info (emplace_entry a set) (inl (mem-emplace_entry x a set (inr m)))
mem-entries x (a ∷ info) set (inr (Memᴰ.head e)) =
    mem-entries x info (emplace_entry a set) (inl (mem-emplace_entry x a set (inl e)))
mem-entries x (a ∷ info) set (inr (Memᴰ.tail m)) = mem-entries x info (emplace_entry a set) (inr m)

-- The set of the addresses that were found has exactly these, each of them once: they ascend
-- strictly in an order in which none is less than itself.
pub entries-Ascends_members :
    (x : AddressEntry) (info : List AddressEntry)
    → Ascends (entries info [])
      × (Memᴰ x (entries info []) ↔ Memᴰ x info)
      × (entry_less x x ≡ false)
entries-Ascends_members x info = (
  entries-Ascends info [] tt,
  (λ m. only (mem_of-entries x info [] m), λ m. mem-entries x info [] (inr m)),
  entry_less_irrefl x,
)
  where
    only : Memᴰ x [] ⊎ Memᴰ x info → Memᴰ x info
    only (inl m) = elim m [ ]
    only (inr m) = m

-- ===== src/Addresses/Found.antt =====
-- What the resolver finds, without its order and its repetitions, and the set that is made of it.
use mathlib.Core.List.{Memᴰ}
use mathlib.Core.Quot
use mathlib.Core.Quot.{Quot}
use udptun.Prelude.{
  ◌≡◌, refl, sym, ap, subst, ◌↔◌, true, false, List, [], ◌∷◌, Bool-cases, inl, inr,
}
use udptun.Prelude.Members.{mem_uncons}
use udptun.Addresses.{AddressEntry, entry_less, entries}
use udptun.Addresses.Order.{entry_less_irrefl, entry_less_trans, entry_less-ext}
use udptun.Addresses.Set.{Before, Ascends, entries-Ascends, entries-Ascends_members}

-- Two results with the same addresses.
abbrev pub SameMembers : List AddressEntry → List AddressEntry → Type 0
SameMembers xs ys = (x : AddressEntry) → Memᴰ x xs ↔ Memᴰ x ys

abbrev pub Found : Type 0
Found = Quot SameMembers

entry_set : IsSet (List AddressEntry)
entry_set = hlevel

Before-mem :
    (a x : AddressEntry) (set : List AddressEntry)
    → Before a set
    → Memᴰ x set
    → entry_less a x ≡ true
Before-mem a x [] b m = elim m [ ]
Before-mem a x (c ∷ set) b (Memᴰ.head e) = rw e b.0
Before-mem a x (c ∷ set) b (Memᴰ.tail m) = Before-mem a x set b.1 m

less_self : (a : AddressEntry) → entry_less a a ≡ true → ⊥
less_self a h = cc (entry_less_irrefl a)

-- The head of one set is not less than that of another with the same members.
head_not_less :
    (a b : AddressEntry) (set : List AddressEntry)
    → Before b set
    → Memᴰ a (b ∷ set)
    → entry_less a b ≡ false
head_not_less a b set before m = elim (Bool-cases (entry_less a b)) [
  | inr f ↦ f
  | inl e ↦ elim (mem_uncons m) [
    | inl same ↦ absurd (less_self b (subst (λ x. entry_less x b ≡ true) same e))
    | inr t ↦ absurd (less_self a (entry_less_trans a b a e (Before-mem b a set before t)))
  ]
]

tail_member :
    (a x : AddressEntry) (set other : List AddressEntry)
    → Before a set
    → Memᴰ x set
    → Memᴰ x (a ∷ other)
    → Memᴰ x other
tail_member a x set other before m n = elim (mem_uncons n) [
  | inl same ↦
      absurd (less_self a (subst (λ y. entry_less a y ≡ true) same (Before-mem a x set before m)))
  | inr t ↦ t
]

Ascends-ext : (s t : List AddressEntry) → Ascends s → Ascends t → SameMembers s t → s ≡ t
Ascends-ext [] [] hs ht same = refl
Ascends-ext [] (b ∷ t) hs ht same = elim ((same b).1 (Memᴰ.head refl)) [ ]
Ascends-ext (a ∷ s) [] hs ht same = elim ((same a).0 (Memᴰ.head refl)) [ ]
Ascends-ext (a ∷ s) (b ∷ t) hs ht same =
    let e : a ≡ b =
      entry_less-ext a b (head_not_less a b t ht.0 ((same a).0 (Memᴰ.head refl)))
        (head_not_less b a s hs.0 ((same b).1 (Memᴰ.head refl))) in
    let tails : SameMembers s t = λ x. (
      λ m.
          tail_member a x s t hs.0 m
            (subst (λ y. Memᴰ x (y ∷ t)) (sym e) ((same x).0 (Memᴰ.tail m))),
      λ m. tail_member b x t s ht.0 m (subst (λ y. Memᴰ x (y ∷ s)) e ((same x).1 (Memᴰ.tail m))),
    ) in
    let rest : s ≡ t = Ascends-ext s t hs.1 ht.1 tails in cc

-- No entry is there twice.
abbrev pub Distinct : List AddressEntry → Type 0
Distinct [] = Unit {0}
Distinct (a ∷ set) = (Memᴰ a set → ⊥) × Distinct set

Ascends-Distinct : (set : List AddressEntry) → Ascends set → Distinct set
Ascends-Distinct [] h = tt
Ascends-Distinct (a ∷ set) h =
    (λ m. less_self a (Before-mem a a set h.0 m), Ascends-Distinct set h.1)

-- The set of what was found has each address of it once.
pub entries-Distinct :
    (info : List AddressEntry) → Distinct (entries info []) × SameMembers (entries info []) info
entries-Distinct info = (
  Ascends-Distinct (entries info []) (entries-Ascends info [] tt),
  λ x. (entries-Ascends_members x info).1,
)

entries-SameMembers :
    (info info' : List AddressEntry) → SameMembers info info' → entries info [] ≡ entries info' []
entries-SameMembers info info' same =
    Ascends-ext (entries info []) (entries info' []) (entries-Ascends info [] tt)
      (entries-Ascends info' [] tt)
      (λ x.
        let old = (entries-Ascends_members x info).1 in
        let new = (entries-Ascends_members x info').1 in
        (λ m. new.1 ((same x).0 (old.0 m)), λ m. old.1 ((same x).1 (new.0 m))))

-- The set that is made of what was found.
pub set_of : Found → List AddressEntry
set_of = Quot.lift entry_set (λ info. entries info []) entries-SameMembers

-- Results that are found alike give one set.
pub entries-Found :
    (info info' : List AddressEntry)
    → ◌≡◌ {A = Found} (Quot.mk info) (Quot.mk info')
    → entries info [] ≡ entries info' []
unfolding set_of
entries-Found info info' e = ap set_of e

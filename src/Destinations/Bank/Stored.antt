-- ===== src/Destinations/Bank/Stored.antt =====
-- The pointers in a destination bank are of stored destinations.
use udptun.Prelude.{
  ℕ, ◌<◌, ◌≡◌, sym, subst, ◌∙◌, true, List, [], ◌∷◌, none, some, length, ◌==◌, if◌then◌else◌, find,
  put, insert, member, find-put, member-insert, arith, Bool-cases, Option-cases, inl, inr,
}
use udptun.Destinations.{Store, Destination, is_some}
use udptun.Destinations.Bank.{Bank, set_at, insert_at}

-- The pointer is to a destination of the store.
abbrev pub IsStored : Store → ℕ → Type 0
IsStored store ptr = is_some (find ptr store) ≡ true

-- No set is empty, and its pointers are to destinations of the store.
abbrev pub IsBank : Store → Bank → Type 0
IsBank store tab =
    (name : ℕ) (s : List ℕ)
    → find name tab ≡ some s
    → (0 < length s) × ((ptr : ℕ) → member ptr s ≡ true → IsStored store ptr)

abbrev pub AllStored : Store → List (ℕ × ℕ) → Type 0
AllStored store [] = Unit {0}
AllStored store ((key, ptr) ∷ rest) = IsStored store ptr × AllStored store rest

pub IsStored-put :
    (store : Store) (ptr next : ℕ) (d : Destination)
    → IsStored store ptr
    → IsStored (put next d store) ptr
IsStored-put store ptr next d h = rw (find-put ptr next d store) (ground arith)

pub AllStored-put :
    (store : Store) (next : ℕ) (d : Destination) (t : List (ℕ × ℕ))
    → AllStored store t
    → AllStored (put next d store) t
AllStored-put store next d [] h = tt
AllStored-put store next d ((key, ptr) ∷ t) h =
    (IsStored-put store ptr next d h.0, AllStored-put store next d t h.1)

pub put-AllStored :
    (store : Store) (key ptr : ℕ) (t : List (ℕ × ℕ))
    → IsStored store ptr
    → AllStored store t
    → AllStored store (put key ptr t)
unfolding put
put-AllStored store key ptr [] p h = (p, tt)
put-AllStored store key ptr ((k, q) ∷ t) p h =
    let rest : AllStored store (put key ptr t) = put-AllStored store key ptr t p h.1 in ground arith

pub find-AllStored :
    (store : Store) (key ptr : ℕ) (t : List (ℕ × ℕ))
    → AllStored store t
    → find key t ≡ some ptr
    → IsStored store ptr
unfolding find
find-AllStored store key ptr [] h e = cc
find-AllStored store key ptr ((k, q) ∷ t) h e = elim (Bool-cases (k == key)) [
  | inl b ↦ let same : q ≡ ptr = ground arith in rw (sym same) h.0
  | inr b ↦ find-AllStored store key ptr t h.1 (rw b at e)
]

-- What `IsBank` says of one set.
abbrev IsFilled : Store → List ℕ → Type 0
IsFilled store s = (0 < length s) × ((ptr : ℕ) → member ptr s ≡ true → IsStored store ptr)

insert_pos : (ptr : ℕ) (s : List ℕ) → 0 < length (insert ptr s)
unfolding insert
insert_pos ptr [] = omega arith
insert_pos ptr (x ∷ s) = ground arith

set_at-none : (key : ℕ) (tab : Bank) → find key tab ≡ none → set_at key tab ≡ []
unfolding set_at
set_at-none key tab e = ground arith

set_at-some : (key : ℕ) (s : List ℕ) (tab : Bank) → find key tab ≡ some s → set_at key tab ≡ s
unfolding set_at
set_at-some key s tab e = ground arith

set_at-IsStored :
    (store : Store) (key p : ℕ) (tab : Bank)
    → IsBank store tab
    → member p (set_at key tab) ≡ true
    → IsStored store p
set_at-IsStored store key p tab h m = elim (Option-cases (find key tab)) [
  | inl e ↦ absurd (no_member (rw (set_at-none key tab e) at m))
  | inr (s, e) ↦ (h key s e).1 p (rw (set_at-some key s tab e) at m)
]
  where
    no_member : member p [] ≡ true → ⊥
    no_member h = unfold member in cc

insert-IsFilled :
    (store : Store) (key ptr : ℕ) (tab : Bank)
    → IsStored store ptr
    → IsBank store tab
    → IsFilled store (insert ptr (set_at key tab))
insert-IsFilled store key ptr tab p h = (
  insert_pos ptr (set_at key tab),
  λ q m. elim (Bool-cases (ptr == q)) [
    | inl b ↦ let same : ptr ≡ q = ground arith in rw (sym same) p
    | inr b ↦ set_at-IsStored store key q tab h (rw (member-insert q ptr (set_at key tab), b) at m)
  ],
)

pub insert_at-IsBank :
    (store : Store) (key ptr : ℕ) (tab : Bank)
    → IsStored store ptr
    → IsBank store tab
    → IsBank store (insert_at key ptr tab)
unfolding insert_at
insert_at-IsBank store key ptr tab p h name s e = elim (Bool-cases (key == name)) [
  | inl b ↦
      let same : insert ptr (set_at key tab) ≡ s = same_set (sym (rw b at found) ∙ e) in
      subst (IsFilled store) same (insert-IsFilled store key ptr tab p h)
  | inr b ↦ h name s (sym (rw b at found) ∙ e)
]
  where
    found :
        find name (insert_at key ptr tab)
        ≡ (if key == name then some (insert ptr (set_at key tab)) else find name tab)
    found = find-put name key (insert ptr (set_at key tab)) tab

    same_set : {a b : List ℕ} → some a ≡ some b → a ≡ b
    same_set h = cc

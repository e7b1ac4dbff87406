-- ===== src/Emitters/Erased.antt =====
-- The sets and maps of the loop that makes emitters: what is erased, and what is assigned.
use udptun.Prelude.{
  ℕ, ◌≤◌, ◌<◌, ◌≡◌, refl, true, false, List, [], ◌∷◌, some, arith, length, ◌==◌, if◌then◌else◌,
  find, put, find-put, remove, member, member-remove, Bool-cases, inl, inr,
}
use udptun.Destinations.{Store}
use udptun.Emitters.{Emitter, erase_all, assign_all}
use udptun.Emitters.Maker.{AllActive}

length-remove : (p : ℕ) (s : List ℕ) → length (remove p s) ≤ length s
unfolding remove
length-remove p [] = omega arith
length-remove p (x ∷ s) = ground (arith, length-remove p s)

length-remove_lt : (p : ℕ) (s : List ℕ) → member p s ≡ true → length (remove p s) < length s
unfolding remove member
length-remove_lt p [] h = cc
length-remove_lt p (x ∷ s) h = elim (Bool-cases (x == p)) [
  | inl b ↦ rw b (omega (arith, length-remove p s))
  | inr b ↦ rw b (omega (arith, length-remove_lt p s (rw b at h)))
]

remove-AllActive :
    (store : Store) (p : ℕ) (s : List ℕ) → AllActive store s → AllActive store (remove p s)
unfolding remove
remove-AllActive store p [] a = tt
remove-AllActive store p (x ∷ s) a = elim (Bool-cases (x == p)) [
  | inl b ↦ rw b (remove-AllActive store p s a.1)
  | inr b ↦ rw b (a.0, remove-AllActive store p s a.1)
]

length-erase_all : (ms s : List ℕ) → length (erase_all ms s) ≤ length s
unfolding erase_all
length-erase_all [] s = omega arith
length-erase_all (m ∷ ms) s = omega (arith, length-erase_all ms (remove m s), length-remove m s)

pub length-erase_all_lt :
    (m : ℕ) (ms s : List ℕ) → member m s ≡ true → length (erase_all (m ∷ ms) s) < length s
unfolding erase_all
length-erase_all_lt m ms s h =
    omega (arith, length-erase_all ms (remove m s), length-remove_lt m s h)

pub erase_all-AllActive :
    (store : Store) (ms s : List ℕ) → AllActive store s → AllActive store (erase_all ms s)
unfolding erase_all
erase_all-AllActive store [] s a = a
erase_all-AllActive store (m ∷ ms) s a =
    erase_all-AllActive store ms (remove m s) (remove-AllActive store m s a)

pub member-erase_all :
    (q : ℕ) (ms s : List ℕ)
    → member q (erase_all ms s) ≡ (if member q ms then false else member q s)
unfolding erase_all member
member-erase_all q [] s = refl
member-erase_all q (m ∷ ms) s =
    ground (arith, member-erase_all q ms (remove m s), member-remove q m s)

pub find-assign_all :
    (q : ℕ) (ms : List ℕ) (e : Emitter) (result : List (ℕ × Emitter))
    → find q (assign_all ms e result) ≡ (if member q ms then some e else find q result)
unfolding assign_all member
find-assign_all q [] e result = refl
find-assign_all q (m ∷ ms) e result =
    ground (arith, find-assign_all q ms e (put m e result), find-put q m e result)

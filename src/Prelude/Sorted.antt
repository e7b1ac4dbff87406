-- ===== src/Prelude/Sorted.antt =====
-- Lists of pairs in the order of their keys, as a `std::map` with number keys goes through them.
use Prim.Native.Nat.{ℕ, suc, ◌≤◌, ◌<◌}
use mathlib.Core.Path.{◌≡◌, refl, sym, ap, subst, ◌∙◌}
use mathlib.Core.Logic.{inl, inr}
use mathlib.Core.Bool.{true, false}
use mathlib.Core.Option.{Option, none, some}
use mathlib.Core.List.{List, [], ◌∷◌}
use native.Mathlib.Omega.{arith}
use udptun.Prelude.Lists.{length}
use udptun.Prelude.Maps.{find, put, erase}
use udptun.Prelude.Tests.{ltb, ◌==◌, Bool-cases}

module _ {V : Type 0} where
  -- The keys are in order, as those of a `std::map`.
  abbrev pub Above : ℕ → List (ℕ × V) → Type 0
  Above j [] = Unit {0}
  Above j ((k, v) ∷ m) = (j < k) × Above j m

  abbrev pub Ordered : List (ℕ × V) → Type 0
  Ordered [] = Unit {0}
  Ordered ((k, v) ∷ m) = Above k m × Ordered m

  pub find-Above : (i j : ℕ) (m : List (ℕ × V)) → i ≤ j → Above j m → find i m ≡ none
  unfolding find
  find-Above i j [] h a = refl
  find-Above i j ((k, v) ∷ m) h (lt, a) =
      let e : (k == i) ≡ false = ground arith in rw e (find-Above i j m h a)

  Above-trans : (i j : ℕ) (m : List (ℕ × V)) → i ≤ j → Above j m → Above i m
  Above-trans i j [] h a = tt
  Above-trans i j ((k, v) ∷ m) h (lt, a) = (omega arith, Above-trans i j m h a)

  put-Above : (j k : ℕ) (v : V) (m : List (ℕ × V)) → j < k → Above j m → Above j (put k v m)
  unfolding put
  put-Above j k v [] h a = (h, tt)
  put-Above j k v ((i, w) ∷ m) h (lt, a) = elim (Bool-cases (i == k)) [
    | inl e ↦ rw e (h, a)
    | inr e ↦ elim (Bool-cases (ltb k i)) [
      | inl f ↦ rw (e, f) (h, (lt, a))
      | inr f ↦ rw (e, f) (lt, put-Above j k v m h a)
    ]
  ]

  pub put-Ordered : (k : ℕ) (v : V) (m : List (ℕ × V)) → Ordered m → Ordered (put k v m)
  unfolding put
  put-Ordered k v [] o = (tt, tt)
  put-Ordered k v ((i, w) ∷ m) (a, o) = elim (Bool-cases (i == k)) [
    | inl e ↦ rw e (let i_is : i ≡ k = ground arith in subst (λ x. Above x m) i_is a, o)
    | inr e ↦ elim (Bool-cases (ltb k i)) [
      | inl f ↦
          let lt : k < i = ground arith in
          rw (e, f) ((lt, Above-trans k i m (omega arith) a), (a, o))
      | inr f ↦
          let gt : i < k = ground arith in rw (e, f) (put-Above i k v m gt a, put-Ordered k v m o)
    ]
  ]

  erase-Above : (j k : ℕ) (m : List (ℕ × V)) → Above j m → Above j (erase k m)
  unfolding erase
  erase-Above j k [] a = tt
  erase-Above j k ((i, w) ∷ m) (lt, a) = elim (Bool-cases (i == k)) [
    | inl e ↦ rw e (erase-Above j k m a)
    | inr e ↦ rw e (lt, erase-Above j k m a)
  ]

  pub erase-Ordered : (k : ℕ) (m : List (ℕ × V)) → Ordered m → Ordered (erase k m)
  unfolding erase
  erase-Ordered k [] o = tt
  erase-Ordered k ((i, w) ∷ m) (a, o) = elim (Bool-cases (i == k)) [
    | inl e ↦ rw e (erase-Ordered k m o)
    | inr e ↦ rw e (erase-Above i k m a, erase-Ordered k m o)
  ]

  pub find_le-Above :
      (i k : ℕ) (v w : V) (m : List (ℕ × V)) → Above k m → find i ((k, v) ∷ m) ≡ some w → k ≤ i
  unfolding find
  find_le-Above i k v w m a h = elim (Bool-cases (ltb i k)) [
    | inl b ↦
        let lt : i < k = ground arith in
        let e : (k == i) ≡ false = ground arith in
        absurd (no_value (sym (find-Above i k m (omega arith) a) ∙ rw e at h))
    | inr b ↦ ground arith
  ]
    where
      no_value : ◌≡◌ {A = Option V} none (some w) → ⊥
      no_value h = cc

  pub length-erase : (k : ℕ) (m : List (ℕ × V)) → length (erase k m) ≤ length m
  unfolding erase
  length-erase k [] = omega arith
  length-erase k ((j, w) ∷ m) = ground (arith, length-erase k m)

  pub length-erase_lt :
      (k : ℕ) (v : V) (m : List (ℕ × V)) → find k m ≡ some v → length (erase k m) < length m
  unfolding erase find
  length-erase_lt k v [] e = cc
  length-erase_lt k v ((j, w) ∷ m) e = elim (Bool-cases (j == k)) [
    | inl b ↦ rw b (omega (arith, length-erase k m))
    | inr b ↦ rw b (omega (arith, length-erase_lt k v m (rw b at e)))
  ]

  -- To put a key that an ordered map has does not add to it.
  pub length-put :
      (k : ℕ) (v w : V) (m : List (ℕ × V))
      → Ordered m
      → find k m ≡ some w
      → length (put k v m) ≡ length m
  unfolding put find
  length-put k v w [] o e = cc
  length-put k v w ((j, u) ∷ m) (a, o) e = elim (Bool-cases (j == k)) [
    | inl b ↦ rw b refl
    | inr b ↦ elim (Bool-cases (ltb k j)) [
      | inl l ↦
          let lt : k < j = ground arith in
          absurd (unset (sym (find-Above k j m (omega arith) a) ∙ rw b at e))
      | inr l ↦ rw (b, l) (ap suc (length-put k v w m o (rw b at e)))
    ]
  ]
    where
      unset : none ≡ some w → ⊥
      unset h = cc

  find_head : (k : ℕ) (v : V) (m : List (ℕ × V)) → find k ((k, v) ∷ m) ≡ some v
  unfolding find
  find_head k v m = let e : (k == k) ≡ true = ground arith in rw e refl

  find_tail :
      (i k : ℕ) (v : V) (m : List (ℕ × V)) → (k == i) ≡ false → find i ((k, v) ∷ m) ≡ find i m
  unfolding find
  find_tail i k v m e = rw e refl

  find-nil : (k : ℕ) → find {V = V} k [] ≡ none
  unfolding find
  find-nil k = refl

  no_value : (v : V) → ◌≡◌ {A = Option V} none (some v) → ⊥
  no_value v h = cc

  same_value : (v w : V) → ◌≡◌ {A = Option V} (some v) (some w) → v ≡ w
  same_value v w h = cc

  -- Two maps with the same entries are the same list.
  pub Ordered-ext :
      (m m' : List (ℕ × V)) → Ordered m → Ordered m' → ((k : ℕ) → find k m ≡ find k m') → m ≡ m'
  Ordered-ext [] [] o o' h = refl
  Ordered-ext [] ((k, v) ∷ m') o o' h =
      absurd (no_value v (sym (find-nil k) ∙ h k ∙ find_head k v m'))
  Ordered-ext ((k, v) ∷ m) [] o o' h =
      absurd (no_value v (sym (find-nil k) ∙ sym (h k) ∙ find_head k v m))
  Ordered-ext ((k, v) ∷ m) ((j, w) ∷ m') (a, o) (a', o') h =
      let le : j ≤ k = find_le-Above k j w v m' a' (sym (h k) ∙ find_head k v m) in
      let ge : k ≤ j = find_le-Above j k v w m a (h j ∙ find_head j w m') in
      let key : k ≡ j = omega arith in
      let value : v ≡ w =
        same_value v w
          (sym (find_head k v m) ∙ h k ∙ ap (λ i. find i ((j, w) ∷ m')) key ∙ find_head j w m') in
      let tails : m ≡ m' = Ordered-ext m m' o o' (λ i. tail_find i key) in cc
    where
      tail_find : (i : ℕ) → k ≡ j → find i m ≡ find i m'
      tail_find i key = elim (Bool-cases (k == i)) [
        | inl b ↦
            let le : i ≤ k = ground arith in
            let le' : i ≤ j = omega arith in find-Above i k m le a ∙ sym (find-Above i j m' le' a')
        | inr b ↦
            let b' : (j == i) ≡ false = ground arith in
            sym (find_tail i k v m b) ∙ h i ∙ find_tail i j w m' b'
      ]

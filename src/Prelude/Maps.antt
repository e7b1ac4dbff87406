-- ===== src/Prelude/Maps.antt =====
-- `std::map` with number keys: a list of pairs in the order of its keys.
use Prim.Native.Nat.{ℕ}
use mathlib.Core.Path.{◌≡◌, refl}
use mathlib.Core.Bool.{Bool, true, false}
use mathlib.Core.Option.{Option, none, some}
use mathlib.Core.List.{List, [], ◌∷◌}
use native.Mathlib.Omega.{arith}
use udptun.Prelude.Tests.{ltb, ◌==◌, if◌then◌else◌}

module _ {ℓ} {V : Type ℓ} where
  unfoldable pub find : ℕ → List (ℕ × V) → Option V
  find k [] = none
  find k ((j, v) ∷ m) = if j == k then some v else find k m

  -- `m[k] = v`: the entry of `k` is replaced, or made at its place in the order.
  unfoldable pub put : ℕ → V → List (ℕ × V) → List (ℕ × V)
  put k v [] = (k, v) ∷ []
  put k v ((j, w) ∷ m) =
      let rest = put k v m in
      if j == k then (k, v) ∷ m else if ltb k j then (k, v) ∷ (j, w) ∷ m else (j, w) ∷ rest

  unfoldable pub erase : ℕ → List (ℕ × V) → List (ℕ × V)
  erase k [] = []
  erase k ((j, w) ∷ m) = if j == k then erase k m else (j, w) ∷ erase k m

  pub find-put :
      (i k : ℕ) (v : V) (m : List (ℕ × V))
      → find i (put k v m) ≡ (if k == i then some v else find i m)
  unfolding find put
  find-put i k v [] = refl
  find-put i k v ((j, w) ∷ m) = ground (arith, find-put i k v m)

  pub find-erase :
      (i k : ℕ) (m : List (ℕ × V)) → find i (erase k m) ≡ (if k == i then none else find i m)
  unfolding find erase
  find-erase i k [] = ground arith
  find-erase i k ((j, w) ∷ m) = ground (arith, find-erase i k m)

-- `std::set` with number elements.
unfoldable pub member : ℕ → List ℕ → Bool
member k [] = false
member k (j ∷ s) = if j == k then true else member k s

unfoldable pub insert : ℕ → List ℕ → List ℕ
insert k [] = k ∷ []
insert k (j ∷ s) =
    let rest = insert k s in if j == k then j ∷ s else if ltb k j then k ∷ j ∷ s else j ∷ rest

unfoldable pub remove : ℕ → List ℕ → List ℕ
remove k [] = []
remove k (j ∷ s) = if j == k then remove k s else j ∷ remove k s

pub member-insert :
    (i k : ℕ) (s : List ℕ) → member i (insert k s) ≡ (if k == i then true else member i s)
unfolding member insert
member-insert i k [] = ground arith
member-insert i k (j ∷ s) = ground (arith, member-insert i k s)

pub member-remove :
    (i k : ℕ) (s : List ℕ) → member i (remove k s) ≡ (if k == i then false else member i s)
unfolding member remove
member-remove i k [] = ground arith
member-remove i k (j ∷ s) = ground (arith, member-remove i k s)

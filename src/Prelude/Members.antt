-- ===== src/Prelude/Members.antt =====
-- The members of a list, by its first element and the rest.
use mathlib.Core.Path.{◌≡◌}
use mathlib.Core.Logic.{◌⊎◌, inl, inr}
use mathlib.Core.List.{List, ◌∷◌, Memᴰ}

module _ {A : Type 0} where
  pub mem_uncons : {x a : A} {s : List A} → Memᴰ x (a ∷ s) → (x ≡ a) ⊎ Memᴰ x s
  mem_uncons (Memᴰ.head e) = inl e
  mem_uncons (Memᴰ.tail m) = inr m

  pub mem_cons : {x a : A} {s : List A} → (x ≡ a) ⊎ Memᴰ x s → Memᴰ x (a ∷ s)
  mem_cons (inl e) = Memᴰ.head e
  mem_cons (inr m) = Memᴰ.tail m

  pub mem_cons_map :
      {x a : A} {P : Type 0} {s t : List A}
      → (Memᴰ x s → P ⊎ Memᴰ x t)
      → Memᴰ x (a ∷ s)
      → P ⊎ Memᴰ x (a ∷ t)
  mem_cons_map f (Memᴰ.head e) = inr (Memᴰ.head e)
  mem_cons_map f (Memᴰ.tail m) = elim (f m) [ inl p ↦ inl p | inr t ↦ inr (Memᴰ.tail t) ]

  pub mem_map_cons :
      {x a : A} {P : Type 0} {s t : List A}
      → (P ⊎ Memᴰ x s → Memᴰ x t)
      → P ⊎ Memᴰ x (a ∷ s)
      → Memᴰ x (a ∷ t)
  mem_map_cons f (inl p) = Memᴰ.tail (f (inl p))
  mem_map_cons f (inr (Memᴰ.head e)) = Memᴰ.head e
  mem_map_cons f (inr (Memᴰ.tail m)) = Memᴰ.tail (f (inr m))

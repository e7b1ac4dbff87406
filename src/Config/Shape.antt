-- ===== src/Config/Shape.antt =====
-- The parts of a node, and the nodes that keep to one schema.
use udptun.Prelude.{ℕ, ◌≡◌, ◌==◌, false, List, [], ◌∷◌, Option, none, some, if◌then◌else◌}
use udptun.Config.{
  Node, undefined, null, scalar, sequence, mapping, Items, nil, cons, Fields, end, field,
}

abbrev pub fields_of : Node → Fields
fields_of (mapping fs) = fs
fields_of _ = end

abbrev pub items_of : Node → Items
items_of (sequence xs) = xs
items_of _ = nil

abbrev pub scalar_of : Node → Option ℕ
scalar_of (scalar s) = some s
scalar_of _ = none

unfoldable pub child : ℕ → Fields → Node
child k end = undefined
child k (field j v fs) = if j == k then v else child k fs

unfoldable pub put_field : ℕ → Node → Fields → Fields
put_field k v end = field k v end
put_field k v (field j w fs) = if j == k then field j v fs else field j w (put_field k v fs)

abbrev pub join : Items → Items → Items
join nil ys = ys
join (cons x xs) ys = cons x (join xs ys)

-- The node under some keys, one after the other.
abbrev pub at : List ℕ → Node → Node
at [] n = n
at (k ∷ ks) n = at ks (child k (fields_of n))

-- What a node is to be, where it is there.
pub data Shape : Type 0 where
  one : Shape
  several : Shape
  table : (ℕ → Shape) → Shape

abbrev pub IsAbsent : ℕ → Fields → Type 0
IsAbsent k end = Unit {0}
IsAbsent k (field j v fs) = ((j == k) ≡ false) × IsAbsent k fs

abbrev mutual
  pub HasShape : Shape → Node → Type 0
  HasShape s undefined = Unit {0}
  HasShape s null = Unit {0}
  HasShape one (scalar x) = Unit {0}
  HasShape several (scalar x) = ⊥
  HasShape (table f) (scalar x) = ⊥
  HasShape one (sequence xs) = ⊥
  HasShape several (sequence xs) = Unit {0}
  HasShape (table f) (sequence xs) = ⊥
  HasShape one (mapping fs) = ⊥
  HasShape several (mapping fs) = ⊥
  HasShape (table f) (mapping fs) = HaveShapes f fs

  pub HaveShapes : (ℕ → Shape) → Fields → Type 0
  HaveShapes f end = Unit {0}
  HaveShapes f (field k v fs) = HasShape (f k) v × IsAbsent k fs × HaveShapes f fs

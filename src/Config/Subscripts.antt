-- ===== src/Config/Subscripts.antt =====
-- The documented behaviour of yaml-cpp that the merging relies on, and the fields of a node.
use udptun.Prelude.{
  ℕ, ◌≡◌, refl, subst, ◌==◌, false, if◌then◌else◌, arith, ok, Bool-cases, inl, inr,
}
use udptun.Config.{
  Node, undefined, null, scalar, sequence, mapping, nil, cons, Fields, end, field, Yaml,
}
use udptun.Config.Shape.{
  fields_of, items_of, child, put_field, join, Shape, several, table, IsAbsent, HasShape,
  HaveShapes,
}

abbrev IsBlank : Node → Type 0
IsBlank undefined = Unit {0}
IsBlank null = Unit {0}
IsBlank (scalar s) = ⊥
IsBlank (sequence xs) = ⊥
IsBlank (mapping fs) = ⊥

-- A node that can have items, and one that can have fields; one that is not there, or null, is both.
abbrev pub IsListable : Node → Type 0
IsListable (sequence xs) = Unit {0}
IsListable n = IsBlank n

abbrev pub IsTabular : Node → Type 0
IsTabular (mapping fs) = Unit {0}
IsTabular n = IsBlank n

pub record Documented (yaml : Yaml) : Type 0 where
  pub appends :
      (n x : Node)
      → IsListable n
      → yaml.push_back n x ≡ ok (sequence (join (items_of n) (cons x nil)))
  pub subscripts :
      (n : Node) (k : ℕ) → IsTabular n → yaml.subscript n k ≡ ok (child k (fields_of n))
  pub assigns :
      (n : Node) (k : ℕ) (v : Node)
      → IsTabular n
      → yaml.assign n k v ≡ ok (mapping (put_field k v (fields_of n)))

pub IsListable-HasShape : (n : Node) → HasShape several n → IsListable n
IsListable-HasShape undefined h = tt
IsListable-HasShape null h = tt
IsListable-HasShape (scalar s) h = h
IsListable-HasShape (sequence xs) h = tt
IsListable-HasShape (mapping fs) h = h

pub IsTabular-HasShape : (f : ℕ → Shape) (n : Node) → HasShape (table f) n → IsTabular n
IsTabular-HasShape f undefined h = tt
IsTabular-HasShape f null h = tt
IsTabular-HasShape f (scalar s) h = h
IsTabular-HasShape f (sequence xs) h = h
IsTabular-HasShape f (mapping fs) h = tt

pub fields_of-HaveShapes :
    (f : ℕ → Shape) (n : Node) → HasShape (table f) n → HaveShapes f (fields_of n)
fields_of-HaveShapes f undefined h = tt
fields_of-HaveShapes f null h = tt
fields_of-HaveShapes f (scalar s) h = tt
fields_of-HaveShapes f (sequence xs) h = tt
fields_of-HaveShapes f (mapping fs) h = h

pub child-put_field :
    (i k : ℕ) (v : Node) (fs : Fields)
    → child i (put_field k v fs) ≡ (if k == i then v else child i fs)
unfolding child put_field
child-put_field i k v end = refl
child-put_field i k v (field j w fs) = ground (arith, child-put_field i k v fs)

pub child_absent : (k : ℕ) (fs : Fields) → IsAbsent k fs → child k fs ≡ undefined
unfolding child
child_absent k end a = refl
child_absent k (field j v fs) a = rw a.0 (child_absent k fs a.1)

put_field-IsAbsent :
    (i k : ℕ) (v : Node) (fs : Fields)
    → (k == i) ≡ false
    → IsAbsent i fs
    → IsAbsent i (put_field k v fs)
unfolding put_field
put_field-IsAbsent i k v end ne a = (ne, tt)
put_field-IsAbsent i k v (field j w fs) ne a = elim (Bool-cases (j == k)) [
  | inl b ↦ rw b a
  | inr b ↦ rw b (a.0, put_field-IsAbsent i k v fs ne a.1)
]

pub child-HasShape :
    (f : ℕ → Shape) (k : ℕ) (fs : Fields) → HaveShapes f fs → HasShape (f k) (child k fs)
unfolding child
child-HasShape f k end h = tt
child-HasShape f k (field j v fs) h = elim (Bool-cases (j == k)) [
  | inl b ↦ let e : j ≡ k = ground arith in rw b (subst (λ i. HasShape (f i) v) e h.0)
  | inr b ↦ rw b (child-HasShape f k fs h.2)
]

pub put_field-HaveShapes :
    (f : ℕ → Shape) (k : ℕ) (v : Node) (fs : Fields)
    → HasShape (f k) v
    → HaveShapes f fs
    → HaveShapes f (put_field k v fs)
unfolding put_field
put_field-HaveShapes f k v end s h = (s, tt, tt)
put_field-HaveShapes f k v (field j w fs) s h = elim (Bool-cases (j == k)) [
  | inl b ↦ let e : k ≡ j = ground arith in rw b (subst (λ i. HasShape (f i) v) e s, h.1, h.2)
  | inr b ↦
      let ne : (k == j) ≡ false = ground arith in
      rw b (h.0, put_field-IsAbsent j k v fs ne h.1, put_field-HaveShapes f k v fs s h.2)
]

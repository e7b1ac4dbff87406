-- ===== src/Config/Content.antt =====
-- The content of a node at every path, and of two nodes that are merged.
use udptun.Prelude.{ℕ, ◌≡◌, refl, sym, ap, ◌∙◌, List, [], ◌∷◌, Option, none, some, Outcome, ok}
use udptun.Config.{Node, undefined, null, scalar, sequence, mapping, Items, nil, cons, end}
use udptun.Config.Shape.{
  fields_of, items_of, scalar_of, child, join, at, Shape, one, several, HasShape,
}
use udptun.Config.Subscripts.{IsListable, IsTabular, IsListable-HasShape}

abbrev pub or_before : Option ℕ → Option ℕ → Option ℕ
or_before (some s) before = some s
or_before none before = before

-- At every path, the scalar of `v` goes before that of `d`, and the items of `v` follow those of `d`.
pub record Merged (d v r : Node) : Type 0 where
  pub scalars :
      (p : List ℕ) → scalar_of (at p r) ≡ or_before (scalar_of (at p v)) (scalar_of (at p d))
  pub items : (p : List ℕ) → items_of (at p r) ≡ join (items_of (at p d)) (items_of (at p v))

pub join-nil : (xs : Items) → join xs nil ≡ xs
join-nil nil = refl
join-nil (cons x xs) = ap (cons x) (join-nil xs)

pub join_assoc : (xs ys zs : Items) → join (join xs ys) zs ≡ join xs (join ys zs)
join_assoc nil ys zs = refl
join_assoc (cons x xs) ys zs = ap (cons x) (join_assoc xs ys zs)

at_undefined : (p : List ℕ) → at p undefined ≡ undefined
unfolding child
at_undefined [] = refl
at_undefined (k ∷ p) = at_undefined p

-- A node with no content at all.
abbrev IsEmpty : Node → Type 0
IsEmpty v = (p : List ℕ) → (scalar_of (at p v) ≡ none) × (items_of (at p v) ≡ nil)

pub undefined-IsEmpty : IsEmpty undefined
undefined-IsEmpty p = rw (at_undefined p) (refl, refl)

pub null-IsEmpty : IsEmpty null
unfolding child
null-IsEmpty [] = (refl, refl)
null-IsEmpty (k ∷ p) = rw (at_undefined p) (refl, refl)

pub Merged-empty : (d v : Node) → IsEmpty v → Merged d v d
Merged-empty d v e = record {
  scalars = λ p. rw (e p).0 refl;
  items = λ p. rw (e p).1 (sym (join-nil (items_of (at p d))));
}

pub Merged-then : (d v r s : Node) → Merged d v r → Merged r undefined s → Merged d v s
Merged-then d v r s a b = record {
  scalars = λ p. b.scalars p ∙ rw (at_undefined p) (a.scalars p);
  items = λ p. b.items p ∙ rw (at_undefined p) (join-nil (items_of (at p r)) ∙ a.items p);
}

-- The path to a node that has fields goes through them.
tabular_top : (n : Node) → IsTabular n → (scalar_of n ≡ none) × (items_of n ≡ nil)
tabular_top undefined h = (refl, refl)
tabular_top null h = (refl, refl)
tabular_top (scalar s) h = absurd h
tabular_top (sequence xs) h = absurd h
tabular_top (mapping fs) h = (refl, refl)

pub Merged-fields :
    (d v r : Node)
    → IsTabular d
    → IsTabular v
    → IsTabular r
    → ((k : ℕ) → Merged (child k (fields_of d)) (child k (fields_of v)) (child k (fields_of r)))
    → Merged d v r
Merged-fields d v r hd hv hr m = record {
  scalars = λ p.
      elim p as (λ q. scalar_of (at q r) ≡ or_before (scalar_of (at q v)) (scalar_of (at q d))) [
        | [] ↦ rw ((tabular_top d hd).0, (tabular_top v hv).0, (tabular_top r hr).0) refl
        | k ∷ ks ↦ (m k).scalars ks
      ];
  items = λ p. elim p as (λ q. items_of (at q r) ≡ join (items_of (at q d)) (items_of (at q v))) [
    | [] ↦ rw ((tabular_top d hd).1, (tabular_top v hv).1, (tabular_top r hr).1) refl
    | k ∷ ks ↦ (m k).items ks
  ];
}

-- A merge that succeeds, keeps the shape, and has the content of both.
abbrev pub Succeeds : Shape → Node → Node → Outcome Node → Type 0
Succeeds s d v o = (r : Node) × (o ≡ ok r) × HasShape s r × Merged d v r

-- Nothing is below a node without fields.
at_end : (n : Node) (k : ℕ) (p : List ℕ) → fields_of n ≡ end → at (k ∷ p) n ≡ undefined
unfolding child
at_end n k p e = rw e (at_undefined p)

listable_top : (n : Node) → IsListable n → (scalar_of n ≡ none) × (fields_of n ≡ end)
listable_top undefined h = (refl, refl)
listable_top null h = (refl, refl)
listable_top (scalar s) h = absurd h
listable_top (sequence xs) h = (refl, refl)
listable_top (mapping fs) h = absurd h

one_top : (n : Node) → HasShape one n → (items_of n ≡ nil) × (fields_of n ≡ end)
one_top undefined h = (refl, refl)
one_top null h = (refl, refl)
one_top (scalar s) h = (refl, refl)
one_top (sequence xs) h = absurd h
one_top (mapping fs) h = absurd h

-- Two nodes without fields, and what comes of them at the top.
Merged-leaf :
    (d v r : Node)
    → fields_of d ≡ end
    → fields_of v ≡ end
    → fields_of r ≡ end
    → scalar_of r ≡ or_before (scalar_of v) (scalar_of d)
    → items_of r ≡ join (items_of d) (items_of v)
    → Merged d v r
Merged-leaf d v r fd fv fr es ei = record {
  scalars = λ p.
      elim p as (λ q. scalar_of (at q r) ≡ or_before (scalar_of (at q v)) (scalar_of (at q d))) [
        | [] ↦ es
        | k ∷ ks ↦ rw (at_end d k ks fd, at_end v k ks fv, at_end r k ks fr) refl
      ];
  items = λ p. elim p as (λ q. items_of (at q r) ≡ join (items_of (at q d)) (items_of (at q v))) [
    | [] ↦ ei
    | k ∷ ks ↦ rw (at_end d k ks fd, at_end v k ks fv, at_end r k ks fr) refl
  ];
}

pub Merged-scalar : (d : Node) (s : ℕ) → HasShape one d → Merged d (scalar s) (scalar s)
Merged-scalar d s h =
    let top = one_top d h in
    Merged-leaf d (scalar s) (scalar s) top.1 refl refl refl (rw top.0 refl)

pub Merged-sequence :
    (d : Node) (xs : Items) (r : Node)
    → HasShape several d
    → HasShape several r
    → items_of r ≡ join (items_of d) xs
    → Merged d (sequence xs) r
Merged-sequence d xs r hd hr e =
    let top = listable_top d (IsListable-HasShape d hd) in
    let top' = listable_top r (IsListable-HasShape r hr) in
    Merged-leaf d (sequence xs) r top.1 refl top'.1 (rw (top.0, top'.0) refl) e

-- ===== src/Config/Merge.antt =====
-- What the merging of files gives.
use udptun.Prelude.{
  ℕ, ◌≡◌, refl, sym, ap, subst, ◌∙◌, ◌==◌, true, List, [], ◌∷◌, Option, none, arith, Outcome, ok,
  Bool-cases, inl, inr,
}
use udptun.Config.{
  Node, undefined, null, scalar, sequence, mapping, Items, nil, cons, Fields, end, field, Yaml,
  merge, merge_items, merge_fields, merge_files, get,
}
use udptun.Config.Shape.{
  fields_of, items_of, scalar_of, child, put_field, join, at, Shape, one, several, table, IsAbsent,
  HasShape, HaveShapes,
}
use udptun.Config.Subscripts.{
  Documented, IsListable-HasShape, IsTabular-HasShape, fields_of-HaveShapes, child-put_field,
  child_absent, child-HasShape, put_field-HaveShapes,
}
use udptun.Config.Content.{
  or_before, Merged, join-nil, join_assoc, undefined-IsEmpty, null-IsEmpty, Merged-empty,
  Merged-then, Merged-fields, Succeeds, Merged-scalar, Merged-sequence,
}

module _ (yaml : Yaml) (doc : Documented yaml) where
  merge_items-lem :
      (d : Node) (xs : Items)
      → HasShape several d
      → (r : Node) × (merge_items yaml d xs ≡ ok r)
        × HasShape several r
        × (items_of r ≡ join (items_of d) xs)
  unfolding merge_items
  merge_items-lem d nil h = (d, refl, h, sym (join-nil (items_of d)))
  merge_items-lem d (cons x xs) h =
      let d' = sequence (join (items_of d) (cons x nil)) in
      let next = merge_items-lem d' xs tt in
      (
        next.0,
        rw (doc.appends d x (IsListable-HasShape d h)) next.1,
        next.2,
        next.3 ∙ join_assoc (items_of d) (cons x nil) xs,
      )

  -- How the fields of a node and those that are merged into it make those of the result.
  abbrev FieldsMerged : Fields → Fields → Node → Type 0
  FieldsMerged ds fs r = (k : ℕ) → Merged (child k ds) (child k fs) (child k (fields_of r))

  FieldsMerged-field :
      (k : ℕ) (v ref : Node) (ds fs : Fields) (r : Node)
      → IsAbsent k fs
      → Merged (child k ds) v ref
      → FieldsMerged (put_field k ref ds) fs r
      → FieldsMerged ds (field k v fs) r
  unfolding child
  FieldsMerged-field k v ref ds fs r absent m next i = elim (Bool-cases (k == i)) [
    | inl b ↦
        let e : k ≡ i = ground arith in
        let self : (k == k) ≡ true = ground arith in
        let then_blank : Merged ref undefined (child k (fields_of r)) =
          rw (child-put_field k k ref ds, self, child_absent k fs absent) at (next k) in
        rw b (
          subst (λ j. Merged (child j ds) v (child j (fields_of r))) e
            (Merged-then (child k ds) v ref (child k (fields_of r)) m then_blank))
    | inr b ↦ rw b (rw (child-put_field i k ref ds, b) at (next i))
  ]

  FieldsMerged-end : (d : Node) → FieldsMerged (fields_of d) end d
  unfolding child
  FieldsMerged-end d k = Merged-empty (child k (fields_of d)) undefined undefined-IsEmpty

  mutual
    unfolding merge

    merge-lem :
        (s : Shape) (d v : Node) → HasShape s d → HasShape s v → Succeeds s d v (merge yaml d v)
    merge-lem s d undefined hd hv = (d, refl, hd, Merged-empty d undefined undefined-IsEmpty)
    merge-lem s d null hd hv = (d, refl, hd, Merged-empty d null null-IsEmpty)
    merge-lem one d (scalar x) hd hv = (scalar x, refl, tt, Merged-scalar d x hd)
    merge-lem several d (scalar x) hd hv = absurd hv
    merge-lem (table f) d (scalar x) hd hv = absurd hv
    merge-lem one d (sequence xs) hd hv = absurd hv
    merge-lem several d (sequence xs) hd hv =
        let m = merge_items-lem d xs hd in (m.0, m.1, m.2, Merged-sequence d xs m.0 hd m.2 m.3)
    merge-lem (table f) d (sequence xs) hd hv = absurd hv
    merge-lem one d (mapping fs) hd hv = absurd hv
    merge-lem several d (mapping fs) hd hv = absurd hv
    merge-lem (table f) d (mapping fs) hd hv =
        let m = merge_fields-lem f d fs hd hv in
        (
          m.0,
          m.1,
          m.2,
          Merged-fields d (mapping fs) m.0 (IsTabular-HasShape f d hd) tt
              (IsTabular-HasShape f m.0 m.2) m.3,
        )

    merge_fields-lem :
        (f : ℕ → Shape) (d : Node) (fs : Fields)
        → HasShape (table f) d
        → HaveShapes f fs
        → (r : Node) × (merge_fields yaml d fs ≡ ok r)
          × HasShape (table f) r
          × FieldsMerged (fields_of d) fs r
    merge_fields-lem f d end hd hv = (d, refl, hd, FieldsMerged-end d)
    merge_fields-lem f d (field k v fs) hd hv =
        let ds = fields_of d in
        let hds = fields_of-HaveShapes f d hd in
        let tabular = IsTabular-HasShape f d hd in
        let m = merge-lem (f k) (child k ds) v (child-HasShape f k ds hds) hv.0 in
        let next =
          merge_fields-lem f (mapping (put_field k m.0 ds)) fs
            (put_field-HaveShapes f k m.0 ds m.2 hds) hv.2 in
        (
          next.0,
          rw (doc.subscripts d k tabular) (rw m.1 (rw (doc.assigns d k m.0 tabular) next.1)),
          next.2,
          FieldsMerged-field k v m.0 ds fs next.0 hv.1 m.3 next.3,
        )

-- The scalar at a path in the last of the nodes that have one there, or else what was before.
abbrev pub last_scalar : List ℕ → List Node → Option ℕ → Option ℕ
last_scalar p [] before = before
last_scalar p (n ∷ ns) before = last_scalar p ns (or_before (scalar_of (at p n)) before)

-- The items at a path in all of the nodes, one after the other.
abbrev pub all_items : List ℕ → List Node → Items
all_items p [] = nil
all_items p (n ∷ ns) = join (items_of (at p n)) (all_items p ns)

-- Each file gives its node, and each node keeps to the schema.
abbrev pub Loads : (ℕ → Outcome Node) → Shape → List ℕ → List Node → Type 0
Loads load_file s [] [] = Unit {0}
Loads load_file s [] (n ∷ ns) = ⊥
Loads load_file s (fn ∷ fns) [] = ⊥
Loads load_file s (fn ∷ fns) (n ∷ ns) =
    (load_file fn ≡ ok n) × HasShape s n × Loads load_file s fns ns

-- The configuration of some files, at every path.
abbrev pub Combines : List Node → Outcome Node → Type 0
Combines ns o =
    (r : Node) × (o ≡ ok r)
    × ((p : List ℕ) → scalar_of (at p r) ≡ last_scalar p ns none)
    × ((p : List ℕ) → items_of (at p r) ≡ all_items p ns)

merge_files-lem :
    (yaml : Yaml) (load_file : ℕ → Outcome Node) (s : Shape) (fns : List ℕ) (ns : List Node)
    (d : Node)
    → Documented yaml
    → HasShape s d
    → Loads load_file s fns ns
    → (r : Node) × (merge_files yaml load_file fns d ≡ ok r)
      × ((p : List ℕ) → scalar_of (at p r) ≡ last_scalar p ns (scalar_of (at p d)))
      × ((p : List ℕ) → items_of (at p r) ≡ join (items_of (at p d)) (all_items p ns))
unfolding merge_files
merge_files-lem yaml load_file s [] [] d doc hd l =
    (d, refl, λ p. refl, λ p. sym (join-nil (items_of (at p d))))
merge_files-lem yaml load_file s [] (n ∷ ns) d doc hd l = absurd l
merge_files-lem yaml load_file s (fn ∷ fns) [] d doc hd l = absurd l
merge_files-lem yaml load_file s (fn ∷ fns) (n ∷ ns) d doc hd l =
    let m = merge-lem yaml doc s d n hd l.1 in
    let next = merge_files-lem yaml load_file s fns ns m.0 doc m.2 l.2 in
    (
      next.0,
      rw l.0 (rw m.1 next.1),
      λ p. next.2 p ∙ ap (last_scalar p ns) (m.3.scalars p),
      λ p.
          next.3 p
          ∙ ap (λ xs. join xs (all_items p ns)) (m.3.items p)
          ∙ join_assoc (items_of (at p d)) (items_of (at p n)) (all_items p ns),
    )

-- When yaml-cpp does what it documents, and each file loads to a node of one schema, whose tables
-- have no key twice, whatever of it the file has: `get` succeeds, and at every path the
-- configuration has the scalar of the last file that has one there, and the items of the lists
-- that the files have there, one after the other in the order of the files.
pub get-Combines :
    (yaml : Yaml) (load_file : ℕ → Outcome Node) (s : Shape) (fns : List ℕ) (ns : List Node)
    → Documented yaml
    → Loads load_file s fns ns
    → Combines ns (get yaml load_file fns)
unfolding get
get-Combines yaml load_file s fns ns doc l =
    let m = merge_files-lem yaml load_file s fns ns null doc tt l in
    (
      m.0,
      m.1,
      λ p. m.2 p ∙ ap (last_scalar p ns) (null-IsEmpty p).0,
      λ p. m.3 p ∙ ap (λ xs. join xs (all_items p ns)) (null-IsEmpty p).1,
    )

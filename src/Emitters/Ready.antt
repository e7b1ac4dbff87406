-- ===== src/Emitters/Ready.antt =====
-- What is known of the destinations that a client needs, while they are gathered.
use udptun.Prelude.{
  ℕ, ◌≡◌, refl, sym, ap, ◌∙◌, ◌⊎◌, true, false, List, Option, some, arith, Outcome, ok, ◌==◌, find,
  put, find-put, insert, member, member-insert, Bool-cases, inl, inr, ==_refl,
}
use udptun.Destinations.{Destination}
use udptun.Destinations.Bank.{Bank, seek}
use udptun.Destinations.Bank.Stored.{IsBank, IsStored-put}
use udptun.Emitters.{Gathered}
use udptun.Emitters.Maker.{AllActive}
use udptun.Emitters.Activate.{put-AllActive, insert-AllActive}

module _ (hash : ℕ) (bank : Bank) where
  -- The name's destination, if the bank gives one, is in the table.
  abbrev pub Knows : List (ℕ × ℕ) → ℕ → Type 0
  Knows name_dests name =
      (ptr : ℕ) → seek name hash bank ≡ ok (some ptr) → find name name_dests ≡ some ptr

  pub record Ready (g : Gathered) : Type 0 where
    pub bank_stored : IsBank g.store bank
    pub active : AllActive g.store g.required
    pub asked : (name ptr : ℕ) → find name g.name_dests ≡ some ptr → member ptr g.required ≡ true
    pub given :
        (name ptr : ℕ) → find name g.name_dests ≡ some ptr → seek name hash bank ≡ ok (some ptr)

  -- What one more name does.
  abbrev pub one_more : ℕ → ℕ → Destination → Gathered → Gathered
  one_more dname ptr d g = record {
    required = insert ptr g.required;
    name_dests = put dname ptr g.name_dests;
    store = put ptr d g.store;
  }

  pub one_more-Ready :
      (dname ptr : ℕ) (d : Destination) (g : Gathered)
      → d.activated ≡ true
      → seek dname hash bank ≡ ok (some ptr)
      → Ready g
      → Ready (one_more dname ptr d g)
  one_more-Ready dname ptr d g a s r = record {
    bank_stored = λ name slot e. (
      (r.bank_stored name slot e).0,
      λ q m. IsStored-put g.store q ptr d ((r.bank_stored name slot e).1 q m),
    );
    active =
        insert-AllActive (put ptr d g.store) ptr g.required
          (d, rw (find-put ptr ptr d g.store, ==_refl ptr) refl, a)
          (put-AllActive g.store ptr d g.required a r.active);
    asked = λ name q e. elim (Bool-cases (ptr == q)) [
      | inl t ↦ rw (member-insert q ptr g.required, t) refl
      | inr t ↦ elim (Bool-cases (dname == name)) [
        | inl u ↦ absurd (other q t (rw (find-put name dname ptr g.name_dests, u) at e))
        | inr u ↦
            rw (member-insert q ptr g.required, t)
              (r.asked name q (rw (find-put name dname ptr g.name_dests, u) at e))
      ]
    ];
    given = λ name q e. elim (Bool-cases (dname == name)) [
      | inl u ↦
          let found : some ptr ≡ some q = rw (find-put name dname ptr g.name_dests, u) at e in
          let same : ptr ≡ q = cc in
          let same_name : dname ≡ name = ground arith in
          ap (λ n. seek n hash bank) (sym same_name) ∙ s ∙ ap (λ x. ok (some x)) same
      | inr u ↦ r.given name q (rw (find-put name dname ptr g.name_dests, u) at e)
    ];
  }
    where
      other : (q : ℕ) → (ptr == q) ≡ false → ◌≡◌ {A = Option ℕ} (some ptr) (some q) → ⊥
      other q t h = let same : ptr ≡ q = cc in ground arith

  pub one_more-Knows :
      (dname ptr name : ℕ) (d : Destination) (g : Gathered)
      → seek dname hash bank ≡ ok (some ptr)
      → Knows g.name_dests name ⊎ (dname ≡ name)
      → Knows (put dname ptr g.name_dests) name
  one_more-Knows dname ptr name d g e k q f = elim (Bool-cases (dname == name)) [
    | inl t ↦
        let same_name : dname ≡ name = ground arith in
        let same : ◌≡◌ {A = Outcome (Option ℕ)} (ok (some ptr)) (ok (some q)) =
          sym e ∙ ap (λ n. seek n hash bank) same_name ∙ f in
        let same_ptr : ptr ≡ q = cc in
        rw (find-put name dname ptr g.name_dests, t) (ap some same_ptr)
    | inr t ↦
        rw (find-put name dname ptr g.name_dests, t)
          (elim k [ inl known ↦ known q f | inr same ↦ absurd (distinct t same) ])
  ]
    where
      distinct : (dname == name) ≡ false → dname ≡ name → ⊥
      distinct t same = ground arith

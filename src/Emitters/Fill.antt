-- ===== src/Emitters/Fill.antt =====
-- The loop that gives each label its destinations and their emitters.
use udptun.Prelude.{
  ℕ, ◌≡◌, refl, sym, ap, subst, ◌∙◌, ◌⊎◌, true, List, [], ◌∷◌, Option, none, some, arith, ◌==◌,
  find, put, find-put, member, Bool-cases, Option-cases, inl, inr,
}
use udptun.Emitters.{Emitter, Channels, Made, outlets_at, fill_names, fill}
use udptun.Emitters.Entries.{outlets_at-some}

-- The outlet of a label for a destination.
pub record Holds (outs : Made) (label ptr : ℕ) (em : Emitter) : Type 0 where
  pub inner : List (ℕ × Emitter)
  pub at_label : find label outs ≡ some inner
  pub at_dest : find ptr inner ≡ some em

module _ (name_dests : List (ℕ × ℕ)) (dest_em : List (ℕ × Emitter)) where
  -- One more outlet.
  abbrev plus : ℕ → ℕ → Emitter → Made → Made
  plus label dest em outs = put label (put dest em (outlets_at label outs)) outs

  plus-new :
      (label dest : ℕ) (em : Emitter) (outs : Made) → Holds (plus label dest em outs) label dest em
  plus-new label dest em outs = record {
    inner = put dest em (outlets_at label outs);
    at_label =
        rw (find-put label label (put dest em (outlets_at label outs)) outs, refl_of label) refl;
    at_dest = rw (find-put dest dest em (outlets_at label outs), refl_of dest) refl;
  }
    where
      refl_of : (n : ℕ) → (n == n) ≡ true
      refl_of n = ground arith

  plus-keeps :
      (label dest l p : ℕ) (em m : Emitter) (outs : Made)
      → find dest dest_em ≡ some em
      → find p dest_em ≡ some m
      → Holds outs l p m
      → Holds (plus label dest em outs) l p m
  plus-keeps label dest l p em m outs e f h = elim (Bool-cases (label == l)) [
    | inr t ↦ record {
      inner = h.inner;
      at_label = rw (find-put l label (put dest em (outlets_at label outs)) outs, t) h.at_label;
      at_dest = h.at_dest;
    }
    | inl t ↦
        let same : label ≡ l = ground arith in
        let is_inner : outlets_at label outs ≡ h.inner =
          outlets_at-some label h.inner outs (rw same h.at_label) in
        record {
          inner = put dest em (outlets_at label outs);
          at_label = rw (find-put l label (put dest em (outlets_at label outs)) outs, t) refl;
          at_dest = elim (Bool-cases (dest == p)) [
            | inl u ↦
                let same_dest : dest ≡ p = ground arith in
                let eq : some em ≡ some m = sym e ∙ ap (λ q. find q dest_em) same_dest ∙ f in
                rw (find-put p dest em (outlets_at label outs), u) eq
            | inr u ↦ rw (find-put p dest em (outlets_at label outs), u, is_inner) h.at_dest
          ];
        }
  ]

  -- What the loop over the names of one label leaves.
  record Filled (label : ℕ) (dnames : List ℕ) (outs outs' : Made) : Type 0 where
    keeps : (l p : ℕ) (m : Emitter) → find p dest_em ≡ some m → Holds outs l p m → Holds outs' l p m
    filled :
        (name p : ℕ) (m : Emitter)
        → member name dnames ≡ true
        → find name name_dests ≡ some p
        → find p dest_em ≡ some m
        → Holds outs' label p m

  abbrev next_outs : ℕ → ℕ → Made → Made
  next_outs label dname outs = elim (find dname name_dests) [
    | none ↦ outs
    | some dest ↦ elim (find dest dest_em) [
      | none ↦ outs
      | some em ↦ put label (put dest em (outlets_at label outs)) outs
    ]
  ]

  next-Filled :
      (label dname : ℕ) (outs : Made) → Filled label (dname ∷ []) outs (next_outs label dname outs)
  next-Filled label dname outs = elim (Option-cases (find dname name_dests)) [
    | inl e ↦
        rw (e, next_outs)
          (record {
            keeps = λ l p m f h. h;
            filled = λ name p m i n f.
                absurd (no_dest (sym e ∙ ap (λ k. find k name_dests) (is_name name i) ∙ n));
          })
    | inr (dest, e) ↦ elim (Option-cases (find dest dest_em)) [
      | inl g ↦
          rw (e, next_outs, g)
            (record {
              keeps = λ l p m f h. h;
              filled = λ name p m i n f.
                  absurd (no_em (sym g ∙ ap (λ q. find q dest_em) (is_dest dest e name p i n) ∙ f));
            })
      | inr (em, g) ↦
          rw (e, next_outs, g)
            (record {
              keeps = λ l p m f h. plus-keeps label dest l p em m outs g f h;
              filled = λ name p m i n f.
                  let same : dest ≡ p = is_dest dest e name p i n in
                  let eq : some em ≡ some m = sym g ∙ ap (λ q. find q dest_em) same ∙ f in
                  let same_em : em ≡ m = cc in
                  subst (λ q. Holds (plus label dest em outs) label q m) same
                    (subst (Holds (plus label dest em outs) label dest) same_em
                      (plus-new label dest em outs));
            })
    ]
  ]
    where
      no_dest : {p : ℕ} → ◌≡◌ {A = Option ℕ} none (some p) → ⊥
      no_dest h = cc

      no_em : {m : Emitter} → ◌≡◌ {A = Option Emitter} none (some m) → ⊥
      no_em h = cc

      is_name : (name : ℕ) → member name (dname ∷ []) ≡ true → dname ≡ name
      is_name name i = unfold member in ground arith

      is_dest :
          (dest : ℕ)
          → find dname name_dests ≡ some dest
          → (name p : ℕ) → member name (dname ∷ []) ≡ true
          → find name name_dests ≡ some p
          → dest ≡ p
      is_dest dest e name p i n =
          let eq : some dest ≡ some p = sym e ∙ ap (λ k. find k name_dests) (is_name name i) ∙ n in
          cc

  fill_names-Filled :
      (label : ℕ) (dnames : List ℕ) (outs : Made)
      → Filled label dnames outs (fill_names label name_dests dest_em dnames outs)
  unfolding fill_names
  fill_names-Filled label [] outs = record {
    keeps = λ l p m f h. h;
    filled = λ name p m i n f. absurd (no_member name i);
  }
    where
      no_member : (name : ℕ) → member name [] ≡ true → ⊥
      no_member name h = unfold member in cc
  fill_names-Filled label (dname ∷ dnames) outs =
      let step : Filled label (dname ∷ []) outs (next_outs label dname outs) =
        next-Filled label dname outs in
      let rest : Filled label dnames (next_outs label dname outs)
          (fill_names label name_dests dest_em dnames (next_outs label dname outs)) =
        fill_names-Filled label dnames (next_outs label dname outs) in
      record {
        keeps = λ l p m f h. rest.keeps l p m f (step.keeps l p m f h);
        filled = λ name p m i n f. elim (member_split name i) [
          | inl one ↦ rest.keeps label p m f (step.filled name p m one n f)
          | inr more ↦ rest.filled name p m more n f
        ];
      }
    where
      member_split :
          (name : ℕ)
          → member name (dname ∷ dnames) ≡ true
          → (member name (dname ∷ []) ≡ true) ⊎ (member name dnames ≡ true)
      member_split name i = unfold member in ground arith

  -- What the loop over the channels leaves.
  pub record AllFilled (chmap : Channels) (outs outs' : Made) : Type 0 where
    pub keeps :
        (l p : ℕ) (m : Emitter) → find p dest_em ≡ some m → Holds outs l p m → Holds outs' l p m
    pub filled :
        (label name p : ℕ) (dnames : List ℕ) (m : Emitter)
        → find label chmap ≡ some dnames
        → member name dnames ≡ true
        → find name name_dests ≡ some p
        → find p dest_em ≡ some m
        → Holds outs' label p m

  pub fill-AllFilled :
      (chmap : Channels) (outs : Made) → AllFilled chmap outs (fill chmap name_dests dest_em outs)
  unfolding fill
  fill-AllFilled [] outs = record {
    keeps = λ l p m f h. h;
    filled = λ label name p dnames m e i n f. absurd (no_entry label dnames e);
  }
    where
      no_entry : (label : ℕ) (dnames : List ℕ) → find label [] ≡ some dnames → ⊥
      no_entry label dnames h = unfold find in cc
  fill-AllFilled ((label, dnames) ∷ chmap) outs =
      let mid : Made = fill_names label name_dests dest_em dnames outs in
      let step : Filled label dnames outs mid = fill_names-Filled label dnames outs in
      let rest : AllFilled chmap mid (fill chmap name_dests dest_em mid) =
        fill-AllFilled chmap mid in
      record {
        keeps = λ l p m f h. rest.keeps l p m f (step.keeps l p m f h);
        filled = λ l name p names m e i n f. elim (Bool-cases (label == l)) [
          | inl t ↦
              let found : some dnames ≡ some names = unfold find in rw t at e in
              let same : dnames ≡ names = cc in
              let same_label : label ≡ l = ground arith in
              subst (λ k. Holds (fill chmap name_dests dest_em mid) k p m) same_label
                (rest.keeps label p m f (step.filled name p m (rw same i) n f))
          | inr t ↦ rest.filled l name p names m (unfold find in rw t at e) i n f
        ];
      }

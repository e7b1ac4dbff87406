-- ===== src/Emitters/Given.antt =====
-- The outlets that the last loop of the client state's constructor makes, and no others.
use mathlib.Core.List.{Memᴰ}
use udptun.Prelude.{
  ℕ, ◌≡◌, refl, sym, subst, true, List, [], ◌∷◌, some, arith, ok, ◌==◌, find, put, find-put, member,
  Bool-cases, Option-cases, inl, inr,
}
use udptun.Prelude.Sorted.{Ordered, put-Ordered}
use udptun.Destinations.Bank.{Bank, seek}
use udptun.Emitters.{Emitter, Channels, Made, outlets_at, fill_names, fill}
use udptun.Emitters.Entries.{outlets_at-none, outlets_at-some}

-- The bank gives the destination for a name that the channels list for the label.
pub record Wanted (hash : ℕ) (chmap : Channels) (bank : Bank) (label ptr : ℕ) : Type 0 where
  pub name : ℕ
  pub dnames : List ℕ
  pub listed : Memᴰ (label, dnames) chmap
  pub named : member name dnames ≡ true
  pub given : seek name hash bank ≡ ok (some ptr)

-- The outlets of one label: in order, and each for a destination that is wanted.
pub record Inner (W : ℕ → Type 0) (inner : List (ℕ × Emitter)) : Type 0 where
  pub ordered : Ordered inner
  pub wanted : (ptr : ℕ) (em : Emitter) → find ptr inner ≡ some em → W ptr

module _ (W : ℕ → ℕ → Type 0) where
  abbrev pub Given : Made → Type 0
  Given outs =
      (label : ℕ) (inner : List (ℕ × Emitter))
      → find label outs ≡ some inner
      → Inner (W label) inner

  outlets_at-Inner :
      (label : ℕ) (outs : Made) → Given outs → Inner (W label) (outlets_at label outs)
  outlets_at-Inner label outs g = elim (Option-cases (find label outs)) [
    | inl e ↦
        subst (Inner (W label)) (sym (outlets_at-none label outs e))
          (record { ordered = tt; wanted = λ ptr em h. absurd (no_entry ptr em h) })
    | inr (inner, e) ↦
        subst (Inner (W label)) (sym (outlets_at-some label inner outs e)) (g label inner e)
  ]
    where
      no_entry : (ptr : ℕ) (em : Emitter) → find ptr [] ≡ some em → ⊥
      no_entry ptr em h = unfold find in cc

  put-Inner :
      (P : ℕ → Type 0) (dest : ℕ) (em : Emitter) (inner : List (ℕ × Emitter))
      → P dest
      → Inner P inner
      → Inner P (put dest em inner)
  put-Inner P dest em inner w h = record {
    ordered = put-Ordered dest em inner h.ordered;
    wanted = λ ptr m e. elim (Bool-cases (dest == ptr)) [
      | inl t ↦ let same : dest ≡ ptr = ground arith in subst P same w
      | inr t ↦ h.wanted ptr m (rw (find-put ptr dest em inner, t) at e)
    ];
  }

  put-Given :
      (label : ℕ) (inner : List (ℕ × Emitter)) (outs : Made)
      → Inner (W label) inner
      → Given outs
      → Given (put label inner outs)
  put-Given label inner outs i g l inner' e = elim (Bool-cases (label == l)) [
    | inl t ↦
        let found : some inner ≡ some inner' = rw (find-put l label inner outs, t) at e in
        let same : inner ≡ inner' = cc in
        let same_label : label ≡ l = ground arith in
        subst (λ k. Inner (W k) inner') same_label (subst (Inner (W label)) same i)
    | inr t ↦ g l inner' (rw (find-put l label inner outs, t) at e)
  ]

  module _ (name_dests : List (ℕ × ℕ)) (dest_em : List (ℕ × Emitter)) where
    fill_names-Given :
        (label : ℕ) (dnames : List ℕ) (outs : Made)
        → ((name ptr : ℕ)
            → member name dnames ≡ true
            → find name name_dests ≡ some ptr
            → W label ptr)
        → Given outs
        → Given (fill_names label name_dests dest_em dnames outs)
    unfolding fill_names
    fill_names-Given label [] outs k g = g
    fill_names-Given label (dname ∷ dnames) outs k g = elim (Option-cases (find dname name_dests)) [
      | inl e ↦ rw e (fill_names-Given label dnames outs more g)
      | inr (dest, e) ↦ elim (Option-cases (find dest dest_em)) [
        | inl f ↦ rw (e, f) (fill_names-Given label dnames outs more g)
        | inr (em, f) ↦
            rw (e, f)
              (fill_names-Given label dnames (put label (put dest em (outlets_at label outs)) outs)
                more
                (put-Given label (put dest em (outlets_at label outs)) outs
                  (put-Inner (W label) dest em (outlets_at label outs) (k dname dest first e)
                    (outlets_at-Inner label outs g))
                  g))
      ]
    ]
      where
        first : member dname (dname ∷ dnames) ≡ true
        first = unfold member in ground arith

        more :
            (name ptr : ℕ)
            → member name dnames ≡ true
            → find name name_dests ≡ some ptr
            → W label ptr
        more name ptr m e = k name ptr (unfold member in ground arith) e

    pub fill-Given :
        (chmap : Channels) (outs : Made)
        → ((label name ptr : ℕ) (dnames : List ℕ)
            → Memᴰ (label, dnames) chmap
            → member name dnames ≡ true
            → find name name_dests ≡ some ptr
            → W label ptr)
        → Given outs
        → Given (fill chmap name_dests dest_em outs)
    unfolding fill
    fill-Given [] outs k g = g
    fill-Given ((label, dnames) ∷ chmap) outs k g =
        fill-Given chmap (fill_names label name_dests dest_em dnames outs)
          (λ l name ptr names m. k l name ptr names (Memᴰ.tail m))
          (fill_names-Given label dnames outs
            (λ name ptr m e. k label name ptr dnames (Memᴰ.head refl) m e) g)

  pub Given-nil : Given []
  Given-nil label inner e = absurd (no_entry e)
    where
      no_entry : find label [] ≡ some inner → ⊥
      no_entry h = unfold find in cc

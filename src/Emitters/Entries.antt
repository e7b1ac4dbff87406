-- ===== src/Emitters/Entries.antt =====
-- What holds of every entry of a client's outlets.
use udptun.Prelude.{
  ℕ, ◌≡◌, sym, subst, List, [], ◌∷◌, none, some, arith, ◌==◌, find, put, ltb, Bool-cases,
  Option-cases, inl, inr,
}
use udptun.Emitters.{Emitter, Channels, Made, outlets_at, fill_names, fill}

abbrev pub Every : (ℕ → Emitter → Type 0) → List (ℕ × Emitter) → Type 0
Every P [] = Unit {0}
Every P ((k, v) ∷ m) = P k v × Every P m

abbrev pub EveryAt : (ℕ → Emitter → Type 0) → Made → Type 0
EveryAt P [] = Unit {0}
EveryAt P ((label, inner) ∷ outs) = Every P inner × EveryAt P outs

put-Every :
    (P : ℕ → Emitter → Type 0) (k : ℕ) (v : Emitter) (m : List (ℕ × Emitter))
    → P k v
    → Every P m
    → Every P (put k v m)
unfolding put
put-Every P k v [] p h = (p, tt)
put-Every P k v ((j, w) ∷ m) p h = elim (Bool-cases (j == k)) [
  | inl e ↦ rw e (p, h.1)
  | inr e ↦ elim (Bool-cases (ltb k j)) [
    | inl f ↦ rw (e, f) (p, h)
    | inr f ↦ rw (e, f) (h.0, put-Every P k v m p h.1)
  ]
]

put-EveryAt :
    (P : ℕ → Emitter → Type 0) (label : ℕ) (inner : List (ℕ × Emitter)) (outs : Made)
    → Every P inner
    → EveryAt P outs
    → EveryAt P (put label inner outs)
unfolding put
put-EveryAt P label inner [] p h = (p, tt)
put-EveryAt P label inner ((j, w) ∷ m) p h = elim (Bool-cases (j == label)) [
  | inl e ↦ rw e (p, h.1)
  | inr e ↦ elim (Bool-cases (ltb label j)) [
    | inl f ↦ rw (e, f) (p, h)
    | inr f ↦ rw (e, f) (h.0, put-EveryAt P label inner m p h.1)
  ]
]

find-EveryAt :
    (P : ℕ → Emitter → Type 0) (label : ℕ) (inner : List (ℕ × Emitter)) (outs : Made)
    → EveryAt P outs
    → find label outs ≡ some inner
    → Every P inner
unfolding find
find-EveryAt P label inner [] h e = cc
find-EveryAt P label inner ((j, w) ∷ m) h e = elim (Bool-cases (j == label)) [
  | inl b ↦
      let found : some w ≡ some inner = rw b at e in let same : w ≡ inner = cc in rw (same) at h.0
  | inr b ↦ find-EveryAt P label inner m h.1 (rw b at e)
]

pub outlets_at-none :
    (label : ℕ) (outs : Made) → find label outs ≡ none → outlets_at label outs ≡ []
unfolding outlets_at
outlets_at-none label outs e = ground arith

pub outlets_at-some :
    (label : ℕ) (inner : List (ℕ × Emitter)) (outs : Made)
    → find label outs ≡ some inner
    → outlets_at label outs ≡ inner
unfolding outlets_at
outlets_at-some label inner outs e = ground arith

outlets_at-Every :
    (P : ℕ → Emitter → Type 0) (label : ℕ) (outs : Made)
    → EveryAt P outs
    → Every P (outlets_at label outs)
outlets_at-Every P label outs h = elim (Option-cases (find label outs)) [
  | inl e ↦ subst (Every P) (sym (outlets_at-none label outs e)) tt
  | inr (inner, e) ↦
      subst (Every P) (sym (outlets_at-some label inner outs e))
        (find-EveryAt P label inner outs h e)
]

module _ (P : ℕ → Emitter → Type 0) (name_dests : List (ℕ × ℕ)) (dest_em : List (ℕ × Emitter))
    (good : (ptr : ℕ) (em : Emitter) → find ptr dest_em ≡ some em → P ptr em) where
  fill_names-EveryAt :
      (label : ℕ) (dnames : List ℕ) (outs : Made)
      → EveryAt P outs
      → EveryAt P (fill_names label name_dests dest_em dnames outs)
  unfolding fill_names
  fill_names-EveryAt label [] outs h = h
  fill_names-EveryAt label (dname ∷ dnames) outs h = elim (Option-cases (find dname name_dests)) [
    | inl e ↦ rw e (fill_names-EveryAt label dnames outs h)
    | inr (dest, e) ↦ elim (Option-cases (find dest dest_em)) [
      | inl f ↦ rw (e, f) (fill_names-EveryAt label dnames outs h)
      | inr (em, f) ↦
          rw (e, f)
            (fill_names-EveryAt label dnames (put label (put dest em (outlets_at label outs)) outs)
              (put-EveryAt P label (put dest em (outlets_at label outs)) outs
                (put-Every P dest em (outlets_at label outs) (good dest em f)
                  (outlets_at-Every P label outs h))
                h))
    ]
  ]

  pub fill-EveryAt :
      (chmap : Channels) (outs : Made)
      → EveryAt P outs
      → EveryAt P (fill chmap name_dests dest_em outs)
  unfolding fill
  fill-EveryAt [] outs h = h
  fill-EveryAt ((label, dnames) ∷ chmap) outs h =
      fill-EveryAt chmap (fill_names label name_dests dest_em dnames outs)
        (fill_names-EveryAt label dnames outs h)

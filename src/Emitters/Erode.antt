-- ===== src/Emitters/Erode.antt =====
-- The loop that makes emitters until every required destination has one.
use udptun.Prelude.{
  ℕ, zero, suc, ◌≤◌, ◌<◌, ◌≡◌, refl, sym, ap, subst, ◌∙◌, ◌⊎◌, Bool, true, false, List, [], ◌∷◌,
  Option, some, arith, Outcome, ok, fault, thrown, ◌>>=◌, length, find, member, Bool-cases,
  List-cases, inl, inr,
}
use udptun.Destinations.{AddrInfo, Store, check_at}
use udptun.Emitters.{
  Emitter, World, EmitterMaker, emitter_on, erase_all, assign_all, make, make_maker, erode,
}
use udptun.Emitters.Maker.{AllActive, Matched, threw, unmatched, matching, make_maker-MadeMaker}
use udptun.Emitters.Erased.{
  length-erase_all_lt, erase_all-AllActive, member-erase_all, find-assign_all,
}

-- The emitter has a socket that is good for the destination.
pub record Serves (store : Store) (ptr : ℕ) (em : Emitter) : Type 0 where
  pub fd : ℕ
  pub has_sock : em.sock ≡ some fd
  pub fits : check_at em.family em.protocol store ptr ≡ ok true

-- Each required destination has such an emitter, and the others have what they had.
pub record Mapped (store : Store) (required : List ℕ) (before after : List (ℕ × Emitter))
    : Type 0 where
  pub served :
      (ptr : ℕ)
      → member ptr required ≡ true
      → (em : Emitter) × (find ptr after ≡ some em) × Serves store ptr em
  pub kept : (ptr : ℕ) → member ptr required ≡ false → find ptr after ≡ find ptr before

make_named :
    (mkr : EmitterMaker) (required : List ℕ) (result : List (ℕ × Emitter)) (ai : AddrInfo) (fd : ℕ)
    → mkr.chosen ≡ some (ai, fd)
    → make true mkr required result
      ≡ ok (erase_all mkr.matched required, assign_all mkr.matched (emitter_on ai fd) result)
unfolding make
make_named mkr required result ai fd e = ground arith

make_unnamed :
    (mkr : EmitterMaker) (required : List ℕ) (result : List (ℕ × Emitter)) (ai : AddrInfo) (fd : ℕ)
    → mkr.chosen ≡ some (ai, fd)
    → make false mkr required result ≡ fault thrown
unfolding make
make_unnamed mkr required result ai fd e = ground arith

-- The required destinations that one emitter serves, before those that later ones serve.
Mapped-assign :
    (store : Store) (required ms : List ℕ) (ai : AddrInfo) (fd : ℕ)
    (before after : List (ℕ × Emitter))
    → Matched store ai required ms
    → Mapped store (erase_all ms required) (assign_all ms (emitter_on ai fd) before) after
    → Mapped store required before after
Mapped-assign store required ms ai fd before after m h = record {
  served = λ q r. elim (Bool-cases (member q ms)) [
    | inl b ↦ (
      emitter_on ai fd,
      h.kept q (gone q b) ∙ now q b,
      record { fd = fd; has_sock = refl; fits = m.fits q b },
    )
    | inr b ↦ h.served q (left q b r)
  ];
  kept = λ q r. elim (Bool-cases (member q ms)) [
    | inl b ↦ absurd (both (sym (m.asked q b) ∙ r))
    | inr b ↦ h.kept q (left q b r) ∙ old q b
  ];
}
  where
    both : true ≡ false → ⊥
    both e = cc

    gone : (q : ℕ) → member q ms ≡ true → member q (erase_all ms required) ≡ false
    gone q b = rw (member-erase_all q ms required, b) refl

    left :
        (q : ℕ) {v : Bool}
        → member q ms ≡ false
        → member q required ≡ v
        → member q (erase_all ms required) ≡ v
    left q b r = rw (member-erase_all q ms required, b) r

    now :
        (q : ℕ)
        → member q ms ≡ true
        → find q (assign_all ms (emitter_on ai fd) before) ≡ some (emitter_on ai fd)
    now q b = rw (find-assign_all q ms (emitter_on ai fd) before, b) refl

    old :
        (q : ℕ)
        → member q ms ≡ false
        → find q (assign_all ms (emitter_on ai fd) before) ≡ find q before
    old q b = rw (find-assign_all q ms (emitter_on ai fd) before, b) refl

-- How the loop ends.
abbrev pub Eroded :
    Store → List ℕ → List (ℕ × Emitter) → Outcome (Option (List (ℕ × Emitter))) → Type 0
Eroded store required before o =
    (o ≡ fault thrown)
    ⊎ ((after : List (ℕ × Emitter)) × (o ≡ ok (some after)) × Mapped store required before after)

erode_threw :
    (fuel : ℕ) (worlds : ℕ → World) (store : Store) (round ptr : ℕ) (required : List ℕ)
    (dest_em : List (ℕ × Emitter))
    → make_maker (worlds round) store (ptr ∷ required) ≡ fault thrown
    → erode (suc fuel) worlds store round (ptr ∷ required) dest_em ≡ fault thrown
unfolding erode
erode_threw fuel worlds store round ptr required dest_em e = rw e refl

erode_unmatched :
    (fuel : ℕ) (worlds : ℕ → World) (store : Store) (round ptr : ℕ) (required : List ℕ)
    (dest_em : List (ℕ × Emitter)) (mkr : EmitterMaker)
    → make_maker (worlds round) store (ptr ∷ required) ≡ ok mkr
    → mkr.matched ≡ []
    → erode (suc fuel) worlds store round (ptr ∷ required) dest_em ≡ fault thrown
unfolding erode
erode_unmatched fuel worlds store round ptr required dest_em mkr e f = rw (e, f) refl

erode_round :
    (fuel : ℕ) (worlds : ℕ → World) (store : Store) (round ptr m : ℕ) (required ms : List ℕ)
    (dest_em : List (ℕ × Emitter)) (mkr : EmitterMaker) (o : Outcome (List ℕ × List (ℕ × Emitter)))
    → make_maker (worlds round) store (ptr ∷ required) ≡ ok mkr
    → mkr.matched ≡ m ∷ ms
    → make (worlds round).named mkr (ptr ∷ required) dest_em ≡ o
    → erode (suc fuel) worlds store round (ptr ∷ required) dest_em
      ≡ (o >>= λ r. erode fuel worlds store (suc round) r.0 r.1)
unfolding erode
erode_round fuel worlds store round ptr m required ms dest_em mkr o e f g = rw (e, f, g) refl

Mapped-nil : (store : Store) (before : List (ℕ × Emitter)) → Mapped store [] before before
unfolding member
Mapped-nil store before = record { served = λ ptr h. absurd (no_member h); kept = λ ptr h. refl }
  where
    no_member : false ≡ true → ⊥
    no_member h = cc

first_member : (m : ℕ) (ms : List ℕ) → member m (m ∷ ms) ≡ true
unfolding member
first_member m ms = ground arith

-- When each required destination is activated and the fuel is for one emitter to each, the loop
-- does not run out of fuel, whatever the system answers each time: it throws, or gives every
-- required destination an emitter with a socket of a family and protocol that the destination has
-- an address for, and changes nothing for the other destinations.
pub erode-Eroded :
    (fuel : ℕ) (worlds : ℕ → World) (store : Store) (round : ℕ) (required : List ℕ)
    (dest_em : List (ℕ × Emitter))
    → AllActive store required
    → length required ≤ fuel
    → Eroded store required dest_em (erode fuel worlds store round required dest_em)
unfolding erode
erode-Eroded zero worlds store round [] dest_em a h = inr (dest_em, refl, Mapped-nil store dest_em)
erode-Eroded (suc fuel) worlds store round [] dest_em a h =
    inr (dest_em, refl, Mapped-nil store dest_em)
erode-Eroded zero worlds store round (ptr ∷ required) dest_em a h = absurd (omega arith)
erode-Eroded (suc fuel) worlds store round (ptr ∷ required) dest_em a h =
    elim (make_maker-MadeMaker (worlds round) store (ptr ∷ required) a) [
      | threw e ↦ inl (erode_threw fuel worlds store round ptr required dest_em e)
      | unmatched mkr e f ↦
          inl (erode_unmatched fuel worlds store round ptr required dest_em mkr e f)
      | matching mkr ai fd e c ↦ elim (List-cases mkr.matched) [
        | inl f ↦ inl (erode_unmatched fuel worlds store round ptr required dest_em mkr e f)
        | inr (m, ms, f) ↦ elim (Bool-cases (worlds round).named) [
          | inr n ↦ inl (
              erode_round fuel worlds store round ptr m required ms dest_em mkr _ e f (
                ap (λ b. make b mkr (ptr ∷ required) dest_em) n
                ∙ make_unnamed mkr (ptr ∷ required) dest_em ai fd c.is_chosen))
          | inl n ↦
              let rest : List ℕ = erase_all mkr.matched (ptr ∷ required) in
              let assigned : List (ℕ × Emitter) =
                assign_all mkr.matched (emitter_on ai fd) dest_em in
              let step : erode (suc fuel) worlds store round (ptr ∷ required) dest_em
                  ≡ erode fuel worlds store (suc round) rest assigned =
                erode_round fuel worlds store round ptr m required ms dest_em mkr _ e f (
                  ap (λ b. make b mkr (ptr ∷ required) dest_em) n
                  ∙ make_named mkr (ptr ∷ required) dest_em ai fd c.is_chosen) in
              let asked : member m (ptr ∷ required) ≡ true =
                c.matched.asked m (rw f (first_member m ms)) in
              let shorter : length rest < length (ptr ∷ required) =
                rw f (length-erase_all_lt m ms (ptr ∷ required) asked) in
              subst (Eroded store (ptr ∷ required) dest_em) (sym step)
                (elim (erode-Eroded fuel worlds store (suc round) rest assigned
                  (erase_all-AllActive store mkr.matched (ptr ∷ required) a) (omega arith)) [
                    | inl t ↦ inl t
                    | inr (after, g, mapped) ↦ inr (
                      after,
                      g,
                      Mapped-assign store (ptr ∷ required) mkr.matched ai fd dest_em after c.matched
                          mapped,
                    )
                  ])
        ]
      ]
    ]

-- ===== src/Main/Stop.antt =====
-- How the loop stops.
use udptun.Prelude.{
  ℕ, ◌+◌, ◌≤◌, ◌≡◌, refl, ap, ◌∙◌, ◌⊎◌, Bool, true, false, ◌||◌, List, [], ◌∷◌, arith,
  if◌then◌else◌, Bool-cases, inl, inr,
}
use udptun.Main.{Loop, Polled, seconds, fire, poll, react, round, rounds}
use udptun.Main.Quitting.{
  Quitting, check_idle_more, Going, fire_due, fire_rest, fire_still, fire_timer, react_more,
  react-Quitting, react-keeps, check_idle-keeps, noted,
}

pub poll_interrupted : (p : Polled) (m : Loop) → p.interrupted ≡ true → poll p m ≡ m
unfolding poll
poll_interrupted p m e = rw e refl

pub poll_fires : (p : Polled) (m : Loop) → p.interrupted ≡ false → poll p m ≡ fire p.now (noted p m)
unfolding poll
poll_fires p m e = rw e refl

fire-keeps :
    (deadline : ℕ) (p : Polled) (m : Loop)
    → Quitting deadline m
    → Quitting deadline (fire p.now (noted p m))
fire-keeps deadline p m h =
    let (q, w) = fire_rest p.now (noted p m) in
    record {
      quits = q ∙ ap (λ b. b || p.quits) h.quits;
      waits = w ∙ h.waits;
      armed = λ o.
          let (t, o') = fire_still p.now (noted p m) o in
          let (u, f, l) = h.armed o' in (u, t ∙ f, l);
    }

poll-keeps :
    (deadline : ℕ) (p : Polled) (m : Loop) → Quitting deadline m → Quitting deadline (poll p m)
poll-keeps deadline p m h = elim (Bool-cases p.interrupted) [
  | inl i ↦ rw (poll_interrupted p m i) h
  | inr i ↦ rw (poll_fires p m i) (fire-keeps deadline p m h)
]

round-keeps :
    (deadline : ℕ) (p : Polled) (m : Loop) → Quitting deadline m → Quitting deadline (round p m)
unfolding round
round-keeps deadline p m h =
    check_idle-keeps p.later deadline (react p.later (poll p m))
      (react-keeps p.later deadline (poll p m) (poll-keeps deadline p m h))

fire-Going : (p : Polled) (m : Loop) → Going p.later m → Going p.later (fire p.now (noted p m))
fire-Going p m g = record {
  timed = λ t e.
      let (w, l) = g.timed t (fire_timer p.now t (noted p m) e) in
      ((fire_rest p.now (noted p m)).1 ∙ w, l);
}

-- The round in which the program learns that it is to quit.
round-Quitting :
    (p : Polled) (m : Loop)
    → Going p.later m
    → p.interrupted ≡ false
    → p.quits ≡ true
    → Quitting (p.later + seconds 10) (round p m)
unfolding round
round-Quitting p m g i q =
    check_idle-keeps p.later (p.later + seconds 10) (react p.later (poll p m)) (
      rw (poll_fires p m i) (
        react-Quitting p.later (p.later + seconds 10) (fire p.now (noted p m)) told
          (fire-Going p m g) (omega arith)))
  where
    either : (a b : Bool) → b ≡ true → (a || b) ≡ true
    either true b e = refl
    either false b e = e

    told : (fire p.now (noted p m)).quit ≡ true
    told = (fire_rest p.now (noted p m)).0 ∙ either m.quit p.quits q

fire_late :
    (deadline : ℕ) (p : Polled) (m : Loop)
    → Quitting deadline m
    → deadline ≤ p.now
    → (fire p.now (noted p m)).more ≡ false
fire_late deadline p m h l = elim (Bool-cases m.more) [
  | inl o ↦ let (t, f, le) = h.armed o in fire_due p.now t (noted p m) f (omega arith)
  | inr o ↦ ground arith
]

-- A round whose call of `poll` collects at the deadline or after it is the last.
round_late :
    (deadline : ℕ) (p : Polled) (m : Loop)
    → Quitting deadline m
    → p.interrupted ≡ false
    → deadline ≤ p.now
    → (round p m).more ≡ false
unfolding round
round_late deadline p m h i l = check_idle_more p.later (react p.later (poll p m)) (
    react_more p.later (poll p m)
    ∙ ap (λ r. r.more) (poll_fires p m i)
    ∙ fire_late deadline p m h l)

-- Some call of `poll` that is not interrupted collects its events at the deadline or after it.
abbrev pub Comes : ℕ → List Polled → Type 0
Comes deadline [] = ⊥
Comes deadline (p ∷ ps) = ((p.interrupted ≡ false) × (deadline ≤ p.now)) ⊎ Comes deadline ps

rounds_ended : (ps : List Polled) (m : Loop) → m.more ≡ false → rounds ps m ≡ m
unfolding rounds
rounds_ended [] m e = refl
rounds_ended (p ∷ ps) m e = ap (λ b. if b then rounds ps (round p m) else m) e

rounds_next :
    (p : Polled) (ps : List Polled) (m : Loop)
    → m.more ≡ true
    → rounds (p ∷ ps) m ≡ rounds ps (round p m)
unfolding rounds
rounds_next p ps m e = ap (λ b. if b then rounds ps (round p m) else m) e

rounds-Quitting :
    (deadline : ℕ) (ps : List Polled) (m : Loop)
    → Quitting deadline m
    → Comes deadline ps
    → (rounds ps m).more ≡ false
rounds-Quitting deadline [] m h c = absurd c
rounds-Quitting deadline (p ∷ ps) m h c = elim (Bool-cases m.more) [
  | inr o ↦ ap (λ r. r.more) (rounds_ended (p ∷ ps) m o) ∙ o
  | inl o ↦ ap (λ r. r.more) (rounds_next p ps m o) ∙ elim c [
    | inl (i, l) ↦
        let last : (round p m).more ≡ false = round_late deadline p m h i l in
        ap (λ r. r.more) (rounds_ended ps (round p m) last) ∙ last
    | inr d ↦ rounds-Quitting deadline ps (round p m) (round-keeps deadline p m h) d
  ]
]

-- When a timer is set only while the loop waits to be idle, for at most ten seconds from the end
-- of a call of `poll` that notifies a signal to quit: the loop ends, whatever signals come after,
-- whatever the egresses do and however many calls are interrupted, by the first later call of
-- `poll` that is not interrupted and collects its events ten seconds after that one or more.
pub rounds_quit :
    (p : Polled) (ps : List Polled) (m : Loop)
    → Going p.later m
    → p.interrupted ≡ false
    → p.quits ≡ true
    → Comes (p.later + seconds 10) ps
    → (rounds (p ∷ ps) m).more ≡ false
rounds_quit p ps m g i q c = elim (Bool-cases m.more) [
  | inr o ↦ ap (λ r. r.more) (rounds_ended (p ∷ ps) m o) ∙ o
  | inl o ↦
      ap (λ r. r.more) (rounds_next p ps m o)
      ∙ rounds-Quitting (p.later + seconds 10) ps (round p m) (round-Quitting p m g i q) c
]

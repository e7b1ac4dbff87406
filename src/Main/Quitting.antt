-- ===== src/Main/Quitting.antt =====
-- What one round of the loop keeps while it stops.
use udptun.Prelude.{
  ℕ, ◌+◌, ◌≤◌, ◌≡◌, sym, ◌∙◌, true, false, ◌||◌, none, some, arith, Option-cases, inl, inr,
}
use udptun.Main.{Loop, Polled, seconds, fire, react, check_idle}

-- The program is to quit, by the deadline at the latest: the loop has ended, or the timer is set.
pub record Quitting (deadline : ℕ) (m : Loop) : Type 0 where
  pub quits : m.quit ≡ true
  pub waits : m.awaiting_idle ≡ true
  pub armed : m.more ≡ true → (t : ℕ) × (m.timer ≡ some t) × (t ≤ deadline)

pub check_idle_more : (now : ℕ) (m : Loop) → m.more ≡ false → (check_idle now m).more ≡ false
unfolding check_idle
check_idle_more now m e = ground arith

check_idle_rest :
    (now : ℕ) (m : Loop)
    → ((check_idle now m).quit ≡ m.quit)
      × ((check_idle now m).timer ≡ m.timer)
      × ((check_idle now m).awaiting_idle ≡ m.awaiting_idle)
unfolding check_idle
check_idle_rest now m = ground arith

-- A timer is set only while the loop waits to be idle, for at most ten seconds from now.
pub record Going (now : ℕ) (m : Loop) : Type 0 where
  pub timed : (t : ℕ) → m.timer ≡ some t → (m.awaiting_idle ≡ true) × (t ≤ now + seconds 10)

pub fire_due : (now t : ℕ) (m : Loop) → m.timer ≡ some t → t ≤ now → (fire now m).more ≡ false
fire_due now t m e l = ground arith

pub fire_rest :
    (now : ℕ) (m : Loop)
    → ((fire now m).quit ≡ m.quit) × ((fire now m).awaiting_idle ≡ m.awaiting_idle)
fire_rest now m = ground arith

pub fire_still :
    (now : ℕ) (m : Loop)
    → ((fire now m).more ≡ true)
    → ((fire now m).timer ≡ m.timer) × (m.more ≡ true)
fire_still now m e = ground arith

-- After a timer that fired, none is set.
pub fire_timer : (now t : ℕ) (m : Loop) → (fire now m).timer ≡ some t → m.timer ≡ some t
fire_timer now t m e = ground arith

pub react_more : (now : ℕ) (m : Loop) → (react now m).more ≡ m.more
unfolding react
react_more now m = ground arith

-- With the program to quit, a timer is set from then on.
pub react-Quitting :
    (now deadline : ℕ) (m : Loop)
    → m.quit ≡ true
    → Going now m
    → now + seconds 10 ≤ deadline
    → Quitting deadline (react now m)
unfolding react
react-Quitting now deadline m q g l = elim (Option-cases m.timer) [
  | inl e ↦ record {
    quits = ground arith;
    waits = ground arith;
    armed = λ o. (now + seconds 10, ground arith, l);
  }
  | inr (t, e) ↦ record {
    quits = ground arith;
    waits = ground (arith, g.timed t e);
    armed = λ o. (t, ground arith, omega (arith, (g.timed t e).1, l));
  }
]

pub react-keeps :
    (now deadline : ℕ) (m : Loop) → Quitting deadline m → Quitting deadline (react now m)
unfolding react
react-keeps now deadline m h = elim (Option-cases m.timer) [
  | inl e ↦ record {
    quits = ground (arith, h.quits);
    waits = ground (arith, h.quits);
    armed = λ o.
        let running : m.more ≡ true = sym (react_more now m) ∙ o in
        let (t, f, _) = h.armed running in absurd (unset (sym e ∙ f));
  }
  | inr (t, e) ↦ record {
    quits = ground (arith, h.quits, h.waits);
    waits = ground (arith, h.quits, h.waits);
    armed = λ o.
        let running : m.more ≡ true = sym (react_more now m) ∙ o in
        let (u, f, l) = h.armed running in (u, ground (arith, h.quits), l);
  }
]
  where
    unset : {t : ℕ} → none ≡ some t → ⊥
    unset e = cc

check_idle_still : (now : ℕ) (m : Loop) → (check_idle now m).more ≡ true → m.more ≡ true
unfolding check_idle
check_idle_still now m e = ground arith

pub check_idle-keeps :
    (now deadline : ℕ) (m : Loop) → Quitting deadline m → Quitting deadline (check_idle now m)
check_idle-keeps now deadline m h =
    let (q, t, w) = check_idle_rest now m in
    record {
      quits = q ∙ h.quits;
      waits = w ∙ h.waits;
      armed = λ o. let (u, f, l) = h.armed (check_idle_still now m o) in (u, t ∙ f, l);
    }

-- The state that the timed event finds.
abbrev pub noted : Polled → Loop → Loop
noted p m = record m {
  quit = m.quit || p.quits;
  reload = m.reload || p.reloads;
  egresses = p.egresses;
}

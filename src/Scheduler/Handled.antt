-- ===== src/Scheduler/Handled.antt =====
-- What one change of the handler of a signal does to the signals that are watched.
use udptun.Prelude.{
  ℕ, ◌≡◌, refl, sym, ap, ◌∙◌, Bool, true, false, List, [], ◌∷◌, arith, Outcome, ok, fault, ◌>>=◌,
  ◌==◌, if◌then◌else◌, find, put, erase, member, find-put, find-erase, member-insert, member-remove,
  Bool-cases, inl, inr,
}
use udptun.Scheduler.{Scheduler, set_or}
use udptun.Scheduler.Signals.{handled, tidy, same, watch, update_signal, reset, add_signal}

-- The call returns, with a state of which this holds.
abbrev pub Gives : (Scheduler → Type 0) → Outcome Scheduler → Type 0
Gives P (ok t) = P t
Gives P (fault f) = ⊥

pub Gives-bind :
    (P Q : Scheduler → Type 0) (o : Outcome Scheduler) (f : Scheduler → Outcome Scheduler)
    → Gives P o
    → ((t : Scheduler) → P t → Gives Q (f t))
    → Gives Q (o >>= f)
Gives-bind P Q (ok t) f h k = k t h
Gives-bind P Q (fault e) f h k = absurd h

pub record Watched (s : Scheduler) : Type 0 where
  pub tracks : (signo : ℕ) → member signo s.watching ≡ handled signo s

-- The same, but for one signal.
pub record WatchedBut (signo : ℕ) (s : Scheduler) : Type 0 where
  tracks : (x : ℕ) → (signo == x) ≡ false → member x s.watching ≡ handled x s

handled-tidy : (x signo : ℕ) (s : Scheduler) → handled x (tidy signo s) ≡ handled x s
handled-tidy x signo s = ground (arith, find-erase x signo s.handlers)

watching-tidy : (signo : ℕ) (s : Scheduler) → (tidy signo s).watching ≡ s.watching
watching-tidy signo s = ground arith

member-watch :
    (state : Bool) (x signo : ℕ) (watching : List ℕ)
    → member x (watch state signo watching) ≡ (if signo == x then state else member x watching)
member-watch true x signo watching = member-insert x signo watching
member-watch false x signo watching = member-remove x signo watching

pub update_signal-Watched :
    (signo : ℕ) (s : Scheduler) → WatchedBut signo s → Gives Watched (update_signal true signo s)
unfolding update_signal
update_signal-Watched signo s h =
    elim (Bool-cases (same (handled signo s) (member signo s.watching))) [
      | inl e ↦ rw e (record { tracks = λ x. right x e })
      | inr e ↦ rw e (record { tracks = λ x. changed x })
    ]
  where
    right :
        (x : ℕ)
        → same (handled signo s) (member signo s.watching) ≡ true
        → member x (tidy signo s).watching ≡ handled x (tidy signo s)
    right x e =
        rw (watching-tidy signo s, handled-tidy x signo s)
          (elim (Bool-cases (signo == x)) [
            | inl b ↦
                let is_x : signo ≡ x = ground arith in
                rw (sym is_x) (agree (handled signo s) (member signo s.watching) e)
            | inr b ↦ h.tracks x b
          ])
      where
        agree : (a b : Bool) → same a b ≡ true → b ≡ a
        agree true b k = k
        agree false true k = cc
        agree false false k = refl

    changed :
        (x : ℕ) → member x (watch (handled signo s) signo s.watching) ≡ handled x (tidy signo s)
    changed x =
        rw (member-watch (handled signo s) x signo s.watching, handled-tidy x signo s)
          (elim (Bool-cases (signo == x)) [
            | inl b ↦ let is_x : signo ≡ x = ground arith in rw b (ap (λ y. handled y s) is_x)
            | inr b ↦ rw b (h.tracks x b)
          ])

-- Whatever becomes of the handlers of one signal.
put-WatchedBut :
    (signo : ℕ) (evs : List ℕ) (s t : Scheduler)
    → t.watching ≡ s.watching
    → t.handlers ≡ put signo evs s.handlers
    → Watched s
    → WatchedBut signo t
put-WatchedBut signo evs s t w p h = record {
  tracks = λ x b.
      ap (member x) w
      ∙ h.tracks x
      ∙ sym (ap (on x) p ∙ ground (arith, find-put x signo evs s.handlers, b));
}
  where
    on : ℕ → List (ℕ × List ℕ) → Bool
    on x m = elim (set_or (find x m)) [ [] ↦ false | _ ∷ _ ↦ true ]

pub erase-WatchedBut :
    (signo : ℕ) (s t : Scheduler)
    → t.watching ≡ s.watching
    → t.handlers ≡ erase signo s.handlers
    → Watched s
    → WatchedBut signo t
erase-WatchedBut signo s t w p h = record {
  tracks = λ x b.
      ap (member x) w
      ∙ h.tracks x
      ∙ sym (ap (on x) p ∙ ground (arith, find-erase x signo s.handlers, b));
}
  where
    on : ℕ → List (ℕ × List ℕ) → Bool
    on x m = elim (set_or (find x m)) [ [] ↦ false | _ ∷ _ ↦ true ]

pub reset-Watched :
    (signo ev : ℕ) (s : Scheduler) → Watched s → Gives Watched (reset true signo ev s)
unfolding reset
reset-Watched signo ev s h = update_signal-Watched signo _ (put-WatchedBut signo _ s _ refl refl h)

pub add_signal-Watched :
    (signo ev : ℕ) (s : Scheduler) → Watched s → Gives Watched (add_signal true signo ev s)
unfolding add_signal
add_signal-Watched signo ev s h =
    update_signal-Watched signo _ (put-WatchedBut signo _ s _ refl refl h)

pub Watched-signos :
    (s : Scheduler) (m : List (ℕ × ℕ)) → Watched s → Watched (record s { signos = m })
Watched-signos s m h = record { tracks = h.tracks }

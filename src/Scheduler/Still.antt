-- ===== src/Scheduler/Still.antt =====
-- The operations of events that leave the queues alone: those of signals, of times, and of epoll.
use udptun.Prelude.{
  ℕ, ◌≡◌, refl, subst, ◌∙◌, Bool, arith, Outcome, ok, fault, ◌>>=◌, ◌==◌, find, put, insert, remove,
  Option-cases, Bool-cases, inl, inr,
}
use udptun.Scheduler.{Scheduler, Desc, set_or, set_timed, unset_timed}
use udptun.Scheduler.Signals.{
  handled, tidy, update_signal, reset, cancel_signal, add_signal, set_signal, add_desc, remove_desc,
}

-- What holds of the state that a call returns, if it returns.
abbrev pub Returns : (Scheduler → Type 0) → Outcome Scheduler → Type 0
Returns P (ok t) = P t
Returns P (fault f) = Unit {0}

pub Returns-bind :
    (P Q : Scheduler → Type 0) (o : Outcome Scheduler) (f : Scheduler → Outcome Scheduler)
    → Returns P o
    → ((t : Scheduler) → P t → Returns Q (f t))
    → Returns Q (o >>= f)
Returns-bind P Q (ok t) f h k = k t h
Returns-bind P Q (fault e) f h k = tt

pub Returns-ok :
    (P : Scheduler → Type 0) (o : Outcome Scheduler) (t : Scheduler) → Returns P o → o ≡ ok t → P t
Returns-ok P (ok s) t h e = let same_state : s ≡ t = cc in subst P same_state h
Returns-ok P (fault f) t h e = cc

-- The queues are as they were.
abbrev pub Still : Scheduler → Scheduler → Type 0
Still s t = (t.queues ≡ s.queues) × (t.applied ≡ s.applied)

tidy-Still : (signo : ℕ) (s : Scheduler) → Still s (tidy signo s)
tidy-Still signo s = elim (Bool-cases (handled signo s)) [
  | inl e ↦ ground arith
  | inr e ↦ ground arith
]

pub update_signal-Still :
    (signalfd_ok : Bool) (signo : ℕ) (s : Scheduler)
    → Returns (Still s) (update_signal signalfd_ok signo s)
unfolding update_signal
update_signal-Still signalfd_ok signo s = ground (arith, tidy-Still signo s)

reset-Still :
    (signalfd_ok : Bool) (signo ev : ℕ) (s : Scheduler)
    → Returns (Still s) (reset signalfd_ok signo ev s)
unfolding reset
reset-Still signalfd_ok signo ev s =
    update_signal-Still signalfd_ok signo
      (record s { handlers = put signo (remove ev (set_or (find signo s.handlers))) s.handlers })

add_signal-Still :
    (signalfd_ok : Bool) (signo ev : ℕ) (s : Scheduler)
    → Returns (Still s) (add_signal signalfd_ok signo ev s)
unfolding add_signal
add_signal-Still signalfd_ok signo ev s = update_signal-Still signalfd_ok signo (record s {
  handlers = put signo (insert ev (set_or (find signo s.handlers))) s.handlers;
  signos = put ev signo s.signos;
})

Still-trans : (s t u : Scheduler) → Still s t → Still t u → Still s u
Still-trans s t u (q, a) (q', a') = (q' ∙ q, a' ∙ a)

pub weaken :
    (s t : Scheduler) (o : Outcome Scheduler)
    → Still s t
    → Returns (Still t) o
    → Returns (Still s) o
weaken s t (ok u) h k = Still-trans s t u h k
weaken s t (fault f) h k = tt

pub cancel_signal-Still :
    (signalfd_ok : Bool) (ev : ℕ) (s : Scheduler)
    → Returns (Still s) (cancel_signal signalfd_ok ev s)
unfolding cancel_signal
cancel_signal-Still signalfd_ok ev s = elim (Option-cases (find ev s.signos)) [
  | inl e ↦ rw (e, cancel_signal) (refl, refl)
  | inr (signo, e) ↦
      rw (e, cancel_signal)
        (Returns-bind (Still s) (Still s) (reset signalfd_ok signo ev s) _
          (reset-Still signalfd_ok signo ev s) (λ t h. h))
]

pub set_signal-Still :
    (reset_ok add_ok : Bool) (signo ev : ℕ) (s : Scheduler)
    → Returns (Still s) (set_signal reset_ok add_ok signo ev s)
unfolding set_signal
set_signal-Still reset_ok add_ok signo ev s = elim (Bool-cases (signo == 0)) [
  | inl z ↦ rw z (cancel_signal-Still reset_ok ev s)
  | inr z ↦ elim (Option-cases (find ev s.signos)) [
    | inl e ↦ rw (z, e) (add_signal-Still add_ok signo ev s)
    | inr (old, e) ↦ elim (Bool-cases (old == signo)) [
      | inl b ↦ rw (z, e, b) (refl, refl)
      | inr b ↦
          rw (z, e, b)
            (Returns-bind (Still s) (Still s) (reset reset_ok old ev s) _
              (reset-Still reset_ok old ev s)
              (λ t h.
                weaken s t (add_signal add_ok signo ev t) h (add_signal-Still add_ok signo ev t)))
    ]
  ]
]

pub add_desc-Still :
    (ctl_ok : Bool) (ev : ℕ) (d : Desc) (s : Scheduler) → Returns (Still s) (add_desc ctl_ok ev d s)
unfolding add_desc
add_desc-Still ctl_ok ev d s = ground arith

pub remove_desc-Still :
    (ctl_ok : Bool) (ev : ℕ) (s : Scheduler) → Returns (Still s) (remove_desc ctl_ok ev s)
unfolding remove_desc
remove_desc-Still ctl_ok ev s = ground arith

pub set_timed-Still : (when ev : ℕ) (s : Scheduler) → Still s (set_timed when ev s)
unfolding set_timed
set_timed-Still when ev s = ground arith

pub unset_timed-Still : (ev : ℕ) (s : Scheduler) → Still s (unset_timed ev s)
unfolding unset_timed
unset_timed-Still ev s = ground arith

-- ===== src/Scheduler/Unnotified.antt =====
-- No call on an event, outside `poll`, notifies any.
use udptun.Prelude.{
  ℕ, ◌≡◌, refl, ◌∙◌, Bool, List, arith, Outcome, ok, fault, ◌==◌, find, put, insert, remove,
  Option-cases, Bool-cases, inl, inr,
}
use udptun.Scheduler.{
  Scheduler, set_or, dequeue, set_prio, set_idle, cancel_idle, set_timed, unset_timed, cancel_timed,
}
use udptun.Scheduler.Calls.{
  Call, Calls, none_yet, then_call, sets_idle, cancels_idle, sets_timed, cancels_timed, sets_signal,
  cancels_signal, sets_desc, cancels_desc, sets_prio,
}
use udptun.Scheduler.Signals.{
  update_signal, reset, cancel_signal, add_signal, set_signal, add_desc, remove_desc, set_desc,
  cancel_desc,
}
use udptun.Scheduler.Still.{Returns, Returns-bind, Returns-ok}

abbrev Same : Scheduler → Scheduler → Type 0
Same s t = t.notified ≡ s.notified

update_signal-Same :
    (signalfd_ok : Bool) (signo : ℕ) (s : Scheduler)
    → Returns (Same s) (update_signal signalfd_ok signo s)
unfolding update_signal
update_signal-Same signalfd_ok signo s = ground arith

reset-Same : (a : Bool) (signo ev : ℕ) (s : Scheduler) → Returns (Same s) (reset a signo ev s)
unfolding reset
reset-Same a signo ev s =
    update_signal-Same a signo
      (record s { handlers = put signo (remove ev (set_or (find signo s.handlers))) s.handlers })

add_signal-Same :
    (a : Bool) (signo ev : ℕ) (s : Scheduler) → Returns (Same s) (add_signal a signo ev s)
unfolding add_signal
add_signal-Same a signo ev s = update_signal-Same a signo (record s {
  handlers = put signo (insert ev (set_or (find signo s.handlers))) s.handlers;
  signos = put ev signo s.signos;
})

cancel_signal-Same : (a : Bool) (ev : ℕ) (s : Scheduler) → Returns (Same s) (cancel_signal a ev s)
unfolding cancel_signal
cancel_signal-Same a ev s = elim (Option-cases (find ev s.signos)) [
  | inl e ↦ rw (e, cancel_signal) refl
  | inr (signo, e) ↦
      rw (e, cancel_signal)
        (Returns-bind (Same s) (Same s) (reset a signo ev s) _ (reset-Same a signo ev s) (λ t h. h))
]

set_signal-Same :
    (a b : Bool) (signo ev : ℕ) (s : Scheduler) → Returns (Same s) (set_signal a b signo ev s)
unfolding set_signal
set_signal-Same a b signo ev s = elim (Bool-cases (signo == 0)) [
  | inl z ↦ rw z (cancel_signal-Same a ev s)
  | inr z ↦ elim (Option-cases (find ev s.signos)) [
    | inl e ↦ rw (z, e) (add_signal-Same b signo ev s)
    | inr (old, e) ↦ elim (Bool-cases (old == signo)) [
      | inl k ↦ rw (z, e, k) refl
      | inr k ↦
          rw (z, e, k)
            (Returns-bind (Same s) (Same s) (reset a old ev s) _ (reset-Same a old ev s)
              (λ t h. after t h (add_signal b signo ev t) (add_signal-Same b signo ev t)))
    ]
  ]
]
  where
    after :
        (t : Scheduler)
        → Same s t
        → (o : Outcome Scheduler) → Returns (Same t) o
        → Returns (Same s) o
    after t h (ok u) k = k ∙ h
    after t h (fault f) k = tt

set_desc-Same :
    (a b : Bool) (fd : ℕ) (evs : List ℕ) (ev : ℕ) (s : Scheduler)
    → Returns (Same s) (set_desc a b fd evs ev s)
unfolding set_desc remove_desc add_desc dequeue
set_desc-Same a b fd evs ev s = ground arith

cancel_desc-Same : (a : Bool) (ev : ℕ) (s : Scheduler) → Returns (Same s) (cancel_desc a ev s)
unfolding cancel_desc remove_desc dequeue
cancel_desc-Same a ev s = ground arith

set_prio-Same : (p ev : ℕ) (s : Scheduler) → Returns (Same s) (set_prio p ev s)
unfolding set_prio
set_prio-Same p ev s = ground arith

set_timed-Same : (when ev : ℕ) (s : Scheduler) → Same s (set_timed when ev s)
unfolding set_timed
set_timed-Same when ev s = ground arith

cancel_timed-Same : (ev : ℕ) (s : Scheduler) → Same s (cancel_timed ev s)
unfolding cancel_timed unset_timed dequeue
cancel_timed-Same ev s = ground arith

set_idle-Same : (ev : ℕ) (s : Scheduler) → Same s (set_idle ev s)
unfolding set_idle dequeue
set_idle-Same ev s = ground arith

cancel_idle-Same : (ev : ℕ) (s : Scheduler) → Same s (cancel_idle ev s)
unfolding cancel_idle dequeue
cancel_idle-Same ev s = ground arith

Call-Same : (s t : Scheduler) → Call s t → Same s t
Call-Same s t (sets_idle ev e) = rw e (set_idle-Same ev s)
Call-Same s t (cancels_idle ev e) = rw e (cancel_idle-Same ev s)
Call-Same s t (sets_timed when ev e) = rw e (set_timed-Same when ev s)
Call-Same s t (cancels_timed ev e) = rw e (cancel_timed-Same ev s)
Call-Same s t (sets_signal a b signo ev e) =
    Returns-ok (Same s) (set_signal a b signo ev s) t (set_signal-Same a b signo ev s) e
Call-Same s t (cancels_signal a ev e) =
    Returns-ok (Same s) (cancel_signal a ev s) t (cancel_signal-Same a ev s) e
Call-Same s t (sets_desc a b fd evs ev e) =
    Returns-ok (Same s) (set_desc a b fd evs ev s) t (set_desc-Same a b fd evs ev s) e
Call-Same s t (cancels_desc a ev e) =
    Returns-ok (Same s) (cancel_desc a ev s) t (cancel_desc-Same a ev s) e
Call-Same s t (sets_prio p ev e) = Returns-ok (Same s) (set_prio p ev s) t (set_prio-Same p ev s) e

pub Calls-Same : {s t : Scheduler} → Calls s t → Same s t
Calls-Same none_yet = refl
Calls-Same (then_call {t} {u} c k) = Call-Same t u k ∙ Calls-Same c

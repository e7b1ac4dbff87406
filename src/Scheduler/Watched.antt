-- ===== src/Scheduler/Watched.antt =====
-- The signals that are watched are those with handlers.
use udptun.Prelude.{
  ℕ, ◌≡◌, refl, ap, ◌∙◌, Bool, true, List, [], ◌∷◌, arith, Outcome, ok, fault, ◌>>=◌, ◌==◌, find,
  erase, Option-cases, Bool-cases, inl, inr,
}
use udptun.Scheduler.{Scheduler, enqueue, prio_of}
use udptun.Scheduler.Poll.{fire_handlers, take_signal, take_signals}
use udptun.Scheduler.Signals.{reset, cancel_signal, add_signal, set_signal}
use udptun.Scheduler.Handled.{
  Gives, Gives-bind, Watched, update_signal-Watched, erase-WatchedBut, reset-Watched,
  add_signal-Watched, Watched-signos,
}

cancel_signal-Watched :
    (ev : ℕ) (s : Scheduler) → Watched s → Gives Watched (cancel_signal true ev s)
unfolding cancel_signal
cancel_signal-Watched ev s h = elim (Option-cases (find ev s.signos)) [
  | inl e ↦ rw (e, cancel_signal) h
  | inr (signo, e) ↦
      rw (e, cancel_signal)
        (Gives-bind Watched Watched (reset true signo ev s)
          (λ t. ok (record t { signos = erase ev t.signos })) (reset-Watched signo ev s h)
          (λ t k. Watched-signos t (erase ev t.signos) k))
]

set_signal-Watched :
    (signo ev : ℕ) (s : Scheduler) → Watched s → Gives Watched (set_signal true true signo ev s)
unfolding set_signal
set_signal-Watched signo ev s h = elim (Bool-cases (signo == 0)) [
  | inl z ↦ rw z (cancel_signal-Watched ev s h)
  | inr z ↦ elim (Option-cases (find ev s.signos)) [
    | inl e ↦ rw (z, e) (add_signal-Watched signo ev s h)
    | inr (old, e) ↦ elim (Bool-cases (old == signo)) [
      | inl b ↦ rw (z, e, b) h
      | inr b ↦
          rw (z, e, b)
            (Gives-bind Watched Watched (reset true old ev s) (λ t. add_signal true signo ev t)
              (reset-Watched old ev s h) (λ t k. add_signal-Watched signo ev t k))
    ]
  ]
]

enqueue_signals :
    (prio ev : ℕ) (s : Scheduler)
    → ((enqueue prio ev s).handlers ≡ s.handlers) × ((enqueue prio ev s).watching ≡ s.watching)
unfolding enqueue
enqueue_signals prio ev s = ground arith

fire_handlers_signals :
    (evs : List ℕ) (s : Scheduler)
    → ((fire_handlers evs s).handlers ≡ s.handlers) × ((fire_handlers evs s).watching ≡ s.watching)
unfolding fire_handlers
fire_handlers_signals [] s = (refl, refl)
fire_handlers_signals (ev ∷ evs) s =
    let t : Scheduler = record s { signos = erase ev s.signos } in
    let (h, w) = fire_handlers_signals evs (enqueue (prio_of ev t) ev t) in
    let (h', w') = enqueue_signals (prio_of ev t) ev t in (h ∙ h', w ∙ w')

take_signal-Watched :
    (signo : ℕ) (s : Scheduler) → Watched s → Gives Watched (take_signal true signo s)
unfolding take_signal
take_signal-Watched signo s h = elim (Option-cases (find signo s.handlers)) [
  | inl e ↦ rw (e, take_signal) h
  | inr (evs, e) ↦
      let t : Scheduler = fire_handlers evs s in
      let u : Scheduler = record t { handlers = erase signo t.handlers } in
      let (p, w) = fire_handlers_signals evs s in
      rw (e, take_signal)
        (update_signal-Watched signo u (erase-WatchedBut signo s u w (ap (erase signo) p) h))
]

-- A call on a signal event, or the signals that `poll` reads.
pub data SignalCall : Type 0 where
  sets : ℕ → ℕ → SignalCall
  cancels : ℕ → SignalCall
  takes : List ℕ → SignalCall

abbrev pub succeeding : List ℕ → List (ℕ × Bool)
succeeding [] = []
succeeding (signo ∷ signos) = (signo, true) ∷ succeeding signos

-- With `signalfd` succeeding each time.
unfoldable pub call : SignalCall → Scheduler → Outcome Scheduler
call (sets signo ev) s = set_signal true true signo ev s
call (cancels ev) s = cancel_signal true ev s
call (takes signos) s = take_signals (succeeding signos) true s

unfoldable pub calls : List SignalCall → Scheduler → Outcome Scheduler
calls [] s = ok s
calls (c ∷ cs) s = call c s >>= λ t. calls cs t

take_signals-Watched :
    (signos : List ℕ) (s : Scheduler)
    → Watched s
    → Gives Watched (take_signals (succeeding signos) true s)
unfolding take_signals
take_signals-Watched [] s h = h
take_signals-Watched (signo ∷ rest) s h =
    Gives-bind Watched Watched (take_signal true signo s)
      (λ t. take_signals (succeeding rest) true t) (take_signal-Watched signo s h)
      (λ t k. take_signals-Watched rest t k)

call-Watched : (c : SignalCall) (s : Scheduler) → Watched s → Gives Watched (call c s)
unfolding call
call-Watched (sets signo ev) s h = set_signal-Watched signo ev s h
call-Watched (cancels ev) s h = cancel_signal-Watched ev s h
call-Watched (takes signos) s h = take_signals-Watched signos s h

calls-Gives : (cs : List SignalCall) (s : Scheduler) → Watched s → Gives Watched (calls cs s)
unfolding calls
calls-Gives [] s h = h
calls-Gives (c ∷ cs) s h =
    Gives-bind Watched Watched (call c s) (λ t. calls cs t) (call-Watched c s h)
      (λ t k. calls-Gives cs t k)

-- When the signals that are watched are those with handlers, as in a new scheduler, and `signalfd`
-- succeeds: any calls that set and cancel signal events, and any signals that `poll` takes and
-- whose events it puts in the queues, end without an exception, and the signals that are watched
-- are again those with handlers.
pub calls-Watched :
    (cs : List SignalCall) (s : Scheduler)
    → Watched s
    → (t : Scheduler) × (calls cs s ≡ ok t) × Watched t
calls-Watched cs s h = given (calls cs s) (calls-Gives cs s h)
  where
    given : (o : Outcome Scheduler) → Gives Watched o → (t : Scheduler) × (o ≡ ok t) × Watched t
    given (ok t) k = (t, refl, k)
    given (fault f) k = absurd k

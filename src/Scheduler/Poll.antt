-- ===== src/Scheduler/Poll.antt =====
-- `Scheduler::poll`: scheduling.cc. What `epoll_pwait` gives, the signals that are read, and what the
-- events' actions do, are arguments.
use udptun.Prelude.{
  ℕ, zero, suc, Bool, List, [], ◌∷◌, ◌++◌, Option, none, some, Outcome, ok, fault, undefined,
  thrown, ◌>>=◌, leb, if◌then◌else◌, find, put, erase, remove,
}
use udptun.Scheduler.{Scheduler, set_or, prio_of, enqueue, timeout}
use udptun.Scheduler.Signals.{update_signal, update_desc}

unfoldable pub enqueue_all : List ℕ → Scheduler → Scheduler
enqueue_all [] s = s
enqueue_all (ev ∷ evs) s = enqueue_all evs (enqueue (prio_of ev s) ev s)

-- The handlers of a signal, each without its signal from now on.
unfoldable pub fire_handlers : List ℕ → Scheduler → Scheduler
fire_handlers [] s = s
fire_handlers (ev ∷ evs) s =
    let t : Scheduler = record s { signos = erase ev s.signos } in
    fire_handlers evs (enqueue (prio_of ev t) ev t)

-- One signal that was read.
unfoldable pub take_signal : Bool → ℕ → Scheduler → Outcome Scheduler
take_signal signalfd_ok signo s = elim (find signo s.handlers) [
  | none ↦ ok s
  | some evs ↦
      let t = fire_handlers evs s in
      update_signal signalfd_ok signo (record t { handlers = erase signo t.handlers })
]

-- What was triggered: signals, each with whether `signalfd` succeeds for it, and then whether the read
-- that ends them would block; or a descriptor's event, with whether `epoll_ctl` succeeds.
pub data Triggered : Type 0 where
  signals : List (ℕ × Bool) → Bool → Triggered
  descriptor : ℕ → List ℕ → Bool → Triggered

unfoldable pub take_signals : List (ℕ × Bool) → Bool → Scheduler → Outcome Scheduler
take_signals [] would_block s = if would_block then ok s else fault thrown
take_signals ((signo, signalfd_ok) ∷ rest) would_block s =
    take_signal signalfd_ok signo s >>= λ t. take_signals rest would_block t

unfoldable pub take_triggered : Triggered → Scheduler → Outcome Scheduler
take_triggered (signals signos would_block) s = take_signals signos would_block s
take_triggered (descriptor ev events mod_ok) s = elim (find ev s.descs) [
  | none ↦ fault undefined
  | some d ↦ update_desc mod_ok events ev d s >>= λ t. ok (enqueue (prio_of ev t) ev t)
]

unfoldable pub take_all : List Triggered → Scheduler → Outcome Scheduler
take_all [] s = ok s
take_all (t ∷ ts) s = take_triggered t s >>= λ s'. take_all ts s'

-- `ptr->set_ = false; enqueue(ptr);`
unfoldable pub fire_timed : List ℕ → Scheduler → Scheduler
fire_timed [] s = s
fire_timed (ev ∷ evs) s =
    let t : Scheduler = record s { whens = erase ev s.whens } in
    fire_timed evs (enqueue (prio_of ev t) ev t)

-- The timed events up to now; the table is what is left of it.
unfoldable pub collect_timed : ℕ → List (ℕ × List ℕ) → Scheduler → Scheduler
collect_timed now [] s = record s { table = [] }
collect_timed now ((when, evs) ∷ table) s =
    let rest = collect_timed now table (fire_timed evs s) in
    if leb when now then rest else record s { table = (when, evs) ∷ table }

unfoldable pub collect_idle : Scheduler → Scheduler
collect_idle s = record (enqueue_all s.idleness s) { idleness = [] }

-- The first priority with an event.
abbrev pub first_prio : List (ℕ × List ℕ) → Option ℕ
first_prio [] = none
first_prio ((p, []) ∷ queues) = first_prio queues
first_prio ((p, ev ∷ evs) ∷ queues) = some p

abbrev pub queue_at : ℕ → Scheduler → List ℕ
queue_at p s = set_or (find p s.queues)

-- `queue.begin()`
unfoldable pub first_of : List ℕ → Option ℕ
first_of [] = none
first_of (ev ∷ evs) = some ev

-- `queue.erase(iter); ptr->prio_appl = 0;`, and the call of `notify` that follows.
abbrev pub unqueue : ℕ → ℕ → Scheduler → Scheduler
unqueue p ev s = record s {
  queues = put p (remove ev (queue_at p s)) s.queues;
  applied = erase ev s.applied;
  notified = s.notified ++ ev ∷ [];
}

-- An event's action, which may set and cancel events.
abbrev pub Action : Type 0
Action = ℕ → Scheduler → Scheduler

-- The fuel is the number of events that may still be notified; none is for fuel that runs out.
unfoldable pub drain : ℕ → Action → ℕ → Scheduler → Option Scheduler
drain zero act p s = elim (first_of (queue_at p s)) [ none ↦ some s | some ev ↦ none ]
drain (suc fuel) act p s = elim (first_of (queue_at p s)) [
  | none ↦ some s
  | some ev ↦ drain fuel act p (act ev (unqueue p ev s))
]

-- Only the events of one priority are notified.
unfoldable pub dispatch : ℕ → Action → Scheduler → Option Scheduler
dispatch fuel act s = elim (first_prio s.queues) [ none ↦ some s | some p ↦ drain fuel act p s ]

-- What `epoll_pwait` returns.
pub data Polled : Type 0 where
  interrupted failed : Polled
  events : List Triggered → Polled

-- Everything that is due is in the queues.
unfoldable pub collect : ℕ → Scheduler → Scheduler
collect now s = collect_idle (collect_timed now s.table s)

-- The times are those before the wait and after it.
unfoldable pub poll : ℕ → Action → ℕ → ℕ → Polled → Scheduler → Outcome (Option Scheduler)
poll fuel act before now polled s = timeout before s >>= λ r. elim polled [
  | interrupted ↦ ok (some r.1)
  | failed ↦ fault thrown
  | events triggered ↦ take_all triggered r.1 >>= λ t. ok (dispatch fuel act (collect now t))
]

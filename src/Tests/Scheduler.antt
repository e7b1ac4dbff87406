-- ===== src/Tests/Scheduler.antt =====
-- The scheduler's polling, signals and timed events, at concrete inputs.
use udptun.Prelude.{◌≡◌, refl, List, [], ◌∷◌, arith, ok, find, member}
use udptun.Scheduler.Collected.{Timely}
use udptun.Scheduler.Poll.{Action}
use udptun.Scheduler.Queued.{Queued}
use udptun.Scheduler.Timely.{TimedCall, calls-Timely}
use udptun.Scheduler.Timely
use udptun.Scheduler.Watched.{SignalCall, takes, calls-Watched}
use udptun.Scheduler.Handled.{Watched}
use udptun.Scheduler.Watched
use udptun.Scheduler.{Scheduler, set_idle}

-- A scheduler with nothing to do.
abbrev pub quiet : Scheduler
quiet = record {
  queues = [];
  applied = [];
  idleness = [];
  table = [];
  whens = [];
  prios = [];
  handlers = [];
  signos = [];
  watching = [];
  descs = [];
  interest = [];
  notified = [];
}

-- Two timed events, of which one is due at the time 20, and an idle event.
abbrev waiting : Scheduler
waiting = record quiet {
  idleness = 7 ∷ [];
  table = (10, 4 ∷ []) ∷ (30, 5 ∷ []) ∷ [];
  whens = (4, 10) ∷ (5, 30) ∷ [];
}

waiting-Timely : Timely waiting
unfolding find member
waiting-Timely = record { times = ((omega arith, tt), (tt, tt)); placed = λ ev t. ground arith }

-- Each event is set to come when there is nothing else to do.
abbrev idles : Action
idles ev s = set_idle ev s

quiet-Watched : Watched quiet
unfolding find member
quiet-Watched = record { tracks = λ signo. refl }

-- Two events are set for a signal, which is taken, and one is set again.
abbrev signal_calls : List SignalCall
signal_calls = Watched.sets 2 8 ∷ Watched.sets 2 9 ∷ takes (2 ∷ []) ∷ Watched.sets 2 8 ∷ []

calls-Watched_example : (t : Scheduler) × (Watched.calls signal_calls quiet ≡ ok t) × Watched t
calls-Watched_example = calls-Watched signal_calls quiet quiet-Watched

abbrev timed_calls : List TimedCall
timed_calls = Timely.sets 40 4 ∷ Timely.collects 35 ∷ Timely.cancels 4 ∷ []

calls-Timely_example : Timely (Timely.calls timed_calls waiting)
calls-Timely_example = calls-Timely timed_calls waiting waiting-Timely

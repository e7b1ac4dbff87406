-- ===== src/Scheduler/Round.antt =====
-- One call of `poll` as a whole.
use udptun.Prelude.{ℕ, ◌≡◌, Option, some, Outcome, ok}
use udptun.Scheduler.{Scheduler}
use udptun.Scheduler.Collected.{Timely, Due}
use udptun.Scheduler.Drained.{IsEmptied}
use udptun.Scheduler.Notified.{NotifiesFirst}
use udptun.Scheduler.Poll.{Action, collect, first_prio}
use udptun.Scheduler.Queued.{Queued}
use udptun.Scheduler.Still.{Still}

-- What a call of `poll` that notifies leaves.
pub record Polls (act : Action) (now : ℕ) (t : Scheduler) (o : Outcome (Option Scheduler))
    : Type 0 where
  pub after : Scheduler
  pub ended : o ≡ ok (some after)
  pub queued : Queued after
  pub emptied : IsEmptied (first_prio (collect now t).queues) after
  pub notifies : NotifiesFirst act (first_prio (collect now t).queues) (collect now t) after
  pub due : Timely t → Due now t (collect now t)

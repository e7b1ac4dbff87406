-- ===== src/Scheduler.antt =====
-- `Scheduler`: scheduling.hh, scheduling.cc, events.cc, timed.cc and idle.cc; signals, descriptors and
-- polling are in modules of their own. An event is known by a number; a time is in nanoseconds.
pub mod Timeout
pub mod Signals
pub mod Poll
pub mod Queued
pub mod Still
pub mod Calls
pub mod Drained
pub mod Unnotified
pub mod Notified
pub mod Enqueued
pub mod LeftOver
pub mod Collected
pub mod Timely
pub mod Round
pub mod Handled
pub mod Watched
use udptun.Prelude.{
  ℕ, ◌+◌, ◌-◌, ◌*◌, ◌/◌, ◌≤◌, ◌<◌, ◌≡◌, refl, ap, ◌∙◌, Bool, true, false, List, [], ◌∷◌, Option,
  none, some, arith, Outcome, ok, fault, assertion, undefined, thrown, ltb, ◌==◌, if◌then◌else◌,
  find, put, insert, remove, Bool-cases, inl, inr, min, erase,
}

-- `DescriptorEvent`, where its descriptor is not -1. A set of epoll's events is a list of numbers.
pub record Desc : Type 0 where
  pub fd : ℕ
  pub got : List ℕ
  pub expected : List ℕ

-- `queues` are the events to notify, by priority, `table` the timed events by their times, and
-- `whens` the times that events are set for. `applied` is `prio_appl` where that is not zero, and
-- `prios` is `prio_usr` where that was set. `handlers` are the signal events by their signals, and
-- `signos` the signals that events are set for. `interest` is what epoll watches each descriptor for,
-- with the event to tell, and `notified` collects the events that were notified.
pub record Scheduler : Type 0 where
  pub queues : List (ℕ × List ℕ)
  pub applied : List (ℕ × ℕ)
  pub idleness : List ℕ
  pub table : List (ℕ × List ℕ)
  pub whens : List (ℕ × ℕ)
  pub prios : List (ℕ × ℕ)
  pub handlers : List (ℕ × List ℕ)
  pub signos : List (ℕ × ℕ)
  pub watching : List ℕ
  pub descs : List (ℕ × Desc)
  pub interest : List (ℕ × (List ℕ × ℕ))
  pub notified : List ℕ

abbrev pub set_or : Option (List ℕ) → List ℕ
set_or none = []
set_or (some s) = s

-- The argument is the event's priority, which is not zero.
unfoldable pub enqueue : ℕ → ℕ → Scheduler → Scheduler
enqueue prio ev s = elim (find ev s.applied) [
  | some p ↦ s
  | none ↦ record s {
    queues = put prio (insert ev (set_or (find prio s.queues))) s.queues;
    applied = put ev prio s.applied;
  }
]

unfoldable pub dequeue : ℕ → Scheduler → Scheduler
dequeue ev s = elim (find ev s.applied) [
  | none ↦ s
  | some p ↦ record s {
    queues = put p (remove ev (set_or (find p s.queues))) s.queues;
    applied = erase ev s.applied;
  }
]

-- `Event::prio`
unfoldable pub prio_of : ℕ → Scheduler → ℕ
prio_of ev s = elim (find ev s.prios) [ none ↦ 1 | some p ↦ p ]

abbrev pub move : ℕ → ℕ → ℕ → Scheduler → Scheduler
move q p ev s =
    let left = put q (remove ev (set_or (find q s.queues))) s.queues in
    record s {
      queues = put p (insert ev (set_or (find p left))) left;
      applied = put ev p s.applied;
      prios = put ev p s.prios;
    }

unfoldable pub set_prio : ℕ → ℕ → Scheduler → Outcome Scheduler
set_prio p ev s = if p == 0 then fault thrown else elim (find ev s.applied) [
  | none ↦ ok (record s { prios = put ev p s.prios })
  | some q ↦ if q == p then ok (record s { prios = put ev p s.prios }) else ok (move q p ev s)
]

-- `IdleEvent::set` and `IdleEvent::cancel`
unfoldable pub set_idle : ℕ → Scheduler → Scheduler
set_idle ev s = dequeue ev (record s { idleness = insert ev s.idleness })

unfoldable pub cancel_idle : ℕ → Scheduler → Scheduler
cancel_idle ev s = dequeue ev (record s { idleness = remove ev s.idleness })

-- `table[when].insert(mom)` and `table[when].erase(mom)`
unfoldable pub add_time : ℕ → ℕ → List (ℕ × List ℕ) → List (ℕ × List ℕ)
add_time when ev table = put when (insert ev (set_or (find when table))) table

unfoldable pub take_time : ℕ → ℕ → List (ℕ × List ℕ) → List (ℕ × List ℕ)
take_time when ev table = put when (remove ev (set_or (find when table))) table

-- `TimedEvent::set` and `TimedEvent::cancel`
unfoldable pub set_timed : ℕ → ℕ → Scheduler → Scheduler
set_timed when ev s = elim (find ev s.whens) [
  | none ↦ record s { table = add_time when ev s.table; whens = put ev when s.whens }
  | some old ↦ if old == when then s else record s {
    table = add_time when ev (take_time old ev s.table);
    whens = put ev when s.whens;
  }
]

-- The part of `cancel` that takes the event off the table, if it is set.
unfoldable pub unset_timed : ℕ → Scheduler → Scheduler
unset_timed ev s = elim (find ev s.whens) [
  | none ↦ s
  | some old ↦ record s { table = take_time old ev s.table; whens = erase ev s.whens }
]

unfoldable pub cancel_timed : ℕ → Scheduler → Scheduler
cancel_timed ev s = unset_timed ev (dequeue ev s)

abbrev pub all_empty : List (ℕ × List ℕ) → Bool
all_empty [] = true
all_empty ((k, []) ∷ m) = all_empty m
all_empty ((k, e ∷ es) ∷ m) = false

-- The loop that drops the leading entries that are empty.
abbrev pub drop_empty : List (ℕ × List ℕ) → List (ℕ × List ℕ)
drop_empty [] = []
drop_empty ((k, []) ∷ m) = drop_empty m
drop_empty ((k, e ∷ es) ∷ m) = (k, e ∷ es) ∷ m

abbrev pub int_max : ℕ
int_max = 2147483647

-- `none` is -1, to wait for as long as it takes; else the milliseconds to wait.
unfoldable pub timeout : ℕ → Scheduler → Outcome (Option ℕ × Scheduler)
timeout now s =
    if all_empty s.queues
    then elim s.idleness [
      | _ ∷ _ ↦ ok (some 0, s)
      | [] ↦ elim s.table [
        | [] ↦ ok (none, s)
        | _ ∷ _ ↦ elim (drop_empty s.table) [
          | [] ↦ fault undefined
          | first ∷ more ↦
              ok (some (min int_max ((first.0 - now) / 1000000)), record s { table = first ∷ more })
        ]
      ]
    ]
    else ok (some 0, s)

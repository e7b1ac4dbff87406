-- ===== src/Main.antt =====
-- The loop of `trapped_main` in main.cc that polls until it is time to stop or to read the configuration
-- again. A time is in nanoseconds. What a call of `poll` does to the egresses, and which signals it
-- notifies, are arguments.
pub mod Quitting
pub mod Stop
pub mod Idle
use udptun.Prelude.{
  ℕ, ◌+◌, ◌*◌, Bool, true, false, ◌||◌, not, List, [], ◌∷◌, map, Option, none, some, leb,
  if◌then◌else◌,
}
use udptun.Egress.Tcp.{TcpEgress, deactivate, busy}

-- `timer` is the time that `quit_timeout` is set for.
pub record Loop : Type 0 where
  pub quit : Bool
  pub reload : Bool
  pub more : Bool
  pub awaiting_idle : Bool
  pub timer : Option ℕ
  pub egresses : List TcpEgress

-- One call of `poll`: whether it was interrupted, before any event; the time at which it collects the
-- timed events; whether a signal to quit or to reload was notified; the egresses as it leaves them; and
-- the time after it.
pub record Polled : Type 0 where
  pub interrupted : Bool
  pub now : ℕ
  pub later : ℕ
  pub quits : Bool
  pub reloads : Bool
  pub egresses : List TcpEgress

abbrev pub seconds : ℕ → ℕ
seconds n = n * 1000000000

-- The timed event has fired: `more = false`.
abbrev pub fire : ℕ → Loop → Loop
fire now m = elim m.timer [
  | none ↦ m
  | some t ↦ if leb t now then record m { timer = none; more = false } else m
]

unfoldable pub poll : Polled → Loop → Loop
poll p m =
    if p.interrupted
    then m
    else fire p.now (record m {
      quit = m.quit || p.quits;
      reload = m.reload || p.reloads;
      egresses = p.egresses;
    })

abbrev pub stop_all : ℕ → Loop → Loop
stop_all when m = record m {
  egresses = map deactivate m.egresses;
  awaiting_idle = true;
  timer = some when;
}

-- The reaction to `quit` or `reload`.
unfoldable pub react : ℕ → Loop → Loop
react now m =
    if m.quit
    then elim m.timer [ none ↦ stop_all (now + seconds 10) m | some t ↦ m ]
    else if m.reload
    then record (stop_all (now + seconds 1) m) { reload = false }
    else m

-- Every egress is asked, as `busy` also flushes it.
unfoldable pub all_quiet : ℕ → List TcpEgress → Bool × List TcpEgress
all_quiet now [] = (true, [])
all_quiet now (e ∷ es) =
    let r = busy now e in
    let rest = all_quiet now es in (if r.0 then false else rest.0, r.1 ∷ rest.1)

unfoldable pub check_idle : ℕ → Loop → Loop
check_idle now m =
    let r = all_quiet now m.egresses in
    if m.awaiting_idle then record m { egresses = r.1; more = if r.0 then false else m.more } else m

unfoldable pub round : Polled → Loop → Loop
round p m = check_idle p.later (react p.later (poll p m))

-- `while (more)`
unfoldable pub rounds : List Polled → Loop → Loop
rounds [] m = m
rounds (p ∷ ps) m = let next = rounds ps (round p m) in if m.more then next else m

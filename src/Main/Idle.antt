-- ===== src/Main/Idle.antt =====
-- Why the loop ends, and what it leaves.
use udptun.Prelude.{
  ℕ, ◌≡◌, refl, sym, ap, ◌∙◌, ◌⊎◌, Bool, true, false, not, List, [], ◌∷◌, map, none, some, arith,
  leb, if◌then◌else◌, Bool-cases, Option-cases, inl, inr,
}
use udptun.Egress.Connection.{Connection}
use udptun.Egress.Tcp.Flushes.{AllOpen, busy-AllOpen, any_open}
use udptun.Egress.Tcp.{TcpEgress, busy, flush_all, is_empty, deactivate}
use udptun.Main.Stop.{poll_interrupted, poll_fires}
use udptun.Main.Quitting.{noted}
use udptun.Main.{Loop, Polled, fire, poll, react, all_quiet, check_idle, round}

-- No egress has a connection.
abbrev pub AllQuiet : List TcpEgress → Type 0
AllQuiet [] = Unit {0}
AllQuiet (e ∷ es) = (e.conns ≡ []) × AllQuiet es

-- Each connection of each egress has its socket.
abbrev pub AllConnected : List TcpEgress → Type 0
AllConnected [] = Unit {0}
AllConnected (e ∷ es) = AllOpen e.conns × AllConnected es

-- Some connection of some egress has its socket.
abbrev pub any_connected : List TcpEgress → Bool
any_connected [] = false
any_connected (e ∷ es) = if any_open e.conns then true else any_connected es

not_busy : (now : ℕ) (e : TcpEgress) → (busy now e).0 ≡ false → (busy now e).1.conns ≡ []
unfolding busy
not_busy now e h = empty (flush_all now e).conns h
  where
    empty : (conns : List Connection) → not (is_empty conns) ≡ false → conns ≡ []
    empty [] k = refl
    empty (c ∷ conns) k = cc

-- The egresses are quiet just when no connection has its socket.
all_quiet-lem :
    (now : ℕ) (es : List TcpEgress)
    → ((all_quiet now es).0 ≡ not (any_connected es)) × AllConnected (all_quiet now es).1
unfolding all_quiet
all_quiet-lem now [] = (refl, tt)
all_quiet-lem now (e ∷ es) =
    let (b, o) = busy-AllOpen now e in
    let (r, a) = all_quiet-lem now es in (ground (arith, b, r), (o, a))

all_quiet-AllQuiet :
    (now : ℕ) (es : List TcpEgress) → (all_quiet now es).0 ≡ true → AllQuiet (all_quiet now es).1
unfolding all_quiet
all_quiet-AllQuiet now [] h = tt
all_quiet-AllQuiet now (e ∷ es) h = elim (Bool-cases (busy now e).0) [
  | inl b ↦ absurd (unquiet (rw b at h))
  | inr b ↦ (not_busy now e b, all_quiet-AllQuiet now es (rw b at h))
]
  where
    unquiet : false ≡ true → ⊥
    unquiet e = cc

fire_fired :
    (now : ℕ) (m : Loop)
    → m.more ≡ true
    → (fire now m).more ≡ false
    → (t : ℕ) × (m.timer ≡ some t) × (leb t now ≡ true)
fire_fired now m o e = elim (Option-cases m.timer) [
  | inl f ↦ absurd (unset f)
  | inr (t, f) ↦ (t, f, ground arith)
]
  where
    unset : m.timer ≡ none → ⊥
    unset f = ground arith

check_idle_ends :
    (now : ℕ) (m : Loop)
    → m.more ≡ true
    → (check_idle now m).more ≡ false
    → (m.awaiting_idle ≡ true)
      × ((all_quiet now m.egresses).0 ≡ true)
      × ((check_idle now m).egresses ≡ (all_quiet now m.egresses).1)
unfolding check_idle
check_idle_ends now m o e = ground arith

check_idle_quiet :
    (now : ℕ) (m : Loop)
    → m.awaiting_idle ≡ true
    → (all_quiet now m.egresses).0 ≡ true
    → (check_idle now m).more ≡ false
unfolding check_idle
check_idle_quiet now m a q = ground arith

check_idle_awaits : (now : ℕ) (m : Loop) → (check_idle now m).awaiting_idle ≡ m.awaiting_idle
unfolding check_idle
check_idle_awaits now m = ground arith

deactivate_conns : (e : TcpEgress) → (deactivate e).conns ≡ e.conns
unfolding deactivate
deactivate_conns e = refl

any_connected-map : (es : List TcpEgress) → any_connected (map deactivate es) ≡ any_connected es
any_connected-map [] = refl
any_connected-map (e ∷ es) = ground (arith, any_connected-map es, ap any_open (deactivate_conns e))

react_connected :
    (now : ℕ) (m : Loop) → any_connected (react now m).egresses ≡ any_connected m.egresses
unfolding react
react_connected now m = ground (arith, any_connected-map m.egresses)

-- The egresses after the call of `poll`.
abbrev pub polled_egresses : Polled → Loop → List TcpEgress
polled_egresses p m = if p.interrupted then m.egresses else p.egresses

poll_egresses : (p : Polled) (m : Loop) → (poll p m).egresses ≡ polled_egresses p m
unfolding poll
poll_egresses p m = ground arith

react_still : (now : ℕ) (m : Loop) → (react now m).more ≡ m.more
unfolding react
react_still now m = ground arith

-- A running loop ends in a round just because its timer has come, or because it waits to be idle
-- and no egress has a connection left; and a loop that waits to be idle ends in the round in which
-- `poll` leaves no connection with its socket.
pub round-AllQuiet :
    (p : Polled) (m : Loop)
    → m.more ≡ true
    → ((round p m).more ≡ false
        → ((t : ℕ) × (m.timer ≡ some t) × (leb t p.now ≡ true))
          ⊎ (((round p m).awaiting_idle ≡ true) × AllQuiet (round p m).egresses))
      × ((round p m).awaiting_idle ≡ true
          → any_connected (polled_egresses p m) ≡ false
          → (round p m).more ≡ false)
unfolding round
round-AllQuiet p m o = (
  λ e. why e,
  λ a c.
      check_idle_quiet p.later (react p.later (poll p m))
        (sym (check_idle_awaits p.later (react p.later (poll p m))) ∙ a) (quiet c),
)
  where
    quiet :
        any_connected (polled_egresses p m) ≡ false
        → (all_quiet p.later (react p.later (poll p m)).egresses).0 ≡ true
    quiet c =
        (all_quiet-lem p.later (react p.later (poll p m)).egresses).0
        ∙ ap not (react_connected p.later (poll p m) ∙ ap any_connected (poll_egresses p m) ∙ c)

    fired : (poll p m).more ≡ false → (t : ℕ) × (m.timer ≡ some t) × (leb t p.now ≡ true)
    fired e = elim (Bool-cases p.interrupted) [
      | inl i ↦ absurd (still (rw (poll_interrupted p m i) at e))
      | inr i ↦ fire_fired p.now (noted p m) o (rw (poll_fires p m i) at e)
    ]
      where
        still : m.more ≡ false → ⊥
        still f = cc

    why :
        (check_idle p.later (react p.later (poll p m))).more ≡ false
        → ((t : ℕ) × (m.timer ≡ some t) × (leb t p.now ≡ true))
          ⊎ (((check_idle p.later (react p.later (poll p m))).awaiting_idle ≡ true)
              × AllQuiet (check_idle p.later (react p.later (poll p m))).egresses)
    why e = elim (Bool-cases (poll p m).more) [
      | inr f ↦ inl (fired f)
      | inl f ↦
          let (a, q, r) =
            check_idle_ends p.later (react p.later (poll p m)) (react_still p.later (poll p m) ∙ f)
              e in
          inr (
            check_idle_awaits p.later (react p.later (poll p m)) ∙ a,
            rw r (all_quiet-AllQuiet p.later (react p.later (poll p m)).egresses q),
          )
    ]

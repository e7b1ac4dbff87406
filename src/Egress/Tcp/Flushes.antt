-- ===== src/Egress/Tcp/Flushes.antt =====
-- The flushes of an egress.
use native.Mathlib.Nat.{suc-mul}
use udptun.Prelude.{
  ℕ, suc, ◌+◌, ◌-◌, ◌*◌, ◌≡◌, refl, sym, ap, ◌∙◌, Bool, true, false, not, List, [], ◌∷◌, some,
  arith, length, if◌then◌else◌, Bool-cases, inl, inr,
}
use udptun.Egress.Connection.{Connection, flushable, flush}
use udptun.Egress.Tcp.{TcpEgress, set_flush, make, flush_conns, flush_all, is_empty, busy}

abbrev pub any_open : List Connection → Bool
any_open [] = false
any_open (c ∷ conns) = if flushable c then any_open conns else true

-- Every connection has its socket.
abbrev pub AllOpen : List Connection → Type 0
AllOpen [] = Unit {0}
AllOpen (c ∷ conns) = (flushable c ≡ false) × AllOpen conns

flushable-flush : (epoch : ℕ) (c : Connection) → flushable (flush epoch c) ≡ flushable c
unfolding flush flushable
flushable-flush epoch c = refl

flush_conns-open :
    (epoch : ℕ) (conns : List Connection)
    → (not (is_empty (flush_conns epoch conns)) ≡ any_open conns)
      × AllOpen (flush_conns epoch conns)
unfolding flush_conns
flush_conns-open epoch [] = (refl, tt)
flush_conns-open epoch (c ∷ conns) = elim (Bool-cases (flushable c)) [
  | inl b ↦ rw b (flush_conns-open epoch conns)
  | inr b ↦ rw b (refl, (flushable-flush epoch c ∙ b, (flush_conns-open epoch conns).1))
]

-- At any time, `busy` says whether any connection has its socket, and leaves only those that have.
pub busy-AllOpen :
    (now : ℕ) (e : TcpEgress) → ((busy now e).0 ≡ any_open e.conns) × AllOpen (busy now e).1.conns
unfolding busy flush_all set_flush
busy-AllOpen now e = flush_conns-open (now - e.client_timeout) e.conns

-- Flushes at the times of a list.
unfoldable pub flushes : List ℕ → TcpEgress → TcpEgress
flushes [] e = e
flushes (now ∷ times) e = flushes times (flush_all now e)

flush_all_times :
    (now : ℕ) (e : TcpEgress)
    → ((flush_all now e).flush_time ≡ e.flush_time + e.client_timeout)
      × ((flush_all now e).flusher ≡ some (e.flush_time + e.client_timeout))
      × ((flush_all now e).client_timeout ≡ e.client_timeout)
unfolding flush_all set_flush
flush_all_times now e = (refl, refl, refl)

flushes_times :
    (times : List ℕ) (e : TcpEgress)
    → e.flusher ≡ some e.flush_time
    → ((flushes times e).flusher ≡ some (e.flush_time + length times * e.client_timeout))
unfolding flushes
flushes_times [] e f = f ∙ ap some (omega arith)
flushes_times (now ∷ times) e f =
    let (t, u, c) = flush_all_times now e in
    flushes_times times (flush_all now e) (u ∙ ap some (sym t))
    ∙ ap some (rw (t, c) (sum e.flush_time e.client_timeout (length times)))
  where
    sum : (a b n : ℕ) → a + b + n * b ≡ a + suc n * b
    sum a b n = rw (suc-mul n b) (omega arith)

make-flusher :
    (start client_timeout : ℕ)
    → let e = make start client_timeout in
      (e.flusher ≡ some e.flush_time)
      × (e.flush_time ≡ start + client_timeout)
      × (e.client_timeout ≡ client_timeout)
unfolding make set_flush
make-flusher start client_timeout = (refl, refl, refl)

-- However soon one after the other the flushes of an egress come, as one comes for each connection
-- that closes and for each call of `busy`, every one of them puts the next timed flush off by the
-- whole client timeout: after the flushes at some times it is set for that many timeouts after the
-- first.
pub flushes-postponed :
    (start client_timeout : ℕ) (times : List ℕ)
    → (flushes times (make start client_timeout)).flusher
      ≡ some (start + client_timeout + length times * client_timeout)
flushes-postponed start client_timeout times =
    let (f, t, c) = make-flusher start client_timeout in
    flushes_times times (make start client_timeout) f ∙ rw (t, c) refl

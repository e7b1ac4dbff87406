-- ===== src/Egress/Tcp.antt =====
-- `TCPEgress` itself: tcp_egress.hh and tcp_egress.cc:481-631. Time, and what the system answers, are
-- arguments of each call. The byte that tells a peer to stop is collected in `told`, by its socket.
pub mod Flushes
pub mod Activate
use udptun.Prelude.{
  ℕ, zero, suc, ◌+◌, ◌-◌, ◌*◌, ◌≡◌, refl, sym, ap, ◌∙◌, Bool, true, false, not, ◌&&◌, List, [], ◌∷◌,
  ◌++◌, map, Option, none, some, arith, Outcome, ok, fault, thrown, ◌>>=◌, length, if◌then◌else◌,
  Bool-cases, Option-cases, inl, inr, append-nil, length-append,
}
use udptun.Addresses.{AddressEntry, entries}
use udptun.Egress.Connection.{Connection, flushable, flush}
use udptun.Egress.Listener
use udptun.Egress.Listener.{Listener, Errno}

pub record TcpEgress : Type 0 where
  pub conns : List Connection
  pub listeners : List Listener
  pub flush_time : ℕ
  pub flusher : Option ℕ
  pub client_timeout : ℕ
  pub told : List ℕ

unfoldable pub set_flush : TcpEgress → TcpEgress
set_flush e =
    let when : ℕ = e.flush_time + e.client_timeout in
    record e { flush_time = when; flusher = some when }

-- The constructor, at a time, with `clid_timeout`.
unfoldable pub make : ℕ → ℕ → TcpEgress
make now client_timeout = set_flush (record {
  conns = [];
  listeners = [];
  flush_time = now;
  flusher = none;
  client_timeout = client_timeout;
  told = [];
})

-- `Listener::flushable`
abbrev pub listener_flushable : Listener → Bool
listener_flushable l = elim l.rebind_at [ none ↦ not l.sock | some n ↦ false ]

unfoldable pub flush_conns : ℕ → List Connection → List Connection
flush_conns epoch [] = []
flush_conns epoch (c ∷ conns) =
    let rest = flush_conns epoch conns in if flushable c then rest else flush epoch c ∷ rest

unfoldable pub flush_listeners : List Listener → List Listener
flush_listeners [] = []
flush_listeners (l ∷ listeners) =
    let rest = flush_listeners listeners in if listener_flushable l then rest else l ∷ rest

-- `flush`, at a time that the client timeout can be taken from.
unfoldable pub flush_all : ℕ → TcpEgress → TcpEgress
flush_all now e = set_flush (record e {
  conns = flush_conns (now - e.client_timeout) e.conns;
  listeners = flush_listeners e.listeners;
})

abbrev pub is_empty : List Connection → Bool
is_empty [] = true
is_empty (c ∷ conns) = false

unfoldable pub busy : ℕ → TcpEgress → Bool × TcpEgress
busy now e = let e' = flush_all now e in (not (is_empty e'.conns), e')

-- The sockets of the connections that are told to stop.
abbrev pub open_socks : List Connection → List ℕ
open_socks [] = []
open_socks (c ∷ conns) = elim c.sock [ none ↦ open_socks conns | some fd ↦ fd ∷ open_socks conns ]

unfoldable pub deactivate : TcpEgress → TcpEgress
deactivate e = record e { listeners = []; told = e.told ++ open_socks e.conns }

-- The answers of `socket`, `bind` and `listen` for an address, with `errno` before.
pub record Answers : Type 0 where
  pub made : Bool
  pub bound : Bool
  pub listening : Bool
  pub errno : Errno

abbrev pub new_listener : AddressEntry → Errno → Listener
new_listener a errno = record {
  family = a.family;
  protocol = a.protocol;
  addr = a.addr;
  sock = false;
  watching = false;
  rebind_at = none;
  conns = [];
  opened = [];
  errno = errno;
}

unfoldable pub listen_all :
    (AddressEntry → Answers) → List AddressEntry → List Listener → Outcome (List Listener)
listen_all answers [] listeners = ok listeners
listen_all answers (a ∷ addrs) listeners =
    let r = answers a in
    Listener.activate r.made r.bound r.listening (new_listener a r.errno) >>= λ l.
    listen_all answers addrs (listeners ++ l ∷ [])

-- `activate`, on what `get_address_info` finds, or none where it throws.
unfoldable pub activate :
    (AddressEntry → Answers) → Option (List AddressEntry) → TcpEgress → Outcome TcpEgress
activate answers found e = elim found [
  | none ↦ fault thrown
  | some info ↦
      listen_all answers (entries info []) e.listeners >>= λ ls. ok (record e { listeners = ls })
]

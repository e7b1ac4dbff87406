-- ===== src/Egress/Listener.antt =====
-- `TCPEgress::Listener`: tcp_egress.hh and tcp_egress.cc:63-215. What the system answers is given;
-- an address stands for the peer's, which the table of peers is asked for.
use udptun.Prelude.{
  ℕ, ◌≡◌, refl, ◌∙◌, Bool, true, false, not, List, [], ◌∷◌, ◌++◌, Option, none, some, arith,
  Outcome, ok, fault, assertion, ◌==◌, if◌then◌else◌, member, Bool-cases, Option-cases, inl, inr,
  ◌⊎◌,
}
use udptun.Wire.{Bytes}
use udptun.Peers.{Peer, Tab, seek_resolved}

-- `errno`, by the cases that the code makes of it: `again` is for the eight network errors,
-- `nothing` for `ECONNABORTED`, `EINTR`, `ENOBUFS` and `ENOMEM`.
pub data Errno : Type 0 where
  again nothing other : Errno

-- What `accept` answers: a socket and the peer's address, or an error.
pub data Accept : Type 0 where
  accepted : ℕ → ℕ → Accept
  failed : Errno → Accept

-- A connection, as its constructor is called.
pub record Made : Type 0 where
  pub fd : ℕ
  pub peer : Peer

-- `watching` is the descriptor's event, `rebind_at` the delay of the timed event, `conns` the parent's
-- connections that are made here, and `opened` the accepted sockets that are open.
pub record Listener : Type 0 where
  pub family : ℕ
  pub protocol : ℕ
  pub addr : Bytes
  pub sock : Bool
  pub watching : Bool
  pub rebind_at : Option ℕ
  pub conns : List Made
  pub opened : List ℕ
  pub errno : Errno

abbrev pub is_nothing : Errno → Bool
is_nothing nothing = true
is_nothing again = false
is_nothing other = false

-- `fdev.set(sock, EPOLLIN); return;`
unfoldable pub listen_on : Listener → Outcome Listener
listen_on l = if l.sock then ok (record l { watching = true }) else fault assertion

-- The connection of a known peer, or the socket closed again.
unfoldable pub admit : List Tab → ℕ → ℕ → Listener → Listener
admit peers fd addr l = elim (seek_resolved addr peers) [
  | some p ↦ record l {
    conns = l.conns ++ record { fd = fd; peer = p } ∷ [];
    opened = fd ∷ l.opened;
  }
  | none ↦ l
]

-- `handle_fd`, with the answers of `accept`; it goes on waiting when they are used up.
unfoldable pub handle_fd : List Tab → List Accept → Listener → Outcome Listener
handle_fd peers [] l = listen_on l
handle_fd peers (failed again ∷ rest) l = handle_fd peers rest (record l { errno = again })
handle_fd peers (failed nothing ∷ rest) l = listen_on (record l { errno = nothing })
handle_fd peers (failed other ∷ rest) l =
    ok (record l { errno = other; watching = false; sock = false; rebind_at = some 30 })
handle_fd peers (accepted fd addr ∷ rest) l =
    if is_nothing l.errno
    then listen_on (record l { opened = fd ∷ l.opened })
    else listen_on (admit peers fd addr l)

-- `rebind`, by whether `socket`, `bind` and `listen` succeed.
unfoldable pub rebind : Bool → Bool → Bool → Listener → Outcome Listener
rebind made bound listening l =
    if l.sock
    then fault assertion
    else if not made
    then ok (record l { rebind_at = some 30 })
    else if not bound
    then ok (record l { rebind_at = some 65 })
    else if not listening
    then ok (record l { rebind_at = some 30 })
    else ok (record l { sock = true; rebind_at = none; watching = true })

unfoldable pub activate : Bool → Bool → Bool → Listener → Outcome Listener
activate made bound listening l = if l.sock then ok l else rebind made bound listening l

abbrev pub owns : ℕ → List Made → Bool
owns fd [] = false
owns fd (m ∷ ms) = if m.fd == fd then true else owns fd ms

-- Every accepted socket that is open is a connection's.
abbrev pub Owned : Listener → Type 0
Owned l = (fd : ℕ) → member fd l.opened ≡ true → owns fd l.conns ≡ true

-- A listener waits for a connection, or to bind again.
abbrev pub Waits : Listener → Type 0
Waits l =
    ((l.sock ≡ true) × (l.watching ≡ true))
    ⊎ ((l.sock ≡ false) × ((n : ℕ) × (l.rebind_at ≡ some n)))

owns-append :
    (fd : ℕ) (ms : List Made) (m : Made)
    → owns fd (ms ++ m ∷ []) ≡ (if m.fd == fd then true else owns fd ms)
owns-append fd [] m = ground arith
owns-append fd (k ∷ ms) m = ground (arith, owns-append fd ms m)

admit-Owned :
    (peers : List Tab) (fd addr : ℕ) (l : Listener) → Owned l → Owned (admit peers fd addr l)
unfolding admit member
admit-Owned peers fd addr l w = elim (Option-cases (seek_resolved addr peers)) [
  | inl e ↦ rw (e, admit) w
  | inr (p, e) ↦
      rw (e, admit)
        (λ k h. let m : Made = record { fd = fd; peer = p } in owns-append k l.conns m ∙ owned k h)
]
  where
    owned :
        (k : ℕ)
        → member k (fd ∷ l.opened) ≡ true
        → (if fd == k then true else owns k l.conns) ≡ true
    owned k h = elim (Bool-cases (fd == k)) [ inl b ↦ rw b refl | inr b ↦ rw b (w k (rw b at h)) ]

listen_on_open : (l : Listener) → l.sock ≡ true → listen_on l ≡ ok (record l { watching = true })
unfolding listen_on
listen_on_open l e = ground arith

admit-sock : (peers : List Tab) (fd addr : ℕ) (l : Listener) → (admit peers fd addr l).sock ≡ l.sock
unfolding admit
admit-sock peers fd addr l = elim (Option-cases (seek_resolved addr peers)) [
  | inl e ↦ rw (e, admit) refl
  | inr (p, e) ↦ rw (e, admit) refl
]

handle_accepted :
    (peers : List Tab) (fd addr : ℕ) (rest : List Accept) (l : Listener)
    → is_nothing l.errno ≡ false
    → handle_fd peers (accepted fd addr ∷ rest) l ≡ listen_on (admit peers fd addr l)
unfolding handle_fd
handle_accepted peers fd addr rest l e = ground arith

handle_stale :
    (peers : List Tab) (fd addr : ℕ) (rest : List Accept) (l : Listener)
    → is_nothing l.errno ≡ true
    → handle_fd peers (accepted fd addr ∷ rest) l ≡ listen_on (record l { opened = fd ∷ l.opened })
unfolding handle_fd
handle_stale peers fd addr rest l e = ground arith

-- On an open socket, with `errno` not one of the four errors at the start, and each open socket
-- that it accepted a connection's, whatever `accept` answers: the handler ends at no failed
-- assertion, each open socket that it accepted is a connection's, and it waits for the next
-- connection, or for the time to bind again.
pub handle_fd-Waits :
    (peers : List Tab) (answers : List Accept) (l : Listener)
    → l.sock ≡ true
    → is_nothing l.errno ≡ false
    → Owned l
    → (l' : Listener) × (handle_fd peers answers l ≡ ok l') × Owned l' × Waits l'
unfolding handle_fd
handle_fd-Waits peers [] l s e w =
    (record l { watching = true }, listen_on_open l s, w, inl (s, refl))
handle_fd-Waits peers (failed again ∷ rest) l s e w =
    handle_fd-Waits peers rest (record l { errno = again }) s refl w
handle_fd-Waits peers (failed nothing ∷ rest) l s e w =
    (_, listen_on_open (record l { errno = nothing }) s, w, inl (s, refl))
handle_fd-Waits peers (failed other ∷ rest) l s e w = (_, refl, w, inr (refl, (30, refl)))
handle_fd-Waits peers (accepted fd addr ∷ rest) l s e w =
    let open_still : (admit peers fd addr l).sock ≡ true = admit-sock peers fd addr l ∙ s in
    let owned = admit-Owned peers fd addr l w in
    (
      record (admit peers fd addr l) { watching = true },
      handle_accepted peers fd addr rest l e ∙ listen_on_open (admit peers fd addr l) open_still,
      owned,
      inl (open_still, refl),
    )

-- On an open socket, a connection that is accepted while `errno` is one of the four errors is
-- neither closed nor given to a connection object, whoever the peer is.
pub handle_fd_stale :
    (peers : List Tab) (fd addr : ℕ) (rest : List Accept) (l : Listener)
    → l.sock ≡ true
    → is_nothing l.errno ≡ true
    → (l' : Listener) × (handle_fd peers (accepted fd addr ∷ rest) l ≡ ok l')
      × (l'.opened ≡ fd ∷ l.opened)
      × (l'.conns ≡ l.conns)
handle_fd_stale peers fd addr rest l s e = (
  _,
  handle_stale peers fd addr rest l e ∙ listen_on_open (record l { opened = fd ∷ l.opened }) s,
  refl,
  refl,
)

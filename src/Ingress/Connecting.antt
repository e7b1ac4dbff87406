-- ===== src/Ingress/Connecting.antt =====
-- The connection of a `TCPIngress`: `descriptor_ready`, `address_resolved` and `try_connect`. What
-- the system answers to `socket`, `bind`, `fcntl` and `connect` for an address is given.
use udptun.Prelude.{
  ℕ, zero, suc, Bool, true, false, not, ◌&&◌, ◌||◌, List, [], ◌∷◌, Option, none, some, Outcome, ok,
  fault, assertion, undefined, thrown, ◌>>=◌, ◌==◌, if◌then◌else◌,
}
use udptun.Streamer.{Streamer}
use udptun.Ingress.{
  Ingress, Sent, until_connected, until_writable, Family, inet, inet6, other, AddrInfo,
  clear_socket, try_send,
}

-- What `connect` answers on a socket that does not block.
pub data Connect : Type 0 where
  at_once under_way refused : Connect

pub record System : Type 0 where
  pub socket : AddrInfo → Bool
  pub bind : AddrInfo → AddrInfo → Bool
  pub fcntl : AddrInfo → Bool
  pub connect : AddrInfo → Connect

-- The configuration: `bind_info` is what the look-up of `bind_host` gives, if that is not empty.
pub record Config : Type 0 where
  pub ipv4 : Bool
  pub ipv6 : Bool
  pub bind_host : Bool
  pub bind_info : List AddrInfo

-- The events of epoll that a call of the handler is about: a hang-up or input, and being writable.
pub record Events : Type 0 where
  pub closed : Bool
  pub writable : Bool

abbrev pub family_code : Family → ℕ
family_code inet = 4
family_code inet6 = 6
family_code other = 0

abbrev pub skips : Config → AddrInfo → Bool
skips cfg a =
    (family_code a.family == 4) && not cfg.ipv4 || (family_code a.family == 6) && not cfg.ipv6

-- The loop for a bind address that matches by family and protocol.
abbrev pub find_bind : AddrInfo → List AddrInfo → Option AddrInfo
find_bind a [] = none
find_bind a (b ∷ bs) =
    let rest = find_bind a bs in
    if (family_code b.family == family_code a.family) && (b.protocol == a.protocol)
    then some b
    else rest

abbrev pub is_some : Option AddrInfo → Bool
is_some none = false
is_some (some a) = true

-- Whether the loop over the addresses ends at this one, with a socket.
abbrev pub opens : System → Config → AddrInfo → Bool
opens sys cfg a =
    not (skips cfg a)
    && ((not cfg.bind_host || is_some (find_bind a cfg.bind_info)) && sys.socket a)

-- The loop over the addresses: those left from the one that a socket is made for.
unfoldable pub next_address : System → Config → List AddrInfo → List AddrInfo
next_address sys cfg [] = []
next_address sys cfg (a ∷ more) =
    let rest = next_address sys cfg more in if opens sys cfg a then a ∷ more else rest

-- Whether the socket is bound, if there is an address to bind it to.
abbrev pub bound : System → AddrInfo → Option AddrInfo → Bool
bound sys a none = true
bound sys a (some b) = sys.bind a b

module _ (streamer : Streamer) where
  -- A round of `try_connect`: it returns, or goes on with the next address.
  pub data Attempt : Type 0 where
    returns again : Ingress streamer → Attempt

  unfoldable pub connect_round : System → Config → Ingress streamer → Outcome Attempt
  connect_round sys cfg i = elim (next_address sys cfg i.ainf) [
    | [] ↦ ok (returns (record i { ainf = []; retry = some 33 }))
    | a ∷ more ↦
        let opened = record i { sock = true; ainf = a ∷ more; wire = [] } in
        if not (bound sys a (find_bind a cfg.bind_info))
        then ok (again (clear_socket streamer opened))
        else if not (sys.fcntl a)
        then fault thrown
        else elim (sys.connect a) [
          | refused ↦ ok (again (record (clear_socket streamer opened) { ainf = more }))
          | under_way ↦ ok (returns (record opened { watching = some until_connected }))
          | at_once ↦
              ok (returns (record opened { connected = true; watching = some until_writable }))
        ]
  ]

  -- `try_connect`, of as many rounds as there is fuel for.
  unfoldable pub connect_loop :
      ℕ → System → Config → Ingress streamer → Outcome (Option (Ingress streamer))
  connect_loop zero sys cfg i = ok none
  connect_loop (suc fuel) sys cfg i = connect_round sys cfg i >>= λ attempt. elim attempt [
    | returns j ↦ ok (some j)
    | again j ↦ connect_loop fuel sys cfg j
  ]

  unfoldable pub try_connect :
      ℕ → System → Config → Ingress streamer → Outcome (Option (Ingress streamer))
  try_connect fuel sys cfg i = if i.sock then fault assertion else connect_loop fuel sys cfg i

  unfoldable pub address_resolved :
      ℕ → System → Config → List AddrInfo → Ingress streamer → Outcome (Option (Ingress streamer))
  address_resolved fuel sys cfg infos i =
      try_connect fuel sys cfg (record i { resolving = false; ainf = infos; connected = false })

  -- The next address, after a connection that failed.
  unfoldable pub try_next :
      ℕ → System → Config → Ingress streamer → Outcome (Option (Ingress streamer))
  try_next fuel sys cfg i = elim i.ainf [
    | [] ↦ fault undefined
    | a ∷ more ↦ try_connect fuel sys cfg (clear_socket streamer (record i { ainf = more }))
  ]

  -- `soerr` is the error that the socket has, zero if none, where `getsockopt` succeeds.
  unfoldable pub descriptor_ready :
      ℕ
      → System
      → Config
      → List Sent
      → Option ℕ
      → Events
      → Ingress streamer
      → Outcome (Option (Ingress streamer))
  descriptor_ready fuel sys cfg rs soerr evs i =
      if not i.sock
      then fault assertion
      else if evs.closed
      then if not i.connected
        then elim soerr [
          | none ↦ fault thrown
          | some e ↦ if e == 0 then fault assertion else try_next fuel sys cfg i
        ]
        else ok (some (record (clear_socket streamer i) { retry = some 33 }))
      else if not evs.writable
      then fault assertion
      else if not i.connected
      then elim soerr [
        | none ↦ fault thrown
        | some e ↦
            if e == 0
            then ok (some (record i { connected = true; watching = some until_writable }))
            else try_next fuel sys cfg i
      ]
      else try_send streamer fuel rs (record i { upout_ready = true })

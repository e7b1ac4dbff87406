-- ===== src/Destinations.antt =====
-- `Destination` and `DestinationBank`: destinations.hh, destinations.cc, destbank.hh and
-- destbank.cc. A name, a host, a service, a socket address and a shared destination are known by
-- numbers. What `getaddrinfo` finds and what `sendto` returns are arguments.
pub mod Bank
use udptun.Prelude.{
  ℕ, zero, suc, ◌+◌, ◌%◌, Bool, true, false, ◌&&◌, List, [], ◌∷◌, ◌++◌, Option, none, some, Outcome,
  ok, fault, assertion, undefined, thrown, ◌>>=◌, length, get_or, ltb, leb, ◌==◌, if◌then◌else◌,
  find, put, insert,
}

-- The fields of `struct addrinfo` that are used.
pub record AddrInfo : Type 0 where
  pub family : ℕ
  pub protocol : ℕ
  pub addr : ℕ

abbrev pub af_unspec : ℕ
af_unspec = 0

abbrev pub af_inet : ℕ
af_inet = 2

abbrev pub af_inet6 : ℕ
af_inet6 = 10

-- `srv` is none for the empty text. `options` is in the order of insertion.
pub record Destination : Type 0 where
  pub ipv4 : Bool
  pub ipv6 : Bool
  pub host : ℕ
  pub srv : Option ℕ
  pub activated : Bool
  pub options : List AddrInfo

-- What a destination's node of the configuration holds.
pub record Config : Type 0 where
  pub ipv4 : Option Bool
  pub ipv6 : Option Bool
  pub host : Option ℕ
  pub port : Option ℕ

abbrev pub default {ℓ} : {A : Type ℓ} → A → Option A → A
default a none = a
default a (some b) = b

-- The number of the name `localhost`.
abbrev pub localhost : ℕ
localhost = 0

abbrev pub with_srv : Config → Option ℕ → Destination
with_srv cfg srv = record {
  ipv4 = default true cfg.ipv4;
  ipv6 = default true cfg.ipv6;
  host = default localhost cfg.host;
  srv = srv;
  activated = false;
  options = [];
}

-- The constructor: where there is a node, it must have a port.
unfoldable pub new_destination : Option Config → Outcome Destination
new_destination none =
    ok (with_srv (record { ipv4 = none; ipv6 = none; host = none; port = none }) none)
new_destination (some cfg) = elim cfg.port [
  | none ↦ fault thrown
  | some port ↦ ok (with_srv cfg (some port))
]

-- `options.find(std::make_pair(family, protocol))`
unfoldable pub find_option : ℕ → ℕ → List AddrInfo → Option ℕ
find_option family protocol [] = none
find_option family protocol (o ∷ os) =
    let rest = find_option family protocol os in
    if (o.family == family) && (o.protocol == protocol) then some o.addr else rest

unfoldable pub emplace_option : AddrInfo → List AddrInfo → List AddrInfo
emplace_option ai os = elim (find_option ai.family ai.protocol os) [
  | none ↦ os ++ ai ∷ []
  | some a ↦ os
]

unfoldable pub emplace_options : List AddrInfo → List AddrInfo → List AddrInfo
emplace_options [] os = os
emplace_options (ai ∷ infos) os = emplace_options infos (emplace_option ai os)

-- What `get_address_info` finds for a host, a service and a family, or none where it throws.
abbrev pub Resolver : Type 0
Resolver = ℕ → Option ℕ → ℕ → Option (List AddrInfo)

abbrev pub hints_family : Destination → ℕ
hints_family d = if d.ipv4 then if d.ipv6 then af_unspec else af_inet else af_inet6

unfoldable pub activate : Resolver → Destination → Outcome Destination
activate resolve d = if d.activated then ok d else elim (resolve d.host d.srv (hints_family d)) [
  | none ↦ fault thrown
  | some infos ↦ ok (record d { options = emplace_options infos d.options; activated = true })
]

-- `peer` gives the option's address, or none for a null pointer.
unfoldable pub peer : ℕ → ℕ → Destination → Outcome (Option ℕ)
peer family protocol d =
    if d.activated then ok (find_option family protocol d.options) else fault thrown

abbrev pub is_some {ℓ} : {A : Type ℓ} → Option A → Bool
is_some none = false
is_some (some a) = true

unfoldable pub check : ℕ → ℕ → Destination → Outcome Bool
check family protocol d =
    if d.activated then ok (is_some (find_option family protocol d.options)) else fault thrown

-- The result of `sendto`: an error, or how many bytes were sent.
pub data Sendto : Type 0 where
  failed : ℕ → Sendto
  sent : ℕ → Sendto

abbrev pub enosys : ℕ
enosys = 38

-- The result is the error number, which is 0 for success, with the socket address that `sendto` was
-- called for. `logged` says that the logger writes details, which uses the option that was not found.
unfoldable pub send : Bool → (ℕ → Sendto) → ℕ → ℕ → Destination → Outcome (ℕ × Option ℕ)
send logged sendto family protocol d =
    if d.activated
    then elim (find_option family protocol d.options) [
      | none ↦ if logged then fault undefined else ok (enosys, none)
      | some addr ↦ elim (sendto addr) [
        | failed ec ↦ ok (ec, some addr)
        | sent n ↦ ok (0, some addr)
      ]
    ]
    else fault thrown

-- Every destination that was ever made, by the number of its pointer.
abbrev pub Store : Type 0
Store = List (ℕ × Destination)

-- The calls through a pointer.
unfoldable pub activate_at : Resolver → ℕ → Store → Outcome Store
activate_at resolve ptr store = elim (find ptr store) [
  | none ↦ fault undefined
  | some d ↦ activate resolve d >>= λ d'. ok (put ptr d' store)
]

unfoldable pub check_at : ℕ → ℕ → Store → ℕ → Outcome Bool
check_at family protocol store ptr = elim (find ptr store) [
  | none ↦ fault undefined
  | some d ↦ check family protocol d
]

-- ===== src/Ingress.antt =====
-- `TCPIngress`: tcp_ingress.hh and tcp_ingress.cc, over the sources it serves. The socket, epoll
-- and the resolver are the system's: what they answer is given.
pub mod Standing
pub mod Offered
pub mod Sending
pub mod Connecting
pub mod Retry
pub mod Kept
pub mod Reconnect
pub mod Lost
pub mod Unbound
use udptun.Prelude.{
  ℕ, zero, suc, ◌+◌, ◌-◌, Bool, true, false, not, ◌&&◌, ◌||◌, List, [], ◌∷◌, ◌++◌, Option, none,
  some, min, Outcome, ok, fault, assertion, undefined, ◌>>=◌, length, take, concat, ◌==◌,
  if◌then◌else◌, find, put, member,
}
use udptun.Streamer.{Streamer, Offer}
use udptun.Wire.{Bytes}

-- What `sendmsg` answers: the bytes it took, `EAGAIN`, or another error.
pub data Sent : Type 0 where
  upto : ℕ → Sent
  blocked broken : Sent

-- What the descriptor's event waits for.
pub data Interest : Type 0 where
  until_connected until_writable : Interest

-- The fields of an `addrinfo` that the program reads.
pub data Family : Type 0 where
  inet inet6 other : Family

pub record AddrInfo : Type 0 where
  pub family : Family
  pub protocol : ℕ
  pub address : ℕ

-- `streamers.erase(&src)`
abbrev pub erase_source : ℕ → List ℕ → List ℕ
erase_source k [] = []
erase_source k (j ∷ js) = let rest = erase_source k js in if j == k then js else j ∷ rest

module _ (streamer : Streamer) where
  open streamer use {S, describe, consumed, failed}

  -- `watching` is the descriptor's event, `retry` the timed event's delay, `resolving` the address
  -- event. `sources` is the store of the objects that the pointers are to, and `wire` is what the
  -- system has taken on the present connection.
  pub record Ingress : Type 0 where
    pub sock : Bool
    pub connected : Bool
    pub upout_ready : Bool
    pub watching : Option Interest
    pub retry : Option ℕ
    pub resolving : Bool
    pub ainf : List AddrInfo
    pub streamers : List ℕ
    pub streamer_queue : List ℕ
    pub sources : List (ℕ × S)
    pub wire : Bytes

  unfoldable pub clear_socket : Ingress → Ingress
  clear_socket i = record i { sock = false; watching = none }

  -- The end of a round: the source at the head is discarded.
  unfoldable pub discard : ℕ → List ℕ → S → Ingress → Ingress
  discard k ks s i = record i {
    streamers = erase_source k i.streamers;
    streamer_queue = ks;
    sources = put k s i.sources;
  }

  -- The end of a round of `try_send`: it returns, or goes round again with the other answers of
  -- `sendmsg`.
  pub data Step : Type 0 where
    returns : Ingress → Step
    again : List Sent → Ingress → Step

  -- `sendmsg` and what follows it, for an offer of the source `k`.
  unfoldable pub send_offer : Sent → List Sent → ℕ → List ℕ → Offer S → Ingress → Outcome Step
  send_offer r rs k ks offer i = elim r [
    | blocked ↦ consumed offer.source 0 >>= λ (all_done, s). ok (
        returns (record i {
          upout_ready = false;
          sources = put k s i.sources;
          watching = some until_writable;
        }))
    | broken ↦ ok (
        returns (record i {
          upout_ready = false;
          sources = put k (failed offer.source) i.sources;
          sock = false;
          watching = none;
          retry = some 30;
        }))
    | upto n ↦
        let bytes = concat offer.iov in
        let done = min n (length bytes) in
        let i' = record i { upout_ready = false; wire = i.wire ++ take done bytes } in
        consumed offer.source done >>= λ (all_done, s). ok (
          again rs
            (if all_done then discard k ks s i' else record i' { sources = put k s i.sources }))
  ]

  -- The next answer of `sendmsg`, which blocks when the list is used up.
  abbrev pub next_sent : List Sent → Sent × List Sent
  next_sent [] = (blocked, [])
  next_sent (r ∷ rs) = (r, rs)

  -- A round of the loop of `try_send`.
  unfoldable pub send_round : List Sent → Ingress → Outcome Step
  send_round rs i = elim i.streamers [
    | [] ↦ ok (returns i)
    | _ ∷ _ ↦ elim i.streamer_queue [
      | [] ↦ fault undefined
      | k ∷ ks ↦ elim (find k i.sources) [
        | none ↦ fault undefined
        | some src ↦ describe src [] >>= λ offer.
            if offer.more
            then send_offer (next_sent rs).0 (next_sent rs).1 k ks offer i
            else ok (again rs (discard k ks offer.source i))
      ]
    ]
  ]

  -- The loop, of as many rounds as there is fuel for.
  unfoldable pub send_loop : ℕ → List Sent → Ingress → Outcome (Option Ingress)
  send_loop zero rs i = ok none
  send_loop (suc fuel) rs i = send_round rs i >>= λ step. elim step [
    | returns j ↦ ok (some j)
    | again rest j ↦ send_loop fuel rest j
  ]

  unfoldable pub try_send : ℕ → List Sent → Ingress → Outcome (Option Ingress)
  try_send fuel rs i =
      if not (i.sock && i.connected)
      then fault assertion
      else if not i.upout_ready
      then ok (some (record i { watching = some until_writable }))
      else send_loop fuel rs i

  unfoldable pub initiate_lookup : Ingress → Outcome Ingress
  initiate_lookup i = elim i.retry [
    | some _ ↦ fault assertion
    | none ↦
        if i.resolving || i.sock
        then fault assertion
        else ok (record i { ainf = []; resolving = true })
  ]

  unfoldable pub ready : ℕ → List Sent → ℕ → Ingress → Outcome (Option Ingress)
  ready fuel rs k i =
      let was_empty : Bool = elim i.streamers [ [] ↦ true | _ ∷ _ ↦ false ] in
      let i' = record i {
        streamers = i.streamers ++ k ∷ [];
        streamer_queue = i.streamer_queue ++ k ∷ [];
      } in
      if member k i.streamers
      then ok (some i)
      else if not was_empty
      then ok (some i')
      else if not i.sock
      then elim i.retry [
        | some _ ↦ ok (some i')
        | none ↦ if i.resolving then ok (some i') else initiate_lookup i' >>= λ j. ok (some j)
      ]
      else if not i.connected
      then ok (some i')
      else try_send fuel rs i'

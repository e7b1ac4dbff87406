-- ===== src/Egress/Connection.antt =====
-- `TCPEgress::Connection` and its `ClientState`s: tcp_egress.hh:100-158 and tcp_egress.cc. The
-- constructor of a client state is an argument, which `Client` fills; a destination is known by the
-- number of its pointer. Time is an argument of each call. The calls of
-- `Emitter::send`, whose results the code ignores, are collected in `sent`.
pub mod Parse
pub mod Space
pub mod Read
pub mod Receive
pub mod Flush
pub mod Made
pub mod Client
use udptun.Prelude.{
  ℕ, zero, suc, ◌+◌, ◌-◌, ◌<◌, min, Bool, true, false, List, [], ◌∷◌, ◌++◌, map, Option, none, some,
  Outcome, ok, fault, assertion, ◌>>=◌, length, take, drop, ltb, ◌==◌, if◌then◌else◌, find, put,
}
use udptun.Emitters.{Emitter}
use udptun.Wire.{
  Bytes, Message, decode_message, max_clid_bytes, max_label_bytes, max_length_bytes, max_length,
}

pub record Outlet : Type 0 where
  pub destination : ℕ
  pub emitter : Emitter

-- From a label to its destinations, each with the emitter to use.
abbrev pub Outlets : Type 0
Outlets = List (ℕ × List Outlet)

pub record ClientState : Type 0 where
  pub last_used : ℕ
  pub outlets : Outlets

pub record Send : Type 0 where
  pub outlet : Outlet
  pub bytes : Bytes

-- What a label's outlets are sent.
abbrev pub sends : List Outlet → Bytes → List Send
sends outs payload = map (λ o. record { outlet = o; bytes = payload }) outs

pub deliver : ℕ → ℕ → Bytes → ClientState → ClientState × List Send
deliver now label payload st = elim (find label st.outlets) [
  | none ↦ (st, [])
  | some outs ↦ (record st { last_used = now }, sends outs payload)
]

pub expired : ℕ → ClientState → Bool
expired epoch st = ltb st.last_used epoch

-- `buf` is the first `len` bytes of the buffer. `armed` says that the descriptor event is set, and
-- `cleanup` that the parent's idle event is.
pub record Connection : Type 0 where
  pub sock : Option ℕ
  pub buf : Bytes
  pub armed : Bool
  pub cleanup : Bool
  pub clstats : List (ℕ × ClientState)
  pub sent : List Send

-- `sizeof buf`
abbrev pub buffer_size : ℕ
buffer_size = max_clid_bytes + max_label_bytes + max_length_bytes + max_length

-- The constructor of a client state, which may throw: from the client's id to its outlets.
abbrev pub Maker : Type 0
Maker = ℕ → Outcome Outlets

-- `clstats.try_emplace(clid, …)`
abbrev pub seek_client : Maker → ℕ → ℕ → List (ℕ × ClientState) → Outcome ClientState
seek_client make now clid clstats = elim (find clid clstats) [
  | some st ↦ ok st
  | none ↦ do outs ← make clid; ok (record { last_used = now; outlets = outs })
]

-- The part of `process` between decoding a message and consuming it.
pub serve : Maker → ℕ → Connection → Message → Outcome Connection
unfolding deliver
serve make now c m = do
  st ← seek_client make now m.clid c.clstats
  let r = deliver now m.label m.payload st
  ok (record c { clstats = put m.clid r.0 c.clstats; sent = c.sent ++ r.1 })

pub process : Maker → ℕ → Connection → Outcome (Bool × Connection)
process make now c = elim (decode_message c.buf) [
  | none ↦ ok (false, c)
  | some m ↦ do
    c' ← serve make now c m
    ok (true, record c' { buf = drop (6 + length m.payload) c.buf })
]

-- `while (process());`: the fuel is the number of rounds that may still find a message.
pub process_all : ℕ → Maker → ℕ → Connection → Outcome Connection
process_all zero make now c = ok c
process_all (suc fuel) make now c =
    let again = λ (r : Bool × Connection).
      (let more = process_all fuel make now r.1 in if r.0 then more else ok r.1) in
    process make now c >>= again

-- The result of `recv`: the peer has closed, the call failed, or the kernel gives at most so many
-- of the bytes that it holds.
pub data Recv : Type 0 where
  eof failed : Recv
  upto : ℕ → Recv

-- `fdev.cancel(); close(sock), sock = -1; parent.idev.set();`
abbrev pub hang_up : Connection → Connection
hang_up c = record c { sock = none; armed = false; cleanup = true }

-- On the bytes that wait in the kernel; the second result is what it still holds.
read_some : Maker → ℕ → ℕ → Connection → Bytes → Outcome (Connection × Bytes)
read_some make now n c pending =
    let rc = min n (buffer_size - length c.buf) in
    let chunk = take rc pending in
    if length chunk == 0
    then ok (hang_up c, pending)
    else let filled = record c { armed = true; buf = c.buf ++ chunk } in
      do c' ← process_all (suc (length filled.buf)) make now filled; ok (c', drop rc pending)

pub handle_fd : Maker → ℕ → Recv → Connection → Bytes → Outcome (Connection × Bytes)
unfolding read_some
handle_fd make now r c pending = elim c.sock [
  | none ↦ fault assertion
  | some fd ↦ elim r [
    | eof ↦ ok (hang_up c, pending)
    | failed ↦ ok (hang_up c, pending)
    | upto n ↦ read_some make now n c pending
  ]
]

-- `Connection::flushable`
unfoldable pub flushable : Connection → Bool
flushable c = elim c.sock [ none ↦ true | some fd ↦ false ]

pub flush_clients : ℕ → List (ℕ × ClientState) → List (ℕ × ClientState)
unfolding expired
flush_clients epoch [] = []
flush_clients epoch ((clid, st) ∷ rest) =
    let kept = flush_clients epoch rest in if expired epoch st then kept else (clid, st) ∷ kept

-- `Connection::flush`
unfoldable pub flush : ℕ → Connection → Connection
unfolding flush_clients
flush epoch c = record c { clstats = flush_clients epoch c.clstats }

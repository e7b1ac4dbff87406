-- ===== src/Egress/Connection/Read.antt =====
-- What one call of `handle_fd` reads, and the datagrams that messages are to leave as.
use mathlib.Core.List.{map-append}
use udptun.Prelude.{
  ℕ, suc, ◌-◌, ◌<◌, ◌≡◌, List, [], ◌∷◌, ◌++◌, none, some, arith, length, take, drop, min, ◌==◌,
  Outcome, ok, ◌>>=◌, find, map, length-take, false, concat, concat-append, true,
}
use udptun.Wire.{Bytes, Message}
use udptun.Wire.Split.{Splits}
use udptun.Egress.Connection.Parse.{serve_all, process_all-serve_all}
use udptun.Egress.Connection.{
  Connection, ClientState, Outlets, Send, Maker, sends, process_all, buffer_size, read_some,
  handle_fd, upto,
}

-- The events of a connection, each with its time and with what the kernel gives at most. None comes
-- while the kernel holds nothing.
unfoldable pub receive : Maker → Connection → List (ℕ × ℕ) → Bytes → Outcome (Connection × Bytes)
receive make c [] pending = ok (c, pending)
receive make c (e ∷ es) [] = ok (c, [])
receive make c ((now, n) ∷ es) (b ∷ bs) =
    handle_fd make now (upto n) c (b ∷ bs) >>= λ r. receive make r.0 es r.1

abbrev pub Reads : List (ℕ × ℕ) → Type 0
Reads [] = Unit {0}
Reads (e ∷ es) = (0 < e.1) × Reads es

-- The datagrams of one message, by the outlets of its client.
abbrev pub sends_of : (ℕ → Outlets) → Message → List Send
sends_of outlets_of m = elim (find m.label (outlets_of m.clid)) [
  | none ↦ []
  | some outs ↦ sends outs m.payload
]

abbrev pub all_sends : (ℕ → Outlets) → List Message → List Send
all_sends outlets_of ms = concat (map (sends_of outlets_of) ms)

-- Every state in the table has the outlets that its constructor gives.
abbrev pub IsMade : (ℕ → Outlets) → List (ℕ × ClientState) → Type 0
IsMade outlets_of clstats =
    (clid : ℕ) (st : ClientState) → find clid clstats ≡ some st → st.outlets ≡ outlets_of clid

pub record Served (outlets_of : ℕ → Outlets) (c : Connection) (ms : List Message) (c' : Connection)
    : Type 0 where
  pub sent_all : c'.sent ≡ c.sent ++ all_sends outlets_of ms
  pub made : IsMade outlets_of c'.clstats
  pub same_sock : c'.sock ≡ c.sock
  pub same_armed : c'.armed ≡ c.armed

read_some_data :
    (make : Maker) (now n : ℕ) (c : Connection) (b : ℕ) (bs : Bytes)
    → 0 < n
    → length c.buf < buffer_size
    → let k = min n (buffer_size - length c.buf) in
      let filled = c.buf ++ take k (b ∷ bs) in
      read_some make now n c (b ∷ bs) ≡ (
        process_all (suc (length filled)) make now (record c { armed = true; buf = filled })
        >>= λ c'. ok (c', drop k (b ∷ bs)))
unfolding read_some
read_some_data make now n c b bs pos room =
    let k = min n (buffer_size - length c.buf) in
    let some_read : (length (take k (b ∷ bs)) == 0) ≡ false =
      ground (arith, length-take k (b ∷ bs)) in
    rw (some_read, read_some)

handle_fd_open :
    (make : Maker) (now n fd : ℕ) (c : Connection) (pending : Bytes)
    → c.sock ≡ some fd
    → handle_fd make now (upto n) c pending ≡ read_some make now n c pending
unfolding handle_fd
handle_fd_open make now n fd c pending e = ground arith

pub handle_fd_read :
    (make : Maker) (now n fd : ℕ) (c : Connection) (b : ℕ) (bs : Bytes) {r : Bytes}
    {ms : List Message} {d : Connection}
    → c.sock ≡ some fd
    → 0 < n
    → length c.buf < buffer_size
    → Splits r (c.buf ++ take (min n (buffer_size - length c.buf)) (b ∷ bs)) ms
    → serve_all make now (record c { armed = true }) ms ≡ ok d
    → handle_fd make now (upto n) c (b ∷ bs)
      ≡ ok (record d { buf = r }, drop (min n (buffer_size - length c.buf)) (b ∷ bs))
handle_fd_read make now n fd c b bs {ms = ms} e pos room s f = rw (
  handle_fd_open make now n fd c (b ∷ bs) e,
  read_some_data make now n c b bs pos room,
  process_all-serve_all make now
      (suc (length (c.buf ++ take (min n (buffer_size - length c.buf)) (b ∷ bs))))
      (record c { armed = true }) (omega arith) s,
  f,
)

pub all_sends-append :
    (outlets_of : ℕ → Outlets) (ms ns : List Message)
    → all_sends outlets_of (ms ++ ns) ≡ all_sends outlets_of ms ++ all_sends outlets_of ns
all_sends-append outlets_of ms ns = rw (map-append, concat-append)

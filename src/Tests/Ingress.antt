-- ===== src/Tests/Ingress.antt =====
-- An ingress over channels, at concrete inputs.
use udptun.Prelude.{
  ℕ, ◌≡◌, ◌⊎◌, inl, inr, refl, subst, Bool, true, false, List, [], ◌∷◌, ◌++◌, Option, none, some,
  arith, ok, find, drop, Bool-cases, ◌==◌, map, concat,
}
use udptun.Wire.{Bytes, IsBytes, Message, frame, decode_message}
use udptun.Streamer.{Streamer}
use udptun.Channel.{Channel}
use udptun.Channel.AsStreamer.{channel_streamer}
use udptun.Channel.Consume.{Waiting}
use udptun.Ingress.{
  Ingress, upto, blocked, AddrInfo, Family, Interest, try_send, send_loop, clear_socket,
  initiate_lookup,
}
use udptun.Ingress.Connecting.{
  System, Config, Connect, next_address, try_connect, descriptor_ready, address_resolved,
  connect_loop, connect_round,
}
use udptun.Ingress.Lost.{closed-resumes}
use udptun.Ingress.Reconnect.{Event, Reconnects}
use udptun.Ingress.Retry.{Connects, try_connect-Connects}
use udptun.Ingress.Unbound.{try_connect_unbound}
use udptun.Ingress.Sending.{try_send-Standing}
use udptun.Ingress.Standing.{Between, Midst, Broken, Standing}
use udptun.Emitters.{Emitter}
use udptun.Egress.Connection.{Connection, Maker, Outlets}
use udptun.Egress.Connection.Read.{IsMade, Reads, receive, all_sends}
use udptun.Tunnel.{wire-Received}
use udptun.Wire.Split.{AllMessages}
use udptun.Tests.Channel.{
  queue_fifo, waiting_channel, sending_channel, waiting_channel-Waiting, sending_channel-Midway,
  first_message-IsSendable,
}
use udptun.Tests.Wire.{first_message}

abbrev channels : Streamer
channels = channel_streamer queue_fifo

-- One source, on a connection that is ready.
abbrev ingress_of : Channel queue_fifo → Bytes → Ingress channels
ingress_of ch wire = record {
  sock = true;
  connected = true;
  upout_ready = true;
  watching = none;
  retry = none;
  resolving = false;
  ainf = [];
  streamers = 0 ∷ [];
  streamer_queue = 0 ∷ [];
  sources = (0, ch) ∷ [];
  wire = wire;
}

same_some : {A : Type 0} (x y : A) → ◌≡◌ {A = Option A} (some x) (some y) → x ≡ y
same_some x y h = cc

no_value : {A : Type 0} (x : A) → ◌≡◌ {A = Option A} none (some x) → ⊥
no_value x h = cc

find_one :
    (ch : Channel queue_fifo) (j : ℕ) (s : Channel queue_fifo)
    → find j ((0, ch) ∷ []) ≡ some s
    → ch ≡ s
unfolding find
find_one ch j s h = elim (Bool-cases (0 == j)) [
  | inl b ↦ same_some ch s (rw b at h)
  | inr b ↦ absurd (no_value s (rw b at h))
]

find_first : (ch : Channel queue_fifo) → find 0 ((0, ch) ∷ []) ≡ some ch
unfolding find
find_first ch = refl

waiting_ingress-Between : Between channels (ingress_of (waiting_channel first_message) [])
waiting_ingress-Between = record {
  same = refl;
  known = ((waiting_channel first_message, find_first (waiting_channel first_message)), tt);
  idle = λ j s h.
      subst (Waiting queue_fifo) (find_one (waiting_channel first_message) j s h)
        waiting_channel-Waiting;
  frames = [];
  all_frames = tt;
  on_wire = refl;
}

try_send-Standing_example :
    (j : Ingress channels) × (try_send channels 6
        (upto 3 ∷ upto 100 ∷ blocked ∷ [])
        (ingress_of (waiting_channel first_message) [])
      ≡ ok (some j))
    × (Standing channels j ⊎ Broken channels j)
try_send-Standing_example =
    try_send-Standing channels 6 (upto 3 ∷ upto 100 ∷ blocked ∷ [])
      (ingress_of (waiting_channel first_message) []) refl refl refl (inl waiting_ingress-Between)
      (omega arith)

only_source :
    (j : ℕ) (s : Channel queue_fifo)
    → (0 == j) ≡ false
    → find j ((0, sending_channel) ∷ []) ≡ some s
    → Waiting queue_fifo s
unfolding find
only_source j s b h = absurd (no_value s (rw b at h))

abbrev sending_ingress-Midst : Midst channels (ingress_of sending_channel (0 ∷ 1 ∷ 0 ∷ []))
sending_ingress-Midst = record {
  same = refl;
  known = ((sending_channel, find_first sending_channel), tt);
  head = 0;
  tail = [];
  queued = refl;
  source = sending_channel;
  found = find_first sending_channel;
  message = frame first_message;
  reached = 3;
  sending = (first_message, refl, sending_channel-Midway);
  others = only_source;
  frames = [];
  all_frames = tt;
  on_wire = refl;
}

abbrev inet_address : AddrInfo
inet_address = record { family = Family.inet; protocol = 6; address = 1 }

abbrev system : Bool → System
system binds = record {
  socket = λ a. true;
  bind = λ a b. binds;
  fcntl = λ a. true;
  connect = λ a. Connect.refused;
}

abbrev config : Config
config = record { ipv4 = true; ipv6 = true; bind_host = true; bind_info = inet_address ∷ [] }

abbrev resolved_ingress : Ingress channels
resolved_ingress = record (ingress_of (waiting_channel first_message) []) {
  sock = false;
  connected = false;
  upout_ready = false;
  ainf = inet_address ∷ [];
}

try_connect-Connects_example :
    (j : Ingress channels) × (try_connect channels 2 (system true) config resolved_ingress
      ≡ ok (some j))
    × Connects channels j
try_connect-Connects_example =
    try_connect-Connects channels 2 (system true) config resolved_ingress
      (record { binds = λ a b. refl; unblocks = λ a. refl }) refl (omega arith)

inet_address_next : next_address (system false) config (inet_address ∷ []) ≡ inet_address ∷ []
unfolding next_address
inet_address_next = refl

try_connect_unbound_example :
    try_connect channels 1000 (system false) config resolved_ingress ≡ ok none
try_connect_unbound_example =
    try_connect_unbound channels 1000 (system false) config resolved_ingress inet_address [] refl
      inet_address_next refl

-- The connection is lost within a message, and made again at once.
abbrev lost_ingress : Ingress channels
lost_ingress = record (clear_socket channels (ingress_of sending_channel (0 ∷ 1 ∷ 0 ∷ []))) {
  retry = some 33;
}

abbrev ready_system : System
ready_system = record (system true) { connect = λ a. Connect.at_once }

abbrev connected_ingress : Ingress channels
connected_ingress = record lost_ingress {
  retry = none;
  sock = true;
  connected = true;
  watching = some Interest.until_writable;
  ainf = inet_address ∷ [];
  wire = [];
}

lost-Reconnects : Reconnects channels lost_ingress connected_ingress
unfolding initiate_lookup address_resolved try_connect connect_loop connect_round next_address
    clear_socket
lost-Reconnects =
    Reconnects.then_event (Reconnects.then_event Reconnects.not_yet (Event.looks_up refl))
      (Event.resolves 2 ready_system config (inet_address ∷ []) refl)

closed-resumes_example :
    (descriptor_ready channels 5 ready_system config [] none
        (record { closed = true; writable = false })
        (ingress_of sending_channel (0 ∷ 1 ∷ 0 ∷ []))
      ≡ ok (some lost_ingress))
    × ((k : Ingress channels) × (descriptor_ready channels 6 ready_system config
            (upto 100 ∷ [])
            none
            (record { closed = false; writable = true })
            connected_ingress
          ≡ send_loop channels 5 [] k)
        × (k.wire ≡ drop 3 (frame first_message)))
unfolding clear_socket
closed-resumes_example =
    closed-resumes channels 5 ready_system config none (record { closed = true; writable = false })
      (record { closed = false; writable = true }) (ingress_of sending_channel (0 ∷ 1 ∷ 0 ∷ []))
      connected_ingress sending_ingress-Midst [] 100 refl refl refl lost-Reconnects refl refl refl
      refl (omega arith)

abbrev test_emitter : Emitter
test_emitter = record { sock = some 3; family = 2; protocol = 17 }

abbrev outlets_of : ℕ → Outlets
outlets_of clid = (2, record { destination = clid; emitter = test_emitter } ∷ []) ∷ []

abbrev make_outlets : Maker
make_outlets clid = ok (outlets_of clid)

abbrev new_connection : Connection
new_connection = record {
  sock = some 9;
  buf = [];
  armed = true;
  cleanup = false;
  clstats = [];
  sent = [];
}

new_connection-IsMade : IsMade outlets_of []
unfolding find
new_connection-IsMade clid st h = absurd (no_value st h)

sent_ingress-Standing :
    Standing channels (ingress_of (waiting_channel first_message) (frame first_message))
sent_ingress-Standing = inl (record {
  same = refl;
  known = ((waiting_channel first_message, find_first (waiting_channel first_message)), tt);
  idle = λ j s h.
      subst (Waiting queue_fifo) (find_one (waiting_channel first_message) j s h)
        waiting_channel-Waiting;
  frames = frame first_message ∷ [];
  all_frames = ((first_message, refl, first_message-IsSendable), tt);
  on_wire = refl;
})

abbrev eight_reads : List (ℕ × ℕ)
eight_reads = (1, 3) ∷ (2, 1) ∷ (3, 2) ∷ (4, 5) ∷ (5, 5) ∷ (6, 5) ∷ (7, 5) ∷ (8, 5) ∷ []

wire-Received_example :
    (ms : List Message) × (part : Bytes) × (c' : Connection) × AllMessages ms
    × (frame first_message ≡ concat (map frame ms) ++ part)
    × (receive make_outlets new_connection eight_reads (frame first_message) ≡ ok (c', []))
    × (c'.buf ≡ part)
    × (decode_message part ≡ none)
    × (c'.sent ≡ [] ++ all_sends outlets_of ms)
wire-Received_example =
    wire-Received queue_fifo make_outlets outlets_of (λ clid. refl)
      (ingress_of (waiting_channel first_message) (frame first_message)) eight_reads new_connection
      9 sent_ingress-Standing frame-IsBytes refl refl new_connection-IsMade reads (omega arith)
  where
    frame-IsBytes : IsBytes (frame first_message)
    frame-IsBytes = ground arith

    reads : Reads eight_reads
    reads = ground arith

-- ===== src/Lib.antt =====
-- udptun carries UDP datagrams over TCP. At one end, datagrams are absorbed, each from a client that
-- has an id, and queued on channels; an ingress sends the channels' messages on a TCP connection. At
-- the other end, an egress accepts connections from known peers, cuts the stream into messages again,
-- and sends each as a datagram to the destinations of its label, by emitters that belong to the
-- client. A queue holds what does not fit in memory in files, which a quota manager counts.
--
-- The parts, and where they are:
-- - Wire: the format of a message (src/obj/messages.hh, src/obj/marshaling.cc). `label_to_bytes`,
--   `clid_to_bytes` and `length_to_bytes` append what is left of a field; `decode_message` reads a
--   message at the front of a buffer. Wire/Fields has the fields, Wire/Decode the round trip, and
--   Wire/Split the splitting of a stream into messages.
-- - Payload: `Payload::save` and `Payload::load` (src/obj/payloads.cc, src/obj/chunks.hh), with the
--   files that they read (Payload/Load); the arrays that payloads own (Payload/Memory, Payload/Owned),
--   and their moves, as values (Payload/Shifted, Payload/Values).
-- - Queue: `PayloadQueue` (src/obj/queues.cc): what there is to read (Queue/View), reading it
--   (Queue/Peek), adding to it (Queue/Push), the bytes in memory and the telling of the user
--   (Queue/Memory), the stream that writes a removed file (Queue/Lost), and a queue made again after it
--   was destroyed (Queue/Restart), from the names of its files (Queue/Names, Queue/Reread). Queue/AsFifo fills the
--   interface Fifo, which a channel is written over.
-- - Channel: `Channel` (src/obj/channels.cc): what it offers (Channel/Rest, Channel/Describe)
--   and what becomes of it (Channel/Consume). Channel/AsStreamer fills the interface Streamer (src/obj/streamer.hh),
--   which an ingress is written over.
-- - Ingress: `TCPIngress` (src/obj/tcp_ingress.cc): sending (Ingress/Standing, Ingress/Offered,
--   Ingress/Sending), connecting (Ingress/Connecting, Ingress/Retry, Ingress/Unbound), and a lost connection
--   (Ingress/Kept, Ingress/Reconnect, Ingress/Lost).
-- - Destinations: `Destination` (src/obj/destinations.cc) and, in Destinations/Bank, `DestinationBank`
--   (src/obj/destbank.cc), which gives a destination for a name and a hash.
-- - Emitters: `EmitterMaker` and `Emitter` (src/obj/emitters.cc), and the constructor of a client state
--   (src/obj/tcp_egress.cc), which makes emitters until each destination that its channels name has one:
--   what a maker matches (Emitters/Maker) and prefers (Emitters/Counted, Emitters/Counts, Emitters/Best), the loop (Emitters/Erased,
--   Emitters/Erode), the destinations (Emitters/Activate, Emitters/Ready, Emitters/Gather), the
--   outlets (Emitters/Entries, Emitters/Fill, Emitters/Given), the constructor as a whole (Emitters/Client), and sending (Emitters/Send).
-- - Egress: `TCPEgress::Connection` and its client states (Egress/Connection), and
--   `TCPEgress::Listener` (Egress/Listener), both of src/obj/tcp_egress.cc.
--   `TCPEgress` itself is in Egress/Tcp: its flushes (Egress/Tcp/Flushes) and its activation
--   (Egress/Tcp/Activate). A client's first message, with its emitters, is in Egress/Connection/Made and
--   Egress/Connection/Client.
-- - Addresses: `AddressEntry` (src/obj/addrent.cc) and `SocketAddress` (src/obj/sockaddrs.cc): their
--   orders (Addresses/Order), a set of them (Addresses/Set) whatever the order in which they are found
--   (Addresses/Found), and the text of a socket address (Addresses/Text).
-- - Addressing: `AddressEvent` and `AddressManager` (src/obj/addressing.cc): the checks of what the
--   resolver has done (Addressing/Checks), and a lookup from its start (Addressing/Told).
-- - Config: `Config` (src/obj/config.cc): the command line (Config/Switches), and the merging of the
--   files: the schema of a node (Config/Shape), its fields (Config/Subscripts), its content
--   (Config/Content), and the configuration (Config/Merge).
-- - Main: the polling loop of `trapped_main` (src/obj/main.cc): how it stops
--   (Main/Quitting, Main/Stop), and what it leaves when it ends (Main/Idle).
-- - Tunnel: the ingress and the egress together.
-- - Quota: `Quota` (src/obj/quotas.cc): the amounts (Quota/Amounts), the ages
--   (Quota/Placed, Quota/Ages), what a queue tells it (Quota/Asked), and any sequence of calls (Quota/Run).
-- - Clients: `ClientTable` (src/obj/clientid.cc): giving ids (Clients/Consistent,
--   Clients/Ids), purging (Clients/Purged).
-- - Peers: `PeerTable` (src/obj/peers.cc).
-- - Absorber: `UDPAbsorber` (src/obj/udp_absorbers.cc), which shares the client table and feeds the
--   channels.
-- - Scheduler: `Scheduler` (src/obj/scheduling.cc) with its timed, idle, signal and descriptor events
--   (src/obj/timed.cc, src/obj/idle.cc, src/obj/signaling.cc, src/obj/descriptor.cc, src/obj/events.cc):
--   how long it waits (Scheduler/Timeout), signals and descriptors (Scheduler/Signals,
--   Scheduler/Handled, Scheduler/Watched), timed events (Scheduler/Timely), polling (Scheduler/Poll), what polling
--   collects (Scheduler/Enqueued, Scheduler/LeftOver, Scheduler/Collected) and notifies (Scheduler/Queued,
--   Scheduler/Still, Scheduler/Calls, Scheduler/Drained, Scheduler/Unnotified, Scheduler/Notified), and one call of it (Scheduler/Round).
-- - Prelude has what the others share, and Tests the theorems at concrete inputs.
--
-- State is a record, and an operation is a function from it to the next one, in `Outcome` where it
-- can fail: at an assertion, in undefined behaviour, or with an exception. What the system answers
-- (`recv`, `sendmsg`, `accept`, `connect`, the clock, how much a stream flushes) is an argument, so
-- what is proved is proved of all answers. Calls that leave the component are collected in order, in
-- `effects` of a queue, `sent` of a connection and `wire` of an ingress. Numbers are natural; a field
-- on the wire is cut to its two bytes, ids and the quota's sums wrap at 64 bits.
--
-- Loops with no structure of their own take fuel. The bytes of the buffer and one are enough for the
-- egress's loop over messages, as each takes six; the answers of `sendmsg` and the waiting sources are
-- enough for `try_send`, as each round uses up one or the other; the addresses and one are enough for
-- `try_connect` where binding succeeds, and nothing is where it does not; the clients and one are
-- enough for finding an id; the required destinations are enough for the loop that makes emitters, as
-- each emitter serves at least one; the loop that cancels a lookup ends with the first answer of
-- `gai_cancel` that is not EAI_NOTCANCELED; the queued events are enough for the loop that notifies
-- them, as no call on an event adds to them; and sixteen digits are enough for the name of a file, as
-- its key has 64 bits.
--
-- Not modelled: the resolver's thread, the building of the parts from the configuration, and
-- logging. A peer and an address are known by numbers, and a destination by the number of its
-- pointer. The payload and the flags of a datagram are not part of the modelled call of
-- `sendto`.
pub mod Prelude
pub mod Wire
pub mod Payload
pub mod Queue
pub mod Fifo
pub mod Channel
pub mod Streamer
pub mod Ingress
pub mod Destinations
pub mod Emitters
pub mod Egress
pub mod Tunnel
pub mod Quota
pub mod Clients
pub mod Peers
pub mod Absorber
pub mod Addresses
pub mod Addressing
pub mod Config
pub mod Scheduler
pub mod Main
pub mod Tests

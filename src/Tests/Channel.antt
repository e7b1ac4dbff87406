-- ===== src/Tests/Channel.antt =====
-- A channel over a queue of payloads, at concrete inputs.
use udptun.Prelude.{◌≡◌, refl, true, [], ◌∷◌, none, some, arith, ok}
use udptun.Wire.{Message}
use udptun.Fifo.{Fifo}
use udptun.Queue.{PayloadQueue}
use udptun.Queue.AsFifo.{payload_queue}
use udptun.Channel.{Channel, describe, consumed}
use udptun.Channel.Describe.{HasBuffers, Describes, describe-Describes}
use udptun.Channel.Rest.{entry}
use udptun.Channel.Consume.{IsSendable, Midway, Waiting, consumed-Waiting}
use udptun.Tests.Wire.{first_message}
use udptun.Tests.Queue.{spill_all, empty_queue}

abbrev pub queue_fifo : Fifo
queue_fifo = payload_queue spill_all

abbrev pub queue_of : Message → PayloadQueue
queue_of m = record empty_queue { max_mem = 100; sz_mem = 10; queue = entry m ∷ [] }

-- Before its message, and when three bytes of it are sent.
abbrev pub waiting_channel : Message → Channel queue_fifo
waiting_channel m = record {
  label = 2;
  queue = queue_of m;
  current = none;
  clids = 0 ∷ 0 ∷ [];
  channels = 0 ∷ 0 ∷ [];
  lenword = 0 ∷ 0 ∷ [];
  done = 0;
}

abbrev pub sending_channel : Channel queue_fifo
sending_channel = record (waiting_channel first_message) {
  current = some (entry first_message);
  done = 3;
}

waiting_channel-HasBuffers : (m : Message) → HasBuffers queue_fifo (waiting_channel m)
waiting_channel-HasBuffers m = record {
  clids_two = (0, 0, refl);
  channels_two = (0, 0, refl);
  lenword_two = (0, 0, refl);
}

sending_channel-HasBuffers : HasBuffers queue_fifo sending_channel
sending_channel-HasBuffers = record {
  clids_two = (0, 0, refl);
  channels_two = (0, 0, refl);
  lenword_two = (0, 0, refl);
}

pub first_message-IsSendable : IsSendable first_message
first_message-IsSendable = record {
  clid_fits = omega arith;
  some_bytes = omega arith;
  length_fits = omega arith;
}

pub waiting_channel-Waiting : Waiting queue_fifo (waiting_channel first_message)
waiting_channel-Waiting = record {
  buffers = waiting_channel-HasBuffers first_message;
  current = refl;
  entries = ((first_message, refl, refl, first_message-IsSendable), tt);
}

pub sending_channel-Midway : Midway queue_fifo first_message 3 sending_channel
sending_channel-Midway = record {
  buffers = sending_channel-HasBuffers;
  current = refl;
  label = refl;
  sendable = first_message-IsSendable;
  reached = refl;
  unfinished = omega arith;
  front = ([], refl);
  entries = ((first_message, refl, refl, first_message-IsSendable), tt);
}

describe-Describes_example :
    Describes queue_fifo sending_channel first_message [] (describe queue_fifo sending_channel [])
describe-Describes_example =
    describe-Describes queue_fifo sending_channel first_message [] sending_channel-HasBuffers refl
      refl (omega arith) (omega arith) (omega arith) (omega arith)

consumed-Waiting_example :
    (after : Channel queue_fifo) × (consumed queue_fifo sending_channel 5 ≡ ok (true, after))
    × Waiting queue_fifo after
    × (entry first_message ∷ [] ≡ entry first_message ∷ queue_fifo.view after.queue)
consumed-Waiting_example =
    consumed-Waiting queue_fifo sending_channel first_message 3 5 sending_channel-Midway refl

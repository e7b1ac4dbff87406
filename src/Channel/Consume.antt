-- ===== src/Channel/Consume.antt =====
-- A channel as a source of messages: it sends the entries of its queue in order, each as a whole
-- message however it is cut up, and drops an entry when its last byte has been sent.
use udptun.Prelude.{
  ℕ, ◌+◌, ◌-◌, ◌^◌, ◌<◌, ◌≡◌, ◌≢◌, refl, ap, subst, true, false, List, [], ◌∷◌, none, some, arith,
  ok, length,
}
use udptun.Fifo.{Fifo}
use udptun.Streamer.{Answers}
use udptun.Wire.{Bytes, Message, frame}
use udptun.Channel.{Channel, consumed}
use udptun.Channel.Describe.{HasBuffers}
use udptun.Channel.Rest.{entry, length-entry}

-- A message that a channel can send: the length fits, there is a byte, and the id is a `clid_t`.
pub record IsSendable (m : Message) : Type 0 where
  pub clid_fits : m.clid < 256 ^ 8
  pub some_bytes : 0 < length m.payload
  pub length_fits : length m.payload < 65536

-- An entry of the queue for a message that can be sent under this label.
abbrev pub IsEntry : ℕ → Bytes → Type 0
IsEntry label p = (m : Message) × (p ≡ entry m) × (m.label ≡ label) × IsSendable m

abbrev pub AllEntries : ℕ → List Bytes → Type 0
AllEntries label [] = Unit
AllEntries label (p ∷ ps) = IsEntry label p × AllEntries label ps

-- The bytes of a message that can be sent.
abbrev pub IsFrame : Bytes → Type 0
IsFrame f = (m : Message) × (f ≡ frame m) × IsSendable m

module _ (fifo : Fifo) where
  -- The head of the queue is this message, and `n` of its bytes are sent.
  pub record Midway (m : Message) (n : ℕ) (ch : Channel fifo) : Type 0 where
    pub buffers : HasBuffers fifo ch
    pub current : ch.current ≡ some (entry m)
    pub label : m.label ≡ ch.label
    pub sendable : IsSendable m
    pub reached : ch.done ≡ n
    pub unfinished : n < 6 + length m.payload
    pub front : fifo.Front (entry m) ch.queue
    pub entries : AllEntries ch.label (fifo.view ch.queue)

  pub record Waiting (ch : Channel fifo) : Type 0 where
    pub buffers : HasBuffers fifo ch
    pub current : ch.current ≡ none
    pub entries : AllEntries ch.label (fifo.view ch.queue)

  consumed_last :
      (ch : Channel fifo) (m : Message) (k : ℕ)
      → ch.current ≡ some (entry m)
      → ch.done + k ≡ 6 + length m.payload
      → consumed fifo ch k
        ≡ ok (
          true,
          record ch {
            done = ch.done + k;
            queue = fifo.poke (fifo.consume ch.queue);
            current = none;
          },
        )
  unfolding consumed
  consumed_last ch m k cur e =
      let size : length (entry m) - 8 ≡ length m.payload = omega (arith, length-entry m) in
      ground (arith, size)

  consumed_more :
      (ch : Channel fifo) (m : Message) (k : ℕ)
      → ch.current ≡ some (entry m)
      → ch.done + k ≢ 6 + length m.payload
      → consumed fifo ch k ≡ ok (false, record ch { done = ch.done + k })
  unfolding consumed
  consumed_more ch m k cur e =
      let size : length (entry m) - 8 ≡ length m.payload = omega (arith, length-entry m) in
      ground (arith, size)

  -- When part of what was left of a message is sent, the channel says that there is more, and
  -- stays at the message, that much further on.
  pub consumed-Midway :
      (ch : Channel fifo) (m : Message) (n k : ℕ)
      → Midway m n ch
      → n + k < 6 + length m.payload
      → Answers false (Midway m (n + k)) (consumed fifo ch k)
  consumed-Midway ch m n k w h =
      let d : ch.done ≡ n = w.reached in
      record {
        source = record ch { done = ch.done + k };
        returns = consumed_more ch m k w.current (omega arith);
        holds = record {
          buffers = record {
            clids_two = w.buffers.clids_two;
            channels_two = w.buffers.channels_two;
            lenword_two = w.buffers.lenword_two;
          };
          current = w.current;
          label = w.label;
          sendable = w.sendable;
          reached = ap (λ x. x + k) d;
          unfinished = h;
          front = w.front;
          entries = w.entries;
        };
      }

  -- When the last byte of the message that is at the head of the queue is sent, the channel says
  -- so, and the message, and only it, has left the queue; the channel is then between two
  -- messages.
  pub consumed-Waiting :
      (ch : Channel fifo) (m : Message) (n k : ℕ)
      → Midway m n ch
      → n + k ≡ 6 + length m.payload
      → (after : Channel fifo) × (consumed fifo ch k ≡ ok (true, after))
        × Waiting after
        × (fifo.view ch.queue ≡ entry m ∷ fifo.view after.queue)
  consumed-Waiting ch m n k w h =
      let d : ch.done ≡ n = w.reached in
      let seen : fifo.view ch.queue ≡ entry m ∷ fifo.view (fifo.poke (fifo.consume ch.queue)) =
        rw (fifo.view-poke (fifo.consume ch.queue))
          (fifo.view-consume ch.queue (entry m) w.front) in
      let rest = subst (AllEntries ch.label) seen w.entries in
      (
        record ch { done = ch.done + k; queue = fifo.poke (fifo.consume ch.queue); current = none },
        consumed_last ch m k w.current (omega arith),
        record {
          buffers = record {
            clids_two = w.buffers.clids_two;
            channels_two = w.buffers.channels_two;
            lenword_two = w.buffers.lenword_two;
          };
          current = refl;
          entries = rest.1;
        },
        seen,
      )

-- ===== src/Channel/Describe.antt =====
-- What a channel offers to send is the part of its message that has not been sent.
use udptun.Prelude.{
  ◌+◌, ◌-◌, ◌^◌, ◌<◌, ◌≡◌, refl, ap, ◌∙◌, true, false, List, [], ◌++◌, none, some, arith, Outcome,
  ok, fault, assertion, length, take, drop, ltb, ◌==◌, concat,
}
use udptun.Fifo.{Fifo}
use udptun.Wire.{Bytes, Message, frame, push_onto, clid_to_bytes, label_to_bytes, length_to_bytes}
use udptun.Wire.Fields.{IsPair, clid-Encodes, label-Encodes, length-Encodes}
use udptun.Channel.{Channel, Described, unsent, describe_current, describe, le_bytes, le_word}
use udptun.Channel.Rest.{le_word-le_bytes, entry, drop-unsent, offers_lem}

module _ (fifo : Fifo) where
  -- A channel whose buffers have their sizes.
  pub record HasBuffers (ch : Channel fifo) : Type 0 where
    pub clids_two : IsPair ch.clids
    pub channels_two : IsPair ch.channels
    pub lenword_two : IsPair ch.lenword

  -- What `describe` gives for a message of which `done` bytes are sent: the rest of it.
  pub record Describes (ch : Channel fifo) (m : Message) (iov : List Bytes)
      (r : Outcome (Described fifo)) : Type 0 where
    pub result : Described fifo
    pub returns : r ≡ ok result
    pub more : result.more ≡ true
    pub offers : concat result.iov ≡ concat iov ++ drop ch.done (frame m)
    pub keeps : HasBuffers result.channel
    pub same_queue : result.channel.queue ≡ ch.queue
    pub same_current : result.channel.current ≡ ch.current
    pub same_done : result.channel.done ≡ ch.done
    pub same_label : result.channel.label ≡ ch.label

  -- The three fields and the payload, as the function puts them together.
  abbrev described : Channel fifo → Message → List Bytes → Described fifo
  described ch m iov =
      let c = clid_to_bytes m.clid ch.clids ch.done 0 iov in
      let l = label_to_bytes ch.label ch.channels ch.done 2 c.vec in
      let n = length_to_bytes (length m.payload) ch.lenword ch.done 4 l.vec in
      let k = unsent ch.done (length m.payload) in
      record {
        more = true;
        iov = push_onto n.vec (take k (drop (length m.payload - k) m.payload));
        channel = record ch { clids = c.buf; channels = l.buf; lenword = n.buf };
      }

  describe_current-described :
      (ch : Channel fifo) (m : Message) (iov : List Bytes)
      → m.clid < 256 ^ 8
      → 0 < length m.payload
      → length m.payload < 65536
      → ch.done < 6 + length m.payload
      → describe_current fifo ch (entry m) iov ≡ ok (described ch m iov)
  unfolding describe_current
  describe_current-described ch m iov hc pos hl hd =
      let total : length (entry m) ≡ 8 + length m.payload = omega arith in
      let size : length (entry m) - 8 ≡ length m.payload = omega arith in
      let t1 : ltb (length (entry m)) 8 ≡ false = ground arith in
      let t2 : ltb 65535 (length m.payload) ≡ false = ground arith in
      let t3 : (unsent ch.done (length m.payload) == 0) ≡ false = ground arith in
      let back : le_word (le_bytes 8 m.clid) ≡ m.clid = le_word-le_bytes 8 m.clid hc in
      rw (t1, size, back, t2, t3)

  described-Describes :
      (ch : Channel fifo) (m : Message) (iov : List Bytes)
      → HasBuffers ch
      → m.label ≡ ch.label
      → ch.done < 6 + length m.payload
      → Describes ch m iov (ok (described ch m iov))
  described-Describes ch m iov b e hd =
      let c = clid_to_bytes m.clid ch.clids ch.done 0 iov in
      let l = label_to_bytes ch.label ch.channels ch.done 2 c.vec in
      let n = length_to_bytes (length m.payload) ch.lenword ch.done 4 l.vec in
      let (c_bytes, c_two) = clid-Encodes m.clid ch.done 0 ch.clids iov b.clids_two in
      let (l_bytes, l_two) = label-Encodes ch.label ch.done 2 ch.channels c.vec b.channels_two in
      let (n_bytes, n_two) =
        length-Encodes (length m.payload) ch.done 4 ch.lenword l.vec b.lenword_two in
      let k = unsent ch.done (length m.payload) in
      let rest = take k (drop (length m.payload - k) m.payload) in
      let offers : concat (push_onto n.vec rest) ≡ concat iov ++ drop ch.done (frame m) =
        offers_lem iov c.vec l.vec n.vec rest ch.label m ch.done c_bytes l_bytes n_bytes
          (drop-unsent ch.done m.payload hd) e in
      record {
        result = described ch m iov;
        returns = refl;
        more = refl;
        offers = offers;
        keeps = record { clids_two = c_two; channels_two = l_two; lenword_two = n_two };
        same_queue = refl;
        same_current = refl;
        same_done = refl;
        same_label = refl;
      }

  -- The three ways that `describe` can begin.
  describe_some :
      (ch : Channel fifo) (p : Bytes) (iov : List Bytes)
      → ch.current ≡ some p
      → describe fifo ch iov ≡ describe_current fifo ch p iov
  unfolding describe
  describe_some ch p iov cur = ground arith

  describe_peeked :
      (ch : Channel fifo) (p : Bytes) (iov : List Bytes)
      → ch.current ≡ none
      → (fifo.peek ch.queue).0 ≡ some p
      → describe fifo ch iov
        ≡ describe_current fifo
            (record ch { queue = (fifo.peek ch.queue).1; current = some p; done = 0 })
            p
            iov
  unfolding describe
  describe_peeked ch p iov cur top = ground arith

  -- With an empty queue there is nothing to send.
  pub describe-none :
      (ch : Channel fifo) (iov : List Bytes)
      → ch.current ≡ none
      → (fifo.peek ch.queue).0 ≡ none
      → describe fifo ch iov
        ≡ ok (record {
          more = false;
          iov = iov;
          channel = record ch { queue = (fifo.peek ch.queue).1 };
        })
  unfolding describe
  describe-none ch iov cur top = ground arith

  describe_current-empty :
      (ch : Channel fifo) (m : Message) (iov : List Bytes)
      → m.payload ≡ []
      → ch.done ≡ 0
      → describe_current fifo ch (entry m) iov ≡ fault assertion
  unfolding describe_current
  describe_current-empty ch m iov e d =
      let z : length m.payload ≡ 0 = ap length e in
      let total : length (entry m) ≡ 8 + length m.payload = omega arith in
      let size : length (entry m) - 8 ≡ 0 = omega arith in
      let t1 : ltb (length (entry m)) 8 ≡ false = ground arith in
      let t3 : (unsent ch.done 0 == 0) ≡ true = ground arith in rw (t1, size, t3)

  -- While a message that can be sent is being sent, and not all of it is, what the channel offers,
  -- after what is in the vector already, is the bytes of the message that have not been sent,
  -- however many that is; the buffers keep their sizes, and the queue, the message, the count and
  -- the label are as before.
  pub describe-Describes :
      (ch : Channel fifo) (m : Message) (iov : List Bytes)
      → HasBuffers ch
      → ch.current ≡ some (entry m)
      → m.label ≡ ch.label
      → m.clid < 256 ^ 8
      → 0 < length m.payload
      → length m.payload < 65536
      → ch.done < 6 + length m.payload
      → Describes ch m iov (describe fifo ch iov)
  describe-Describes ch m iov b cur e hc pos hl hd =
      rw (describe_some ch (entry m) iov cur, describe_current-described ch m iov hc pos hl hd)
        (described-Describes ch m iov b e hd)

  -- With no message being sent and one that can be sent at the head of the queue, the channel
  -- takes it, and offers all of it, whatever was sent before.
  pub describe-Describes_fresh :
      (ch : Channel fifo) (m : Message) (iov : List Bytes)
      → HasBuffers ch
      → ch.current ≡ none
      → (fifo.peek ch.queue).0 ≡ some (entry m)
      → m.label ≡ ch.label
      → m.clid < 256 ^ 8
      → 0 < length m.payload
      → length m.payload < 65536
      → let begun : Channel fifo = record ch {
        queue = (fifo.peek ch.queue).1;
        current = some (entry m);
        done = 0;
      } in
        Describes begun m iov (describe fifo ch iov)
  describe-Describes_fresh ch m iov b cur top e hc pos hl =
      let begun : Channel fifo = record ch {
        queue = (fifo.peek ch.queue).1;
        current = some (entry m);
        done = 0;
      } in
      rw
        (
          describe_peeked ch (entry m) iov cur top,
          describe_current-described begun m iov hc pos hl (omega arith),
        )
        (described-Describes begun m iov
          (record {
            clids_two = b.clids_two;
            channels_two = b.channels_two;
            lenword_two = b.lenword_two;
          })
          e (omega arith))

  -- With no message being sent and an entry for a datagram without a byte at the head of the
  -- queue, `describe` ends the program at an assertion.
  pub describe-empty :
      (ch : Channel fifo) (m : Message) (iov : List Bytes)
      → ch.current ≡ none
      → (fifo.peek ch.queue).0 ≡ some (entry m)
      → m.payload ≡ []
      → describe fifo ch iov ≡ fault assertion
  describe-empty ch m iov cur top e =
      describe_peeked ch (entry m) iov cur top ∙ describe_current-empty _ m iov e refl

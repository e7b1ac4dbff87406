-- ===== src/Channel/AsStreamer.antt =====
-- A channel is what an ingress relies on.
use udptun.Prelude.{
  ℕ, ◌+◌, ◌<◌, ◌≡◌, ◌⊎◌, refl, sym, ap, subst, ◌∙◌, true, false, List, [], some, inl, inr, arith,
  Outcome, ok, ◌>>=◌, length, drop, Option-cases,
}
use udptun.Fifo.{Fifo}
use udptun.Streamer.{Streamer, Offer, Offers, OffersNone, Answers}
use udptun.Wire.{Bytes, Message, frame}
use udptun.Wire.Decode.{length-frame}
use udptun.Channel.{Channel, Described, describe, consumed, failed}
use udptun.Channel.Describe.{Describes, describe-Describes, describe-Describes_fresh, describe-none}
use udptun.Channel.Rest.{entry}
use udptun.Channel.Consume.{AllEntries, IsFrame, Midway, Waiting, consumed-Midway, consumed-Waiting}

module _ (fifo : Fifo) where
  abbrev pub offer_of : Described fifo → Offer (Channel fifo)
  offer_of d = record { more = d.more; iov = d.iov; source = d.channel }

  abbrev pub describe_offer : Channel fifo → List Bytes → Outcome (Offer (Channel fifo))
  describe_offer ch iov = describe fifo ch iov >>= λ d. ok (offer_of d)

  -- A channel that sends the message with these bytes.
  abbrev pub SendingFrame : Bytes → ℕ → Channel fifo → Type 0
  SendingFrame f n ch = (m : Message) × (f ≡ frame m) × Midway fifo m n ch

  -- The state after an offer, from that before it.
  Describes-Offers :
      (ch : Channel fifo) (m : Message) (n : ℕ) (r : Outcome (Described fifo))
      → Describes fifo ch m [] r
      → Midway fifo m n ch
      → Offers (drop n (frame m)) (SendingFrame (frame m) n) (r >>= λ d. ok (offer_of d))
  Describes-Offers ch m n r d w =
      let q : d.result.channel.queue ≡ ch.queue = d.same_queue in
      let l : d.result.channel.label ≡ ch.label = d.same_label in
      record {
        offer = offer_of d.result;
        returns = rw (d.returns);
        more = d.more;
        content = d.offers ∙ ap (λ k. drop k (frame m)) w.reached;
        holds = (
          m,
          refl,
          record {
            buffers = d.keeps;
            current = d.same_current ∙ w.current;
            label = w.label ∙ sym l;
            sendable = w.sendable;
            reached = d.same_done ∙ w.reached;
            unfinished = w.unfinished;
            front = subst (fifo.Front (entry m)) (sym q) w.front;
            entries =
                subst (λ k. AllEntries k (fifo.view d.result.channel.queue)) (sym l)
                  (subst (λ x. AllEntries ch.label (fifo.view x)) (sym q) w.entries);
          },
        );
      }

  pub describe_offer-idle :
      (ch : Channel fifo)
      → Waiting fifo ch
      → OffersNone (Waiting fifo) (describe_offer ch [])
        ⊎ ((f : Bytes) × IsFrame f × Offers f (SendingFrame f 0) (describe_offer ch []))
  describe_offer-idle ch w = elim (Option-cases (fifo.peek ch.queue).0) [
    | inl e ↦ inl (record {
      offer = record {
        more = false;
        iov = [];
        source = record ch { queue = (fifo.peek ch.queue).1 };
      };
      returns = rw (describe-none fifo ch [] w.current e);
      more = refl;
      holds = record {
        buffers = record {
          clids_two = w.buffers.clids_two;
          channels_two = w.buffers.channels_two;
          lenword_two = w.buffers.lenword_two;
        };
        current = w.current;
        entries = subst (AllEntries ch.label) (sym (fifo.view-peek ch.queue)) w.entries;
      };
    })
    | inr (p, e) ↦ inr (begins p e)
  ]
    where
      begins :
          (p : Bytes)
          → (fifo.peek ch.queue).0 ≡ some p
          → (f : Bytes) × IsFrame f × Offers f (SendingFrame f 0) (describe_offer ch [])
      begins p e =
          let q = (fifo.peek ch.queue).1 in
          let front = fifo.peek_some ch.queue p e in
          let all : AllEntries ch.label (fifo.view q) =
            subst (AllEntries ch.label) (sym (fifo.view-peek ch.queue)) w.entries in
          let (m, p_is, l, s) = (subst (AllEntries ch.label) (fifo.view-consume q p front) all).0 in
          let top : (fifo.peek ch.queue).0 ≡ some (entry m) = e ∙ ap some p_is in
          let d =
            describe-Describes_fresh fifo ch m [] w.buffers w.current top l s.clid_fits s.some_bytes
              s.length_fits in
          (
            frame m,
            (m, refl, s),
            Describes-Offers (record ch { queue = q; current = some (entry m); done = 0 }) m 0
                (describe fifo ch []) d
                (record {
                  buffers = record {
                    clids_two = w.buffers.clids_two;
                    channels_two = w.buffers.channels_two;
                    lenword_two = w.buffers.lenword_two;
                  };
                  current = refl;
                  label = l;
                  sendable = s;
                  reached = refl;
                  unfinished = omega (arith, s.some_bytes);
                  front = subst (λ x. fifo.Front x q) p_is front;
                  entries = all;
                }),
          )

  pub describe_offer-sending :
      (ch : Channel fifo) (f : Bytes) (n : ℕ)
      → SendingFrame f n ch
      → Offers (drop n f) (SendingFrame f n) (describe_offer ch [])
  describe_offer-sending ch f n (m, e, w) =
      let s = w.sendable in
      let d =
        describe-Describes fifo ch m [] w.buffers w.current w.label s.clid_fits s.some_bytes
          s.length_fits (rw (w.reached) w.unfinished) in
      subst (λ x. Offers (drop n x) (SendingFrame x n) (describe_offer ch [])) (sym e)
        (Describes-Offers ch m n (describe fifo ch []) d w)

  pub consumed_part-Answers :
      (ch : Channel fifo) (f : Bytes) (n k : ℕ)
      → SendingFrame f n ch
      → n + k < length f
      → Answers false (SendingFrame f (n + k)) (consumed fifo ch k)
  consumed_part-Answers ch f n k (m, e, w) h =
      let l : length f ≡ 6 + length m.payload = ap length e ∙ length-frame m in
      let a = consumed-Midway fifo ch m n k w (omega arith) in
      record { source = a.source; returns = a.returns; holds = (m, e, a.holds) }

  pub consumed_all-Answers :
      (ch : Channel fifo) (f : Bytes) (n k : ℕ)
      → SendingFrame f n ch
      → n + k ≡ length f
      → Answers true (Waiting fifo) (consumed fifo ch k)
  consumed_all-Answers ch f n k (m, e, w) h =
      let l : length f ≡ 6 + length m.payload = ap length e ∙ length-frame m in
      let (after, returns, holds, _) = consumed-Waiting fifo ch m n k w (omega arith) in
      record { source = after; returns = returns; holds = holds }

  -- A message that was not sent whole stays at the head of the queue.
  pub failed-Waiting :
      (ch : Channel fifo) (f : Bytes) (n : ℕ) → SendingFrame f n ch → Waiting fifo (failed fifo ch)
  unfolding failed
  failed-Waiting ch f n (m, e, w) = record {
    buffers = record {
      clids_two = w.buffers.clids_two;
      channels_two = w.buffers.channels_two;
      lenword_two = w.buffers.lenword_two;
    };
    current = refl;
    entries = w.entries;
  }

  pub SendingFrame-unfinished :
      (ch : Channel fifo) (f : Bytes) (n : ℕ) → SendingFrame f n ch → n < length f
  SendingFrame-unfinished ch f n (m, e, w) =
      let l : length f ≡ 6 + length m.payload = ap length e ∙ length-frame m in
      let u : n < 6 + length m.payload = w.unfinished in omega arith

  abbrev pub channel_streamer : Streamer
  channel_streamer = record {
    S = Channel fifo;
    describe = describe_offer;
    consumed = consumed fifo;
    failed = failed fifo;
    IsFrame = IsFrame;
    Idle = Waiting fifo;
    Sending = SendingFrame;
    describe_idle = describe_offer-idle;
    describe_sending = describe_offer-sending;
    sending_unfinished = SendingFrame-unfinished;
    sending_frame = λ ch f n (m, e, w). (m, e, w.sendable);
    consumed_part = consumed_part-Answers;
    consumed_all = consumed_all-Answers;
    failed_sending = failed-Waiting;
  }

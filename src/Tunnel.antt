-- ===== src/Tunnel.antt =====
-- The ingress and the egress together: what `TCPIngress::try_send` puts on the connection, and what
-- `TCPEgress::Connection::handle_fd` makes of it.
use udptun.Prelude.{
  ℕ, ◌+◌, ◌/◌, ◌%◌, ◌≤◌, ◌<◌, ◌≡◌, refl, sym, ap, subst, ◌∙◌, List, [], ◌∷◌, ◌++◌, map, Option,
  none, some, inl, inr, arith, ok, length, take, concat, append-nil, length-take, Option-cases,
  drop, take-append-drop,
}
use udptun.Fifo.{Fifo}
use udptun.Wire.{Bytes, IsBytes, Message, frame, two_bytes, decode_message}
use udptun.Wire.Decode.{IsMessage, decode-frame}
use udptun.Wire.Split.{Splits, AllMessages, Splits-frames, decode-append, decode-length}
use udptun.Channel.AsStreamer.{channel_streamer, SendingFrame}
use udptun.Ingress.{Ingress}
use udptun.Ingress.Standing.{AllFrames, Standing}
use udptun.Egress.Connection.{Connection, Maker, Outlets}
use udptun.Egress.Connection.Receive.{receive-Received}
use udptun.Egress.Connection.Read.{IsMade, Reads, receive, all_sends}

-- The message as its two-byte fields carry it.
abbrev pub wrapped : Message → Message
wrapped m = record m { clid = m.clid % 65536; label = m.label % 65536 }

two_bytes_wrapped : (n : ℕ) → two_bytes (n % 65536) ≡ two_bytes n
two_bytes_wrapped n =
    let a : n % 65536 / 256 % 256 ≡ n / 256 % 256 = omega arith in
    let b : n % 65536 % 256 ≡ n % 256 = omega arith in rw (a, b)

frame-wrapped : (m : Message) → frame (wrapped m) ≡ frame m
frame-wrapped m =
    let tail = two_bytes (length m.payload) ++ m.payload in
    ap (λ x. x ++ (two_bytes (m.label % 65536) ++ tail)) (two_bytes_wrapped m.clid)
    ∙ ap (λ x. two_bytes m.clid ++ (x ++ tail)) (two_bytes_wrapped m.label)

decode-nil : decode_message [] ≡ none
unfolding decode_message
decode-nil = refl

-- A message that is cut short is no message.
decode-take :
    (n : ℕ) (m : Message)
    → length m.payload < 65536
    → n < 6 + length m.payload
    → decode_message (take n (frame m)) ≡ none
decode-take n m fits short = elim (Option-cases (decode_message (take n (frame m)))) [
  | inl e ↦ e
  | inr (k, e) ↦
      let valid : IsMessage (wrapped m) = record {
        clid_fits = omega arith;
        label_fits = omega arith;
        length_fits = fits;
      } in
      let whole : decode_message (frame m ++ []) ≡ some (wrapped m) =
        ap (λ x. decode_message (x ++ [])) (sym (frame-wrapped m))
        ∙ decode-frame (wrapped m) [] valid in
      let same : decode_message (frame m) ≡ some k =
        ap decode_message (sym (take-append-drop n (frame m)))
        ∙ decode-append (take n (frame m)) (drop n (frame m)) e in
      let k_is : length k.payload ≡ length m.payload =
        same_length k (wrapped m)
          (sym same ∙ ap decode_message (sym (append-nil (frame m))) ∙ whole) in
      let l : length (take n (frame m)) ≤ n = omega (arith, length-take n (frame m)) in
      absurd (omega (arith, decode-length (take n (frame m)) e))
]
  where
    same_length :
        (a b : Message)
        → ◌≡◌ {A = Option Message} (some a) (some b)
        → length a.payload ≡ length b.payload
    same_length a b h = ap length_of h
      where
        length_of : Option Message → ℕ
        length_of none = 0
        length_of (some x) = length x.payload

module _ (fifo : Fifo) where
  frames-AllMessages :
      (fs : List Bytes)
      → AllFrames (channel_streamer fifo) fs
      → (ms : List Message) × (concat fs ≡ concat (map frame ms)) × AllMessages ms
  frames-AllMessages [] v = ([], refl, tt)
  frames-AllMessages (f ∷ fs) ((m, e, s), v) =
      let (ms, g, w) = frames-AllMessages fs v in
      let valid : IsMessage (wrapped m) = record {
        clid_fits = omega arith;
        label_fits = omega arith;
        length_fits = s.length_fits;
      } in
      (
        wrapped m ∷ ms,
        ap (λ x. x ++ concat fs) (e ∙ sym (frame-wrapped m)) ∙ ap (λ x. frame (wrapped m) ++ x) g,
        (valid, w),
      )

  -- What is on the wire, as whole messages and the beginning of one more.
  wire-Splits :
      (i : Ingress (channel_streamer fifo))
      → Standing (channel_streamer fifo) i
      → (ms : List Message) × (part : Bytes) × AllMessages ms
        × (i.wire ≡ concat (map frame ms) ++ part)
        × (decode_message part ≡ none)
  wire-Splits i (inl b) =
      let (ms, e, v) = frames-AllMessages b.frames b.all_frames in
      (ms, [], v, b.on_wire ∙ e ∙ sym (append-nil (concat (map frame ms))), decode-nil)
  wire-Splits i (inr b) =
      let (ms, e, v) = frames-AllMessages b.frames b.all_frames in
      let (m, f, w) : SendingFrame fifo b.message b.reached b.source = b.sending in
      let cut : decode_message (take b.reached b.message) ≡ none =
        ap (λ x. decode_message (take b.reached x)) f
        ∙ decode-take b.reached m w.sendable.length_fits w.unfinished in
      (ms, take b.reached b.message, v, b.on_wire ∙ ap (λ x. x ++ take b.reached b.message) e, cut)

  -- Let an ingress over channels stand as `try_send` leaves it while its connection has not
  -- failed, with bytes on the wire, and let the wire reach a new connection of the egress, whose
  -- client states come from a constructor that always succeeds, in reads of any sizes but zero, as
  -- many as there are bytes. Then the wire is valid messages, and a rest that is no whole message;
  -- the egress sends the datagrams of those messages, in order, once for each outlet, and keeps
  -- exactly the rest.
  pub wire-Received :
      (make : Maker) (outlets_of : ℕ → Outlets)
      (total : (clid : ℕ) → make clid ≡ ok (outlets_of clid)) (i : Ingress (channel_streamer fifo))
      (es : List (ℕ × ℕ)) (c : Connection) (fd : ℕ)
      → Standing (channel_streamer fifo) i
      → IsBytes i.wire
      → c.sock ≡ some fd
      → c.buf ≡ []
      → IsMade outlets_of c.clstats
      → Reads es
      → length i.wire ≤ length es
      → (ms : List Message) × (part : Bytes) × (c' : Connection) × AllMessages ms
        × (i.wire ≡ concat (map frame ms) ++ part)
        × (receive make c es i.wire ≡ ok (c', []))
        × (c'.buf ≡ part)
        × (decode_message part ≡ none)
        × (c'.sent ≡ c.sent ++ all_sends outlets_of ms)
  wire-Received make outlets_of total i es c fd st bytes o fresh made reads enough =
      let (ms, part, v, e, p) = wire-Splits i st in
      let s : Splits part i.wire ms =
        subst (λ x. Splits part x ms) (sym e) (Splits-frames ms v p) in
      let joined : c.buf ++ i.wire ≡ i.wire = ap (λ x. x ++ i.wire) fresh in
      let (c', f, keeps, sent) =
        receive-Received make outlets_of total es c fd i.wire part ms o
          (ap decode_message fresh ∙ decode-nil) (subst IsBytes (sym joined) bytes) made reads
          enough (subst (λ x. Splits part x ms) (sym joined) s) in
      (ms, part, c', v, e, f, keeps, p, sent)

-- ===== src/Ingress/Offered.antt =====
-- What becomes of the offer of a source that `try_send` has asked.
use udptun.Prelude.{
  ℕ, suc, ◌+◌, ◌-◌, ◌<◌, ◌≡◌, inl, inr, refl, ap, subst, ◌∙◌, true, false, List, [], ◌∷◌, ◌++◌,
  some, min, arith, ok, length, take, drop, concat, put, append-nil, append_assoc, concat-append,
  length-drop, take-length_le, dec_lt,
}
use udptun.Streamer.{Streamer, Offer}
use udptun.Wire.{Bytes}
use udptun.Ingress.{
  Ingress, Interest, Sent, upto, blocked, broken, Step, erase_source, discard, next_sent,
  send_offer,
}
use udptun.Ingress.Standing.{
  take-drop, erase_source_head, AllFrames, AllFrames-append, Known, Known-put, OthersIdle,
  put-AllIdle, put-OthersIdle, find-put_same, Ends,
}

module _ (streamer : Streamer) where
  open streamer use {S, describe, consumed, failed, IsFrame, Idle, Sending}

  -- The state after an offer of what is left of a message, by what the system takes of it.
  send_offer_blocked :
      (i : Ingress streamer) (rs : List Sent) (k : ℕ) (ks : List ℕ) (offer : Offer S) (s : S)
      → consumed offer.source 0 ≡ ok (false, s)
      → send_offer streamer blocked rs k ks offer i
        ≡ ok (
            Step.returns (record i {
              upout_ready = false;
              sources = put k s i.sources;
              watching = some Interest.until_writable;
            }))
  unfolding send_offer
  send_offer_blocked i rs k ks offer s e = rw e refl

  send_offer_part :
      (i : Ingress streamer) (n : ℕ) (rs : List Sent) (k : ℕ) (ks : List ℕ) (offer : Offer S)
      (s : S) (bytes : Bytes)
      → concat offer.iov ≡ bytes
      → consumed offer.source (min n (length bytes)) ≡ ok (false, s)
      → send_offer streamer (upto n) rs k ks offer i
        ≡ ok (
            Step.again rs (record i {
              upout_ready = false;
              wire = i.wire ++ take (min n (length bytes)) bytes;
              sources = put k s i.sources;
            }))
  unfolding send_offer
  send_offer_part i n rs k ks offer s bytes c e = rw (c, e) refl

  pub send_offer_all :
      (i : Ingress streamer) (n : ℕ) (rs : List Sent) (k : ℕ) (ks : List ℕ) (offer : Offer S)
      (s : S) (bytes : Bytes)
      → concat offer.iov ≡ bytes
      → consumed offer.source (min n (length bytes)) ≡ ok (true, s)
      → send_offer streamer (upto n) rs k ks offer i
        ≡ ok (
            Step.again rs (record i {
              upout_ready = false;
              wire = i.wire ++ take (min n (length bytes)) bytes;
              streamers = erase_source k i.streamers;
              streamer_queue = ks;
              sources = put k s i.sources;
            }))
  unfolding send_offer discard
  send_offer_all i n rs k ks offer s bytes c e = rw (c, e) refl

  -- What a round knows when the source at the head has made its offer.
  pub record Offered (i : Ingress streamer) (k : ℕ) (ks : List ℕ) (f : Bytes) (n : ℕ)
      (offer : Offer S) : Type 0 where
    pub same : i.streamers ≡ i.streamer_queue
    pub known : Known streamer i.streamer_queue i.sources
    pub queued : i.streamer_queue ≡ k ∷ ks
    pub content : concat offer.iov ≡ drop n f
    pub sending : Sending f n offer.source
    pub others : OthersIdle streamer k i.sources
    pub frames : List Bytes
    pub all_frames : AllFrames streamer frames
    pub on_wire : i.wire ≡ concat frames ++ take n f

  Offered-tail :
      (i : Ingress streamer) (k : ℕ) (ks : List ℕ) (f : Bytes) (n : ℕ) (offer : Offer S)
      → Offered i k ks f n offer
      → Known streamer ks i.sources × (erase_source k i.streamers ≡ ks)
  Offered-tail i k ks f n offer o =
      let all : Known streamer (k ∷ ks) i.sources =
        subst (λ q. Known streamer q i.sources) o.queued o.known in
      (all.1, ap (erase_source k) (o.same ∙ o.queued) ∙ erase_source_head k ks)

  blocked-Ends :
      (rs rest : List Sent) (i : Ingress streamer) (k : ℕ) (ks : List ℕ) (f : Bytes) (n : ℕ)
      (offer : Offer S)
      → Offered i k ks f n offer
      → Ends streamer rs i (send_offer streamer blocked rest k ks offer i)
  blocked-Ends rs rest i k ks f n offer o =
      let u = streamer.sending_unfinished offer.source f n o.sending in
      let a = streamer.consumed_part offer.source f n 0 o.sending (omega (arith, u)) in
      let z : n ≡ n + 0 = omega arith in
      inl (
        _,
        send_offer_blocked i rest k ks offer a.source a.returns,
        inl (
            inr (record {
              same = o.same;
              known = Known-put streamer i.streamer_queue k a.source i.sources o.known;
              head = k;
              tail = ks;
              queued = o.queued;
              source = a.source;
              found = find-put_same streamer k a.source i.sources;
              message = f;
              reached = n + 0;
              sending = a.holds;
              others = put-OthersIdle streamer k a.source i.sources o.others;
              frames = o.frames;
              all_frames = o.all_frames;
              on_wire = o.on_wire ∙ ap (λ j. concat o.frames ++ take j f) z;
            })),
      )

  broken-Ends :
      (rs rest : List Sent) (i : Ingress streamer) (k : ℕ) (ks : List ℕ) (f : Bytes) (n : ℕ)
      (offer : Offer S)
      → Offered i k ks f n offer
      → Ends streamer rs i (send_offer streamer broken rest k ks offer i)
  unfolding send_offer
  broken-Ends rs rest i k ks f n offer o =
      let s = failed offer.source in
      inl (
        _,
        refl,
        inr (record {
          closed = refl;
          delay = refl;
          same = o.same;
          known = Known-put streamer i.streamer_queue k s i.sources o.known;
          idle =
              put-AllIdle streamer k s i.sources o.others
                (streamer.failed_sending offer.source f n o.sending);
        }),
      )

  upto-Ends :
      (x : ℕ) (rs rest : List Sent) (i : Ingress streamer) (k : ℕ) (ks : List ℕ) (f : Bytes) (n : ℕ)
      (offer : Offer S)
      → Offered i k ks f n offer
      → length rest < length rs
      → Ends streamer rs i (send_offer streamer (upto x) rest k ks offer i)
  upto-Ends x rs rest i k ks f n offer o shorter = elim (dec_lt (n + d) (length f)) [
    | yes p ↦
        let a = streamer.consumed_part offer.source f n d o.sending p in
        inr (
          rest,
          _,
          send_offer_part i x rest k ks offer a.source (drop n f) o.content a.returns,
          inr (record {
            same = o.same;
            known = Known-put streamer i.streamer_queue k a.source i.sources o.known;
            head = k;
            tail = ks;
            queued = o.queued;
            source = a.source;
            found = find-put_same streamer k a.source i.sources;
            message = f;
            reached = n + d;
            sending = a.holds;
            others = put-OthersIdle streamer k a.source i.sources o.others;
            frames = o.frames;
            all_frames = o.all_frames;
            on_wire = taken;
          }),
          omega (arith, shorter),
        )
    | no p ↦
        let e : n + d ≡ length f = omega (arith, u, size) in
        let a = streamer.consumed_all offer.source f n d o.sending e in
        let (left, erased) = Offered-tail i k ks f n offer o in
        let whole : take (n + d) f ≡ f = take-length_le (n + d) f (omega (arith, e)) in
        let fewer : length i.streamer_queue ≡ suc (length ks) = ap length o.queued in
        inr (
          rest,
          _,
          send_offer_all i x rest k ks offer a.source (drop n f) o.content a.returns,
          inl (record {
            same = erased;
            known = Known-put streamer ks k a.source i.sources left;
            idle = put-AllIdle streamer k a.source i.sources o.others a.holds;
            frames = o.frames ++ f ∷ [];
            all_frames =
                AllFrames-append streamer o.frames (f ∷ []) o.all_frames
                  (streamer.sending_frame offer.source f n o.sending, tt);
            on_wire = taken ∙ rw (whole, concat-append, append-nil);
          }),
          omega (arith, shorter, fewer),
        )
  ]
    where
      d : ℕ
      d = min x (length (drop n f))

      size : length (drop n f) ≡ length f - n
      size = length-drop n f

      u : n < length f
      u = streamer.sending_unfinished offer.source f n o.sending

      taken : i.wire ++ take d (drop n f) ≡ concat o.frames ++ take (n + d) f
      taken = rw (o.on_wire, append_assoc, take-drop n d f)

  pub offer-Ends :
      (rs : List Sent) (i : Ingress streamer) (k : ℕ) (ks : List ℕ) (f : Bytes) (n : ℕ)
      (offer : Offer S)
      → Offered i k ks f n offer
      → Ends streamer rs i
          (send_offer streamer (next_sent streamer rs).0 (next_sent streamer rs).1 k ks offer i)
  offer-Ends [] i k ks f n offer o = blocked-Ends [] [] i k ks f n offer o
  offer-Ends (upto x ∷ rs) i k ks f n offer o =
      upto-Ends x (upto x ∷ rs) rs i k ks f n offer o (omega arith)
  offer-Ends (blocked ∷ rs) i k ks f n offer o = blocked-Ends (blocked ∷ rs) rs i k ks f n offer o
  offer-Ends (broken ∷ rs) i k ks f n offer o = broken-Ends (broken ∷ rs) rs i k ks f n offer o

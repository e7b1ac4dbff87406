-- ===== src/Ingress/Sending.antt =====
-- `try_send` puts whole messages on the wire, one after the other, whatever the system takes of each
-- offer, and ends.
use udptun.Prelude.{
  ℕ, zero, suc, ◌+◌, ◌<◌, ◌≡◌, ◌⊎◌, inl, inr, refl, sym, ap, subst, ◌∙◌, true, false, List, [], ◌∷◌,
  Option, some, arith, Outcome, ok, length, concat, find, append-nil, List-cases,
}
use udptun.Streamer.{Streamer, Offer}
use udptun.Ingress.{
  Ingress, Sent, Step, erase_source, discard, next_sent, send_offer, send_round, send_loop,
  try_send,
}
use udptun.Ingress.Standing.{
  erase_source_head, Known, Known-put, put-AllIdle, Between, Midst, Broken, Standing, Ends,
}
use udptun.Ingress.Offered.{offer-Ends}

module _ (streamer : Streamer) where
  open streamer use {S, describe, consumed, failed, IsFrame, Idle, Sending}

  -- The ways that a round can begin.
  pub round_empty :
      (rs : List Sent) (i : Ingress streamer)
      → i.streamers ≡ []
      → send_round streamer rs i ≡ ok (Step.returns i)
  unfolding send_round
  round_empty rs i e = ground arith

  pub round_offer :
      (rs : List Sent) (i : Ingress streamer) (k : ℕ) (ks : List ℕ) (s : S) (offer : Offer S)
      → i.streamers ≡ k ∷ ks
      → i.streamer_queue ≡ k ∷ ks
      → find k i.sources ≡ some s
      → describe s [] ≡ ok offer
      → offer.more ≡ true
      → send_round streamer rs i
        ≡ send_offer streamer (next_sent streamer rs).0 (next_sent streamer rs).1 k ks offer i
  unfolding send_round
  round_offer rs i k ks s offer a b c d e = ground arith

  round_discard :
      (rs : List Sent) (i : Ingress streamer) (k : ℕ) (ks : List ℕ) (s : S) (offer : Offer S)
      → i.streamers ≡ k ∷ ks
      → i.streamer_queue ≡ k ∷ ks
      → find k i.sources ≡ some s
      → describe s [] ≡ ok offer
      → offer.more ≡ false
      → send_round streamer rs i ≡ ok (Step.again rs (discard streamer k ks offer.source i))
  unfolding send_round
  round_discard rs i k ks s offer a b c d e = ground arith

  discard-Between :
      (i : Ingress streamer) (k : ℕ) (ks : List ℕ) (s : S)
      → Between streamer i
      → i.streamer_queue ≡ k ∷ ks
      → Idle s
      → Between streamer (discard streamer k ks s i)
  unfolding discard
  discard-Between i k ks s b q v =
      let all : Known streamer (k ∷ ks) i.sources =
        subst (λ x. Known streamer x i.sources) q b.known in
      record {
        same = ap (erase_source k) (b.same ∙ q) ∙ erase_source_head k ks;
        known = Known-put streamer ks k s i.sources all.1;
        idle = put-AllIdle streamer k s i.sources (λ j t _ e. b.idle j t e) v;
        frames = b.frames;
        all_frames = b.all_frames;
        on_wire = b.on_wire;
      }

  discard-queue :
      (i : Ingress streamer) (k : ℕ) (ks : List ℕ) (s : S)
      → (discard streamer k ks s i).streamer_queue ≡ ks
  unfolding discard
  discard-queue i k ks s = refl

  Between-Ends :
      (rs : List Sent) (i : Ingress streamer)
      → Between streamer i
      → Ends streamer rs i (send_round streamer rs i)
  Between-Ends rs i b = elim (List-cases i.streamer_queue) [
    | inl e ↦ inl (i, round_empty rs i (b.same ∙ e), inl (inl b))
    | inr (k, ks, q) ↦
        let all : Known streamer (k ∷ ks) i.sources =
          subst (λ x. Known streamer x i.sources) q b.known in
        let (s, found) = all.0 in
        elim (streamer.describe_idle s (b.idle k s found)) [
          | inl w ↦
              let fewer : length i.streamer_queue ≡ suc (length ks) = ap length q in
              let queue = discard-queue i k ks w.offer.source in
              inr (
                rs,
                _,
                round_discard rs i k ks s w.offer (b.same ∙ q) q found w.returns w.more,
                inl (discard-Between i k ks w.offer.source b q w.holds),
                rw queue (omega (arith, fewer)),
              )
          | inr (f, frame, w) ↦
              rw (round_offer rs i k ks s w.offer (b.same ∙ q) q found w.returns w.more) (
                offer-Ends streamer rs i k ks f 0 w.offer (record {
                  same = b.same;
                  known = b.known;
                  queued = q;
                  content = w.content;
                  sending = w.holds;
                  others = λ j t _ e. b.idle j t e;
                  frames = b.frames;
                  all_frames = b.all_frames;
                  on_wire = b.on_wire ∙ sym (append-nil (concat b.frames));
                }))
        ]
  ]

  Midst-Ends :
      (rs : List Sent) (i : Ingress streamer)
      → Midst streamer i
      → Ends streamer rs i (send_round streamer rs i)
  Midst-Ends rs i b =
      let w = streamer.describe_sending b.source b.message b.reached b.sending in
      rw
        (round_offer rs i b.head b.tail b.source w.offer (b.same ∙ b.queued) b.queued b.found
          w.returns w.more)
        (offer-Ends streamer rs i b.head b.tail b.message b.reached w.offer (record {
          same = b.same;
          known = b.known;
          queued = b.queued;
          content = w.content;
          sending = w.holds;
          others = b.others;
          frames = b.frames;
          all_frames = b.all_frames;
          on_wire = b.on_wire;
        }))

  abbrev LoopEnds : Outcome (Option (Ingress streamer)) → Type 0
  LoopEnds r =
      (j : Ingress streamer) × (r ≡ ok (some j)) × (Standing streamer j ⊎ Broken streamer j)

  loop-Ends :
      (fuel : ℕ) (rs : List Sent) (i : Ingress streamer)
      → ((rest : List Sent) (j : Ingress streamer)
          → Standing streamer j
          → length rest + length j.streamer_queue < fuel
          → LoopEnds (send_loop streamer fuel rest j))
      → length rs + length i.streamer_queue < suc fuel
      → Ends streamer rs i (send_round streamer rs i)
      → LoopEnds (send_loop streamer (suc fuel) rs i)
  unfolding send_loop
  loop-Ends fuel rs i next h (inl (j, e, v)) = (j, rw e refl, v)
  loop-Ends fuel rs i next h (inr (rest, j, e, v, less)) =
      let (j', e', v') = next rest j v (omega (arith, less, h)) in (j', rw e e', v')

  send_loop-Ends :
      (fuel : ℕ) (rs : List Sent) (i : Ingress streamer)
      → Standing streamer i
      → length rs + length i.streamer_queue < fuel
      → LoopEnds (send_loop streamer fuel rs i)
  send_loop-Ends zero rs i w h = absurd (omega arith)
  send_loop-Ends (suc fuel) rs i (inl b) h =
      loop-Ends fuel rs i (send_loop-Ends fuel) h (Between-Ends rs i b)
  send_loop-Ends (suc fuel) rs i (inr b) h =
      loop-Ends fuel rs i (send_loop-Ends fuel) h (Midst-Ends rs i b)

  try_send_ready :
      (fuel : ℕ) (rs : List Sent) (i : Ingress streamer)
      → i.sock ≡ true
      → i.connected ≡ true
      → i.upout_ready ≡ true
      → try_send streamer fuel rs i ≡ send_loop streamer fuel rs i
  unfolding try_send
  try_send_ready fuel rs i a b c = ground arith

  -- On a connected socket that is ready, over sources that keep the rules of a streamer, with at
  -- most the source at the head in the middle of its message: `try_send`, with fuel for each
  -- answer of `sendmsg` and each source that waits, ends at no failed assertion. Then either the
  -- connection is closed, to be made again after 30 seconds, and every source is between two
  -- messages; or the wire carries whole messages, one after the other, and as much of one more as
  -- its source, the head, has counted.
  pub try_send-Standing :
      (fuel : ℕ) (rs : List Sent) (i : Ingress streamer)
      → i.sock ≡ true
      → i.connected ≡ true
      → i.upout_ready ≡ true
      → Standing streamer i
      → length rs + length i.streamer_queue < fuel
      → (j : Ingress streamer) × (try_send streamer fuel rs i ≡ ok (some j))
        × (Standing streamer j ⊎ Broken streamer j)
  try_send-Standing fuel rs i a b c w h =
      let (j, e, v) = send_loop-Ends fuel rs i w h in (j, try_send_ready fuel rs i a b c ∙ e, v)

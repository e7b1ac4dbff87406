-- ===== src/Ingress/Lost.antt =====
-- A connection that the egress closes in the middle of a message: `descriptor_ready` does not tell
-- the source, as `try_send` does.
use udptun.Prelude.{
  ℕ, suc, ◌-◌, ◌≤◌, ◌≡◌, refl, ap, ◌∙◌, true, false, List, ◌∷◌, ◌++◌, Option, some, arith, min, ok,
  length, take, drop, find, length-drop, take-length_le,
}
use udptun.Streamer.{Streamer}
use udptun.Ingress.{Ingress, Sent, upto, Step, clear_socket, send_round, send_loop, try_send}
use udptun.Ingress.Connecting.{System, Config, Events, descriptor_ready}
use udptun.Ingress.Offered.{send_offer_all}
use udptun.Ingress.Reconnect.{Reconnects, Reconnects-Kept}
use udptun.Ingress.Kept.{Kept}
use udptun.Ingress.Sending.{round_offer}
use udptun.Ingress.Standing.{Midst}

module _ (streamer : Streamer) where
  closed_connection :
      (fuel : ℕ) (sys : System) (cfg : Config) (rs : List Sent) (soerr : Option ℕ) (evs : Events)
      (i : Ingress streamer)
      → i.sock ≡ true
      → i.connected ≡ true
      → evs.closed ≡ true
      → descriptor_ready streamer fuel sys cfg rs soerr evs i
        ≡ ok (some (record (clear_socket streamer i) { retry = some 33 }))
  unfolding descriptor_ready
  closed_connection fuel sys cfg rs soerr evs i a b c = ground arith

  -- A part-sent source at the head of the queue goes on where it was.
  sent_first :
      (i : Ingress streamer) (b : Midst streamer i) (rs : List Sent) (x : ℕ) (j : Ingress streamer)
      → Kept streamer i j
      → j.sock ≡ true
      → length b.message ≤ x
      → (k : Ingress streamer) × (send_round streamer
            (upto x ∷ rs)
            (record j { upout_ready = true })
          ≡ ok (Step.again rs k))
        × (k.wire ≡ drop b.reached b.message)
  sent_first i b rs x j kept o h =
      let left = drop b.reached b.message in
      let w = streamer.describe_sending b.source b.message b.reached b.sending in
      let u = streamer.sending_unfinished b.source b.message b.reached b.sending in
      let size : length left ≡ length b.message - b.reached = length-drop b.reached b.message in
      let all : min x (length left) ≡ length left = omega arith in
      let a =
        streamer.consumed_all w.offer.source b.message b.reached (min x (length left)) w.holds
          (omega arith) in
      let m : Ingress streamer = record j { upout_ready = true } in
      let found : find b.head m.sources ≡ some b.source = ap (find b.head) kept.sources ∙ b.found in
      (
        _,
        round_offer streamer (upto x ∷ rs) m b.head b.tail b.source w.offer
              (kept.streamers ∙ b.same ∙ b.queued) (kept.queue ∙ b.queued) found w.returns w.more
            ∙ send_offer_all streamer m x rs b.head b.tail w.offer a.source left w.content
                a.returns,
        ap (λ y. y ++ take (min x (length left)) left) (kept.fresh o)
            ∙ take-length_le (min x (length left)) left (omega arith),
      )

  writable_ready :
      (fuel : ℕ) (sys : System) (cfg : Config) (rs : List Sent) (soerr : Option ℕ) (evs : Events)
      (j : Ingress streamer)
      → j.sock ≡ true
      → j.connected ≡ true
      → evs.closed ≡ false
      → evs.writable ≡ true
      → descriptor_ready streamer fuel sys cfg rs soerr evs j
        ≡ send_loop streamer fuel rs (record j { upout_ready = true })
  unfolding descriptor_ready try_send
  writable_ready fuel sys cfg rs soerr evs j a b c d = ground arith

  send_loop_next :
      (fuel : ℕ) (rs rest : List Sent) (j k : Ingress streamer)
      → send_round streamer rs j ≡ ok (Step.again rest k)
      → send_loop streamer (suc fuel) rs j ≡ send_loop streamer fuel rest k
  unfolding send_loop
  send_loop_next fuel rs rest j k e = rw e refl

  -- When the egress closes the connection while the message at the head is part sent, the socket
  -- is closed, and the connection is to be made again after 33 seconds. Whatever look-ups and
  -- events then lead to a socket that is connected, when this is writable and the system takes at
  -- least a message's length, the first bytes on it are the rest of that message and not its
  -- beginning.
  pub closed-resumes :
      (fuel : ℕ) (sys : System) (cfg : Config) (soerr : Option ℕ) (evs evs' : Events)
      (i j : Ingress streamer) (b : Midst streamer i) (rs : List Sent) (x : ℕ)
      → i.sock ≡ true
      → i.connected ≡ true
      → evs.closed ≡ true
      → Reconnects streamer (record (clear_socket streamer i) { retry = some 33 }) j
      → j.sock ≡ true
      → j.connected ≡ true
      → evs'.closed ≡ false
      → evs'.writable ≡ true
      → length b.message ≤ x
      → (descriptor_ready streamer fuel sys cfg rs soerr evs i
          ≡ ok (some (record (clear_socket streamer i) { retry = some 33 })))
        × ((k : Ingress streamer) × (descriptor_ready streamer
                (suc fuel)
                sys
                cfg
                (upto x ∷ rs)
                soerr
                evs'
                j
              ≡ send_loop streamer fuel rs k)
            × (k.wire ≡ drop b.reached b.message))
  closed-resumes fuel sys cfg soerr evs evs' i j b rs x c d e r o p q w h =
      let (k, f, g) = sent_first i b rs x j (lost_kept i j r) o h in
      (
        closed_connection fuel sys cfg rs soerr evs i c d e,
        (
          k,
          writable_ready (suc fuel) sys cfg (upto x ∷ rs) soerr evs' j o p q w
              ∙ send_loop_next fuel (upto x ∷ rs) rs (record j { upout_ready = true }) k f,
          g,
        ),
      )
    where
      lost_kept :
          (i j : Ingress streamer)
          → Reconnects streamer (record (clear_socket streamer i) { retry = some 33 }) j
          → Kept streamer i j
      lost_kept i j r =
          let lost : Ingress streamer = record (clear_socket streamer i) { retry = some 33 } in
          let kept : Kept streamer lost j =
            Reconnects-Kept streamer (unfold clear_socket in refl) r in
          unfold clear_socket in
          record {
            streamers = kept.streamers;
            queue = kept.queue;
            sources = kept.sources;
            fresh = kept.fresh;
          }

-- ===== src/Streamer.antt =====
-- `Streamer`: streamer.hh, what an ingress relies on in a source of messages. `Idle s` is a source
-- between two messages, and `Sending f n s` one that has sent `n` bytes of the message `f`.
use udptun.Prelude.{
  ℕ, ◌+◌, ◌<◌, ◌≡◌, ◌⊎◌, Bool, true, false, List, [], Outcome, ok, length, drop, concat,
}
use udptun.Wire.{Bytes}

-- What `describe` gives: whether there is something to send, and the vector.
pub record Offer (S : Type 0) : Type 0 where
  pub more : Bool
  pub iov : List Bytes
  pub source : S

-- An offer of just these bytes by a source of which `P` holds.
pub record Offers {S : Type 0} (bytes : Bytes) (P : S → Type 0) (r : Outcome (Offer S))
    : Type 0 where
  pub offer : Offer S
  pub returns : r ≡ ok offer
  pub more : offer.more ≡ true
  pub content : concat offer.iov ≡ bytes
  pub holds : P offer.source

-- No offer, by a source of which `P` holds.
pub record OffersNone {S : Type 0} (P : S → Type 0) (r : Outcome (Offer S)) : Type 0 where
  pub offer : Offer S
  pub returns : r ≡ ok offer
  pub more : offer.more ≡ false
  pub holds : P offer.source

-- What `consumed` gives: this answer, and a source of which `P` holds.
pub record Answers {S : Type 0} (last : Bool) (P : S → Type 0) (r : Outcome (Bool × S))
    : Type 0 where
  pub source : S
  pub returns : r ≡ ok (last, source)
  pub holds : P source

pub record Streamer : Type 1 where
  pub S : Type 0
  pub describe : S → List Bytes → Outcome (Offer S)
  pub consumed : S → ℕ → Outcome (Bool × S)
  pub failed : S → S
  pub IsFrame : Bytes → Type 0
  pub Idle : S → Type 0
  pub Sending : Bytes → ℕ → S → Type 0
  pub describe_idle :
      (s : S)
      → Idle s
      → OffersNone Idle (describe s [])
        ⊎ ((f : Bytes) × IsFrame f × Offers f (Sending f 0) (describe s []))
  pub describe_sending :
      (s : S) (f : Bytes) (n : ℕ) → Sending f n s → Offers (drop n f) (Sending f n) (describe s [])
  pub sending_unfinished : (s : S) (f : Bytes) (n : ℕ) → Sending f n s → n < length f
  pub sending_frame : (s : S) (f : Bytes) (n : ℕ) → Sending f n s → IsFrame f
  pub consumed_part :
      (s : S) (f : Bytes) (n k : ℕ)
      → Sending f n s
      → n + k < length f
      → Answers false (Sending f (n + k)) (consumed s k)
  pub consumed_all :
      (s : S) (f : Bytes) (n k : ℕ)
      → Sending f n s
      → n + k ≡ length f
      → Answers true Idle (consumed s k)
  pub failed_sending : (s : S) (f : Bytes) (n : ℕ) → Sending f n s → Idle (failed s)

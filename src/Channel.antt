-- ===== src/Channel.antt =====
-- `Channel`: channels.hh and channels.cc, over the queue that it holds. `clid_t`, a
-- `uint_fast16_t`, has eight bytes, lowest first, as on x86-64 with glibc. Its `ingress->ready` and
-- the queue's constructor are the ingress's and the queue's.
pub mod Rest
pub mod Describe
pub mod Consume
pub mod AsStreamer
use udptun.Prelude.{
  ℕ, zero, suc, ◌+◌, ◌-◌, ◌*◌, ◌/◌, ◌%◌, Bool, true, false, List, [], ◌∷◌, ◌++◌, Option, none, some,
  Outcome, ok, fault, assertion, ◌>>=◌, length, take, drop, ltb, leb, ◌==◌, if◌then◌else◌,
}
use udptun.Wire.{
  Bytes, Encoded, push_onto, clid_to_bytes, label_to_bytes, length_to_bytes, header_bytes,
  max_clid_bytes, max_label_bytes,
}
use udptun.Fifo.{Fifo}

-- `sizeof(clid_t)`
abbrev pub clid_size : ℕ
clid_size = 8

-- An unsigned integer of so many bytes in memory, and back.
abbrev pub le_bytes : ℕ → ℕ → Bytes
le_bytes zero n = []
le_bytes (suc w) n = n % 256 ∷ le_bytes w (n / 256)

abbrev pub le_word : Bytes → ℕ
le_word [] = 0
le_word (b ∷ bs) = b + 256 * le_word bs

-- The bytes of the payload that are still to be sent.
abbrev pub unsent : ℕ → ℕ → ℕ
unsent done plsize = if ltb header_bytes done then header_bytes + plsize - done else plsize

module _ (fifo : Fifo) where
  open fifo use {Q, peek, consume, push, poke}

  -- `current` is the payload that the pointer is to, the head of the queue.
  pub record Channel : Type 0 where
    pub label : ℕ
    pub queue : Q
    pub current : Option Bytes
    pub clids : Bytes
    pub channels : Bytes
    pub lenword : Bytes
    pub done : ℕ

  -- The result of `describe`: whether there is something to send, and the vector.
  pub record Described : Type 0 where
    pub more : Bool
    pub iov : List Bytes
    pub channel : Channel

  -- `describe`, from where the current payload is known.
  unfoldable pub describe_current : Channel → Bytes → List Bytes → Outcome Described
  describe_current ch p iov =
      if ltb (length p) clid_size
      then fault assertion
      else let plsize = length p - clid_size in
        let base = drop clid_size p in
        let c = clid_to_bytes (le_word (take clid_size p)) ch.clids ch.done 0 iov in
        let l = label_to_bytes ch.label ch.channels ch.done max_clid_bytes c.vec in
        if ltb 65535 plsize
        then fault assertion
        else let n =
            length_to_bytes plsize ch.lenword ch.done (max_clid_bytes + max_label_bytes) l.vec in
          let m = unsent ch.done plsize in
          if m == 0
          then fault assertion
          else ok (record {
            more = true;
            iov = push_onto n.vec (take m (drop (plsize - m) base));
            channel = record ch { clids = c.buf; channels = l.buf; lenword = n.buf };
          })

  unfoldable pub describe : Channel → List Bytes → Outcome Described
  describe ch iov = elim ch.current [
    | some p ↦ describe_current ch p iov
    | none ↦
        let r = peek ch.queue in
        elim r.0 [
          | none ↦ ok (record { more = false; iov = iov; channel = record ch { queue = r.1 } })
          | some p ↦ describe_current (record ch { queue = r.1; current = some p; done = 0 }) p iov
        ]
  ]

  -- The result of `consumed`: whether that was all of the message.
  unfoldable pub consumed : Channel → ℕ → Outcome (Bool × Channel)
  consumed ch n = elim ch.current [
    | none ↦ fault assertion
    | some p ↦
        let plsize = length p - clid_size in
        let reached = record ch { done = ch.done + n } in
        if reached.done == header_bytes + plsize
        then ok (true, record reached { queue = poke (consume ch.queue); current = none })
        else ok (false, reached)
  ]

  unfoldable pub failed : Channel → Channel
  failed ch = record ch { current = none }

  unfoldable pub submit : ℕ → ℕ → Bytes → Channel → Channel
  submit now clid bytes ch = record ch {
    queue = push now (le_bytes clid_size clid ∷ bytes ∷ []) ch.queue;
  }

  unfoldable pub activate : Channel → Channel
  activate ch = record ch { queue = poke ch.queue }

  unfoldable pub make : ℕ → Q → Channel
  make label q = record {
    label = label;
    queue = q;
    current = none;
    clids = 0 ∷ 0 ∷ [];
    channels = 0 ∷ 0 ∷ [];
    lenword = 0 ∷ 0 ∷ [];
    done = 0;
  }

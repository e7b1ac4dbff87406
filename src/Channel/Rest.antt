-- ===== src/Channel/Rest.antt =====
-- The part of a message that a channel has not sent.
use native.Mathlib.Nat.{pow-suc}
use udptun.Prelude.{
  ℕ, zero, suc, ◌+◌, ◌-◌, ◌/◌, ◌^◌, ◌≤◌, ◌<◌, ◌≡◌, sym, List, [], ◌∷◌, ◌++◌, arith, length, take,
  drop, length-drop, drop-append, concat, concat-append, append-nil, append_assoc, take-length_le,
}
use udptun.Wire.{Bytes, Message, frame, two_bytes, push_onto}
use udptun.Channel.{unsent, le_bytes, le_word, clid_size}

-- Reading an integer back from memory.
pub le_word-le_bytes : (w n : ℕ) → n < 256 ^ w → le_word (le_bytes w n) ≡ n
le_word-le_bytes zero n h = omega arith
le_word-le_bytes (suc w) n h =
    let ih = le_word-le_bytes w (n / 256) (omega (arith, pow-suc 256 w)) in omega (arith, ih)

-- The queue's entry for a message: the client's id in memory form, and the datagram.
abbrev pub entry : Message → Bytes
entry m = le_bytes clid_size m.clid ++ m.payload

pub length-entry : (m : Message) → length (entry m) ≡ 8 + length m.payload
length-entry m = omega arith

-- The tail of a message from a byte on is the tails of its parts.
drop-frame :
    (m : Message) (n : ℕ)
    → drop n (frame m)
      ≡ drop n (two_bytes m.clid)
        ++ (drop (n - 2) (two_bytes m.label)
            ++ (drop (n - 4) (two_bytes (length m.payload)) ++ drop (n - 6) m.payload))
drop-frame m n =
    let e4 : n - 2 - 2 ≡ n - 4 = omega arith in
    let e6 : n - 2 - 2 - 2 ≡ n - 6 = omega arith in
    rw (drop-append, drop-append, drop-append, e6, e4)

pub drop-unsent :
    (done : ℕ) (payload : Bytes)
    → done < 6 + length payload
    → let m = unsent done (length payload) in
      take m (drop (length payload - m) payload) ≡ drop (done - 6) payload
drop-unsent done payload h =
    let m = unsent done (length payload) in
    let e : length payload - m ≡ done - 6 = ground arith in
    let l : length (drop (done - 6) payload) ≤ m = ground (arith, length-drop (done - 6) payload) in
    rw e (take-length_le m (drop (done - 6) payload) l)

-- The vectors that the fields leave, one after the other, with the payload's rest.
pub offers_lem :
    (v0 v1 v2 v3 : List Bytes) (rest : Bytes) (label : ℕ) (m : Message) (done : ℕ)
    → concat v1 ≡ concat v0 ++ drop (done - 0) (two_bytes m.clid)
    → concat v2 ≡ concat v1 ++ drop (done - 2) (two_bytes label)
    → concat v3 ≡ concat v2 ++ drop (done - 4) (two_bytes (length m.payload))
    → rest ≡ drop (done - 6) m.payload
    → m.label ≡ label
    → concat (push_onto v3 rest) ≡ concat v0 ++ drop done (frame m)
offers_lem v0 v1 v2 v3 rest label m done h1 h2 h3 hr e =
    let z : done - 0 ≡ done = omega arith in
    let t : concat (push_onto v3 rest) ≡ concat v3 ++ rest =
      rw (concat-append v3 (rest ∷ []), append-nil) in
    rw (t, h3, h2, h1, hr, sym e, z, drop-frame m done, append_assoc, append_assoc, append_assoc)

-- ===== src/Wire/Decode.antt =====
-- The decoder undoes the format, whatever follows a message in the buffer, and takes nothing
-- before the message is whole.
use udptun.Prelude.{
  ℕ, ◌+◌, ◌*◌, ◌/◌, ◌%◌, ◌<◌, ◌≡◌, false, ◌++◌, some, arith, length, ltb, length-append,
  take-length,
}
use udptun.Wire.{Bytes, Message, frame, decode_message}

-- The fields fit their places in the header.
pub record IsMessage (m : Message) : Type 0 where
  pub clid_fits : m.clid < 65536
  pub label_fits : m.label < 65536
  pub length_fits : length m.payload < 65536

pub length-frame : (m : Message) → length (frame m) ≡ 6 + length m.payload
length-frame m = omega arith

word_of : (n : ℕ) → n < 65536 → n / 256 % 256 * 256 + n % 256 ≡ n
word_of n h = omega arith

-- A message whose id, label and length have two bytes each, at the front of the buffer, is decoded
-- into its parts, whatever follows it.
pub decode-frame :
    (m : Message) (rest : Bytes) → IsMessage m → decode_message (frame m ++ rest) ≡ some m
unfolding decode_message
decode-frame m rest v =
    let e1 : length (m.payload ++ rest) ≡ length m.payload + length rest =
      length-append m.payload rest in
    let c : m.clid / 256 % 256 * 256 + m.clid % 256 ≡ m.clid = word_of m.clid v.clid_fits in
    let l : m.label / 256 % 256 * 256 + m.label % 256 ≡ m.label = word_of m.label v.label_fits in
    let n : length m.payload / 256 % 256 * 256 + length m.payload % 256 ≡ length m.payload =
      word_of (length m.payload) v.length_fits in
    let t1 : ltb (length (frame m ++ rest)) 6 ≡ false = ground arith in
    let t2 : ltb (length (frame m ++ rest)) (6 + length m.payload) ≡ false = ground arith in
    rw (t1, c, l, n, t2, take-length m.payload rest)

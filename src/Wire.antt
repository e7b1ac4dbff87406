-- ===== src/Wire.antt =====
-- The message format: messages.hh and marshaling.cc. A byte is a number below 256; an `iovec` is
-- the bytes that its base and length denote when it is pushed, since the caller sends them before
-- anything writes to those buffers again.
pub mod Fields
pub mod Decode
pub mod Split
use udptun.Prelude.{
  ℕ, zero, suc, ◌+◌, ◌-◌, ◌*◌, ◌/◌, ◌%◌, ◌^◌, ◌<◌, Bool, true, false, List, [], ◌∷◌, ◌++◌, Option,
  none, some, length, set, get_or, take, drop, ltb, leb, if◌then◌else◌,
}

abbrev pub Bytes : Type 0
Bytes = List ℕ

abbrev pub IsBytes : Bytes → Type 0
IsBytes [] = Unit {0}
IsBytes (b ∷ bs) = (b < 256) × IsBytes bs

abbrev pub max_label_bytes : ℕ
max_label_bytes = 2

abbrev pub max_clid_bytes : ℕ
max_clid_bytes = 2

abbrev pub max_length_bytes : ℕ
max_length_bytes = 2

abbrev pub max_length : ℕ
max_length = 65536

-- `MAX_CLID_BYTES + MAX_LABEL_BYTES + MAX_LENGTH_BYTES`
abbrev pub header_bytes : ℕ
header_bytes = max_clid_bytes + max_label_bytes + max_length_bytes

abbrev pub push_onto : List Bytes → Bytes → List Bytes
push_onto vec bytes = vec ++ bytes ∷ []

-- The loop `for (i = max - m; i < max; i++) buf[i] = (v >> ((max - 1 - i) * 8)) & 0xff`, by the
-- rounds left.
write_bytes : ℕ → ℕ → ℕ → ℕ → Bytes → Bytes
write_bytes zero i max v buf = buf
write_bytes (suc n) i max v buf =
    write_bytes n (i + 1) max v (set buf i (v / 2 ^ ((max - 1 - i) * 8) % 256))

-- What one of the three encoders leaves behind: its result, its buffer and the vector.
pub record Encoded : Type 0 where
  pub more : Bool
  pub buf : Bytes
  pub vec : List Bytes

-- The body that the three encoders share, for a field of `max` bytes at `pos` in the message.
unfoldable pub field_to_bytes : ℕ → ℕ → Bytes → ℕ → ℕ → List Bytes → Encoded
unfolding write_bytes
field_to_bytes max v buf done pos vec =
    if leb (pos + max) done
    then record { more = false; buf = buf; vec = vec }
    else let m = if ltb pos done then pos + max - done else max in
      let buf' = write_bytes m (max - m) max v buf in
      record { more = true; buf = buf'; vec = push_onto vec (take m (drop (max - m) buf')) }

unfoldable pub label_to_bytes : ℕ → Bytes → ℕ → ℕ → List Bytes → Encoded
label_to_bytes label buf done pos vec = field_to_bytes max_label_bytes label buf done pos vec

unfoldable pub clid_to_bytes : ℕ → Bytes → ℕ → ℕ → List Bytes → Encoded
clid_to_bytes clid buf done pos vec = field_to_bytes max_clid_bytes clid buf done pos vec

unfoldable pub length_to_bytes : ℕ → Bytes → ℕ → ℕ → List Bytes → Encoded
length_to_bytes len buf done pos vec = field_to_bytes max_length_bytes len buf done pos vec

-- A decoded message; `payload` is the pointer that the decoder returns, with `pktlen` bytes.
pub record Message : Type 0 where
  pub clid : ℕ
  pub label : ℕ
  pub payload : Bytes

-- `base[i] << 8 | base[i + 1]`
abbrev pub word_at : Bytes → ℕ → ℕ
word_at base i = get_or base i 0 * 256 + get_or base (i + 1) 0

-- The buffer holds the `got` bytes of the argument; `none` is a null result.
unfoldable pub decode_message : Bytes → Option Message
decode_message base =
    let got = length base in
    if ltb got header_bytes
    then none
    else let pktlen = word_at base (max_clid_bytes + max_label_bytes) in
      if ltb got (header_bytes + pktlen)
      then none
      else some (record {
        clid = word_at base 0;
        label = word_at base max_clid_bytes;
        payload = take pktlen (drop header_bytes base);
      })

-- Big-endian, as `x >> 8` and `x`, each cut to a byte.
abbrev pub two_bytes : ℕ → Bytes
two_bytes n = (n / 256 % 256) ∷ (n % 256) ∷ []

-- The message on the wire, the format that the encoders and the decoder share.
abbrev pub frame : Message → Bytes
frame m = two_bytes m.clid ++ (two_bytes m.label ++ (two_bytes (length m.payload) ++ m.payload))

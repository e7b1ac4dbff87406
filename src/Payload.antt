-- ===== src/Payload.antt =====
-- Payloads and their form on disk: payloads.hh, payloads.cc and chunks.hh. A chunk is the bytes that
-- its base and length denote. A payload that owns no array is `none`. Sizes do not wrap.
pub mod Load
pub mod Memory
pub mod Owned
pub mod Shifted
pub mod Values
use udptun.Prelude.{
  ℕ, zero, suc, ◌+◌, ◌*◌, ◌/◌, ◌%◌, Bool, true, false, List, [], ◌∷◌, ◌++◌, map, Option, none, some,
  length, take, drop, ltb, if◌then◌else◌, concat,
}
use udptun.Wire.{Bytes, two_bytes}

abbrev pub sum_lengths : List Bytes → ℕ
sum_lengths [] = 0
sum_lengths (c ∷ cs) = length c + sum_lengths cs

abbrev pub Payload : Type 0
Payload = Option Bytes

-- `Payload(const Chunk *, size_t)`: the chunks copied one after the other.
abbrev pub of_chunks : List Bytes → Bytes
of_chunks arr = concat arr

-- `Payload::save` of an array of chunks: `(len >> 8) & 0xff`, `len & 0xff`, and the chunks.
unfoldable pub save : List Bytes → Bytes
save arr = two_bytes (sum_lengths arr) ++ concat arr

-- `Payload::save` of one array, as the entries of a queue are saved.
unfoldable pub save_one : Bytes → Bytes
save_one p = two_bytes (length p) ++ p

-- The two bytes and what they announce, or a failure of the stream.
abbrev load_bytes : ℕ → Bytes → Option (Bytes × Bytes)
load_bytes len rest = if ltb (length rest) len then none else some (take len rest, drop len rest)

-- `Payload::load`, on what is left of the file; the second result is what is left after it.
unfoldable pub load : Bytes → Option (Bytes × Bytes)
load [] = none
load (hi ∷ []) = none
load (hi ∷ lo ∷ rest) = load_bytes (hi * 256 + lo) rest

-- What `while (load1(fin, sum));` has read: the payloads, and the bytes that they took.
pub record Loaded : Type 0 where
  pub payloads : List Bytes
  pub sum : ℕ

-- The fuel is the number of rounds that may still find a payload.
load_upto : ℕ → Bytes → Loaded
load_upto zero b = record { payloads = []; sum = 0 }
load_upto (suc fuel) b = elim (load b) [
  | none ↦ record { payloads = []; sum = 0 }
  | some (p, rest) ↦
      let r = load_upto fuel rest in
      record { payloads = p ∷ r.payloads; sum = (2 + length p) + r.sum }
]

-- Each payload takes two bytes at least.
unfoldable pub load_all : Bytes → Loaded
unfolding load_upto
load_all b = load_upto (suc (length b)) b

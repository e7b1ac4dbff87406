-- ===== src/Wire/Split.antt =====
-- A stream of bytes as messages: how a buffer splits into whole messages and an unfinished rest.
use udptun.Prelude.{
  ℕ, zero, suc, ◌+◌, ◌≤◌, ◌<◌, ◌≡◌, refl, sym, ap, subst, ◌∙◌, List, [], ◌∷◌, ◌++◌, map, none, some,
  inl, inr, arith, length, take, drop, length-append, length-drop, length-take, drop-length,
  Option-cases, append_assoc, concat, get_or,
}
use udptun.Wire.{Bytes, IsBytes, Message, frame, decode_message, word_at}
use udptun.Wire.Decode.{IsMessage, decode-frame, length-frame}

abbrev pub AllMessages : List Message → Type 0
AllMessages [] = Unit {0}
AllMessages (m ∷ ms) = IsMessage m × AllMessages ms

-- `b` is the messages `ms`, one after the other, and then `r`, which holds no whole message.
pub data Splits (r : Bytes) : Bytes → List Message → Type 0 where
  done : {b : Bytes} → decode_message b ≡ none → b ≡ r → Splits r b []
  next :
      {b : Bytes} {m : Message} {ms : List Message}
      → decode_message b ≡ some m
      → Splits r (drop (6 + length m.payload) b) ms
      → Splits r b (m ∷ ms)

pub get_or-append :
    (i d : ℕ) (xs ys : Bytes) → i < length xs → get_or (xs ++ ys) i d ≡ get_or xs i d
get_or-append i d [] ys h = elim h [ ]
get_or-append zero d (x ∷ xs) ys h = refl
get_or-append (suc i) d (x ∷ xs) ys h = get_or-append i d xs ys (omega arith)

pub take-append_le : (n : ℕ) (xs ys : Bytes) → n ≤ length xs → take n (xs ++ ys) ≡ take n xs
take-append_le zero xs ys h = refl
take-append_le (suc n) [] ys h = absurd (omega arith)
take-append_le (suc n) (x ∷ xs) ys h = ap (◌∷◌ x) (take-append_le n xs ys (omega arith))

pub drop-append_le : (n : ℕ) (xs ys : Bytes) → n ≤ length xs → drop n (xs ++ ys) ≡ drop n xs ++ ys
drop-append_le zero xs ys h = refl
drop-append_le (suc n) [] ys h = absurd (omega arith)
drop-append_le (suc n) (x ∷ xs) ys h = drop-append_le n xs ys (omega arith)

-- The decoder's result on a buffer that is long enough.
abbrev read_message : Bytes → Message
read_message b = record {
  clid = word_at b 0;
  label = word_at b 2;
  payload = take (word_at b 4) (drop 6 b);
}

decode_inv :
    (b : Bytes) {m : Message}
    → decode_message b ≡ some m
    → (6 + word_at b 4 ≤ length b) × (read_message b ≡ m)
unfolding decode_message
decode_inv b h = ground arith

decode_long : (b : Bytes) → 6 + word_at b 4 ≤ length b → decode_message b ≡ some (read_message b)
unfolding decode_message
decode_long b h = ground arith

pub decode-length :
    (b : Bytes) {m : Message} → decode_message b ≡ some m → 6 + length m.payload ≤ length b
decode-length b h =
    let (long, e) = decode_inv b h in rw (← e) (omega (arith, length-take (word_at b 4) (drop 6 b)))

-- A message that is whole is not changed by what arrives behind it.
pub decode-append :
    (b ys : Bytes) {m : Message} → decode_message b ≡ some m → decode_message (b ++ ys) ≡ some m
decode-append b ys h =
    let (long, e) = decode_inv b h in
    let w : (i : ℕ) → i < 6 → get_or (b ++ ys) i 0 ≡ get_or b i 0 =
      λ i lt. get_or-append i 0 b ys (omega arith) in
    let l : length (b ++ ys) ≡ length b + length ys = length-append b ys in
    let word : word_at (b ++ ys) 4 ≡ word_at b 4 = omega (arith, w 4, w 5) in
    let d : drop 6 (b ++ ys) ≡ drop 6 b ++ ys = drop-append_le 6 b ys (omega arith) in
    let t : take (word_at b 4) (drop 6 b ++ ys) ≡ take (word_at b 4) (drop 6 b) =
      take-append_le (word_at b 4) (drop 6 b) ys (omega (arith, length-drop 6 b)) in
    let same : read_message (b ++ ys) ≡ read_message b = rw (
      w 0 (omega arith),
      w 1 (omega arith),
      w 2 (omega arith),
      w 3 (omega arith),
      w 4 (omega arith),
      w 5 (omega arith),
      d,
      t,
    ) in
    decode_long (b ++ ys) (omega arith) ∙ ap some (same ∙ e)

-- Every buffer splits; a message takes six bytes at least.
split_upto :
    (fuel : ℕ) (b : Bytes) → length b < fuel → (ms : List Message) × (r : Bytes) × Splits r b ms
split_upto zero b h = absurd (omega arith)
split_upto (suc fuel) b h = elim (Option-cases (decode_message b)) [
  | inl e ↦ ([], b, done e refl)
  | inr (m, e) ↦
      let k = 6 + length m.payload in
      let (ms, r, s) =
        split_upto fuel (drop k b) (omega (arith, length-drop k b, decode-length b e)) in
      (m ∷ ms, r, next e s)
]

pub split : (b : Bytes) → (ms : List Message) × (r : Bytes) × Splits r b ms
split b = split_upto (suc (length b)) b (omega arith)

-- What remains is no longer than the buffer, and holds no whole message.
pub Splits-rest : {r b : Bytes} {ms : List Message} → Splits r b ms → decode_message r ≡ none
Splits-rest (done e p) = rw (← p) e
Splits-rest (next e s) = Splits-rest s

Splits-append_next :
    {m m' : Message} {r b : Bytes} (ms : List Message) {ms' : List Message}
    → m' ≡ m
    → ((ms₂ : List Message) × (ms' ≡ ms ++ ms₂) × Splits r b ms₂)
    → (ms₂ : List Message) × (m' ∷ ms' ≡ m ∷ (ms ++ ms₂)) × Splits r b ms₂
Splits-append_next ms e (ms₂, q, t) = (ms₂, cc, t)

-- The messages that a part of the stream splits into are the first ones of the stream, and the
-- others are those of the part's rest and what follows it.
pub Splits-append :
    {r₁ r b : Bytes} {ms₁ ms : List Message} (ys : Bytes)
    → Splits r₁ b ms₁
    → Splits r (b ++ ys) ms
    → (ms₂ : List Message) × (ms ≡ ms₁ ++ ms₂) × Splits r (r₁ ++ ys) ms₂
Splits-append {ms = ms} ys (done e p) s = (ms, refl, rw (← p) s)
Splits-append {b = b} ys (next {m = m} e s₁) (done f q) =
    absurd (none_some (sym f ∙ decode-append b ys e))
  where
    none_some : none ≡ some m → ⊥
    none_some h = cc
Splits-append {r₁ = r₁} {r = r} {b = b} ys (next {m = m} {ms = ms₁} e s₁)
      (next {m = m'} {ms = ms'} f s) =
    let same : some m' ≡ some m = sym f ∙ decode-append b ys e in
    let same' : m' ≡ m = cc in
    let d : drop (6 + length m.payload) (b ++ ys) ≡ drop (6 + length m.payload) b ++ ys =
      drop-append_le _ b ys (decode-length b e) in
    let s' : Splits _ (drop (6 + length m.payload) b ++ ys) ms' =
      rw (← d)
        (subst (λ (k : Message). Splits r (drop (6 + length k.payload) (b ++ ys)) ms') same' s) in
    Splits-append_next ms₁ same' (Splits-append ys s₁ s')

-- A stream of valid messages and a rest that holds no whole message splits into just these.
pub Splits-frames :
    (ms : List Message) {r : Bytes}
    → AllMessages ms
    → decode_message r ≡ none
    → Splits r (concat (map frame ms) ++ r) ms
Splits-frames [] v e = done e refl
Splits-frames (m ∷ ms) {r} v e =
    let rest = concat (map frame ms) ++ r in
    let d : drop (6 + length m.payload) (frame m ++ rest) ≡ rest =
      rw (← length-frame m) (drop-length (frame m) rest) in
    rw append_assoc (next (decode-frame m rest v.0) (rw d (Splits-frames ms v.1 e)))

pub IsBytes-append : (xs ys : Bytes) → IsBytes xs → IsBytes ys → IsBytes (xs ++ ys)
IsBytes-append [] ys v w = w
IsBytes-append (x ∷ xs) ys v w = (v.0, IsBytes-append xs ys v.1 w)

pub IsBytes-left : (xs ys : Bytes) → IsBytes (xs ++ ys) → IsBytes xs
IsBytes-left [] ys v = tt
IsBytes-left (x ∷ xs) ys v = (v.0, IsBytes-left xs ys v.1)

pub IsBytes-right : (xs ys : Bytes) → IsBytes (xs ++ ys) → IsBytes ys
IsBytes-right [] ys v = v
IsBytes-right (x ∷ xs) ys v = IsBytes-right xs ys v.1

pub IsBytes-drop : (n : ℕ) (xs : Bytes) → IsBytes xs → IsBytes (drop n xs)
IsBytes-drop zero xs v = v
IsBytes-drop (suc n) [] v = tt
IsBytes-drop (suc n) (x ∷ xs) v = IsBytes-drop n xs v.1

pub Splits-IsBytes : {r b : Bytes} {ms : List Message} → Splits r b ms → IsBytes b → IsBytes r
Splits-IsBytes (done e p) v = subst IsBytes p v
Splits-IsBytes {b = b} (next e s) v = Splits-IsBytes s (IsBytes-drop _ b v)

-- A buffer with no whole message is its own rest.
pub Splits-none :
    {r b : Bytes} {ms : List Message}
    → Splits r b ms
    → decode_message b ≡ none
    → (ms ≡ []) × (b ≡ r)
Splits-none (done e p) h = (refl, p)
Splits-none (next e s) h = cc

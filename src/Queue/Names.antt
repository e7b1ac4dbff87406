-- ===== src/Queue/Names.antt =====
-- The names of a queue's files: `make_queue_file`, and what the constructor reads of them in queues.cc.
-- A character is its code.
use udptun.Prelude.{
  ℕ, zero, suc, ◌+◌, ◌*◌, ◌-◌, ◌/◌, ◌%◌, ◌^◌, ◌<◌, ◌≤◌, ◌≡◌, refl, ap, ◌∙◌, Bool, true, false, ◌||◌,
  ◌&&◌, List, [], ◌∷◌, Option, none, some, Outcome, ok, fault, thrown, ◌>>=◌, arith, ltb, leb, ◌==◌,
  if◌then◌else◌, not, Bool-cases, inl, inr,
}
use udptun.Wire.{Bytes}
use udptun.Queue.{PayloadQueue, Entries, make}

abbrev digit : ℕ → ℕ
digit n = if ltb n 10 then 48 + n else 87 + n

-- `std::hex << key`, in front of the characters that follow, with fuel for each digit.
unfoldable pub put_hex : ℕ → ℕ → List ℕ → List ℕ
put_hex zero n rest = rest
put_hex (suc fuel) n rest =
    let more = put_hex fuel (n / 16) (digit (n % 16) ∷ rest) in
    if ltb n 16 then digit n ∷ rest else more

-- The stem of `make_queue_file(key)`, for a key of 64 bits.
unfoldable pub make_queue_file : ℕ → List ℕ
make_queue_file key = put_hex 16 key []

abbrev between : ℕ → ℕ → ℕ → Bool
between low high c = leb low c && leb c high

abbrev is_digit : ℕ → Bool
is_digit c = between 48 57 c || (between 97 102 c || between 65 70 c)

abbrev digit_value : ℕ → ℕ
digit_value c = if leb c 57 then c - 48 else if leb c 70 then c - 55 else c - 87

-- What `std::stoll(text, nullptr, 16)` goes past: blanks, a sign, which it notes, and `0x`.
unfoldable pub skip_blanks : List ℕ → List ℕ
skip_blanks [] = []
skip_blanks (c ∷ cs) =
    let rest = skip_blanks cs in if (c == 32) || between 9 13 c then rest else c ∷ cs

abbrev take_sign : List ℕ → Bool × List ℕ
take_sign [] = (false, [])
take_sign (c ∷ cs) =
    if c == 45 then (true, cs) else if c == 43 then (false, cs) else (false, c ∷ cs)

abbrev skip_prefix : List ℕ → List ℕ
skip_prefix (z ∷ x ∷ d ∷ cs) =
    if (z == 48) && (((x == 120) || (x == 88)) && is_digit d) then d ∷ cs else z ∷ x ∷ d ∷ cs
skip_prefix cs = cs

-- The digits, up to another character.
unfoldable pub read_digits : ℕ → List ℕ → ℕ
read_digits n [] = n
read_digits n (c ∷ cs) =
    let more = read_digits (n * 16 + digit_value c) cs in if is_digit c then more else n

abbrev starts_digit : List ℕ → Bool
starts_digit [] = false
starts_digit (c ∷ cs) = is_digit c

-- The number, as one of 64 bits without a sign.
unfoldable pub stoll : List ℕ → Outcome ℕ
stoll text =
    let (negative, cs) = take_sign (skip_blanks text) in
    let digits = skip_prefix cs in
    let n = read_digits 0 digits in
    if not (starts_digit digits)
    then fault thrown
    else if negative
    then if leb n (2 ^ 63) then ok ((2 ^ 64 - n) % 2 ^ 64) else fault thrown
    else if ltb n (2 ^ 63)
    then ok n
    else fault thrown

-- A directory: `none` is a name that does not end in ".queue", and another is given by its stem.
abbrev pub Directory : Type 0
Directory = List (Option (List ℕ) × Bytes)

-- The keys that the constructor's loop reads.
unfoldable pub read_keys : Directory → Outcome Entries
read_keys [] = ok []
read_keys ((none, bs) ∷ dir) = read_keys dir >>= λ es. ok ((none, bs) ∷ es)
read_keys ((some stem, bs) ∷ dir) =
    stoll stem >>= λ key. read_keys dir >>= λ es. ok ((some key, bs) ∷ es)

-- The constructor. A name that cannot be read ends it before it calls anything.
unfoldable pub make_on : ℕ → Directory → Outcome PayloadQueue
make_on max_mem dir = read_keys dir >>= λ es. ok (make max_mem es)

-- The directory with the names of the keys.
abbrev pub name_all : Entries → Directory
name_all [] = []
name_all ((none, bs) ∷ es) = (none, bs) ∷ name_all es
name_all ((some key, bs) ∷ es) = (some (make_queue_file key), bs) ∷ name_all es

-- As many digits are enough for the numbers below this.
abbrev limit : ℕ → ℕ
limit zero = 1
limit (suc fuel) = 16 * limit fuel

digit-digit : (n : ℕ) → n < 16 → (is_digit (digit n) ≡ true) × (digit_value (digit n) ≡ n)
digit-digit n h = elim (Bool-cases (ltb n 10)) [
  | inl e ↦ let low : n < 10 = ground arith in rw e (ground arith)
  | inr e ↦ let high : 10 ≤ n = ground arith in rw e (ground arith)
]

read_digits-digit :
    (m n : ℕ) (rest : List ℕ)
    → n < 16
    → read_digits m (digit n ∷ rest) ≡ read_digits (m * 16 + n) rest
unfolding read_digits
read_digits-digit m n rest h =
    let (d, v) = digit-digit n h in rw d (ap (λ x. read_digits (m * 16 + x) rest) v)

read_digits-put_hex :
    (fuel n : ℕ) (rest : List ℕ)
    → n < limit fuel
    → read_digits 0 (put_hex fuel n rest) ≡ read_digits n rest
unfolding put_hex
read_digits-put_hex zero n rest h = ap (λ m. read_digits m rest) (omega arith)
read_digits-put_hex (suc fuel) n rest h = elim (Bool-cases (ltb n 16)) [
  | inl e ↦
      let small : n < 16 = ground arith in
      let same : 0 * 16 + n ≡ n = omega arith in
      rw e (read_digits-digit 0 n rest small ∙ ap (λ m. read_digits m rest) same)
  | inr e ↦
      let fewer : n / 16 < limit fuel = omega arith in
      let digit_small : n % 16 < 16 = omega arith in
      let whole : n / 16 * 16 + n % 16 ≡ n = omega arith in
      rw e (
        read_digits-put_hex fuel (n / 16) (digit (n % 16) ∷ rest) fewer
        ∙ read_digits-digit (n / 16) (n % 16) rest digit_small
        ∙ ap (λ m. read_digits m rest) whole)
]

-- Only digits that `std::hex` writes.
abbrev AllHex : List ℕ → Type 0
AllHex [] = Unit {0}
AllHex (c ∷ cs) = ((n : ℕ) × (n < 16) × (c ≡ digit n)) × AllHex cs

put_hex-AllHex : (fuel n : ℕ) (rest : List ℕ) → AllHex rest → AllHex (put_hex fuel n rest)
unfolding put_hex
put_hex-AllHex zero n rest h = h
put_hex-AllHex (suc fuel) n rest h = elim (Bool-cases (ltb n 16)) [
  | inl e ↦ let small : n < 16 = ground arith in rw e ((n, small, refl), h)
  | inr e ↦
      let small : n % 16 < 16 = omega arith in
      rw e (put_hex-AllHex fuel (n / 16) (digit (n % 16) ∷ rest) ((n % 16, small, refl), h))
]

starts_digit-put_hex :
    (fuel n : ℕ) (rest : List ℕ)
    → AllHex rest
    → starts_digit rest ≡ true
    → starts_digit (put_hex fuel n rest) ≡ true
unfolding put_hex
starts_digit-put_hex zero n rest a h = h
starts_digit-put_hex (suc fuel) n rest a h = elim (Bool-cases (ltb n 16)) [
  | inl e ↦ let small : n < 16 = ground arith in rw e (digit-digit n small).0
  | inr e ↦
      let small : n % 16 < 16 = omega arith in
      rw e (
        starts_digit-put_hex fuel (n / 16) (digit (n % 16) ∷ rest) ((n % 16, small, refl), a)
          (digit-digit (n % 16) small).0)
]

starts_digit-put_any :
    (fuel n : ℕ) (rest : List ℕ) → AllHex rest → starts_digit (put_hex (suc fuel) n rest) ≡ true
unfolding put_hex
starts_digit-put_any fuel n rest a = elim (Bool-cases (ltb n 16)) [
  | inl e ↦ let small : n < 16 = ground arith in rw e (digit-digit n small).0
  | inr e ↦
      let small : n % 16 < 16 = omega arith in
      rw e (
        starts_digit-put_hex fuel (n / 16) (digit (n % 16) ∷ rest) ((n % 16, small, refl), a)
          (digit-digit (n % 16) small).0)
]

digit_plain :
    (n : ℕ)
    → n < 16
    → let c = digit n in
      (((c == 32) || between 9 13 c) ≡ false)
      × ((c == 45) ≡ false)
      × ((c == 43) ≡ false)
      × (((c == 120) || (c == 88)) ≡ false)
digit_plain n h = elim (Bool-cases (ltb n 10)) [
  | inl e ↦ let low : n < 10 = ground arith in rw e (ground arith)
  | inr e ↦ let high : 10 ≤ n = ground arith in rw e (ground arith)
]

skip_prefix-AllHex : (cs : List ℕ) → AllHex cs → skip_prefix cs ≡ cs
skip_prefix-AllHex [] h = refl
skip_prefix-AllHex (z ∷ []) h = refl
skip_prefix-AllHex (z ∷ x ∷ []) h = refl
skip_prefix-AllHex (z ∷ x ∷ d ∷ cs) (hz, ((n, small, e), hd)) =
    let (_, _, _, p) = digit_plain n small in ground (arith, ap (λ c. (c == 120) || (c == 88)) e, p)

skip-AllHex : (cs : List ℕ) → AllHex cs → take_sign (skip_blanks cs) ≡ (false, cs)
unfolding skip_blanks
skip-AllHex [] h = refl
skip-AllHex (c ∷ cs) ((n, small, e), h) =
    let (b, s, t, _) = digit_plain n small in rw (e, b, s, t) refl

stoll-AllHex :
    (cs : List ℕ)
    → AllHex cs
    → starts_digit cs ≡ true
    → read_digits 0 cs < 2 ^ 63
    → stoll cs ≡ ok (read_digits 0 cs)
unfolding stoll
stoll-AllHex cs h s l = rw (skip-AllHex cs h, skip_prefix-AllHex cs h, s) (ground arith)

-- The key that is read is that which the name was made of.
pub stoll-make_queue_file : (key : ℕ) → key < 2 ^ 63 → stoll (make_queue_file key) ≡ ok key
unfolding make_queue_file read_digits
stoll-make_queue_file key h =
    let v : read_digits 0 (put_hex 16 key []) ≡ key = read_digits-put_hex 16 key [] (omega arith) in
    stoll-AllHex (put_hex 16 key []) (put_hex-AllHex 16 key [] tt)
      (starts_digit-put_any 15 key [] tt) (omega (arith, v))
    ∙ ap ok v

-- ===== src/Payload/Load.antt =====
-- A file of saved payloads is read back whole; a payload cut short at its end is left out.
use udptun.Prelude.{
  ℕ, zero, suc, ◌+◌, ◌*◌, ◌/◌, ◌%◌, ◌<◌, ◌≡◌, refl, ap, List, [], ◌∷◌, ◌++◌, map, none, some, arith,
  length, ltb, length-append, take-length, drop-length, append_assoc, concat, append-nil, false,
}
use udptun.Wire.{Bytes}
use udptun.Payload.{save, save_one, load, load_upto, load_all, sum_lengths, of_chunks}

-- The length of a payload fits its two bytes.
abbrev pub IsShort : Bytes → Type 0
IsShort p = length p < 65536

abbrev pub AllShort : List Bytes → Type 0
AllShort [] = Unit {0}
AllShort (p ∷ ps) = IsShort p × AllShort ps

abbrev pub saves : List Bytes → Bytes
saves ps = concat (map save_one ps)

pub length-of_chunks : (arr : List Bytes) → length (of_chunks arr) ≡ sum_lengths arr
length-of_chunks [] = refl
length-of_chunks (c ∷ cs) = omega (arith, length-append c (concat cs), length-of_chunks cs)

-- Chunks are saved as the payload that they make up.
pub save-save_one : (arr : List Bytes) → save arr ≡ save_one (of_chunks arr)
unfolding save save_one
save-save_one arr = rw (length-of_chunks arr)

load-save_one : (p rest : Bytes) → IsShort p → load (save_one p ++ rest) ≡ some (p, rest)
unfolding load save_one
load-save_one p rest h =
    let word : length p / 256 % 256 * 256 + length p % 256 ≡ length p = omega arith in
    let fits : ltb (length (p ++ rest)) (length p) ≡ false = ground (arith, length-append p rest) in
    rw (word, fits, take-length p rest, drop-length p rest)

length-save_one : (p : Bytes) → length (save_one p) ≡ 2 + length p
unfolding save_one
length-save_one p = omega arith

load_upto-saves :
    (fuel : ℕ) (ps : List Bytes) (tail : Bytes)
    → AllShort ps
    → load tail ≡ none
    → length (saves ps ++ tail) < fuel
    → load_upto fuel (saves ps ++ tail) ≡ record { payloads = ps; sum = length (saves ps) }
unfolding load_upto
load_upto-saves zero ps tail v e h = absurd (omega arith)
load_upto-saves (suc fuel) [] tail v e h = rw (load_upto, e)
load_upto-saves (suc fuel) (p ∷ ps) tail v e h =
    let l1 : length (save_one p ++ (saves ps ++ tail)) ≡ 2 + length p + length (saves ps ++ tail) =
      omega (arith, length-append (save_one p) (saves ps ++ tail), length-save_one p) in
    let assoc : (save_one p ++ saves ps) ++ tail ≡ save_one p ++ (saves ps ++ tail) =
      append_assoc (save_one p) (saves ps) tail in
    let l2 : length ((save_one p ++ saves ps) ++ tail) ≡ length (save_one p ++ (saves ps ++ tail)) =
      ap length assoc in
    let size : length (save_one p ++ saves ps) ≡ 2 + length p + length (saves ps) =
      omega (arith, length-append (save_one p) (saves ps), length-save_one p) in
    rw (
      assoc,
      load_upto,
      load-save_one p (saves ps ++ tail) v.0,
      load_upto-saves fuel ps tail v.1 e (omega arith),
      size,
    )

-- Reading a file of saved payloads, the length of each of two bytes, gives them back in order, and
-- accounts for the bytes that they take, also where the file ends within a payload that was not
-- wholly written.
pub load_all-saves :
    (ps : List Bytes) (tail : Bytes)
    → AllShort ps
    → load tail ≡ none
    → load_all (saves ps ++ tail) ≡ record { payloads = ps; sum = length (saves ps) }
unfolding load_all
load_all-saves ps tail v e =
    load_upto-saves (suc (length (saves ps ++ tail))) ps tail v e (omega arith)

pub load_nil : load [] ≡ none
unfolding load
load_nil = refl

pub load_all_whole :
    (ps : List Bytes)
    → AllShort ps
    → load_all (saves ps) ≡ record { payloads = ps; sum = length (saves ps) }
load_all_whole ps v = rw append-nil at (load_all-saves ps [] v load_nil)

pub saves-append : (ps qs : List Bytes) → saves (ps ++ qs) ≡ saves ps ++ saves qs
saves-append [] qs = refl
saves-append (p ∷ ps) qs = rw (saves-append ps qs, append_assoc)

pub AllShort-append : (ps qs : List Bytes) → AllShort ps → AllShort qs → AllShort (ps ++ qs)
AllShort-append [] qs v w = w
AllShort-append (p ∷ ps) qs v w = (v.0, AllShort-append ps qs v.1 w)

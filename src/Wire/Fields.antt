-- ===== src/Wire/Fields.antt =====
-- The encoders present exactly the bytes of their field that are still to be sent.
use udptun.Prelude.{
  ℕ, ◌+◌, ◌-◌, ◌/◌, ◌%◌, ◌≤◌, ◌≡◌, refl, true, false, List, [], ◌∷◌, ◌++◌, arith, length, drop, ltb,
  leb, concat, concat-append, append-nil, drop-length_le, dec_le, ℕ_discrete,
}
use udptun.Wire.{
  Bytes, Encoded, field_to_bytes, clid_to_bytes, label_to_bytes, length_to_bytes, two_bytes,
}

pub field_whole :
    (v a b done pos : ℕ) (vec : List Bytes)
    → done ≤ pos
    → field_to_bytes 2 v (a ∷ b ∷ []) done pos vec
      ≡ record { more = true; buf = two_bytes v; vec = vec ++ two_bytes v ∷ [] }
unfolding field_to_bytes
field_whole v a b done pos vec h = ground arith

pub field_half :
    (v a b done pos : ℕ) (vec : List Bytes)
    → done ≡ pos + 1
    → field_to_bytes 2 v (a ∷ b ∷ []) done pos vec
      ≡ record { more = true; buf = a ∷ (v % 256) ∷ []; vec = vec ++ (v % 256 ∷ []) ∷ [] }
unfolding field_to_bytes
field_half v a b done pos vec h =
    let e1 : leb (pos + 2) done ≡ false = ground arith in
    let e2 : ltb pos done ≡ true = ground arith in
    let e3 : pos + 2 - done ≡ 1 = omega arith in
    let e4 : v / 1 ≡ v = omega arith in rw (e1, e2, e3, e4)

pub field_sent :
    (v a b done pos : ℕ) (vec : List Bytes)
    → pos + 2 ≤ done
    → field_to_bytes 2 v (a ∷ b ∷ []) done pos vec
      ≡ record { more = false; buf = a ∷ b ∷ []; vec = vec }
unfolding field_to_bytes
field_sent v a b done pos vec h = ground arith

-- The bytes that the field adds to the vector are those of its two that are still to be sent.
pub concat-field :
    (v a b done pos : ℕ) (vec : List Bytes)
    → concat (field_to_bytes 2 v (a ∷ b ∷ []) done pos vec).vec
      ≡ concat vec ++ drop (done - pos) (two_bytes v)
concat-field v a b done pos vec = elim (dec_le done pos) [
  | yes p ↦
      let e : done - pos ≡ 0 = omega arith in
      rw (field_whole v a b done pos vec p, e, concat-append, append-nil)
  | no p ↦ elim (ℕ_discrete done (pos + 1)) [
    | yes q ↦
        let e : done - pos ≡ 1 = omega arith in
        rw (field_half v a b done pos vec q, e, concat-append, append-nil)
    | no q ↦
        let e : drop (done - pos) (two_bytes v) ≡ [] =
          drop-length_le (done - pos) (two_bytes v) (omega arith) in
        rw (field_sent v a b done pos vec (omega arith), e, append-nil)
  ]
]

-- A field leaves a buffer of two bytes, whatever was in it before.
pub length-field_buf :
    (v a b done pos : ℕ) (vec : List Bytes)
    → length (field_to_bytes 2 v (a ∷ b ∷ []) done pos vec).buf ≡ 2
length-field_buf v a b done pos vec = elim (dec_le done pos) [
  | yes p ↦ rw (field_whole v a b done pos vec p)
  | no p ↦ elim (ℕ_discrete done (pos + 1)) [
    | yes q ↦ rw (field_half v a b done pos vec q)
    | no q ↦ rw (field_sent v a b done pos vec (omega arith))
  ]
]

-- A buffer of two bytes.
abbrev pub IsPair : Bytes → Type 0
IsPair b = (x : ℕ) × (y : ℕ) × (b ≡ x ∷ y ∷ [])

length-IsPair : (b : Bytes) → length b ≡ 2 → IsPair b
length-IsPair [] h = absurd (omega arith)
length-IsPair (x ∷ []) h = absurd (omega arith)
length-IsPair (x ∷ y ∷ []) h = (x, y, refl)
length-IsPair (x ∷ y ∷ z ∷ r) h = absurd (omega arith)

-- What each of the encoders does: it adds what is left of its field, and keeps its buffer's size.
abbrev pub Encodes : ℕ → ℕ → ℕ → List Bytes → Encoded → Type 0
Encodes v done pos vec r =
    (concat r.vec ≡ concat vec ++ drop (done - pos) (two_bytes v)) × IsPair r.buf

field-Encodes :
    (v done pos : ℕ) (buf : Bytes) (vec : List Bytes)
    → IsPair buf
    → Encodes v done pos vec (field_to_bytes 2 v buf done pos vec)
field-Encodes v done pos buf vec (x, y, e) =
    rw e (concat-field v x y done pos vec, length-IsPair _ (length-field_buf v x y done pos vec))

-- The three encoders.
pub clid-Encodes :
    (v done pos : ℕ) (buf : Bytes) (vec : List Bytes)
    → IsPair buf
    → Encodes v done pos vec (clid_to_bytes v buf done pos vec)
unfolding clid_to_bytes
clid-Encodes = field-Encodes

pub label-Encodes :
    (v done pos : ℕ) (buf : Bytes) (vec : List Bytes)
    → IsPair buf
    → Encodes v done pos vec (label_to_bytes v buf done pos vec)
unfolding label_to_bytes
label-Encodes = field-Encodes

pub length-Encodes :
    (v done pos : ℕ) (buf : Bytes) (vec : List Bytes)
    → IsPair buf
    → Encodes v done pos vec (length_to_bytes v buf done pos vec)
unfolding length_to_bytes
length-Encodes = field-Encodes

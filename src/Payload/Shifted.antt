-- ===== src/Payload/Shifted.antt =====
-- The values of payloads, and what becomes of them when one is left or moved.
use udptun.Prelude.{
  ℕ, ◌≡◌, refl, sym, ap, ◌∙◌, subst, Bool, true, false, Option, none, some, Outcome, ok, ◌>>=◌,
  arith, inl, inr, ◌⊎◌,
}
use udptun.Wire.{Bytes}
use udptun.Payload.Memory.{
  Slot, raw, null, holds, at_place, Memory, delete_array, base_of, slot_of, delete_base, set_base,
  no_length, cut_short, whole, Call, makes, moves, assigns, clears, destroys, loads,
}
use udptun.Payload.Owned.{value, Owned, emptied, released, replaced, moved}

abbrev pub is_raw : {A : Type 0} → Slot A → Bool
is_raw raw = true
is_raw null = false
is_raw (holds a) = false

-- What a call does to the values, without arrays.
abbrev pub after : Call → (ℕ → Slot Bytes) → ℕ → Slot Bytes
after (makes s bs) v = at_place s (holds bs) v
after (moves d s) v = at_place s null (at_place d (v s) v)
after (assigns d s) v = at_place s null (at_place d (v s) v)
after (clears s) v = at_place s null v
after (destroys s) v = at_place s raw v
after (loads s no_length) v = v
after (loads s cut_short) v = v
after (loads s (whole bs)) v = at_place s (holds bs) v

-- An object is made where there is none, and used or destroyed where there is one.
abbrev pub Allowed : Call → (ℕ → Slot Bytes) → Type 0
Allowed (makes s bs) v = is_raw (v s) ≡ true
Allowed (moves d s) v = (is_raw (v d) ≡ true) × (is_raw (v s) ≡ false)
Allowed (assigns d s) v = (is_raw (v d) ≡ false) × (is_raw (v s) ≡ false)
Allowed (clears s) v = is_raw (v s) ≡ false
Allowed (destroys s) v = is_raw (v s) ≡ false
Allowed (loads s r) v = is_raw (v s) ≡ false

abbrev pub Succeeds : (ℕ → Slot Bytes) → Outcome Memory → Type 0
Succeeds v o = (m : Memory) × (o ≡ ok m) × Owned m v

is_raw-value : (m : Memory) (x : Slot ℕ) → is_raw (value m x) ≡ is_raw x
is_raw-value m raw = refl
is_raw-value m null = refl
is_raw-value m (holds a) = refl

-- Whether there is an object is seen from its value.
pub raw_at :
    (m : Memory) (v : ℕ → Slot Bytes) (s : ℕ) → Owned m v → is_raw (m.objs s) ≡ is_raw (v s)
raw_at m v s k = sym (is_raw-value m (m.objs s)) ∙ ap is_raw (k.values s)

pub is_raw-eq : (x : Slot ℕ) → is_raw x ≡ true → x ≡ raw
is_raw-eq raw h = refl
is_raw-eq null h = cc
is_raw-eq (holds a) h = cc

-- An object has an array, or none.
pub object_cases : (x : Slot ℕ) → is_raw x ≡ false → (x ≡ null) ⊎ ((a : ℕ) × (x ≡ holds a))
object_cases raw h = cc
object_cases null h = inl refl
object_cases (holds a) h = inr (a, refl)

pub free_of : (x y : Slot ℕ) → x ≡ y → ((a : ℕ) → y ≡ holds a → ⊥) → (a : ℕ) → x ≡ holds a → ⊥
free_of x y e f a h = f a (sym e ∙ h)

abbrev leave : Bool → ℕ → Memory → Outcome Memory
leave gone s m =
    base_of (m.objs s) >>= λ b. delete_base b m >>= λ m'. ok (set_base s (emptied gone) m')

pub leave-Succeeds :
    (gone : Bool) (s : ℕ) (m : Memory) (v : ℕ → Slot Bytes)
    → is_raw (v s) ≡ false
    → Owned m v
    → Succeeds (at_place s (emptied gone) v) (leave gone s m)
unfolding delete_array
leave-Succeeds gone s m v h k = elim (object_cases (m.objs s) (raw_at m v s k ∙ h)) [
  | inl e ↦ (_, rw e refl, replaced gone s m v (free_of (m.objs s) null e (λ a f. cc)) k)
  | inr (a, e) ↦ (_, rw (e, k.held s a e) refl, released gone s a m v e k)
]

-- A move to a place without an array.
pub shifted :
    (d s : ℕ) (b : Option ℕ) (m : Memory) (v : ℕ → Slot Bytes)
    → ((a : ℕ) → m.objs d ≡ holds a → ⊥)
    → m.objs s ≡ slot_of b
    → Owned m v
    → Owned (set_base s null (set_base d (slot_of b) m)) (at_place s null (at_place d (v s) v))
shifted d s none m v free e k =
    let first = replaced false d m v free k in
    let at_s : at_place d null m.objs s ≡ null = ground arith in
    let both =
      replaced false s (set_base d null m) (at_place d null v)
        (free_of (at_place d null m.objs s) null at_s (λ a f. cc)) first in
    let there : null ≡ v s = sym (ap (value m) e) ∙ k.values s in
    subst (λ x. Owned (set_base s null (set_base d null m)) (at_place s null (at_place d x v)))
      there both
shifted d s (some a) m v free e k = moved d s a m v free e k

pub base_of-slot_of :
    (x : Slot ℕ) → is_raw x ≡ false → (b : Option ℕ) × (base_of x ≡ ok b) × (x ≡ slot_of b)
base_of-slot_of raw h = cc
base_of-slot_of null h = (none, refl, refl)
base_of-slot_of (holds a) h = (some a, refl, refl)

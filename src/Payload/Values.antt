-- ===== src/Payload/Values.antt =====
-- What the calls on payloads do to their values, and that they own their arrays.
use udptun.Prelude.{
  ℕ, ◌==◌, ◌≡◌, refl, ◌∙◌, subst, true, false, List, [], ◌∷◌, Outcome, ok, ◌>>=◌, arith, Bool-cases,
  inl, inr,
}
use udptun.Wire.{Bytes}
use udptun.Payload.Memory.{
  Slot, raw, null, holds, at_place, Memory, new_array, delete_array, base_of, slot_of, set_base,
  make, make_moved, move_assign, clear, destroy, no_length, cut_short, whole, load_into, Call,
  makes, moves, assigns, clears, destroys, loads, call, calls,
}
use udptun.Payload.Owned.{Owned, released, value-new_array, given, Owned-alike}
use udptun.Payload.Shifted.{
  is_raw, after, Allowed, Succeeds, raw_at, is_raw-eq, object_cases, free_of, leave-Succeeds,
  shifted, base_of-slot_of,
}

make-Succeeds :
    (s : ℕ) (bs : Bytes) (m : Memory) (v : ℕ → Slot Bytes)
    → Allowed (makes s bs) v
    → Owned m v
    → Succeeds (after (makes s bs) v) (make s bs m)
unfolding make
make-Succeeds s bs m v h k =
    let e = is_raw-eq (m.objs s) (raw_at m v s k ∙ h) in
    (
      set_base s (holds m.next) (new_array bs m),
      rw e refl,
      given s bs m v (free_of (m.objs s) raw e (λ a f. cc)) k,
    )

make_moved-Succeeds :
    (d s : ℕ) (m : Memory) (v : ℕ → Slot Bytes)
    → Allowed (moves d s) v
    → Owned m v
    → Succeeds (after (moves d s) v) (make_moved d s m)
unfolding make_moved
make_moved-Succeeds d s m v h k =
    let e = is_raw-eq (m.objs d) (raw_at m v d k ∙ h.0) in
    let (b, f, g) = base_of-slot_of (m.objs s) (raw_at m v s k ∙ h.1) in
    (
      set_base s null (set_base d (slot_of b) m),
      rw e (rw f refl),
      shifted d s b m v (free_of (m.objs d) raw e (λ a f. cc)) g k,
    )

abbrev move_deleted : ℕ → ℕ → ℕ → Memory → Outcome Memory
move_deleted d s a m = base_of (m.objs s) >>= λ b.
    ok (set_base s null (set_base d (slot_of b) (record m { live = at_place a false m.live })))

-- A payload that is moved to itself: its array is deleted, and it has none then.
move_self :
    (d a : ℕ) (m : Memory) (v : ℕ → Slot Bytes)
    → m.objs d ≡ holds a
    → Owned m v
    → Succeeds (after (assigns d d) v) (move_deleted d d a m)
move_self d a m v e k =
    let m' = record m { objs = at_place d null m.objs; live = at_place a false m.live } in
    let n = set_base d null (set_base d (holds a) (record m { live = at_place a false m.live })) in
    (
      n,
      rw e refl,
      Owned-alike m' n (at_place d null v) (after (assigns d d) v) (λ q. ground arith) (λ q. refl)
          (λ q. refl) refl (λ q. ground arith) (released false d a m v e k),
    )

-- Moving to a place whose array was deleted, and which still points to it.
move_over :
    (d s a : ℕ) (m : Memory) (v : ℕ → Slot Bytes)
    → m.objs d ≡ holds a
    → is_raw (v s) ≡ false
    → Owned m v
    → Succeeds (after (assigns d s) v) (move_deleted d s a m)
move_over d s a m v e h k = elim (Bool-cases (d == s)) [
  | inl f ↦
      let same : d ≡ s = ground arith in
      subst (λ t. Succeeds (after (assigns d t) v) (move_deleted d t a m)) same
        (move_self d a m v e k)
  | inr f ↦
      let (b, g, same) = base_of-slot_of (m.objs s) (raw_at m v s k ∙ h) in
      let m' = record m { objs = at_place d null m.objs; live = at_place a false m.live } in
      let at_d : m'.objs d ≡ null = ground arith in
      let at_s : m'.objs s ≡ slot_of b = rw f same in
      (
        set_base s null (set_base d (slot_of b) (record m { live = at_place a false m.live })),
        rw g refl,
        Owned-alike (set_base s null (set_base d (slot_of b) m'))
            (set_base s null (set_base d (slot_of b) (record m { live = at_place a false m.live })))
            (at_place s null (at_place d (at_place d null v s) (at_place d null v)))
            (after (assigns d s) v) (λ q. ground arith) (λ q. refl) (λ q. refl) refl
            (λ q. ground arith)
            (shifted d s b m' (at_place d null v) (free_of (m'.objs d) null at_d (λ c i. cc)) at_s
              (released false d a m v e k)),
      )
]

move_assign-Succeeds :
    (d s : ℕ) (m : Memory) (v : ℕ → Slot Bytes)
    → Allowed (assigns d s) v
    → Owned m v
    → Succeeds (after (assigns d s) v) (move_assign d s m)
unfolding move_assign delete_array
move_assign-Succeeds d s m v h k = elim (object_cases (m.objs d) (raw_at m v d k ∙ h.0)) [
  | inl e ↦
      let (b, f, g) = base_of-slot_of (m.objs s) (raw_at m v s k ∙ h.1) in
      (
        set_base s null (set_base d (slot_of b) m),
        rw e (rw f refl),
        shifted d s b m v (free_of (m.objs d) null e (λ a i. cc)) g k,
      )
  | inr (a, e) ↦ let (n, f, o) = move_over d s a m v e h.1 k in (n, rw (e, k.held d a e) f, o)
]

-- A new array that is deleted at once.
cut_short-Succeeds :
    (m : Memory) (v : ℕ → Slot Bytes)
    → Owned m v
    → Succeeds v (delete_array m.next (new_array [] m))
unfolding delete_array
cut_short-Succeeds m v k =
    let self : (m.next == m.next) ≡ true = ground arith in
    let n = record (new_array [] m) { live = at_place m.next false (new_array [] m).live } in
    (
      n,
      rw self refl,
      record {
        values =
            λ q. value-new_array [] m (m.objs q) (λ a e. k.below a (k.held q a e)) ∙ k.values q;
        held = λ q a e. ground (arith, k.held q a, k.below a);
        one = k.one;
        owned = λ a l. let old : m.live a ≡ true = ground arith in k.owned a old;
        below = λ a l. ground (arith, k.below a);
      },
    )

-- A new array for a payload whose old one is deleted after it was made.
whole-Succeeds :
    (s : ℕ) (bs : Bytes) (m : Memory) (v : ℕ → Slot Bytes)
    → is_raw (v s) ≡ false
    → Owned m v
    → Succeeds
        (at_place s (holds bs) v)
        (clear s (new_array bs m) >>= λ m'. ok (set_base s (holds m.next) m'))
unfolding clear delete_array
whole-Succeeds s bs m v h k = elim (object_cases (m.objs s) (raw_at m v s k ∙ h)) [
  | inl e ↦
      let n = set_base s (holds m.next) (set_base s null (new_array bs m)) in
      (
        n,
        rw (e, clear) refl,
        Owned-alike (set_base s (holds m.next) (new_array bs m)) n (at_place s (holds bs) v)
            (at_place s (holds bs) v) (λ q. ground arith) (λ q. refl) (λ q. refl) refl (λ q. refl)
            (given s bs m v (free_of (m.objs s) null e (λ a i. cc)) k),
      )
  | inr (a, e) ↦
      let lt = k.below a (k.held s a e) in
      let live : (new_array bs m).live a ≡ true = let old = k.held s a e in ground arith in
      let m' = record m { objs = at_place s null m.objs; live = at_place a false m.live } in
      let at_s : m'.objs s ≡ null = ground arith in
      let n = set_base s (holds m.next) (
        set_base s null
          (record (new_array bs m) { live = at_place a false (new_array bs m).live })) in
      (
        n,
        rw (e, clear) (rw live refl),
        Owned-alike (set_base s (holds m.next) (new_array bs m')) n
            (at_place s (holds bs) (at_place s null v)) (at_place s (holds bs) v)
            (λ q. ground arith) (λ b. ground arith) (λ q. refl) refl (λ q. ground arith)
            (given s bs m' (at_place s null v) (free_of (m'.objs s) null at_s (λ b i. cc))
              (released false s a m v e k)),
      )
]

call-Succeeds :
    (c : Call) (m : Memory) (v : ℕ → Slot Bytes)
    → Allowed c v
    → Owned m v
    → Succeeds (after c v) (call c m)
unfolding call load_into clear destroy
call-Succeeds (makes s bs) m v h k = make-Succeeds s bs m v h k
call-Succeeds (moves d s) m v h k = make_moved-Succeeds d s m v h k
call-Succeeds (assigns d s) m v h k = move_assign-Succeeds d s m v h k
call-Succeeds (clears s) m v h k = leave-Succeeds false s m v h k
call-Succeeds (destroys s) m v h k = leave-Succeeds true s m v h k
call-Succeeds (loads s no_length) m v h k =
    let (b, f, g) = base_of-slot_of (m.objs s) (raw_at m v s k ∙ h) in (m, rw f refl, k)
call-Succeeds (loads s cut_short) m v h k =
    let (b, f, g) = base_of-slot_of (m.objs s) (raw_at m v s k ∙ h) in
    let (n, e, o) = cut_short-Succeeds m v k in (n, rw f e, o)
call-Succeeds (loads s (whole bs)) m v h k = whole-Succeeds s bs m v h k

abbrev pub after_all : List Call → (ℕ → Slot Bytes) → ℕ → Slot Bytes
after_all [] v = v
after_all (c ∷ cs) v = after_all cs (after c v)

abbrev pub AllAllowed : List Call → (ℕ → Slot Bytes) → Type 0
AllAllowed [] v = Unit {0}
AllAllowed (c ∷ cs) v = Allowed c v × AllAllowed cs (after c v)

-- When payloads are made where there is none, and otherwise used and destroyed only where there is
-- one: any calls that make, move, assign, clear, load and destroy them, each with another or with
-- itself, run without deleting an array twice, and leave the values that these calls have on
-- payloads as byte strings; and each array that is allocated in the end is that of a payload, and
-- of one only.
pub calls-Owned :
    (cs : List Call) (m : Memory) (v : ℕ → Slot Bytes)
    → AllAllowed cs v
    → Owned m v
    → (m' : Memory) × (calls cs m ≡ ok m') × Owned m' (after_all cs v)
unfolding calls
calls-Owned [] m v h k = (m, refl, k)
calls-Owned (c ∷ cs) m v h k =
    let (n, e, o) = call-Succeeds c m v h.0 k in
    let (m', f, o') = calls-Owned cs n (after c v) h.1 o in (m', rw e f, o')

-- ===== src/Payload/Owned.antt =====
-- Each array that is allocated is owned by one payload.
use udptun.Prelude.{
  ℕ, ◌<◌, ◌==◌, ◌≡◌, refl, sym, ap, ◌∙◌, subst, Bool, true, false, arith, Bool-cases, inl, inr,
}
use udptun.Wire.{Bytes}
use udptun.Payload.Memory.{Slot, raw, null, holds, at_place, Memory, new_array, set_base}

-- What a payload is, without its array.
abbrev pub value : Memory → Slot ℕ → Slot Bytes
value m raw = raw
value m null = null
value m (holds a) = holds (m.bytes a)

-- The payloads are `v`, and each array that is allocated is owned, and by one of them only.
pub record Owned (m : Memory) (v : ℕ → Slot Bytes) : Type 0 where
  pub values : (s : ℕ) → value m (m.objs s) ≡ v s
  pub held : (s a : ℕ) → m.objs s ≡ holds a → m.live a ≡ true
  pub one : (s t a : ℕ) → m.objs s ≡ holds a → m.objs t ≡ holds a → s ≡ t
  pub owned : (a : ℕ) → m.live a ≡ true → (s : ℕ) × (m.objs s ≡ holds a)
  pub below : (a : ℕ) → m.live a ≡ true → a < m.next

-- No array: no object, or a payload without one.
abbrev pub emptied : {A : Type 0} → Bool → Slot A
emptied true = raw
emptied false = null

-- A payload that gives up its array.
pub released :
    (gone : Bool) (s a : ℕ) (m : Memory) (v : ℕ → Slot Bytes)
    → m.objs s ≡ holds a
    → Owned m v
    → Owned
        (record m { objs = at_place s (emptied gone) m.objs; live = at_place a false m.live })
        (at_place s (emptied gone) v)
released gone s a m v h k = record {
  values = λ q. ground (arith, k.values q);
  held = λ q b e. ground (arith, k.held q b, k.one q s b);
  one = λ q t b e f. ground (arith, k.one q t b);
  owned = λ b l.
      let still : m.live b ≡ true = ground arith in
      let o = k.owned b still in let other : m.objs o.0 ≡ holds b = o.1 in (o.0, ground arith);
  below = λ b l. ground (arith, k.below b);
}

-- A place without an array is not that of an array.
other_place :
    (s t b : ℕ) (objs : ℕ → Slot ℕ)
    → ((a : ℕ) → objs s ≡ holds a → ⊥)
    → objs t ≡ holds b
    → (s == t) ≡ false
other_place s t b objs free e = elim (Bool-cases (s == t)) [
  | inr f ↦ f
  | inl f ↦ let same : s ≡ t = ground arith in absurd (free b (ap objs same ∙ e))
]

-- A new array is none that is held already.
pub value-new_array :
    (bs : Bytes) (m : Memory) (x : Slot ℕ)
    → ((a : ℕ) → x ≡ holds a → a < m.next)
    → value (new_array bs m) x ≡ value m x
value-new_array bs m raw h = refl
value-new_array bs m null h = refl
value-new_array bs m (holds a) h = let lt = h a refl in ground arith

-- A place without an array, before and after.
pub replaced :
    (gone : Bool) (s : ℕ) (m : Memory) (v : ℕ → Slot Bytes)
    → ((a : ℕ) → m.objs s ≡ holds a → ⊥)
    → Owned m v
    → Owned (record m { objs = at_place s (emptied gone) m.objs }) (at_place s (emptied gone) v)
replaced gone s m v h k = record {
  values = λ q. ground (arith, k.values q);
  held = λ q b e. ground (arith, k.held q b);
  one = λ q t b e f. ground (arith, k.one q t b);
  owned = λ b l.
      let o = k.owned b l in
      let other : m.objs o.0 ≡ holds b = o.1 in
      let ne : (s == o.0) ≡ false = other_place s o.0 b m.objs h other in (o.0, rw ne other);
  below = λ b l. ground (arith, k.below b);
}

-- An array that is new, and that is given to a place without one.
pub given :
    (s : ℕ) (bs : Bytes) (m : Memory) (v : ℕ → Slot Bytes)
    → ((a : ℕ) → m.objs s ≡ holds a → ⊥)
    → Owned m v
    → Owned (set_base s (holds m.next) (new_array bs m)) (at_place s (holds bs) v)
given s bs m v h k = record {
  values = λ q.
      let old = value-new_array bs m (m.objs q) (λ a e. k.below a (k.held q a e)) ∙ k.values q in
      elim (Bool-cases (s == q)) [ inl b ↦ rw b (ground arith) | inr b ↦ rw b old ];
  held = λ q b e. ground (arith, k.held q b);
  one = λ q t b e f. ground (arith, k.one q t b, k.held q b, k.held t b, k.below b);
  owned = λ b l. elim (Bool-cases (m.next == b)) [
    | inl f ↦ (s, ground arith)
    | inr f ↦
        let still : m.live b ≡ true = ground arith in
        let o = k.owned b still in (o.0, rw (other_place s o.0 b m.objs h o.1) o.1)
  ];
  below = λ b l. ground (arith, k.below b);
}

-- The array of one payload becomes that of another place, which has none.
pub moved :
    (d s a : ℕ) (m : Memory) (v : ℕ → Slot Bytes)
    → ((b : ℕ) → m.objs d ≡ holds b → ⊥)
    → m.objs s ≡ holds a
    → Owned m v
    → Owned (set_base s null (set_base d (holds a) m)) (at_place s null (at_place d (v s) v))
moved d s a m v h e k = record {
  values = λ q. ground (arith, k.values q, k.values s);
  held = λ q b f. ground (arith, k.held q b, k.held s a);
  one = λ q t b f g. ground (arith, k.one q t b, k.one q s b, k.one t s b);
  owned = λ b l. elim (Bool-cases (a == b)) [
    | inl f ↦ let apart : (d == s) ≡ false = other_place d s a m.objs h e in (d, ground arith)
    | inr f ↦
        let o = k.owned b l in
        let other : m.objs o.0 ≡ holds b = o.1 in
        let apart : (d == o.0) ≡ false = other_place d o.0 b m.objs h other in (o.0, ground arith)
  ];
  below = k.below;
}

value_alike :
    (m n : Memory) (x : Slot ℕ) → ((a : ℕ) → n.bytes a ≡ m.bytes a) → value n x ≡ value m x
value_alike m n raw h = refl
value_alike m n null h = refl
value_alike m n (holds a) h = ap holds (h a)

-- Two states that are the same at every place and for every array.
pub Owned-alike :
    (m n : Memory) (v w : ℕ → Slot Bytes)
    → ((q : ℕ) → n.objs q ≡ m.objs q)
    → ((a : ℕ) → n.live a ≡ m.live a)
    → ((a : ℕ) → n.bytes a ≡ m.bytes a)
    → n.next ≡ m.next
    → ((q : ℕ) → w q ≡ v q)
    → Owned m v
    → Owned n w
Owned-alike m n v w eo el eb en ev k = record {
  values = λ q. value_alike m n (n.objs q) eb ∙ ap (value m) (eo q) ∙ k.values q ∙ sym (ev q);
  held = λ q a e. el a ∙ k.held q a (sym (eo q) ∙ e);
  one = λ q t a e f. k.one q t a (sym (eo q) ∙ e) (sym (eo t) ∙ f);
  owned = λ a l. let o = k.owned a (sym (el a) ∙ l) in (o.0, eo o.0 ∙ o.1);
  below = λ a l. subst (λ z. a < z) (sym en) (k.below a (sym (el a) ∙ l));
}

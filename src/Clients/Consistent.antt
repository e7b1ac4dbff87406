-- ===== src/Clients/Consistent.antt =====
-- The two maps of a client table agree, also when a new client is put in them.
use udptun.Prelude.{
  ℕ, ◌+◌, ◌%◌, ◌^◌, ◌≡◌, refl, sym, ap, subst, ◌∙◌, true, false, List, Option, none, some, inl, inr,
  arith, find, put, find-put, ◌==◌, Bool-cases,
}
use udptun.Clients.{Entry, ClientTable}

-- `fwd` and `rev` are each other's inverse.
pub record Consistent (t : ClientTable) : Type 0 where
  pub forth :
      (key id : ℕ)
      → find key t.rev ≡ some id
      → (e : Entry) × (find id t.fwd ≡ some e) × (e.addr ≡ key)
  pub back : (id : ℕ) (e : Entry) → find id t.fwd ≡ some e → find e.addr t.rev ≡ some id

pub same_some : {A : Type 0} (x y : A) → ◌≡◌ {A = Option A} (some x) (some y) → x ≡ y
same_some x y h = cc

pub no_value : {A : Type 0} (x : A) → ◌≡◌ {A = Option A} none (some x) → ⊥
no_value x h = cc

pub find-put_same : {A : Type 0} (k : ℕ) (v : A) (m : List (ℕ × A)) → find k (put k v m) ≡ some v
find-put_same k v m = let b : (k == k) ≡ true = ground arith in find-put k k v m ∙ rw b refl

pub find-put_other :
    {A : Type 0} (i k : ℕ) (v : A) (m : List (ℕ × A))
    → (k == i) ≡ false
    → find i (put k v m) ≡ find i m
find-put_other i k v m b = find-put i k v m ∙ rw b refl

-- The table with a new client.
abbrev pub with_new : ℕ → ℕ → ClientTable → ClientTable
with_new now key t = record t {
  fwd = put t.next_id (record { addr = key; last_used = now }) t.fwd;
  rev = put key t.next_id t.rev;
  next_id = (t.next_id + 1) % 2 ^ 64;
}

pub with_new-Consistent :
    (now key : ℕ) (t : ClientTable)
    → Consistent t
    → find key t.rev ≡ none
    → find t.next_id t.fwd ≡ none
    → Consistent (with_new now key t)
with_new-Consistent now key t c fresh free = record { forth = forth; back = back }
  where
    new : Entry
    new = record { addr = key; last_used = now }

    forth :
        (k id : ℕ)
        → find k (put key t.next_id t.rev) ≡ some id
        → (e : Entry) × (find id (put t.next_id new t.fwd) ≡ some e) × (e.addr ≡ k)
    forth k id h = elim (Bool-cases (key == k)) [
      | inl b ↦
          let same : key ≡ k = ground arith in
          let id_is : t.next_id ≡ id =
            same_some t.next_id id (sym (find-put k key t.next_id t.rev ∙ rw b refl) ∙ h) in
          (
            new,
            subst (λ x. find x (put t.next_id new t.fwd) ≡ some new) id_is
                (find-put_same t.next_id new t.fwd),
            same,
          )
      | inr b ↦
          let (e, f, g) = c.forth k id (sym (find-put_other k key t.next_id t.rev b) ∙ h) in
          elim (Bool-cases (t.next_id == id)) [
            | inl d ↦
                let id_is : t.next_id ≡ id = ground arith in
                absurd (no_value e (sym free ∙ ap (λ x. find x t.fwd) id_is ∙ f))
            | inr d ↦ (e, find-put_other id t.next_id new t.fwd d ∙ f, g)
          ]
    ]

    back :
        (id : ℕ) (e : Entry)
        → find id (put t.next_id new t.fwd) ≡ some e
        → find e.addr (put key t.next_id t.rev) ≡ some id
    back id e h = elim (Bool-cases (t.next_id == id)) [
      | inl d ↦
          let id_is : t.next_id ≡ id = ground arith in
          let e_is : new ≡ e =
            same_some new e (sym (find-put id t.next_id new t.fwd ∙ rw d refl) ∙ h) in
          subst (λ (x : Entry). find x.addr (put key t.next_id t.rev) ≡ some id) e_is
            (find-put_same key t.next_id t.rev ∙ ap some id_is)
      | inr d ↦
          let old = c.back id e (sym (find-put_other id t.next_id new t.fwd d) ∙ h) in
          elim (Bool-cases (key == e.addr)) [
            | inl b ↦
                let same : key ≡ e.addr = ground arith in
                absurd (no_value id (sym fresh ∙ ap (λ x. find x t.rev) same ∙ old))
            | inr b ↦ find-put_other e.addr key t.next_id t.rev b ∙ old
          ]
    ]

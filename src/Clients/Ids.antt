-- ===== src/Clients/Ids.antt =====
-- The ids that a `ClientTable` gives: one for each address, and not the same for two.
use udptun.Prelude.{
  ℕ, zero, suc, ◌+◌, ◌%◌, ◌^◌, ◌≤◌, ◌<◌, ◌≡◌, ◌≢◌, refl, sym, ap, subst, ◌∙◌, false, List, [], ◌∷◌,
  none, some, inl, inr, arith, ok, length, find, put, find-put, ◌==◌, if◌then◌else◌, Option-cases,
  Bool-cases, leb,
}
use udptun.Clients.{Entry, ClientTable, assign, seek}
use udptun.Clients.Consistent.{
  Consistent, same_some, no_value, find-put_same, find-put_other, with_new, with_new-Consistent,
}

-- How many of the ids are this one or after it.
abbrev count_from : ℕ → List (ℕ × Entry) → ℕ
count_from n [] = 0
count_from n ((id, e) ∷ m) = let rest = count_from n m in if leb n id then suc rest else rest

count_from-length : (n : ℕ) (m : List (ℕ × Entry)) → count_from n m ≤ length m
count_from-length n [] = omega arith
count_from-length n ((id, e) ∷ m) = ground (arith, count_from-length n m)

count_from-suc : (n : ℕ) (m : List (ℕ × Entry)) → count_from (n + 1) m ≤ count_from n m
count_from-suc n [] = omega arith
count_from-suc n ((id, e) ∷ m) = ground (arith, count_from-suc n m)

count_from-find :
    (n : ℕ) (m : List (ℕ × Entry)) (e : Entry)
    → find n m ≡ some e
    → count_from (n + 1) m < count_from n m
unfolding find
count_from-find n [] e h = absurd (no_value e h)
count_from-find n ((id, d) ∷ m) e h = elim (Bool-cases (id == n)) [
  | inl b ↦ ground (arith, count_from-suc n m)
  | inr b ↦ ground (arith, count_from-find n m e (rw b at h))
]

-- What a call of `seek` does: the id is now the address's, and no other address's id changes.
pub record Sought (key : ℕ) (t : ClientTable) (id : ℕ) (t' : ClientTable) : Type 0 where
  pub consistent : Consistent t'
  pub known : find key t'.rev ≡ some id
  pub others : (k : ℕ) → k ≢ key → find k t'.rev ≡ find k t.rev

assign_free :
    (fuel now key : ℕ) (t : ClientTable)
    → find t.next_id t.fwd ≡ none
    → assign (suc fuel) now key t ≡ some (t.next_id, with_new now key t)
unfolding assign
assign_free fuel now key t e = ground arith

assign_taken :
    (fuel now key : ℕ) (t : ClientTable) (e : Entry)
    → find t.next_id t.fwd ≡ some e
    → assign (suc fuel) now key t
      ≡ assign fuel now key (record t { next_id = (t.next_id + 1) % 2 ^ 64 })
unfolding assign
assign_taken fuel now key t e h = ground arith

with_new-Sought :
    (now key : ℕ) (t : ClientTable)
    → Consistent t
    → find key t.rev ≡ none
    → find t.next_id t.fwd ≡ none
    → Sought key t t.next_id (with_new now key t)
with_new-Sought now key t c fresh free = record {
  consistent = with_new-Consistent now key t c fresh free;
  known = find-put_same key t.next_id t.rev;
  others =
      λ k h. let b : (key == k) ≡ false = ground arith in find-put_other k key t.next_id t.rev b;
}

abbrev moved_on : ClientTable → ℕ → ClientTable
moved_on t n = record t { next_id = n }

assign-Sought :
    (fuel now key : ℕ) (t : ClientTable)
    → Consistent t
    → find key t.rev ≡ none
    → count_from t.next_id t.fwd < fuel
    → t.next_id + count_from t.next_id t.fwd < 2 ^ 64
    → (id : ℕ) × (t' : ClientTable) × (assign fuel now key t ≡ some (id, t')) × Sought key t id t'
assign-Sought zero now key t c fresh h w = absurd (omega arith)
assign-Sought (suc fuel) now key t c fresh h w = elim (Option-cases (find t.next_id t.fwd)) [
  | inl e ↦ (
    t.next_id,
    with_new now key t,
    assign_free fuel now key t e,
    with_new-Sought now key t c fresh e,
  )
  | inr (d, e) ↦
      let less = count_from-find t.next_id t.fwd d e in
      let wraps : (t.next_id + 1) % 2 ^ 64 ≡ t.next_id + 1 = omega (arith, less, w) in
      let (id, t', f, s) =
        assign-Sought fuel now key (moved_on t (t.next_id + 1))
          (record { forth = c.forth; back = c.back }) fresh (omega (arith, less, h))
          (omega (arith, less, w)) in
      (
        id,
        t',
        assign_taken fuel now key t d e ∙ ap (λ n. assign fuel now key (moved_on t n)) wraps ∙ f,
        record { consistent = s.consistent; known = s.known; others = s.others },
      )
]

-- The table with the time of a client updated.
abbrev updated : ℕ → ℕ → Entry → ClientTable → ClientTable
updated now id e t = record t { fwd = put id (record e { last_used = now }) t.fwd }

updated-Consistent :
    (now id : ℕ) (e : Entry) (t : ClientTable)
    → Consistent t
    → find id t.fwd ≡ some e
    → Consistent (updated now id e t)
updated-Consistent now id e t c h = record { forth = forth; back = back }
  where
    new : Entry
    new = record e { last_used = now }

    forth :
        (k i : ℕ)
        → find k t.rev ≡ some i
        → (d : Entry) × (find i (put id new t.fwd) ≡ some d) × (d.addr ≡ k)
    forth k i g =
        let (d, f, a) = c.forth k i g in
        elim (Bool-cases (id == i)) [
          | inl b ↦
              let same : id ≡ i = ground arith in
              let d_is : e ≡ d = same_some e d (sym h ∙ ap (λ x. find x t.fwd) same ∙ f) in
              (new, find-put i id new t.fwd ∙ rw b refl, ap (λ (x : Entry). x.addr) d_is ∙ a)
          | inr b ↦ (d, find-put_other i id new t.fwd b ∙ f, a)
        ]

    back : (i : ℕ) (d : Entry) → find i (put id new t.fwd) ≡ some d → find d.addr t.rev ≡ some i
    back i d g = elim (Bool-cases (id == i)) [
      | inl b ↦
          let same : id ≡ i = ground arith in
          let d_is : new ≡ d = same_some new d (sym (find-put i id new t.fwd ∙ rw b refl) ∙ g) in
          subst (λ (x : Entry). find x.addr t.rev ≡ some i) d_is (c.back id e h ∙ ap some same)
      | inr b ↦ c.back i d (sym (find-put_other i id new t.fwd b) ∙ g)
    ]

seek_known :
    (fuel now key id : ℕ) (e : Entry) (t : ClientTable)
    → find key t.rev ≡ some id
    → find id t.fwd ≡ some e
    → seek fuel now key t ≡ ok (some (id, updated now id e t))
unfolding seek
seek_known fuel now key id e t f g = ground arith

seek_new :
    (fuel now key : ℕ) (t : ClientTable)
    → find key t.rev ≡ none
    → seek fuel now key t ≡ ok (assign fuel now key t)
unfolding seek
seek_new fuel now key t f = ground arith

-- A table whose two maps are inverse, with an id left for each client from the next one on, gives
-- each address an id, with fuel for each client and one more, at no failed assertion: the address
-- has this id from then on, the ids of the others do not change, and the two maps stay inverse.
pub seek-Sought :
    (fuel now key : ℕ) (t : ClientTable)
    → Consistent t
    → length t.fwd < fuel
    → t.next_id + length t.fwd < 2 ^ 64
    → (id : ℕ) × (t' : ClientTable) × (seek fuel now key t ≡ ok (some (id, t')))
      × Sought key t id t'
seek-Sought fuel now key t c h w = elim (Option-cases (find key t.rev)) [
  | inl e ↦
      let n = count_from-length t.next_id t.fwd in
      let (id, t', f, s) = assign-Sought fuel now key t c e (omega (arith, n)) (omega (arith, n)) in
      (id, t', seek_new fuel now key t e ∙ ap ok f, s)
  | inr (id, e) ↦
      let (d, f, a) = c.forth key id e in
      (
        id,
        updated now id d t,
        seek_known fuel now key id d t e f,
        record { consistent = updated-Consistent now id d t c f; known = e; others = λ k g. refl },
      )
]

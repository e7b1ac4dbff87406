-- ===== src/Queue/AsFifo.antt =====
-- A payload queue is what a channel relies on.
use udptun.Prelude.{
  ℕ, ◌≡◌, sym, ap, ◌∙◌, List, [], ◌∷◌, ◌++◌, Option, none, some, inl, inr, Bool-cases, Option-cases,
}
use udptun.Fifo.{Fifo}
use udptun.Payload.{of_chunks, sum_lengths}
use udptun.Queue.Memory.{push_file-SameMemory}
use udptun.Queue.Peek.{peek-Peeks, consume-contents}
use udptun.Queue.Push.Refine.{push_memory_fields}
use udptun.Queue.View.{contents}
use udptun.Queue.{PayloadQueue, Spill, peek, poke, consume, push, fits_memory}
use udptun.Wire.{Bytes}

-- The payload is the first of those in memory.
abbrev pub IsFront : Bytes → PayloadQueue → Type 0
IsFront p q = (ps : List Bytes) × (q.queue ≡ p ∷ ps)

pub peek_none-contents : (q : PayloadQueue) → (peek q).0 ≡ none → contents q ≡ []
peek_none-contents q e =
    let v = peek-Peeks q in
    elim v.result [
      | inl (_, f, g, _) ↦ sym v.same ∙ rw (f, g)
      | inr (p, ps, f, g) ↦ absurd (none_some p (sym e ∙ f))
    ]
  where
    none_some : (p : Bytes) → ◌≡◌ {A = Option Bytes} none (some p) → ⊥
    none_some p h = cc

pub peek_some-IsFront : (q : PayloadQueue) (p : Bytes) → (peek q).0 ≡ some p → IsFront p (peek q).1
peek_some-IsFront q p e = elim (peek-Peeks q).result [
  | inl (f, _, _, _) ↦ absurd (none_some (sym f ∙ e))
  | inr (p', ps, f, g) ↦
      let same : some p' ≡ some p = sym f ∙ e in
      let same' : p' ≡ p = cc in (ps, g ∙ ap (λ x. x ∷ ps) same')
]
  where
    none_some : ◌≡◌ {A = Option Bytes} none (some p) → ⊥
    none_some h = cc

pub contents-poke : (q : PayloadQueue) → contents (poke q) ≡ contents q
unfolding poke
contents-poke q = elim (Option-cases (peek q).0) [
  | inl e ↦ rw (e, poke) (peek-Peeks q).same
  | inr (p, e) ↦ rw (e, poke) (peek-Peeks q).same
]

pub push-IsFront :
    (spill : Spill) (q : PayloadQueue) (p : Bytes) (now : ℕ) (arr : List Bytes)
    → IsFront p q
    → IsFront p (push spill now arr q)
unfolding push
push-IsFront spill q p now arr (ps, e) = elim (Bool-cases (fits_memory q (sum_lengths arr))) [
  | inl f ↦
      let (a, _, _, _) = push_memory_fields arr q in
      rw (push, f) (ps ++ of_chunks arr ∷ [], a ∙ ap (λ x. x ++ of_chunks arr ∷ []) e)
  | inr f ↦ let (_, b) = push_file-SameMemory spill now arr q in rw (push, f) (ps, b ∙ e)
]

abbrev pub payload_queue : Spill → Fifo
payload_queue spill = record {
  Q = PayloadQueue;
  view = contents;
  Front = IsFront;
  peek = peek;
  consume = λ q. (consume q none).0;
  push = push spill;
  poke = poke;
  view-peek = λ q. (peek-Peeks q).same;
  peek_none = peek_none-contents;
  peek_some = peek_some-IsFront;
  view-consume = λ q p f. (consume-contents q none p f.0 f.1).0;
  view-poke = contents-poke;
  push-Front = push-IsFront spill;
}

-- ===== src/Fifo.antt =====
-- What a channel relies on in its queue. `view` is what there is to read; `Front p q` says that a
-- pointer to the payload `p`, got from `peek`, is to the head of the queue.
use udptun.Prelude.{ℕ, ◌≡◌, List, [], ◌∷◌, Option, none, some}
use udptun.Wire.{Bytes}

pub record Fifo : Type 1 where
  pub Q : Type 0
  pub view : Q → List Bytes
  pub Front : Bytes → Q → Type 0
  pub peek : Q → Option Bytes × Q
  pub consume : Q → Q
  pub push : ℕ → List Bytes → Q → Q
  pub poke : Q → Q
  pub view-peek : (q : Q) → view (peek q).1 ≡ view q
  pub peek_none : (q : Q) → (peek q).0 ≡ none → view q ≡ []
  pub peek_some : (q : Q) (p : Bytes) → (peek q).0 ≡ some p → Front p (peek q).1
  pub view-consume : (q : Q) (p : Bytes) → Front p q → view q ≡ p ∷ view (consume q)
  pub view-poke : (q : Q) → view (poke q) ≡ view q
  pub push-Front :
      (q : Q) (p : Bytes) (now : ℕ) (arr : List Bytes) → Front p q → Front p (push now arr q)

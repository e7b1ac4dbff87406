-- ===== src/Egress/Connection/Parse.antt =====
-- The loop over `process` serves the messages of the buffer in order.
use udptun.Prelude.{
  ℕ, zero, suc, ◌+◌, ◌<◌, ◌≡◌, List, [], ◌∷◌, arith, length, length-drop, Outcome, Outcome-cases,
  ok, ◌>>=◌, inl, inr,
}
use udptun.Wire.{Bytes, Message}
use udptun.Wire.Split.{Splits, done, next, decode-length}
use udptun.Egress.Connection.{Connection, Maker, serve, process, process_all}

unfoldable pub serve_all : Maker → ℕ → Connection → List Message → Outcome Connection
serve_all make now c [] = ok c
serve_all make now c (m ∷ ms) = do c' ← serve make now c m; serve_all make now c' ms

-- `process` does not look at the rest of the buffer once a message is decoded, and what it serves
-- does not depend on the buffer.
serve-buf :
    (make : Maker) (now : ℕ) (c : Connection) (b : Bytes) (m : Message)
    → serve make now (record c { buf = b }) m
      ≡ (serve make now c m >>= λ c'. ok (record c' { buf = b }))
unfolding serve
serve-buf make now c b m = ground arith

-- Given fuel for the bytes of the buffer, the loop serves the messages that the buffer splits
-- into, one after the other, and leaves the rest in the buffer; a client state that cannot be made
-- ends it as it ends the serving.
pub process_all-serve_all :
    (make : Maker) (now : ℕ) (fuel : ℕ) (c : Connection) {r b : Bytes} {ms : List Message}
    → length b < fuel
    → Splits r b ms
    → process_all fuel make now (record c { buf = b })
      ≡ (serve_all make now c ms >>= λ c'. ok (record c' { buf = r }))
unfolding process_all process serve_all
process_all-serve_all make now zero c h s = absurd (omega arith)
process_all-serve_all make now (suc fuel) c h (done e p) = rw (e, process_all, process, p)
process_all-serve_all make now (suc fuel) c {r = r} {b = b} h (next {m = m} {ms = ms} e s) =
    elim (Outcome-cases (serve make now c m)) [
      | inl (f, p) ↦ rw (e, process_all, process, serve-buf make now c b m, p)
      | inr (c', p) ↦
          rw (e, process_all, process, serve-buf make now c b m, p)
            (process_all-serve_all make now fuel c'
              (omega (arith, length-drop (6 + length m.payload) b, decode-length b e)) s)
    ]

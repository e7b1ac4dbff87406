-- ===== src/Egress/Connection/Flush.antt =====
-- `flush` of a connection: the clients that have not been served since the given time.
use udptun.Prelude.{
  ℕ, ◌≡◌, refl, sym, ap, ◌∙◌, List, [], ◌∷◌, Option, none, some, arith, find, ◌==◌, if◌then◌else◌,
  Bool-cases, inl, inr,
}
use udptun.Egress.Connection.{ClientState, Connection, expired, flush, flush_clients}

-- Each id occurs once, as in a `std::map`.
abbrev pub Once : List (ℕ × ClientState) → Type 0
Once [] = Unit {0}
Once ((k, st) ∷ m) = (find k m ≡ none) × Once m

-- The state, if it has been used since.
abbrev pub unless_expired : ℕ → Option ClientState → Option ClientState
unless_expired epoch none = none
unless_expired epoch (some st) = if expired epoch st then none else some st

find-flush_clients :
    (epoch k : ℕ) (m : List (ℕ × ClientState))
    → Once m
    → find k (flush_clients epoch m) ≡ unless_expired epoch (find k m)
unfolding flush_clients find
find-flush_clients epoch k [] o = refl
find-flush_clients epoch k ((j, st) ∷ m) (gone, o) =
    let ih = find-flush_clients epoch k m o in
    elim (Bool-cases (j == k)) [
      | inl b ↦
          let same : j ≡ k = ground arith in
          let missing : find k m ≡ none = ap (λ x. find x m) (sym same) ∙ gone in
          let dropped : find k (flush_clients epoch m) ≡ none =
            ih ∙ ap (unless_expired epoch) missing in
          elim (Bool-cases (expired epoch st)) [
            | inl e ↦ rw (b, e) dropped
            | inr e ↦ rw (b, e, find, b) refl
          ]
      | inr b ↦ elim (Bool-cases (expired epoch st)) [
        | inl e ↦ rw (b, e) ih
        | inr e ↦ rw (b, e, find, b) ih
      ]
    ]

-- In a table with each id once, a flush drops just the clients that were last served before the
-- given time; the states of the others, the buffer, the socket and what was sent are as before.
pub find-flush :
    (epoch k : ℕ) (c : Connection)
    → Once c.clstats
    → (find k (flush epoch c).clstats ≡ unless_expired epoch (find k c.clstats))
      × ((flush epoch c).buf ≡ c.buf)
      × ((flush epoch c).sock ≡ c.sock)
      × ((flush epoch c).sent ≡ c.sent)
unfolding flush
find-flush epoch k c o = (find-flush_clients epoch k c.clstats o, refl, refl, refl)

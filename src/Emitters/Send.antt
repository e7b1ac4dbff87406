-- ===== src/Emitters/Send.antt =====
-- What an emitter does for a destination that it serves.
use udptun.Prelude.{
  ℕ, ◌≡◌, sym, ◌∙◌, Bool, true, false, none, some, arith, ok, find, Bool-cases, Option-cases, inl,
  inr,
}
use udptun.Destinations.{
  Destination, Sendto, Store, check, check_at, find_option, send, failed, sent, peer,
}
use udptun.Emitters.{Emitter, emit}
use udptun.Emitters.Erode.{Serves}
use udptun.Emitters.Maker.{check_at_found}

-- What `sendto` returned, as an error number.
abbrev pub code_of : Sendto → ℕ
code_of (failed ec) = ec
code_of (sent n) = 0

-- The emitter sends to an address that the destination has, and gives the error of `sendto`.
pub record Sends (store : Store) (ptr : ℕ) (em : Emitter) : Type 0 where
  pub destination : Destination
  pub addr : ℕ
  pub found : find ptr store ≡ some destination
  pub has_peer : peer em.family em.protocol destination ≡ ok (some addr)
  pub emitted :
      (logged : Bool) (sendto : ℕ → Sendto)
      → emit logged sendto em destination ≡ ok (code_of (sendto addr), some addr)

check-true :
    (family protocol : ℕ) (d : Destination)
    → check family protocol d ≡ ok true
    → (addr : ℕ) × (d.activated ≡ true) × (find_option family protocol d.options ≡ some addr)
check-true family protocol d e = elim (Bool-cases d.activated) [
  | inr a ↦ absurd (threw a)
  | inl a ↦ elim (Option-cases (find_option family protocol d.options)) [
    | inl f ↦ absurd (no_option a f)
    | inr (addr, f) ↦ (addr, a, f)
  ]
]
  where
    threw : d.activated ≡ false → ⊥
    threw a = unfold check in ground arith

    no_option : d.activated ≡ true → find_option family protocol d.options ≡ none → ⊥
    no_option a f = unfold check in ground arith

send_found :
    (logged : Bool) (sendto : ℕ → Sendto) (family protocol addr : ℕ) (d : Destination)
    → d.activated ≡ true
    → find_option family protocol d.options ≡ some addr
    → send logged sendto family protocol d ≡ ok (code_of (sendto addr), some addr)
unfolding send
send_found logged sendto family protocol addr d a f = ground arith

peer_found :
    (family protocol addr : ℕ) (d : Destination)
    → d.activated ≡ true
    → find_option family protocol d.options ≡ some addr
    → peer family protocol d ≡ ok (some addr)
unfolding peer
peer_found family protocol addr d a f = ground arith

emit_open :
    (logged : Bool) (sendto : ℕ → Sendto) (fd : ℕ) (em : Emitter) (d : Destination)
    → em.sock ≡ some fd
    → emit logged sendto em d ≡ send logged sendto em.family em.protocol d
unfolding emit
emit_open logged sendto fd em d e = ground arith

check_at-none :
    (family protocol ptr : ℕ) (store : Store)
    → find ptr store ≡ none
    → check_at family protocol store ptr ≡ ok true
    → ⊥
unfolding check_at
check_at-none family protocol ptr store e f = ground arith

-- An emitter that serves a destination sends to the socket address that it has for the emitter.
pub emit-Sends : (store : Store) (ptr : ℕ) (em : Emitter) → Serves store ptr em → Sends store ptr em
emit-Sends store ptr em s = elim (Option-cases (find ptr store)) [
  | inl e ↦ absurd (check_at-none em.family em.protocol ptr store e s.fits)
  | inr (d, e) ↦
      let checked : check em.family em.protocol d ≡ ok true =
        sym (check_at_found em.family em.protocol ptr store d e) ∙ s.fits in
      let (addr, a, f) = check-true em.family em.protocol d checked in
      record {
        destination = d;
        addr = addr;
        found = e;
        has_peer = peer_found em.family em.protocol addr d a f;
        emitted = λ logged sendto.
            emit_open logged sendto s.fd em d s.has_sock
            ∙ send_found logged sendto em.family em.protocol addr d a f;
      }
]

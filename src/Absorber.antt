-- ===== src/Absorber.antt =====
-- `UDPAbsorber`: udp_absorbers.hh and udp_absorbers.cc, over the queues of its channels. What
-- `recvfrom` gives, and the answers of the system for each address, are given.
use udptun.Prelude.{
  ℕ, ◌+◌, ◌<◌, ◌^◌, ◌≡◌, refl, Bool, true, false, List, [], ◌∷◌, map, Option, none, some, arith,
  Outcome, ok, fault, assertion, thrown, ◌>>=◌, length, if◌then◌else◌,
}
use udptun.Channel.{Channel, submit, activate}
use udptun.Clients.{ClientTable, seek}
use udptun.Clients.Ids.{Sought, seek-Sought}
use udptun.Clients.Consistent.{Consistent}
use udptun.Fifo.{Fifo}
use udptun.Wire.{Bytes}

module _ (fifo : Fifo) where
  -- `watching` is the descriptor's event; the client table, which the absorber shares, is at its state
  -- of the time of the call.
  pub record Absorber : Type 0 where
    pub sock : Bool
    pub watching : Bool
    pub cltab : ClientTable
    pub channels : List (Channel fifo)

  -- The addresses, by whether `socket` and `bind` succeed on each: whether there is a first on which
  -- both do.
  abbrev pub binds_one : List (Bool × Bool) → Bool
  binds_one [] = false
  binds_one ((made, bound) ∷ rest) =
      let others = binds_one rest in if made then if bound then true else others else others

  unfoldable pub activate_absorber : List (Bool × Bool) → Absorber → Outcome Absorber
  activate_absorber infos a =
      if a.sock
      then ok a
      else if binds_one infos
      then ok (record a { sock = true; watching = true; channels = map (activate fifo) a.channels })
      else fault thrown

  -- The argument is the sender's address and the datagram, or none where `recvfrom` failed. The fuel
  -- is for the client table.
  unfoldable pub sock_ready : ℕ → ℕ → Option (ℕ × Bytes) → Absorber → Outcome (Option Absorber)
  sock_ready fuel now got a =
      if a.sock
      then elim got [
        | none ↦ ok (some (record a { watching = true }))
        | some d ↦ seek fuel now d.0 a.cltab >>= λ found. ok (elim found [
          | none ↦ none
          | some r ↦ some (record a {
            watching = true;
            cltab = r.1;
            channels = map (submit fifo now r.0 d.1) a.channels;
          })
        ])
      ]
      else fault assertion

  sock_ready_got :
      (fuel now addr id : ℕ) (bytes : Bytes) (a : Absorber) (t : ClientTable)
      → a.sock ≡ true
      → seek fuel now addr a.cltab ≡ ok (some (id, t))
      → sock_ready fuel now (some (addr, bytes)) a
        ≡ ok (
            some (record a {
              watching = true;
              cltab = t;
              channels = map (submit fifo now id bytes) a.channels;
            }))
  unfolding sock_ready
  sock_ready_got fuel now addr id bytes a t s e = ground arith

  -- With its socket open, its client table as `seek` needs it and fuel for each client and one
  -- more, the absorber ends at no failed assertion when a datagram comes: the sender has its one
  -- id from then on, each channel is given the datagram with that id, and the absorber waits for
  -- the next datagram.
  pub sock_ready-Sought :
      (fuel now addr : ℕ) (bytes : Bytes) (a : Absorber)
      → a.sock ≡ true
      → Consistent a.cltab
      → length a.cltab.fwd < fuel
      → a.cltab.next_id + length a.cltab.fwd < 2 ^ 64
      → (id : ℕ) × (a' : Absorber) × (sock_ready fuel now (some (addr, bytes)) a ≡ ok (some a'))
        × (a'.watching ≡ true)
        × Sought addr a.cltab id a'.cltab
        × (a'.channels ≡ map (submit fifo now id bytes) a.channels)
  sock_ready-Sought fuel now addr bytes a s c h w =
      let (id, t, e, f) = seek-Sought fuel now addr a.cltab c h w in
      (id, _, sock_ready_got fuel now addr id bytes a t s e, refl, f, refl)

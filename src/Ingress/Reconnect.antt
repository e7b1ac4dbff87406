-- ===== src/Ingress/Reconnect.antt =====
-- What a `TCPIngress` does from the loss of a connection to the next one: no source is touched.
use udptun.Prelude.{
  ℕ, ◌≡◌, ◌⊎◌, refl, sym, subst, true, false, List, [], Option, none, some, arith, Outcome, Fault,
  ok, fault, assertion, thrown, ◌||◌, ◌==◌, Bool-cases, Option-cases, inl, inr,
}
use udptun.Streamer.{Streamer}
use udptun.Ingress.{Ingress, Sent, AddrInfo, until_writable, initiate_lookup}
use udptun.Ingress.Connecting.{System, Config, Events, address_resolved, try_next, descriptor_ready}
use udptun.Ingress.Kept.{Kept, Keeps, closed, Kept-trans, address_resolved-Keeps, try_next-Keeps}

module _ (streamer : Streamer) where
  -- What may happen between two connections: the time to try again comes, the addresses are found,
  -- or there is an event on a socket that is not connected yet.
  pub data Event (i j : Ingress streamer) : Type 0 where
    looks_up : initiate_lookup streamer (record i { retry = none }) ≡ ok j → Event i j
    resolves :
        (fuel : ℕ) (sys : System) (cfg : Config) (infos : List AddrInfo)
        → address_resolved streamer fuel sys cfg infos i ≡ ok (some j)
        → Event i j
    descriptor :
        (fuel : ℕ) (sys : System) (cfg : Config) (rs : List Sent) (soerr : Option ℕ) (evs : Events)
        → i.connected ≡ false
        → descriptor_ready streamer fuel sys cfg rs soerr evs i ≡ ok (some j)
        → Event i j

  -- Any of these, one after the other.
  pub data Reconnects (i : Ingress streamer) : Ingress streamer → Type 0 where
    not_yet : Reconnects i i
    then_event : {j k : Ingress streamer} → Reconnects i j → Event j k → Reconnects i k

  -- What an event on a socket that is not connected yet leads to.
  descriptor-cases :
      (fuel : ℕ) (sys : System) (cfg : Config) (rs : List Sent) (soerr : Option ℕ) (evs : Events)
      (i : Ingress streamer)
      → i.connected ≡ false
      → let o = descriptor_ready streamer fuel sys cfg rs soerr evs i in
        ((f : Fault) × (o ≡ fault f))
        ⊎ ((o ≡ try_next streamer fuel sys cfg i)
            ⊎ ((i.sock ≡ true)
                × (o ≡ ok (some (record i { connected = true; watching = some until_writable })))))
  unfolding descriptor_ready
  descriptor-cases fuel sys cfg rs soerr evs i c = elim (Bool-cases i.sock) [
    | inr s ↦ inl (assertion, ground arith)
    | inl s ↦ elim (Bool-cases evs.closed) [
      | inl k ↦ elim (Option-cases soerr) [
        | inl e ↦ inl (thrown, ground arith)
        | inr (n, e) ↦ elim (Bool-cases (n == 0)) [
          | inl z ↦ inl (assertion, ground arith)
          | inr z ↦ inr (inl (ground arith))
        ]
      ]
      | inr k ↦ elim (Bool-cases evs.writable) [
        | inr w ↦ inl (assertion, ground arith)
        | inl w ↦ elim (Option-cases soerr) [
          | inl e ↦ inl (thrown, ground arith)
          | inr (n, e) ↦ elim (Bool-cases (n == 0)) [
            | inl z ↦ inr (inr (s, ground arith))
            | inr z ↦ inr (inl (ground arith))
          ]
        ]
      ]
    ]
  ]

  descriptor_ready-Keeps :
      (fuel : ℕ) (sys : System) (cfg : Config) (rs : List Sent) (soerr : Option ℕ) (evs : Events)
      (i : Ingress streamer)
      → i.connected ≡ false
      → (i.sock ≡ true → i.wire ≡ [])
      → Keeps streamer i (descriptor_ready streamer fuel sys cfg rs soerr evs i)
  descriptor_ready-Keeps fuel sys cfg rs soerr evs i c w =
      elim (descriptor-cases fuel sys cfg rs soerr evs i c) [
        | inl (f, e) ↦ subst (Keeps streamer i) (sym e) tt
        | inr (inl e) ↦ subst (Keeps streamer i) (sym e) (try_next-Keeps streamer fuel sys cfg i)
        | inr (inr (s, e)) ↦
            subst (Keeps streamer i) (sym e)
              (record { streamers = refl; queue = refl; sources = refl; fresh = w })
      ]

  -- What a call that returns keeps.
  Keeps-ok :
      (i j : Ingress streamer) (o : Outcome (Option (Ingress streamer)))
      → Keeps streamer i o
      → o ≡ ok (some j)
      → Kept streamer i j
  Keeps-ok i j o h e = subst (Keeps streamer i) e h

  looks_up-Kept :
      (i j : Ingress streamer)
      → initiate_lookup streamer (record i { retry = none }) ≡ ok j
      → (i.sock ≡ true → i.wire ≡ [])
      → Kept streamer i j
  unfolding initiate_lookup
  looks_up-Kept i j e w = elim (Bool-cases (i.resolving || i.sock)) [
    | inl b ↦ absurd (threw (rw b at e))
    | inr b ↦
        let same : record i { retry = none; ainf = []; resolving = true } ≡ j = inner (rw b at e) in
        subst (Kept streamer i) same
          (record { streamers = refl; queue = refl; sources = refl; fresh = w })
  ]
    where
      threw : {f : Fault} → ◌≡◌ {A = Outcome (Ingress streamer)} (fault f) (ok j) → ⊥
      threw h = cc

      inner : {k : Ingress streamer} → ok k ≡ ok j → k ≡ j
      inner h = cc

  Event-Kept :
      (i j : Ingress streamer) → (i.sock ≡ true → i.wire ≡ []) → Event i j → Kept streamer i j
  Event-Kept i j w (looks_up e) = looks_up-Kept i j e w
  Event-Kept i j w (resolves fuel sys cfg infos e) =
      Keeps-ok i j (address_resolved streamer fuel sys cfg infos i)
        (address_resolved-Keeps streamer fuel sys cfg infos i) e
  Event-Kept i j w (descriptor fuel sys cfg rs soerr evs c e) =
      Keeps-ok i j (descriptor_ready streamer fuel sys cfg rs soerr evs i)
        (descriptor_ready-Keeps fuel sys cfg rs soerr evs i c w) e

  pub Reconnects-Kept :
      {i j : Ingress streamer} → i.sock ≡ false → Reconnects i j → Kept streamer i j
  Reconnects-Kept s not_yet = record {
    streamers = refl;
    queue = refl;
    sources = refl;
    fresh = λ h. absurd (closed streamer s h);
  }
  Reconnects-Kept {i} s (then_event {j} {k} r e) =
      let before : Kept streamer i j = Reconnects-Kept s r in
      Kept-trans streamer i j k before (Event-Kept j k before.fresh e)

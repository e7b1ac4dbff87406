-- ===== src/Ingress/Retry.antt =====
-- The connecting of a `TCPIngress`: when `try_connect` ends.
use udptun.Prelude.{
  ℕ, zero, suc, ◌≤◌, ◌<◌, ◌≡◌, ◌⊎◌, inl, inr, refl, ap, ◌∙◌, true, false, List, [], ◌∷◌, Option,
  none, some, arith, Outcome, ok, length, Bool-cases, List-cases,
}
use udptun.Streamer.{Streamer}
use udptun.Ingress.{Ingress, Interest, AddrInfo, clear_socket}
use udptun.Ingress.Connecting.{
  Connect, at_once, under_way, refused, System, Config, find_bind, opens, next_address, bound,
  Attempt, connect_round, connect_loop, try_connect,
}

length-next_address :
    (sys : System) (cfg : Config) (more : List AddrInfo)
    → length (next_address sys cfg more) ≤ length more
unfolding next_address
length-next_address sys cfg [] = omega arith
length-next_address sys cfg (a ∷ more) =
    let ih = length-next_address sys cfg more in
    elim (Bool-cases (opens sys cfg a)) [
      | inl e ↦ rw e (omega arith)
      | inr e ↦ rw e (omega (arith, ih))
    ]

-- The calls on a socket that is made succeed, but for `connect`.
pub record Serves (sys : System) : Type 0 where
  pub binds : (a b : AddrInfo) → sys.bind a b ≡ true
  pub unblocks : (a : AddrInfo) → sys.fcntl a ≡ true

module _ (streamer : Streamer) where
  -- `try_connect` has a socket that it waits for, or waits to look the address up again.
  abbrev pub Connects : Ingress streamer → Type 0
  Connects j =
      ((j.sock ≡ true) × ((w : Interest) × (j.watching ≡ some w)))
      ⊎ ((j.sock ≡ false) × (j.retry ≡ some 33) × (j.ainf ≡ []))

  round_none :
      (sys : System) (cfg : Config) (i : Ingress streamer)
      → next_address sys cfg i.ainf ≡ []
      → connect_round streamer sys cfg i
        ≡ ok (Attempt.returns (record i { ainf = []; retry = some 33 }))
  unfolding connect_round
  round_none sys cfg i e = ground arith

  abbrev pub opened : Ingress streamer → AddrInfo → List AddrInfo → Ingress streamer
  opened i a more = record i { sock = true; ainf = a ∷ more; wire = [] }

  -- The rest of a round, on a socket for the address `a`.
  abbrev RoundEnds : Ingress streamer → List AddrInfo → Outcome (Attempt streamer) → Type 0
  RoundEnds i more r =
      ((j : Ingress streamer) × (r ≡ ok (Attempt.returns j))
        × (j.sock ≡ true)
        × ((w : Interest) × (j.watching ≡ some w)))
      ⊎ ((j : Ingress streamer) × (r ≡ ok (Attempt.again j)) × (j.sock ≡ false) × (j.ainf ≡ more))

  pub Connect-cases : (c : Connect) → (c ≡ refused) ⊎ ((c ≡ under_way) ⊎ (c ≡ at_once))
  Connect-cases refused = inl refl
  Connect-cases under_way = inr (inl refl)
  Connect-cases at_once = inr (inr refl)

  round_refused :
      (sys : System) (cfg : Config) (i : Ingress streamer) (a : AddrInfo) (more : List AddrInfo)
      → next_address sys cfg i.ainf ≡ a ∷ more
      → bound sys a (find_bind a cfg.bind_info) ≡ true
      → sys.fcntl a ≡ true
      → sys.connect a ≡ refused
      → connect_round streamer sys cfg i
        ≡ ok (Attempt.again (record (clear_socket streamer (opened i a more)) { ainf = more }))
  unfolding connect_round
  round_refused sys cfg i a more e b f c = ground arith

  round_under_way :
      (sys : System) (cfg : Config) (i : Ingress streamer) (a : AddrInfo) (more : List AddrInfo)
      → next_address sys cfg i.ainf ≡ a ∷ more
      → bound sys a (find_bind a cfg.bind_info) ≡ true
      → sys.fcntl a ≡ true
      → sys.connect a ≡ under_way
      → connect_round streamer sys cfg i
        ≡ ok (
            Attempt.returns (record (opened i a more) { watching = some Interest.until_connected }))
  unfolding connect_round
  round_under_way sys cfg i a more e b f c = ground arith

  round_at_once :
      (sys : System) (cfg : Config) (i : Ingress streamer) (a : AddrInfo) (more : List AddrInfo)
      → next_address sys cfg i.ainf ≡ a ∷ more
      → bound sys a (find_bind a cfg.bind_info) ≡ true
      → sys.fcntl a ≡ true
      → sys.connect a ≡ at_once
      → connect_round streamer sys cfg i
        ≡ ok (
            Attempt.returns (record (opened i a more) {
              connected = true;
              watching = some Interest.until_writable;
            }))
  unfolding connect_round
  round_at_once sys cfg i a more e b f c = ground arith

  pub round_unbound :
      (sys : System) (cfg : Config) (i : Ingress streamer) (a : AddrInfo) (more : List AddrInfo)
      → next_address sys cfg i.ainf ≡ a ∷ more
      → bound sys a (find_bind a cfg.bind_info) ≡ false
      → connect_round streamer sys cfg i
        ≡ ok (Attempt.again (clear_socket streamer (opened i a more)))
  unfolding connect_round
  round_unbound sys cfg i a more e b = ground arith

  Serves-bound :
      (sys : System) (a : AddrInfo) (b : Option AddrInfo) → Serves sys → bound sys a b ≡ true
  Serves-bound sys a none s = refl
  Serves-bound sys a (some b) s = s.binds a b

  pub clear_socket-ainf :
      (i : Ingress streamer)
      → ((clear_socket streamer i).sock ≡ false) × ((clear_socket streamer i).ainf ≡ i.ainf)
  unfolding clear_socket
  clear_socket-ainf i = (refl, refl)

  round_some :
      (sys : System) (cfg : Config) (i : Ingress streamer) (a : AddrInfo) (more : List AddrInfo)
      → Serves sys
      → next_address sys cfg i.ainf ≡ a ∷ more
      → RoundEnds i more (connect_round streamer sys cfg i)
  round_some sys cfg i a more s e =
      let b = Serves-bound sys a (find_bind a cfg.bind_info) s in
      let f = s.unblocks a in
      elim (Connect-cases (sys.connect a)) [
        | inl c ↦ inr (
          _,
          round_refused sys cfg i a more e b f c,
          (clear_socket-ainf (opened i a more)).0,
          refl,
        )
        | inr (inl c) ↦ inl (_, round_under_way sys cfg i a more e b f c, refl, (_, refl))
        | inr (inr c) ↦ inl (_, round_at_once sys cfg i a more e b f c, refl, (_, refl))
      ]

  connect_loop_returns :
      (fuel : ℕ) (sys : System) (cfg : Config) (i j : Ingress streamer)
      → connect_round streamer sys cfg i ≡ ok (Attempt.returns j)
      → connect_loop streamer (suc fuel) sys cfg i ≡ ok (some j)
  unfolding connect_loop
  connect_loop_returns fuel sys cfg i j e = rw e refl

  pub connect_loop_again :
      (fuel : ℕ) (sys : System) (cfg : Config) (i j : Ingress streamer)
      → connect_round streamer sys cfg i ≡ ok (Attempt.again j)
      → connect_loop streamer (suc fuel) sys cfg i ≡ connect_loop streamer fuel sys cfg j
  unfolding connect_loop
  connect_loop_again fuel sys cfg i j e = rw e refl

  pub connect_loop_zero :
      (sys : System) (cfg : Config) (i : Ingress streamer)
      → connect_loop streamer 0 sys cfg i ≡ ok none
  unfolding connect_loop
  connect_loop_zero sys cfg i = refl

  connect_loop-Connects :
      (fuel : ℕ) (sys : System) (cfg : Config) (i : Ingress streamer)
      → Serves sys
      → i.sock ≡ false
      → length i.ainf < fuel
      → (j : Ingress streamer) × (connect_loop streamer fuel sys cfg i ≡ ok (some j)) × Connects j
  connect_loop-Connects zero sys cfg i s c h = absurd (omega arith)
  connect_loop-Connects (suc fuel) sys cfg i s c h =
      elim (List-cases (next_address sys cfg i.ainf)) [
        | inl e ↦
            (_, connect_loop_returns fuel sys cfg i _ (round_none sys cfg i e), inr (c, refl, refl))
        | inr (a, more, e) ↦ elim (round_some sys cfg i a more s e) [
          | inl (j, f, up, w) ↦ (j, connect_loop_returns fuel sys cfg i j f, inl (up, w))
          | inr (j, f, down, left) ↦
              let shorter : suc (length more) ≤ length i.ainf =
                rw (← ap length e) (length-next_address sys cfg i.ainf) in
              let fewer : length j.ainf ≡ length more = ap length left in
              let (k, g, v) = connect_loop-Connects fuel sys cfg j s down (omega arith) in
              (k, connect_loop_again fuel sys cfg i j f ∙ g, v)
        ]
      ]

  pub try_connect-loop :
      (fuel : ℕ) (sys : System) (cfg : Config) (i : Ingress streamer)
      → i.sock ≡ false
      → try_connect streamer fuel sys cfg i ≡ connect_loop streamer fuel sys cfg i
  unfolding try_connect
  try_connect-loop fuel sys cfg i c = ground arith

  -- When the system binds sockets and makes them non-blocking, and there was no socket,
  -- `try_connect`, with fuel for each address and one more, ends: with a socket whose event it
  -- waits for, or, with no socket and no address left, to start again after 33 seconds.
  pub try_connect-Connects :
      (fuel : ℕ) (sys : System) (cfg : Config) (i : Ingress streamer)
      → Serves sys
      → i.sock ≡ false
      → length i.ainf < fuel
      → (j : Ingress streamer) × (try_connect streamer fuel sys cfg i ≡ ok (some j)) × Connects j
  try_connect-Connects fuel sys cfg i s c h =
      let (j, e, v) = connect_loop-Connects fuel sys cfg i s c h in
      (j, try_connect-loop fuel sys cfg i c ∙ e, v)

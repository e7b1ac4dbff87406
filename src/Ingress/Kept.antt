-- ===== src/Ingress/Kept.antt =====
-- The connecting of a `TCPIngress` touches no source.
use udptun.Prelude.{
  ℕ, zero, suc, ◌≡◌, refl, sym, subst, ◌∙◌, Bool, true, false, List, [], ◌∷◌, Option, none, some,
  arith, Outcome, ok, fault, assertion, undefined, ◌>>=◌, Bool-cases, List-cases, inl, inr,
}
use udptun.Streamer.{Streamer}
use udptun.Ingress.{Ingress, AddrInfo, clear_socket}
use udptun.Ingress.Connecting.{
  System, Config, next_address, bound, find_bind, Attempt, connect_round, connect_loop, try_connect,
  address_resolved, try_next,
}
use udptun.Ingress.Retry.{Connect-cases, try_connect-loop}

module _ (streamer : Streamer) where
  -- The sources are as they were, and nothing is on a socket that there is.
  pub record Kept (i j : Ingress streamer) : Type 0 where
    pub streamers : j.streamers ≡ i.streamers
    pub queue : j.streamer_queue ≡ i.streamer_queue
    pub sources : j.sources ≡ i.sources
    pub fresh : j.sock ≡ true → j.wire ≡ []

  abbrev AttemptKeeps : Ingress streamer → Outcome (Attempt streamer) → Type 0
  AttemptKeeps i (ok (Attempt.returns j)) = Kept i j
  AttemptKeeps i (ok (Attempt.again j)) = Kept i j × (j.sock ≡ false)
  AttemptKeeps i (fault f) = Unit {0}

  abbrev pub Keeps : Ingress streamer → Outcome (Option (Ingress streamer)) → Type 0
  Keeps i (ok (some j)) = Kept i j
  Keeps i (ok none) = Unit {0}
  Keeps i (fault f) = Unit {0}

  pub closed : {b : Bool} → b ≡ false → b ≡ true → ⊥
  closed e f = cc

  pub Kept-trans : (i j k : Ingress streamer) → Kept i j → Kept j k → Kept i k
  Kept-trans i j k a b = record {
    streamers = b.streamers ∙ a.streamers;
    queue = b.queue ∙ a.queue;
    sources = b.sources ∙ a.sources;
    fresh = b.fresh;
  }

  Keeps-after :
      (i j : Ingress streamer) (o : Outcome (Option (Ingress streamer)))
      → Kept i j
      → Keeps j o
      → Keeps i o
  Keeps-after i j (ok (some k)) a b = Kept-trans i j k a b
  Keeps-after i j (ok none) a b = tt
  Keeps-after i j (fault f) a b = tt

  round-AttemptKeeps :
      (sys : System) (cfg : Config) (i : Ingress streamer)
      → i.sock ≡ false
      → AttemptKeeps i (connect_round streamer sys cfg i)
  unfolding connect_round clear_socket
  round-AttemptKeeps sys cfg i s = elim (List-cases (next_address sys cfg i.ainf)) [
    | inl e ↦
        rw (e, connect_round)
          (record {
            streamers = refl;
            queue = refl;
            sources = refl;
            fresh = λ h. absurd (closed s h);
          })
    | inr (a, more, e) ↦ elim (Bool-cases (bound sys a (find_bind a cfg.bind_info))) [
      | inr b ↦
          rw (e, connect_round, b)
            (
              record {
                streamers = refl;
                queue = refl;
                sources = refl;
                fresh = λ h. absurd (closed refl h);
              },
              refl,
            )
      | inl b ↦ elim (Bool-cases (sys.fcntl a)) [
        | inr f ↦ rw (e, connect_round, b, f) tt
        | inl f ↦ elim (Connect-cases streamer (sys.connect a)) [
          | inl c ↦
              rw (e, connect_round, b, f, c)
                (
                  record {
                    streamers = refl;
                    queue = refl;
                    sources = refl;
                    fresh = λ h. absurd (closed refl h);
                  },
                  refl,
                )
          | inr (inl c) ↦
              rw (e, connect_round, b, f, c)
                (record { streamers = refl; queue = refl; sources = refl; fresh = λ h. refl })
          | inr (inr c) ↦
              rw (e, connect_round, b, f, c)
                (record { streamers = refl; queue = refl; sources = refl; fresh = λ h. refl })
        ]
      ]
    ]
  ]

  after_attempt :
      (fuel : ℕ) (sys : System) (cfg : Config) (i : Ingress streamer)
      → ((j : Ingress streamer) → j.sock ≡ false → Keeps j (connect_loop streamer fuel sys cfg j))
      → (o : Outcome (Attempt streamer)) → AttemptKeeps i o
      → Keeps i (
          o >>= λ attempt. elim attempt [
            | Attempt.returns j ↦ ok (some j)
            | Attempt.again j ↦ connect_loop streamer fuel sys cfg j
          ])
  after_attempt fuel sys cfg i rest (fault f) h = tt
  after_attempt fuel sys cfg i rest (ok (Attempt.returns j)) h = h
  after_attempt fuel sys cfg i rest (ok (Attempt.again j)) (h, down) =
      Keeps-after i j (connect_loop streamer fuel sys cfg j) h (rest j down)

  connect_loop-Keeps :
      (fuel : ℕ) (sys : System) (cfg : Config) (i : Ingress streamer)
      → i.sock ≡ false
      → Keeps i (connect_loop streamer fuel sys cfg i)
  unfolding connect_loop
  connect_loop-Keeps zero sys cfg i s = tt
  connect_loop-Keeps (suc fuel) sys cfg i s =
      after_attempt fuel sys cfg i (λ j down. connect_loop-Keeps fuel sys cfg j down)
        (connect_round streamer sys cfg i) (round-AttemptKeeps sys cfg i s)

  try_connect_open :
      (fuel : ℕ) (sys : System) (cfg : Config) (i : Ingress streamer)
      → i.sock ≡ true
      → try_connect streamer fuel sys cfg i ≡ fault assertion
  unfolding try_connect
  try_connect_open fuel sys cfg i e = ground arith

  try_connect-Keeps :
      (fuel : ℕ) (sys : System) (cfg : Config) (i : Ingress streamer)
      → Keeps i (try_connect streamer fuel sys cfg i)
  try_connect-Keeps fuel sys cfg i = elim (Bool-cases i.sock) [
    | inl e ↦ subst (Keeps i) (sym (try_connect_open fuel sys cfg i e)) tt
    | inr e ↦
        subst (Keeps i) (sym (try_connect-loop streamer fuel sys cfg i e))
          (connect_loop-Keeps fuel sys cfg i e)
  ]

  -- A state with the same sources.
  Keeps-same :
      (i k : Ingress streamer) (o : Outcome (Option (Ingress streamer)))
      → k.streamers ≡ i.streamers
      → k.streamer_queue ≡ i.streamer_queue
      → k.sources ≡ i.sources
      → Keeps k o
      → Keeps i o
  Keeps-same i k (ok (some j)) a b c h = record {
    streamers = h.streamers ∙ a;
    queue = h.queue ∙ b;
    sources = h.sources ∙ c;
    fresh = h.fresh;
  }
  Keeps-same i k (ok none) a b c h = tt
  Keeps-same i k (fault f) a b c h = tt

  pub address_resolved-Keeps :
      (fuel : ℕ) (sys : System) (cfg : Config) (infos : List AddrInfo) (i : Ingress streamer)
      → Keeps i (address_resolved streamer fuel sys cfg infos i)
  unfolding address_resolved
  address_resolved-Keeps fuel sys cfg infos i =
      let k = record i { resolving = false; ainf = infos; connected = false } in
      Keeps-same i k (try_connect streamer fuel sys cfg k) refl refl refl
        (try_connect-Keeps fuel sys cfg k)

  try_next_at :
      (fuel : ℕ) (sys : System) (cfg : Config) (i : Ingress streamer) (a : AddrInfo)
      (more : List AddrInfo)
      → i.ainf ≡ a ∷ more
      → try_next streamer fuel sys cfg i
        ≡ try_connect streamer fuel sys cfg (clear_socket streamer (record i { ainf = more }))
  unfolding try_next
  try_next_at fuel sys cfg i a more e = ground arith

  try_next_end :
      (fuel : ℕ) (sys : System) (cfg : Config) (i : Ingress streamer)
      → i.ainf ≡ []
      → try_next streamer fuel sys cfg i ≡ fault undefined
  unfolding try_next
  try_next_end fuel sys cfg i e = ground arith

  cleared-Keeps :
      (i : Ingress streamer) (more : List AddrInfo) (o : Outcome (Option (Ingress streamer)))
      → Keeps (clear_socket streamer (record i { ainf = more })) o
      → Keeps i o
  unfolding clear_socket
  cleared-Keeps i more o h =
      Keeps-same i (clear_socket streamer (record i { ainf = more })) o refl refl refl h

  pub try_next-Keeps :
      (fuel : ℕ) (sys : System) (cfg : Config) (i : Ingress streamer)
      → Keeps i (try_next streamer fuel sys cfg i)
  try_next-Keeps fuel sys cfg i = elim (List-cases i.ainf) [
    | inl e ↦ subst (Keeps i) (sym (try_next_end fuel sys cfg i e)) tt
    | inr (a, more, e) ↦ subst (Keeps i) (sym (try_next_at fuel sys cfg i a more e)) (
        cleared-Keeps i more
          (try_connect streamer fuel sys cfg (clear_socket streamer (record i { ainf = more })))
          (try_connect-Keeps fuel sys cfg (clear_socket streamer (record i { ainf = more }))))
  ]

-- ===== src/Ingress/Unbound.antt =====
-- A `TCPIngress` whose socket cannot be bound.
use udptun.Prelude.{
  ℕ, zero, suc, ◌≡◌, inl, inr, refl, ap, subst, ◌∙◌, true, false, List, [], ◌∷◌, none, ok,
  Bool-cases,
}
use udptun.Streamer.{Streamer}
use udptun.Ingress.{Ingress, AddrInfo}
use udptun.Ingress.Connecting.{
  System, Config, find_bind, opens, next_address, bound, connect_loop, try_connect,
}
use udptun.Ingress.Retry.{
  try_connect-loop, connect_loop_zero, connect_loop_again, round_unbound, clear_socket-ainf, opened,
}

next_address-opens :
    (sys : System) (cfg : Config) (infos : List AddrInfo) (a : AddrInfo) (more : List AddrInfo)
    → next_address sys cfg infos ≡ a ∷ more
    → opens sys cfg a ≡ true
unfolding next_address
next_address-opens sys cfg [] a more e = absurd (none_some e)
  where
    none_some : ◌≡◌ {A = List AddrInfo} [] (a ∷ more) → ⊥
    none_some h = cc
next_address-opens sys cfg (b ∷ infos) a more e = elim (Bool-cases (opens sys cfg b)) [
  | inl t ↦ subst (λ x. opens sys cfg x ≡ true) (same_head (rw t at e)) t
  | inr t ↦ next_address-opens sys cfg infos a more (rw t at e)
]
  where
    same_head : ◌≡◌ {A = List AddrInfo} (b ∷ infos) (a ∷ more) → b ≡ a
    same_head h = cc

next_address_again :
    (sys : System) (cfg : Config) (a : AddrInfo) (more : List AddrInfo)
    → opens sys cfg a ≡ true
    → next_address sys cfg (a ∷ more) ≡ a ∷ more
unfolding next_address
next_address_again sys cfg a more t = rw t refl

module _ (streamer : Streamer) where
  -- When there was no socket, and that for the first address that one can be made for cannot be
  -- bound, the loop goes on to the same address: with the same answers of the system, no fuel is
  -- enough for `try_connect`.
  pub try_connect_unbound :
      (fuel : ℕ) (sys : System) (cfg : Config) (i : Ingress streamer) (a : AddrInfo)
      (more : List AddrInfo)
      → i.sock ≡ false
      → next_address sys cfg i.ainf ≡ a ∷ more
      → bound sys a (find_bind a cfg.bind_info) ≡ false
      → try_connect streamer fuel sys cfg i ≡ ok none
  try_connect_unbound fuel sys cfg i a more c e b =
      try_connect-loop streamer fuel sys cfg i c ∙ endless fuel i e
    where
      endless :
          (fuel : ℕ) (i : Ingress streamer)
          → next_address sys cfg i.ainf ≡ a ∷ more
          → connect_loop streamer fuel sys cfg i ≡ ok none
      endless zero i e = connect_loop_zero streamer sys cfg i
      endless (suc fuel) i e =
          connect_loop_again streamer fuel sys cfg i _ (round_unbound streamer sys cfg i a more e b)
          ∙ endless fuel _ (
              ap (next_address sys cfg) ((clear_socket-ainf streamer (opened streamer i a more)).1)
              ∙ next_address_again sys cfg a more (next_address-opens sys cfg i.ainf a more e))

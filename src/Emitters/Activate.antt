-- ===== src/Emitters/Activate.antt =====
-- The activation of the destinations that a client needs.
use udptun.Prelude.{
  ℕ, ◌≡◌, refl, ◌∙◌, ◌⊎◌, true, false, List, [], ◌∷◌, none, some, arith, ok, fault, thrown, ◌>>=◌,
  ◌==◌, find, put, find-put, insert, Bool-cases, Option-cases, inl, inr,
}
use udptun.Destinations.{
  AddrInfo, Destination, Resolver, Store, activate, activate_at, hints_family, emplace_options,
}
use udptun.Destinations.Bank.Stored.{IsStored}
use udptun.Emitters.Maker.{IsActive, AllActive}

-- Activation throws, or ends with a destination that is activated.
activate-cases :
    (resolve : Resolver) (d : Destination)
    → (activate resolve d ≡ fault thrown)
      ⊎ ((d' : Destination) × (activate resolve d ≡ ok d') × (d'.activated ≡ true))
activate-cases resolve d = elim (Bool-cases d.activated) [
  | inl a ↦ inr (d, active d a, a)
  | inr a ↦ elim (Option-cases (resolve d.host d.srv (hints_family d))) [
    | inl r ↦ inl (unresolved d a r)
    | inr (infos, r) ↦ inr (
      record d { options = emplace_options infos d.options; activated = true },
      resolved infos d a r,
      refl,
    )
  ]
]
  where
    active : (d : Destination) → d.activated ≡ true → activate resolve d ≡ ok d
    active d a = unfold activate in ground arith

    unresolved :
        (d : Destination)
        → d.activated ≡ false
        → resolve d.host d.srv (hints_family d) ≡ none
        → activate resolve d ≡ fault thrown
    unresolved d a r = unfold activate in ground arith

    resolved :
        (infos : List AddrInfo) (d : Destination)
        → d.activated ≡ false
        → resolve d.host d.srv (hints_family d) ≡ some infos
        → activate resolve d
          ≡ ok (record d { options = emplace_options infos d.options; activated = true })
    resolved infos d a r = unfold activate in ground arith

activate_at_found :
    (resolve : Resolver) (ptr : ℕ) (store : Store) (d : Destination)
    → find ptr store ≡ some d
    → activate_at resolve ptr store ≡ (activate resolve d >>= λ d'. ok (put ptr d' store))
unfolding activate_at
activate_at_found resolve ptr store d e = ground arith

pub activate_at-cases :
    (resolve : Resolver) (ptr : ℕ) (store : Store)
    → IsStored store ptr
    → (activate_at resolve ptr store ≡ fault thrown)
      ⊎ ((d : Destination) × (activate_at resolve ptr store ≡ ok (put ptr d store))
          × (d.activated ≡ true))
activate_at-cases resolve ptr store h = elim (Option-cases (find ptr store)) [
  | inl e ↦ absurd (no_value (rw e at h))
  | inr (d, e) ↦ elim (activate-cases resolve d) [
    | inl f ↦ inl (activate_at_found resolve ptr store d e ∙ rw f refl)
    | inr (d', f, a) ↦ inr (d', activate_at_found resolve ptr store d e ∙ rw f refl, a)
  ]
]
  where
    no_value : false ≡ true → ⊥
    no_value h = cc

put-IsActive :
    (store : Store) (ptr q : ℕ) (d : Destination)
    → d.activated ≡ true
    → IsActive store q
    → IsActive (put ptr d store) q
put-IsActive store ptr q d a (d0, e, b) = elim (Bool-cases (ptr == q)) [
  | inl t ↦ (d, rw (find-put q ptr d store, t) refl, a)
  | inr t ↦ (d0, rw (find-put q ptr d store, t) e, b)
]

pub put-AllActive :
    (store : Store) (ptr : ℕ) (d : Destination) (s : List ℕ)
    → d.activated ≡ true
    → AllActive store s
    → AllActive (put ptr d store) s
put-AllActive store ptr d [] a h = tt
put-AllActive store ptr d (q ∷ s) a h =
    (put-IsActive store ptr q d a h.0, put-AllActive store ptr d s a h.1)

pub insert-AllActive :
    (store : Store) (ptr : ℕ) (s : List ℕ)
    → IsActive store ptr
    → AllActive store s
    → AllActive store (insert ptr s)
unfolding insert
insert-AllActive store ptr [] p h = (p, tt)
insert-AllActive store ptr (q ∷ s) p h =
    let rest : AllActive store (insert ptr s) = insert-AllActive store ptr s p h.1 in ground arith

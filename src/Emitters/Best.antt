-- ===== src/Emitters/Best.antt =====
-- The address that `EmitterMaker` chooses has the most matching destinations.
use mathlib.Core.List.{Memᴰ}
use udptun.Prelude.{
  ℕ, ◌≤◌, ◌≡◌, sym, ◌∙◌, false, ◌==◌, List, [], none, some, arith, Outcome, Fault, ok, fault,
  Option-cases, Outcome-cases, inl, inr,
}
use udptun.Destinations.{AddrInfo, Store}
use udptun.Emitters.Counted.{served, Counted, count_all-Counted}
use udptun.Emitters.{
  World, EmitterMaker, count_all, sort_counts, choose, match_required, take_best, make_maker,
}
use udptun.Emitters.Counts.{
  Counts, opens, mem_of-sort_counts, mem-sort_counts, sort_counts-Descends, First, choose-First,
  make_maker_counted,
}

make_maker_threw :
    (world : World) (store : Store) (required : List ℕ) (infos : List AddrInfo) (x : Fault)
    → world.infos ≡ some infos
    → count_all store required infos ≡ fault x
    → make_maker world store required ≡ fault x
unfolding make_maker
make_maker_threw world store required infos x e f = ground arith

take_best-chosen :
    (world : World) (store : Store) (required : List ℕ) (seq : Counts) (mkr : EmitterMaker)
    → take_best world store required seq ≡ ok mkr
    → mkr.chosen ≡ choose world seq
unfolding take_best
take_best-chosen world store required seq mkr e = elim (Option-cases (choose world seq)) [
  | inl f ↦
      let same : ok (record { chosen = none; matched = [] }) ≡ ok mkr = rw (f, take_best) at e in
      ground arith
  | inr (best, f) ↦ elim (Outcome-cases (match_required store best.0 required)) [
    | inl (x, g) ↦ absurd (no_maker (rw (f, take_best, g) at e))
    | inr (matched, g) ↦
        let same : ok (record { chosen = some best; matched = matched }) ≡ ok mkr =
          rw (f, take_best, g) at e in
        ground arith
  ]
]
  where
    no_maker : {x : Fault} → ◌≡◌ {A = Outcome EmitterMaker} (fault x) (ok mkr) → ⊥
    no_maker h = cc

-- An address that was found, with a socket that is made and bound, and serves a destination; and no
-- other such address serves more of them.
pub record Best (world : World) (store : Store) (required : List ℕ) (infos : List AddrInfo)
    (ai : AddrInfo) (fd : ℕ) : Type 0 where
  pub found : Memᴰ ai infos
  pub opened : opens world ai ≡ some fd
  pub some_served : 1 ≤ served store ai required
  pub most :
      (x : AddrInfo) (fd' : ℕ)
      → Memᴰ x infos
      → opens world x ≡ some fd'
      → served store x required ≤ served store ai required

First-Best :
    (world : World) (store : Store) (required : List ℕ) (infos : List AddrInfo) (counters : Counts)
    (ai : AddrInfo) (fd : ℕ)
    → Counted store required infos counters
    → First world (sort_counts counters) ai fd
    → Best world store required infos ai fd
First-Best world store required infos counters ai fd c b =
    let (i, e, p) = c.entry ai b.count (mem_of-sort_counts (ai, b.count) counters b.counted) in
    record {
      found = i;
      opened = b.opened;
      some_served = some_counted b.count (served store ai required) e p;
      most = λ x fd' m o. elim (c.all x m) [
        | inl z ↦ omega (arith, z)
        | inr k ↦
            let n = served store x required in
            omega (arith, e, b.most (x, n) fd' (mem-sort_counts (x, n) counters k) o)
      ];
    }
  where
    some_counted : (n k : ℕ) → n ≡ k → (n == 0) ≡ false → 1 ≤ k
    some_counted n k e p = ground arith

-- When the maker has a socket, it is of an address that was found, on which a socket could be made
-- and bound, and that is compatible with at least one required destination; and of all the
-- addresses that were found, and on which a socket could be made and bound, none is compatible
-- with more of the required destinations.
pub make_maker-Best :
    (world : World) (store : Store) (required : List ℕ) (infos : List AddrInfo) (mkr : EmitterMaker)
    (ai : AddrInfo) (fd : ℕ)
    → world.infos ≡ some infos
    → make_maker world store required ≡ ok mkr
    → mkr.chosen ≡ some (ai, fd)
    → Best world store required infos ai fd
make_maker-Best world store required infos mkr ai fd e g h =
    elim (Outcome-cases (count_all store required infos)) [
      | inl (x, f) ↦ absurd (no_maker (sym (make_maker_threw world store required infos x e f) ∙ g))
      | inr (counters, f) ↦
          let taken : take_best world store required (sort_counts counters) ≡ ok mkr =
            sym (make_maker_counted world store required infos counters e f) ∙ g in
          First-Best world store required infos counters ai fd
            (count_all-Counted store required infos counters f)
            (choose-First world (sort_counts counters) ai fd (sort_counts-Descends counters)
              (sym (take_best-chosen world store required (sort_counts counters) mkr taken) ∙ h))
    ]
  where
    no_maker : {x : Fault} → ◌≡◌ {A = Outcome EmitterMaker} (fault x) (ok mkr) → ⊥
    no_maker m = cc

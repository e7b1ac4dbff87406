-- ===== src/Emitters/Gather.antt =====
-- The loop that finds and activates the destinations that a client needs.
use udptun.Prelude.{
  ℕ, suc, ◌+◌, ◌≤◌, length, ◌≡◌, refl, sym, ap, subst, ◌∙◌, ◌⊎◌, true, List, [], ◌∷◌, Option, none,
  some, arith, Outcome, ok, fault, thrown, ◌>>=◌, ◌==◌, find, put, insert, member, Bool-cases, inl,
  inr,
}
use udptun.Destinations.{Destination, Resolver, activate_at}
use udptun.Destinations.Bank.{Bank, seek}
use udptun.Destinations.Bank.Seek.{seek-IsBank}
use udptun.Emitters.{Gathered, Channels, gather_names, gather}
use udptun.Emitters.Activate.{activate_at-cases}
use udptun.Emitters.Ready.{Knows, Ready, one_more, one_more-Ready, one_more-Knows}

length-insert : (ptr : ℕ) (s : List ℕ) → length (insert ptr s) ≤ suc (length s)
unfolding insert
length-insert ptr [] = omega arith
length-insert ptr (q ∷ s) = ground (arith, length-insert ptr s)

-- How many names the channels list in all.
abbrev pub count_names : Channels → ℕ
count_names [] = 0
count_names ((label, dnames) ∷ chmap) = length dnames + count_names chmap

module _ (hash : ℕ) (bank : Bank) where
  -- What a loop over some names leaves.
  pub record Grown (names : List ℕ) (g g' : Gathered) : Type 0 where
    pub ready : Ready hash bank g'
    pub keeps : (name : ℕ) → Knows hash bank g.name_dests name → Knows hash bank g'.name_dests name
    pub knows : (name : ℕ) → member name names ≡ true → Knows hash bank g'.name_dests name
    pub count : length g'.required ≤ length g.required + length names

  abbrev Gathers : List ℕ → Gathered → Outcome Gathered → Type 0
  Gathers names g o = (o ≡ fault thrown) ⊎ ((g' : Gathered) × (o ≡ ok g') × Grown names g g')

  gather_skips :
      (resolve : Resolver) (dname : ℕ) (dnames : List ℕ) (g : Gathered)
      → seek dname hash bank ≡ ok none
      → gather_names resolve hash bank (dname ∷ dnames) g ≡ gather_names resolve hash bank dnames g
  unfolding gather_names
  gather_skips resolve dname dnames g e = rw e refl

  gather_threw :
      (resolve : Resolver) (dname ptr : ℕ) (dnames : List ℕ) (g : Gathered)
      → seek dname hash bank ≡ ok (some ptr)
      → activate_at resolve ptr g.store ≡ fault thrown
      → gather_names resolve hash bank (dname ∷ dnames) g ≡ fault thrown
  unfolding gather_names
  gather_threw resolve dname ptr dnames g e f = rw (e, f) refl

  gather_adds :
      (resolve : Resolver) (dname ptr : ℕ) (dnames : List ℕ) (d : Destination) (g : Gathered)
      → seek dname hash bank ≡ ok (some ptr)
      → activate_at resolve ptr g.store ≡ ok (put ptr d g.store)
      → gather_names resolve hash bank (dname ∷ dnames) g
        ≡ gather_names resolve hash bank dnames (one_more hash bank dname ptr d g)
  unfolding gather_names
  gather_adds resolve dname ptr dnames d g e f = rw (e, f) refl

  member_cons : (n m : ℕ) (s : List ℕ) → member n (m ∷ s) ≡ true → (m ≡ n) ⊎ (member n s ≡ true)
  unfolding member
  member_cons n m s h = elim (Bool-cases (m == n)) [
    | inl t ↦ inl (ground arith)
    | inr t ↦ inr (rw t at h)
  ]

  gather_names-Gathers :
      (resolve : Resolver) (dnames : List ℕ) (g : Gathered)
      → Ready hash bank g
      → Gathers dnames g (gather_names resolve hash bank dnames g)
  unfolding gather_names
  gather_names-Gathers resolve [] g r = inr (
    g,
    refl,
    record {
      ready = r;
      keeps = λ name k. k;
      knows = λ name m. absurd (no_member name m);
      count = omega arith;
    },
  )
    where
      no_member : (name : ℕ) → member name [] ≡ true → ⊥
      no_member name h = unfold member in cc
  gather_names-Gathers resolve (dname ∷ dnames) g r =
      elim (seek-IsBank dname hash g.store bank r.bank_stored) [
        | inl (_, e) ↦
            subst (Gathers (dname ∷ dnames) g) (sym (gather_skips resolve dname dnames g e))
              (elim (gather_names-Gathers resolve dnames g r) [
                | inl t ↦ inl t
                | inr (g', f, w) ↦ inr (g', f, skipped e g' w)
              ])
        | inr (ptr, _, _, e, s) ↦ elim (activate_at-cases resolve ptr g.store s) [
          | inl f ↦ inl (gather_threw resolve dname ptr dnames g e f)
          | inr (d, f, a) ↦
              subst (Gathers (dname ∷ dnames) g)
                (sym (gather_adds resolve dname ptr dnames d g e f))
                (elim (gather_names-Gathers resolve dnames (one_more hash bank dname ptr d g)
                  (one_more-Ready hash bank dname ptr d g a e r)) [
                    | inl t ↦ inl t
                    | inr (g', h, w) ↦ inr (g', h, added ptr d e g' w)
                  ])
        ]
      ]
    where
      none_known : {p : ℕ} → ◌≡◌ {A = Outcome (Option ℕ)} (ok none) (ok (some p)) → ⊥
      none_known h = cc

      skipped :
          seek dname hash bank ≡ ok none
          → (g' : Gathered) → Grown dnames g g'
          → Grown (dname ∷ dnames) g g'
      skipped e g' w = record {
        ready = w.ready;
        keeps = w.keeps;
        knows = λ name m. elim (member_cons name dname dnames m) [
          | inl same ↦ λ p f. absurd (none_known (sym e ∙ ap (λ n. seek n hash bank) same ∙ f))
          | inr t ↦ w.knows name t
        ];
        count = omega (arith, w.count);
      }

      added :
          (ptr : ℕ) (d : Destination)
          → seek dname hash bank ≡ ok (some ptr)
          → (g' : Gathered) → Grown dnames (one_more hash bank dname ptr d g) g'
          → Grown (dname ∷ dnames) g g'
      added ptr d e g' w = record {
        ready = w.ready;
        keeps = λ name k. w.keeps name (one_more-Knows hash bank dname ptr name d g e (inl k));
        knows = λ name m. elim (member_cons name dname dnames m) [
          | inl same ↦ w.keeps name (one_more-Knows hash bank dname ptr name d g e (inr same))
          | inr t ↦ w.knows name t
        ];
        count = omega (arith, w.count, length-insert ptr g.required);
      }

  -- Every name of every channel is known.
  pub record AllGrown (chmap : Channels) (g g' : Gathered) : Type 0 where
    pub ready : Ready hash bank g'
    pub keeps : (name : ℕ) → Knows hash bank g.name_dests name → Knows hash bank g'.name_dests name
    pub knows :
        (label name : ℕ) (dnames : List ℕ)
        → find label chmap ≡ some dnames
        → member name dnames ≡ true
        → Knows hash bank g'.name_dests name
    pub count : length g'.required ≤ length g.required + count_names chmap

  gather_rest :
      (resolve : Resolver) (label : ℕ) (dnames : List ℕ) (chmap : Channels) (g : Gathered)
      (o : Outcome Gathered)
      → gather_names resolve hash bank dnames g ≡ o
      → gather resolve hash bank ((label, dnames) ∷ chmap) g
        ≡ (o >>= λ g'. gather resolve hash bank chmap g')
  unfolding gather
  gather_rest resolve label dnames chmap g o e = rw e refl

  pub gather-AllGrown :
      (resolve : Resolver) (chmap : Channels) (g : Gathered)
      → Ready hash bank g
      → (gather resolve hash bank chmap g ≡ fault thrown)
        ⊎ ((g' : Gathered) × (gather resolve hash bank chmap g ≡ ok g') × AllGrown chmap g g')
  unfolding gather
  gather-AllGrown resolve [] g r = inr (
    g,
    refl,
    record {
      ready = r;
      keeps = λ name k. k;
      knows = λ label name dnames f m. absurd (no_entry label dnames f);
      count = omega arith;
    },
  )
    where
      no_entry : (label : ℕ) (dnames : List ℕ) → find label [] ≡ some dnames → ⊥
      no_entry label dnames h = unfold find in cc
  gather-AllGrown resolve ((label, dnames) ∷ chmap) g r =
      elim (gather_names-Gathers resolve dnames g r) [
        | inl e ↦ inl (gather_rest resolve label dnames chmap g _ e)
        | inr (mid, e, w) ↦ elim (gather-AllGrown resolve chmap mid w.ready) [
          | inl f ↦ inl (gather_rest resolve label dnames chmap g _ e ∙ f)
          | inr (g', f, v) ↦
              inr (g', gather_rest resolve label dnames chmap g _ e ∙ f, both mid g' w v)
        ]
      ]
    where
      both :
          (mid g' : Gathered)
          → Grown dnames g mid
          → AllGrown chmap mid g'
          → AllGrown ((label, dnames) ∷ chmap) g g'
      both mid g' w v = record {
        ready = v.ready;
        keeps = λ name k. v.keeps name (w.keeps name k);
        knows = λ l name names f m. elim (Bool-cases (label == l)) [
          | inl t ↦
              let found : some dnames ≡ some names = unfold find in rw t at f in
              let same : dnames ≡ names = cc in v.keeps name (w.knows name (rw same m))
          | inr t ↦ v.knows l name names (unfold find in rw t at f) m
        ];
        count = omega (arith, v.count, w.count);
      }

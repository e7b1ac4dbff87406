-- ===== src/Emitters/Client.antt =====
-- The constructor of a client state as a whole, and what the client's outlets then send.
use udptun.Prelude.{
  ℕ, ◌≤◌, ◌≡◌, refl, sym, subst, ◌∙◌, ◌⊎◌, true, List, [], some, arith, ok, fault, thrown, length,
  find, member, Bool-cases, inl, inr,
}
use udptun.Destinations.{Resolver, Store}
use udptun.Destinations.Bank.{Bank, seek}
use udptun.Destinations.Bank.Stored.{IsBank}
use udptun.Emitters.{Emitter, World, Gathered, Channels, Made, gather, erode, fill, make_client}
use udptun.Emitters.Entries.{EveryAt, fill-EveryAt}
use udptun.Emitters.Erode.{Serves, Mapped, erode-Eroded}
use udptun.Emitters.Fill.{Holds, AllFilled, fill-AllFilled}
use udptun.Emitters.Gather.{AllGrown, count_names, gather-AllGrown}
use udptun.Emitters.Given.{Wanted, Given, fill-Given, Given-nil}
use udptun.Emitters.Ready.{Ready}

-- Every outlet has an emitter that serves its destination, and every destination that the bank gives
-- for a name of a label has an outlet of that label, and no other has.
pub record ClientMade (hash : ℕ) (chmap : Channels) (bank : Bank) (outs : Made) (store : Store)
    : Type 0 where
  pub serves : EveryAt (Serves store) outs
  pub given : Given (Wanted hash chmap bank) outs
  pub complete :
      (label name ptr : ℕ) (dnames : List ℕ)
      → find label chmap ≡ some dnames
      → member name dnames ≡ true
      → seek name hash bank ≡ ok (some ptr)
      → (em : Emitter) × Holds outs label ptr em

abbrev nothing_yet : Store → Gathered
nothing_yet store = record { required = []; name_dests = []; store = store }

nothing_yet-Ready :
    (hash : ℕ) (bank : Bank) (store : Store)
    → IsBank store bank
    → Ready hash bank (nothing_yet store)
nothing_yet-Ready hash bank store b = record {
  bank_stored = b;
  active = tt;
  asked = λ name ptr e. absurd (no_entry name ptr e);
  given = λ name ptr e. absurd (no_entry name ptr e);
}
  where
    no_entry : (name ptr : ℕ) → find name [] ≡ some ptr → ⊥
    no_entry name ptr h = unfold find in cc

make_client_threw :
    (fuel : ℕ) (worlds : ℕ → World) (resolve : Resolver) (hash : ℕ) (chmap : Channels) (bank : Bank)
    (store : Store)
    → gather resolve hash bank chmap (nothing_yet store) ≡ fault thrown
    → make_client fuel worlds resolve hash chmap bank store ≡ fault thrown
unfolding make_client
make_client_threw fuel worlds resolve hash chmap bank store e = rw e refl

make_client_stuck :
    (fuel : ℕ) (worlds : ℕ → World) (resolve : Resolver) (hash : ℕ) (chmap : Channels) (bank : Bank)
    (store : Store) (g : Gathered)
    → gather resolve hash bank chmap (nothing_yet store) ≡ ok g
    → erode fuel worlds g.store 0 g.required [] ≡ fault thrown
    → make_client fuel worlds resolve hash chmap bank store ≡ fault thrown
unfolding make_client
make_client_stuck fuel worlds resolve hash chmap bank store g e f = rw (e, f) refl

make_client_done :
    (fuel : ℕ) (worlds : ℕ → World) (resolve : Resolver) (hash : ℕ) (chmap : Channels) (bank : Bank)
    (store : Store) (g : Gathered) (dest_em : List (ℕ × Emitter))
    → gather resolve hash bank chmap (nothing_yet store) ≡ ok g
    → erode fuel worlds g.store 0 g.required [] ≡ ok (some dest_em)
    → make_client fuel worlds resolve hash chmap bank store
      ≡ ok (some (fill chmap g.name_dests dest_em [], g.store))
unfolding make_client
make_client_done fuel worlds resolve hash chmap bank store g dest_em e f = rw (e, f) refl

module _ (hash : ℕ) (chmap : Channels) (bank : Bank) (g : Gathered)
    (dest_em : List (ℕ × Emitter)) where
  served_by :
      (ptr : ℕ) (em : Emitter)
      → Mapped g.store g.required [] dest_em
      → find ptr dest_em ≡ some em
      → Serves g.store ptr em
  served_by ptr em m e = elim (Bool-cases (member ptr g.required)) [
    | inl r ↦
        let (em', f, s) = m.served ptr r in
        let same : some em' ≡ some em = sym f ∙ e in
        let same_em : em' ≡ em = cc in subst (Serves g.store ptr) same_em s
    | inr r ↦ absurd (no_em (sym (m.kept ptr r) ∙ e))
  ]
    where
      no_em : find ptr [] ≡ some em → ⊥
      no_em h = unfold find in cc

  filled-ClientMade :
      (store : Store)
      → AllGrown hash bank chmap (nothing_yet store) g
      → Mapped g.store g.required [] dest_em
      → ClientMade hash chmap bank (fill chmap g.name_dests dest_em []) g.store
  filled-ClientMade store w m =
      let f : AllFilled g.name_dests dest_em chmap [] (fill chmap g.name_dests dest_em []) =
        fill-AllFilled g.name_dests dest_em chmap [] in
      record {
        serves =
            fill-EveryAt (Serves g.store) g.name_dests dest_em (λ ptr em e. served_by ptr em m e)
              chmap [] tt;
        given =
            fill-Given (Wanted hash chmap bank) g.name_dests dest_em chmap []
              (λ label name ptr dnames i n e. record {
                name = name;
                dnames = dnames;
                listed = i;
                named = n;
                given = w.ready.given name ptr e;
              })
              (Given-nil (Wanted hash chmap bank));
        complete = λ label name ptr dnames e i s.
            let known : find name g.name_dests ≡ some ptr = w.knows label name dnames e i ptr s in
            let (em, found, _) = m.served ptr (w.ready.asked name ptr known) in
            (em, f.filled label name ptr dnames em e i known found);
      }

-- With the destinations that the bank names in the store, and fuel for each name of the channels,
-- the constructor of a client state does not run out of fuel, whatever the system answers: it
-- throws, or leaves outlets of which each has an emitter with a socket that is good for its
-- destination; and each label has an outlet for each destination that the bank gives for one of
-- its names.
pub make_client-ClientMade :
    (fuel : ℕ) (worlds : ℕ → World) (resolve : Resolver) (hash : ℕ) (chmap : Channels) (bank : Bank)
    (store : Store)
    → IsBank store bank
    → count_names chmap ≤ fuel
    → let o = make_client fuel worlds resolve hash chmap bank store in
      (o ≡ fault thrown)
      ⊎ ((outs : Made) × (store' : Store) × (o ≡ ok (some (outs, store')))
          × ClientMade hash chmap bank outs store')
make_client-ClientMade fuel worlds resolve hash chmap bank store b h =
    elim (gather-AllGrown hash bank resolve chmap (nothing_yet store)
      (nothing_yet-Ready hash bank store b)) [
        | inl e ↦ inl (make_client_threw fuel worlds resolve hash chmap bank store e)
        | inr (g, e, w) ↦
            let enough : length g.required ≤ fuel = omega (arith, w.count) in
            elim (erode-Eroded fuel worlds g.store 0 g.required [] w.ready.active enough) [
              | inl f ↦ inl (make_client_stuck fuel worlds resolve hash chmap bank store g e f)
              | inr (dest_em, f, m) ↦ inr (
                fill chmap g.name_dests dest_em [],
                g.store,
                make_client_done fuel worlds resolve hash chmap bank store g dest_em e f,
                filled-ClientMade hash chmap bank g dest_em store w m,
              )
            ]
      ]

-- ===== src/Egress/Connection/Client.antt =====
-- The client states that a connection makes, with their destinations and emitters.
use udptun.Prelude.{
  ℕ, ◌≡◌, refl, ap, ◌⊎◌, List, [], ◌∷◌, ◌++◌, map, none, some, arith, ok, fault, thrown, find, inl,
  inr, member, Bool-cases, true, false, ◌==◌, Option-cases,
}
use udptun.Prelude.Sorted.{Above, Ordered}
use udptun.Destinations.{Resolver, Store}
use udptun.Destinations.Bank.{Bank, seek}
use udptun.Destinations.Bank.Stored.{IsBank}
use udptun.Egress.Connection.{Connection, ClientState, Send, Maker, sends, serve}
use udptun.Emitters.{Emitter, World, Channels, Made, make_client}
use udptun.Emitters.Client.{make_client-ClientMade}
use udptun.Emitters.Entries.{EveryAt}
use udptun.Emitters.Erode.{Serves}
use udptun.Emitters.Fill.{Holds}
use udptun.Emitters.Gather.{count_names}
use udptun.Emitters.Given.{Wanted, Inner, Given}
use udptun.Wire.{Message, Bytes}
use udptun.Egress.Connection.Made.{
  as_outlet, as_outlets, client_maker, AllSent, destinations, find-as_outlets, sends-AllSent,
  sends-destinations, seek_client_threw, seek_client_new, serve_threw, serve_found, sends_to,
  deliver-sends, make_none, make_some,
}

-- No number is in the list twice.
abbrev pub Once : List ℕ → Type 0
Once [] = Unit {0}
Once (n ∷ ns) = (member n ns ≡ false) × Once ns

-- What the message to a client that is new to the connection leaves, with the store as the
-- constructor of the client's state leaves it.
pub record Opened (worlds : ℕ → World) (resolve : Resolver) (hash : ℕ) (chmap : Channels)
    (bank : Bank) (store : Store) (m : Message) (c c' : Connection) : Type 0 where
  pub outs : Made
  pub store' : Store
  pub constructed :
      make_client (count_names chmap) worlds resolve hash chmap bank store
      ≡ ok (some (outs, store'))
  pub new : List Send
  pub sent_new : c'.sent ≡ c.sent ++ new
  pub all_sent : AllSent store' m.payload new
  pub once : Once (destinations new)
  pub only : (ptr : ℕ) → member ptr (destinations new) ≡ true → Wanted hash chmap bank m.label ptr
  pub complete :
      (name ptr : ℕ) (dnames : List ℕ)
      → find m.label chmap ≡ some dnames
      → member name dnames ≡ true
      → seek name hash bank ≡ ok (some ptr)
      → member ptr (destinations new) ≡ true

member-Above :
    (payload : Bytes) (k : ℕ) (inner : List (ℕ × Emitter))
    → Above k inner
    → member k (destinations (sends (map as_outlet inner) payload)) ≡ false
unfolding member
member-Above payload k [] a = refl
member-Above payload k ((dest, em) ∷ inner) (lt, a) =
    let other : (dest == k) ≡ false = ground arith in rw other (member-Above payload k inner a)

sends-Once :
    (payload : Bytes) (inner : List (ℕ × Emitter))
    → Ordered inner
    → Once (destinations (sends (map as_outlet inner) payload))
sends-Once payload [] o = tt
sends-Once payload ((dest, em) ∷ inner) (a, o) =
    (member-Above payload dest inner a, sends-Once payload inner o)

sends-find :
    (payload : Bytes) (ptr : ℕ) (inner : List (ℕ × Emitter))
    → member ptr (destinations (sends (map as_outlet inner) payload)) ≡ true
    → (em : Emitter) × (find ptr inner ≡ some em)
unfolding member find
sends-find payload ptr [] m = absurd (no_member m)
  where
    no_member : false ≡ true → ⊥
    no_member h = cc
sends-find payload ptr ((dest, em) ∷ inner) m = elim (Bool-cases (dest == ptr)) [
  | inl b ↦ (em, rw b refl)
  | inr b ↦ let (em', e) = sends-find payload ptr inner (rw b at m) in (em', rw b e)
]

-- Each destination at a label is one that is wanted, and there once.
sends_to-Wanted :
    (W : ℕ → ℕ → Type 0) (label : ℕ) (payload : Bytes) (outs : Made)
    → Given W outs
    → let new = sends_to (find label (as_outlets outs)) payload in
      Once (destinations new) × ((ptr : ℕ) → member ptr (destinations new) ≡ true → W label ptr)
sends_to-Wanted W label payload outs g = elim (Option-cases (find label outs)) [
  | inl e ↦ rw (find-as_outlets label outs, e) (tt, λ ptr m. absurd (no_member ptr m))
  | inr (inner, e) ↦
      let i : Inner (W label) inner = g label inner e in
      rw (find-as_outlets label outs, e)
        (
          sends-Once payload inner i.ordered,
          λ ptr m. let (em, f) = sends-find payload ptr inner m in i.wanted ptr em f,
        )
]
  where
    no_member : (ptr : ℕ) → member ptr [] ≡ true → ⊥
    no_member ptr h = unfold member in cc

sends_to-AllSent :
    (store : Store) (label : ℕ) (payload : Bytes) (outs : Made)
    → EveryAt (Serves store) outs
    → AllSent store payload (sends_to (find label (as_outlets outs)) payload)
unfolding find
sends_to-AllSent store label payload [] h = tt
sends_to-AllSent store label payload ((l, inner) ∷ outs) h = elim (Bool-cases (l == label)) [
  | inl b ↦ rw b (sends-AllSent store payload inner h.0)
  | inr b ↦ rw b (sends_to-AllSent store label payload outs h.1)
]

sends_to-destinations :
    (label ptr : ℕ) (payload : Bytes) (em : Emitter) (outs : Made)
    → Holds outs label ptr em
    → member ptr (destinations (sends_to (find label (as_outlets outs)) payload)) ≡ true
sends_to-destinations label ptr payload em outs h =
    rw (find-as_outlets label outs, h.at_label)
      (sends-destinations payload ptr em h.inner h.at_dest)

-- When a message is the first of its client on a connection, and the destinations that the bank
-- names are in the store: the making of the client's state throws, or, whatever the system answers
-- then, serving the message sends its payload to destinations that the bank gives for names that
-- the channels list for its label, to none of them twice, and to each that it gives for a name in
-- the first list for the label; each time by an emitter that sends to an address that the
-- destination has, as the state's constructor leaves it.
pub serve-Opened :
    (worlds : ℕ → World) (resolve : Resolver) (hash now : ℕ) (chmap : Channels) (bank : Bank)
    (store : Store) (c : Connection) (m : Message)
    → IsBank store bank
    → find m.clid c.clstats ≡ none
    → let o = serve (client_maker worlds resolve hash chmap bank store) now c m in
      (o ≡ fault thrown)
      ⊎ ((c' : Connection) × (o ≡ ok c') × Opened worlds resolve hash chmap bank store m c c')
serve-Opened worlds resolve hash now chmap bank store c m b e =
    let make : Maker = client_maker worlds resolve hash chmap bank store in
    elim (make_client-ClientMade (count_names chmap) worlds resolve hash chmap bank store b
      (omega arith)) [
        | inl f ↦ inl (
            serve_threw make now c m (
              seek_client_threw make now m.clid c.clstats e
                (make_none worlds resolve hash chmap bank store m.clid f)))
        | inr (outs, store', f, made) ↦
            let st : ClientState = record { last_used = now; outlets = as_outlets outs } in
            let new : List Send = sends_to (find m.label (as_outlets outs)) m.payload in
            let listed =
              sends_to-Wanted (Wanted hash chmap bank) m.label m.payload outs made.given in
            inr (
              _,
              serve_found make now c m st (
                  seek_client_new make now m.clid c.clstats (as_outlets outs) e
                    (make_some worlds resolve hash chmap bank store m.clid outs store' f)),
              record {
                outs = outs;
                store' = store';
                constructed = f;
                new = new;
                sent_new = ap (λ x. c.sent ++ x) (deliver-sends now m.label m.payload st);
                all_sent = sends_to-AllSent store' m.label m.payload outs made.serves;
                once = listed.0;
                only = listed.1;
                complete = λ name ptr dnames l i s.
                    let (em, h) = made.complete m.label name ptr dnames l i s in
                    sends_to-destinations m.label ptr m.payload em outs h;
              },
            )
      ]

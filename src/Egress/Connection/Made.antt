-- ===== src/Egress/Connection/Made.antt =====
-- A client state that is made when it is needed, and what it then sends.
use udptun.Prelude.{
  ℕ, ◌≡◌, refl, List, [], ◌∷◌, ◌++◌, map, Option, none, some, arith, Outcome, ok, fault, thrown,
  undefined, ◌>>=◌, find, put, inl, inr, member, Bool-cases, true, ◌==◌,
}
use udptun.Destinations.{Resolver, Store}
use udptun.Destinations.Bank.{Bank}
use udptun.Egress.Connection.{
  Connection, ClientState, Outlet, Outlets, Send, Maker, sends, deliver, seek_client, serve,
}
use udptun.Emitters.{Emitter, World, Channels, Made, make_client}
use udptun.Emitters.Entries.{Every}
use udptun.Emitters.Erode.{Serves}
use udptun.Emitters.Gather.{count_names}
use udptun.Emitters.Send.{Sends, emit-Sends}
use udptun.Wire.{Message, Bytes}

abbrev pub as_outlet : ℕ × Emitter → Outlet
as_outlet (dest, em) = record { destination = dest; emitter = em }

abbrev pub as_outlets : Made → Outlets
as_outlets [] = []
as_outlets ((label, inner) ∷ outs) = (label, map as_outlet inner) ∷ as_outlets outs

outlets_of_made : Option (Made × Store) → Outcome Outlets
outlets_of_made none = fault undefined
outlets_of_made (some (outs, store)) = ok (as_outlets outs)

-- The constructor of a client state, with fuel for each name of the channels. Clients differ in nothing
-- but the name of their logger. Each is made on the store that is given: what one of them activates is
-- not carried to the next.
unfoldable pub client_maker : (ℕ → World) → Resolver → ℕ → Channels → Bank → Store → Maker
unfolding outlets_of_made
client_maker worlds resolve hash chmap bank store clid =
    make_client (count_names chmap) worlds resolve hash chmap bank store >>= outlets_of_made

-- Each datagram is the payload, by an emitter that sends to the datagram's destination.
abbrev pub AllSent : Store → Bytes → List Send → Type 0
AllSent store payload [] = Unit {0}
AllSent store payload (s ∷ ss) =
    (s.bytes ≡ payload)
    × Sends store s.outlet.destination s.outlet.emitter
    × AllSent store payload ss

-- The destinations of some datagrams.
abbrev pub destinations : List Send → List ℕ
destinations [] = []
destinations (s ∷ ss) = s.outlet.destination ∷ destinations ss

pub find-as_outlets :
    (label : ℕ) (outs : Made)
    → find label (as_outlets outs)
      ≡ elim (find label outs) [ none ↦ none | some inner ↦ some (map as_outlet inner) ]
unfolding find
find-as_outlets label [] = refl
find-as_outlets label ((l, inner) ∷ outs) = ground (arith, find-as_outlets label outs)

pub sends-AllSent :
    (store : Store) (payload : Bytes) (inner : List (ℕ × Emitter))
    → Every (Serves store) inner
    → AllSent store payload (sends (map as_outlet inner) payload)
sends-AllSent store payload [] h = tt
sends-AllSent store payload ((dest, em) ∷ inner) h =
    (refl, emit-Sends store dest em h.0, sends-AllSent store payload inner h.1)

pub sends-destinations :
    (payload : Bytes) (ptr : ℕ) (em : Emitter) (inner : List (ℕ × Emitter))
    → find ptr inner ≡ some em
    → member ptr (destinations (sends (map as_outlet inner) payload)) ≡ true
unfolding find member
sends-destinations payload ptr em [] e = cc
sends-destinations payload ptr em ((dest, e') ∷ inner) e = elim (Bool-cases (dest == ptr)) [
  | inl b ↦ rw b refl
  | inr b ↦ rw b (sends-destinations payload ptr em inner (rw b at e))
]

module _ (worlds : ℕ → World) (resolve : Resolver) (hash : ℕ) (chmap : Channels) (bank : Bank)
    (store : Store) where
  pub make_none :
      (clid : ℕ)
      → make_client (count_names chmap) worlds resolve hash chmap bank store ≡ fault thrown
      → client_maker worlds resolve hash chmap bank store clid ≡ fault thrown
  unfolding client_maker
  make_none clid e = rw e refl

  pub make_some :
      (clid : ℕ) (outs : Made) (store' : Store)
      → make_client (count_names chmap) worlds resolve hash chmap bank store
        ≡ ok (some (outs, store'))
      → client_maker worlds resolve hash chmap bank store clid ≡ ok (as_outlets outs)
  unfolding client_maker
  make_some clid outs store' e = rw e refl

pub seek_client_threw :
    (make : Maker) (now clid : ℕ) (clstats : List (ℕ × ClientState))
    → find clid clstats ≡ none
    → make clid ≡ fault thrown
    → seek_client make now clid clstats ≡ fault thrown
seek_client_threw make now clid clstats e f = ground arith

pub seek_client_new :
    (make : Maker) (now clid : ℕ) (clstats : List (ℕ × ClientState)) (outs : Outlets)
    → find clid clstats ≡ none
    → make clid ≡ ok outs
    → seek_client make now clid clstats ≡ ok (record { last_used = now; outlets = outs })
seek_client_new make now clid clstats outs e f = ground arith

pub serve_threw :
    (make : Maker) (now : ℕ) (c : Connection) (m : Message)
    → seek_client make now m.clid c.clstats ≡ fault thrown
    → serve make now c m ≡ fault thrown
unfolding serve
serve_threw make now c m e = rw e refl

pub serve_found :
    (make : Maker) (now : ℕ) (c : Connection) (m : Message) (st : ClientState)
    → seek_client make now m.clid c.clstats ≡ ok st
    → let r = deliver now m.label m.payload st in
      serve make now c m
      ≡ ok (record c { clstats = put m.clid r.0 c.clstats; sent = c.sent ++ r.1 })
unfolding serve
serve_found make now c m st e = rw e refl

-- What a client is sent for a label.
abbrev pub sends_to : Option (List Outlet) → Bytes → List Send
sends_to none payload = []
sends_to (some outs) payload = sends outs payload

pub deliver-sends :
    (now label : ℕ) (payload : Bytes) (st : ClientState)
    → (deliver now label payload st).1 ≡ sends_to (find label st.outlets) payload
unfolding deliver
deliver-sends now label payload st = ground arith

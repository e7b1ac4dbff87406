-- ===== src/Tests/Destinations.antt =====
-- The bank of destinations, emitters and client states, at concrete inputs.
use udptun.Prelude.{
  ℕ, ◌+◌, ◌≡◌, ◌⊎◌, refl, Bool, true, false, not, List, [], ◌∷◌, Option, none, some, arith, ok,
  fault, thrown, find, put, insert, ◌==◌, if◌then◌else◌,
}
use udptun.Destinations.{
  AddrInfo, Destination, Config, Resolver, Store, new_destination, find_option, check, check_at,
}
use udptun.Destinations.Bank.{
  Bank, load, seek, missing, load_singletons, add_groups, add_members, insert_at, add_singletons,
  set_at,
}
use udptun.Destinations.Bank.Loaded.{Answer, load-Answer}
use udptun.Destinations.Bank.Names.{is_configured}
use udptun.Destinations.Bank.Seek.{load-IsBank}
use udptun.Egress.Connection.{Connection, serve}
use udptun.Egress.Connection.Client.{Opened, serve-Opened}
use udptun.Egress.Connection.Made.{client_maker}
use udptun.Emitters.{
  EmitterMaker, World, Channels, count_all, make_maker, erode, count_required, take_best, choose,
  sort_counts, insert_count, match_required,
}
use udptun.Emitters.Best.{Best, make_maker-Best}
use udptun.Emitters.Erode.{Eroded, erode-Eroded}
use udptun.Emitters.Maker.{AllActive}
use udptun.Wire.{Message}

abbrev node : Bool → ℕ → Option Config
node v6 port = some (record { ipv4 = none; ipv6 = some v6; host = none; port = some port })

-- Two destinations, of which one has no IPv6, and a group of both.
abbrev singletons : List (ℕ × Option Config)
singletons = (1, node true 80) ∷ (2, node false 81) ∷ []

abbrev groups : List (ℕ × List ℕ)
groups = (5, 1 ∷ 2 ∷ []) ∷ []

abbrev fresh : Bool → ℕ → Destination
fresh v6 port = record {
  ipv4 = true;
  ipv6 = v6;
  host = 0;
  srv = some port;
  activated = false;
  options = [];
}

abbrev test_store : Store
test_store = (0, fresh true 80) ∷ (1, fresh false 81) ∷ []

abbrev test_bank : Bank
test_bank = (1, 0 ∷ []) ∷ (2, 1 ∷ []) ∷ (5, 0 ∷ 1 ∷ []) ∷ []

test_loaded : load singletons groups ≡ ok (test_bank, test_store)
unfolding load load_singletons new_destination add_groups add_members find put insert_at
    add_singletons insert set_at
test_loaded = refl

load-Answer_example :
    let configured = is_configured 5 singletons groups in
    (r : Option ℕ) × (seek 5 3 test_bank ≡ ok r)
    × Answer test_store configured r
    × (missing 5 test_bank ≡ not configured)
load-Answer_example = load-Answer 5 3 singletons groups test_bank test_store test_loaded

abbrev v4 : ℕ → AddrInfo
v4 addr = record { family = 2; protocol = 17; addr = addr }

abbrev v6 : ℕ → AddrInfo
v6 addr = record { family = 10; protocol = 17; addr = addr }

-- Addresses of the families asked for, by the port.
abbrev resolver : Resolver
resolver host srv family = some (elim srv [
  | none ↦ []
  | some port ↦ if family == 2 then v4 port ∷ [] else v6 port ∷ v4 port ∷ []
])

abbrev worlds : ℕ → World
worlds round = record {
  infos = some (v6 0 ∷ v4 0 ∷ []);
  makes = λ ai. some (round + 20);
  binds = λ ai. true;
  named = true;
}

abbrev active_store : Store
active_store =
    (0, record (fresh true 80) { activated = true; options = v6 80 ∷ v4 80 ∷ [] })
    ∷ (1, record (fresh false 81) { activated = true; options = v4 81 ∷ [] })
    ∷ []

active_all : AllActive active_store (0 ∷ 1 ∷ [])
unfolding find
active_all = ((_, refl, refl), ((_, refl, refl), tt))

erode-Eroded_example :
    Eroded active_store (0 ∷ 1 ∷ []) [] (erode 2 worlds active_store 0 (0 ∷ 1 ∷ []) [])
erode-Eroded_example = erode-Eroded 2 worlds active_store 0 (0 ∷ 1 ∷ []) [] active_all (omega arith)

-- The address that both destinations fit is chosen.
abbrev chosen_maker : EmitterMaker
chosen_maker = record { chosen = some (v4 0, 20); matched = 0 ∷ 1 ∷ [] }

made : make_maker (worlds 0) active_store (0 ∷ 1 ∷ []) ≡ ok chosen_maker
unfolding make_maker count_all count_required check_at find check take_best choose sort_counts
    find_option insert_count match_required insert
made = refl

make_maker-Best_example : Best (worlds 0) active_store (0 ∷ 1 ∷ []) (v6 0 ∷ v4 0 ∷ []) (v4 0) 20
make_maker-Best_example =
    make_maker-Best (worlds 0) active_store (0 ∷ 1 ∷ []) (v6 0 ∷ v4 0 ∷ []) chosen_maker (v4 0) 20
      refl made refl

abbrev channels : Channels
channels = (2, 1 ∷ 2 ∷ []) ∷ (3, 5 ∷ []) ∷ []

abbrev idle_connection : Connection
idle_connection = record {
  sock = some 9;
  buf = [];
  armed = true;
  cleanup = false;
  clstats = [];
  sent = [];
}

abbrev hello : Message
hello = record { label = 2; clid = 8; payload = 1 ∷ 2 ∷ [] }

serve-Opened_example :
    let o =
      serve
        (client_maker worlds resolver 3 channels test_bank test_store)
        7
        idle_connection
        hello in
    (o ≡ fault thrown)
    ⊎ ((c' : Connection) × (o ≡ ok c')
        × Opened worlds resolver 3 channels test_bank test_store hello idle_connection c')
unfolding find
serve-Opened_example =
    serve-Opened worlds resolver 3 7 channels test_bank test_store idle_connection hello
      (load-IsBank singletons groups test_bank test_store test_loaded) refl

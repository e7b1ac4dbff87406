-- ===== src/Emitters.antt =====
-- `EmitterMaker` and `Emitter`: emitters.hh and emitters.cc; and the constructor of
-- `TCPEgress::Connection::ClientState` in tcp_egress.cc, which uses them. What the system answers is
-- given for each emitter maker, by the number of those before it. The order of equal counts, which
-- `std::sort` leaves open, is that of the addresses.
pub mod Maker
pub mod Erased
pub mod Erode
pub mod Counted
pub mod Counts
pub mod Best
pub mod Activate
pub mod Ready
pub mod Gather
pub mod Entries
pub mod Fill
pub mod Given
pub mod Client
pub mod Send
use udptun.Prelude.{
  ℕ, zero, suc, ◌+◌, Bool, true, false, List, [], ◌∷◌, Option, none, some, Outcome, ok, fault,
  undefined, thrown, ◌>>=◌, ltb, leb, ◌==◌, if◌then◌else◌, find, put, insert, remove,
}
use udptun.Destinations.{
  AddrInfo, Destination, Resolver, Sendto, Store, activate_at, check_at, send,
}
use udptun.Destinations.Bank.{Bank, seek}

pub record Emitter : Type 0 where
  pub sock : Option ℕ
  pub family : ℕ
  pub protocol : ℕ

-- What the system answers while one emitter is made: the addresses to bind to, or none where
-- `get_address_info` throws; the results of `socket` and `bind`; and whether `getsockname` succeeds.
pub record World : Type 0 where
  pub infos : Option (List AddrInfo)
  pub makes : AddrInfo → Option ℕ
  pub binds : AddrInfo → Bool
  pub named : Bool

-- How many of the required destinations are compatible with the address.
unfoldable pub count_required : Store → AddrInfo → List ℕ → Outcome ℕ
count_required store ai [] = ok 0
count_required store ai (ptr ∷ required) = do
  matches ← check_at ai.family ai.protocol store ptr
  n ← count_required store ai required
  ok (if matches then suc n else n)

-- `counters`: an address that nothing matches has no entry.
unfoldable pub count_all : Store → List ℕ → List AddrInfo → Outcome (List (AddrInfo × ℕ))
count_all store required [] = ok []
count_all store required (ai ∷ infos) = do
  n ← count_required store ai required
  rest ← count_all store required infos
  ok (if n == 0 then rest else (ai, n) ∷ rest)

-- `std::sort`, with the greater count first.
unfoldable pub insert_count : AddrInfo × ℕ → List (AddrInfo × ℕ) → List (AddrInfo × ℕ)
insert_count c [] = c ∷ []
insert_count c (d ∷ seq) =
    let rest = insert_count c seq in if ltb c.1 d.1 then d ∷ rest else c ∷ d ∷ seq

unfoldable pub sort_counts : List (AddrInfo × ℕ) → List (AddrInfo × ℕ)
sort_counts [] = []
sort_counts (c ∷ seq) = insert_count c (sort_counts seq)

-- `chosen` is the address with the socket that is bound to it.
pub record EmitterMaker : Type 0 where
  pub chosen : Option (AddrInfo × ℕ)
  pub matched : List ℕ

-- The first address on which a socket can be made and bound.
unfoldable pub choose : World → List (AddrInfo × ℕ) → Option (AddrInfo × ℕ)
choose world [] = none
choose world (c ∷ seq) =
    let next = choose world seq in
    elim (world.makes c.0) [
      | none ↦ next
      | some fd ↦ if world.binds c.0 then some (c.0, fd) else next
    ]

-- `matched_`
unfoldable pub match_required : Store → AddrInfo → List ℕ → Outcome (List ℕ)
match_required store ai [] = ok []
match_required store ai (ptr ∷ required) = do
  matches ← check_at ai.family ai.protocol store ptr
  rest ← match_required store ai required
  ok (if matches then insert ptr rest else rest)

-- The loop over the sorted addresses.
unfoldable pub take_best : World → Store → List ℕ → List (AddrInfo × ℕ) → Outcome EmitterMaker
take_best world store required seq = elim (choose world seq) [
  | none ↦ ok (record { chosen = none; matched = [] })
  | some best ↦ match_required store best.0 required >>= λ matched.
      ok (record { chosen = some best; matched = matched })
]

-- The constructor of `EmitterMaker`.
unfoldable pub make_maker : World → Store → List ℕ → Outcome EmitterMaker
make_maker world store required = elim world.infos [
  | none ↦ fault thrown
  | some infos ↦ count_all store required infos >>= λ counters.
      take_best world store required (sort_counts counters)
]

-- `required.erase(ptr)` and `result[ptr] = r` for each that matched.
unfoldable pub erase_all : List ℕ → List ℕ → List ℕ
erase_all [] required = required
erase_all (ptr ∷ matched) required = erase_all matched (remove ptr required)

unfoldable pub assign_all : List ℕ → Emitter → List (ℕ × Emitter) → List (ℕ × Emitter)
assign_all [] e result = result
assign_all (ptr ∷ matched) e result = assign_all matched e (put ptr e result)

abbrev pub emitter_on : AddrInfo → ℕ → Emitter
emitter_on ai fd = record { sock = some fd; family = ai.family; protocol = ai.protocol }

-- `EmitterMaker::make`
unfoldable pub make :
    Bool → EmitterMaker → List ℕ → List (ℕ × Emitter) → Outcome (List ℕ × List (ℕ × Emitter))
make named mkr required result = elim mkr.chosen [
  | none ↦ ok (required, result)
  | some best ↦
      if named
      then ok
          (erase_all mkr.matched required, assign_all mkr.matched (emitter_on best.0 best.1) result)
      else fault thrown
]

abbrev pub ebadf : ℕ
ebadf = 9

-- `Emitter::send`; the two codes that it makes one are equal here.
unfoldable pub emit : Bool → (ℕ → Sendto) → Emitter → Destination → Outcome (ℕ × Option ℕ)
emit logged sendto e d = elim e.sock [
  | none ↦ ok (ebadf, none)
  | some fd ↦ send logged sendto e.family e.protocol d
]

-- `while (!required_dests.empty())`: the fuel is the number of emitters that may be made. None is for
-- fuel that runs out.
unfoldable pub erode :
    ℕ
    → (ℕ → World)
    → Store
    → ℕ
    → List ℕ
    → List (ℕ × Emitter)
    → Outcome (Option (List (ℕ × Emitter)))
erode fuel worlds store round [] dest_em = ok (some dest_em)
erode zero worlds store round (ptr ∷ required) dest_em = ok none
erode (suc fuel) worlds store round (ptr ∷ required) dest_em =
    make_maker (worlds round) store (ptr ∷ required) >>= λ mkr. elim mkr.matched [
      | [] ↦ fault thrown
      | _ ∷ _ ↦ make (worlds round).named mkr (ptr ∷ required) dest_em >>= λ r.
          erode fuel worlds store (suc round) r.0 r.1
    ]

-- The first loop of the client state's constructor. The reverse map, for diagnostics, is left out.
pub record Gathered : Type 0 where
  pub required : List ℕ
  pub name_dests : List (ℕ × ℕ)
  pub store : Store

unfoldable pub gather_names : Resolver → ℕ → Bank → List ℕ → Gathered → Outcome Gathered
gather_names resolve hash bank [] g = ok g
gather_names resolve hash bank (dname ∷ dnames) g = seek dname hash bank >>= λ dest. elim dest [
  | none ↦ gather_names resolve hash bank dnames g
  | some ptr ↦ activate_at resolve ptr g.store >>= λ store.
      gather_names resolve hash bank dnames (record {
        required = insert ptr g.required;
        name_dests = put dname ptr g.name_dests;
        store = store;
      })
]

-- `channelmap_t`: from a label to the names of its destinations.
abbrev pub Channels : Type 0
Channels = List (ℕ × List ℕ)

unfoldable pub gather : Resolver → ℕ → Bank → Channels → Gathered → Outcome Gathered
gather resolve hash bank [] g = ok g
gather resolve hash bank ((label, dnames) ∷ chmap) g =
    gather_names resolve hash bank dnames g >>= λ g'. gather resolve hash bank chmap g'

-- From a label to its destinations, each with the emitter to use.
abbrev pub Made : Type 0
Made = List (ℕ × List (ℕ × Emitter))

unfoldable pub outlets_at : ℕ → Made → List (ℕ × Emitter)
outlets_at label outlets = elim (find label outlets) [ none ↦ [] | some s ↦ s ]

-- The last loop.
unfoldable pub fill_names : ℕ → List (ℕ × ℕ) → List (ℕ × Emitter) → List ℕ → Made → Made
fill_names label name_dests dest_em [] outlets = outlets
fill_names label name_dests dest_em (dname ∷ dnames) outlets =
    fill_names label name_dests dest_em dnames (elim (find dname name_dests) [
      | none ↦ outlets
      | some dest ↦ elim (find dest dest_em) [
        | none ↦ outlets
        | some em ↦ put label (put dest em (outlets_at label outlets)) outlets
      ]
    ])

unfoldable pub fill : Channels → List (ℕ × ℕ) → List (ℕ × Emitter) → Made → Made
fill [] name_dests dest_em outlets = outlets
fill ((label, dnames) ∷ chmap) name_dests dest_em outlets =
    fill chmap name_dests dest_em (fill_names label name_dests dest_em dnames outlets)

-- The constructor of `ClientState`, with the destinations as it leaves them.
unfoldable pub make_client :
    ℕ → (ℕ → World) → Resolver → ℕ → Channels → Bank → Store → Outcome (Option (Made × Store))
make_client fuel worlds resolve hash chmap bank store = do
  g ← gather resolve hash bank chmap (record { required = []; name_dests = []; store = store })
  r ← erode fuel worlds g.store 0 g.required []
  ok (elim r [ none ↦ none | some dest_em ↦ some (fill chmap g.name_dests dest_em [], g.store) ])

-- ===== src/Clients.antt =====
-- `ClientTable`: clientid.hh and clientid.cc. A socket address is known by a number, its place in
-- the order of `SocketAddress`; a `clid_t` has 64 bits. The current time is an argument.
pub mod Consistent
pub mod Ids
pub mod Purged
use udptun.Prelude.{
  ℕ, zero, suc, ◌+◌, ◌%◌, ◌^◌, Bool, true, false, List, [], ◌∷◌, Option, none, some, Outcome, ok,
  fault, assertion, undefined, ltb, if◌then◌else◌, find, put, erase,
}

pub record Entry : Type 0 where
  pub addr : ℕ
  pub last_used : ℕ

-- `purge_event` is the time that the event is set for.
pub record ClientTable : Type 0 where
  pub next_id : ℕ
  pub fwd : List (ℕ × Entry)
  pub rev : List (ℕ × ℕ)
  pub last_purge : ℕ
  pub purge_event : ℕ

-- The loop of `seek`, for an address that has no id: the first id from `next_id` on that is free. It
-- goes on past as many ids as the fuel says.
unfoldable pub assign : ℕ → ℕ → ℕ → ClientTable → Option (ℕ × ClientTable)
assign zero now key t = none
assign (suc fuel) now key t = elim (find t.next_id t.fwd) [
  | some e ↦ assign fuel now key (record t { next_id = (t.next_id + 1) % 2 ^ 64 })
  | none ↦ some (
    t.next_id,
    record t {
      fwd = put t.next_id (record { addr = key; last_used = now }) t.fwd;
      rev = put key t.next_id t.rev;
      next_id = (t.next_id + 1) % 2 ^ 64;
    },
  )
]

unfoldable pub seek : ℕ → ℕ → ℕ → ClientTable → Outcome (Option (ℕ × ClientTable))
seek fuel now key t = elim (find key t.rev) [
  | some id ↦ elim (find id t.fwd) [
    | none ↦ fault assertion
    | some e ↦ ok (some (id, record t { fwd = put id (record e { last_used = now }) t.fwd }))
  ]
  | none ↦ ok (assign fuel now key t)
]

-- The loop of `purge` over the rest of `fwd`: what stays of it, and of `rev`. After an entry is erased,
-- the iterator is at the next one, or at the end.
unfoldable pub purge_from :
    ℕ → List (ℕ × Entry) → List (ℕ × ℕ) → Outcome (List (ℕ × Entry) × List (ℕ × ℕ))
purge_from before [] rev = ok ([], rev)
purge_from before ((id, e) ∷ rest) rev =
    if ltb e.last_used before
    then elim rest [ [] ↦ fault undefined | r ∷ _ ↦ purge_from before rest (erase (r.1.addr) rev) ]
    else elim (purge_from before rest rev) [ fault f ↦ fault f | ok s ↦ ok ((id, e) ∷ s.0, s.1) ]

unfoldable pub purge : ℕ → ClientTable → Outcome ClientTable
purge before t = elim (purge_from before t.fwd t.rev) [
  | fault f ↦ fault f
  | ok r ↦ ok (record t { fwd = r.0; rev = r.1 })
]

unfoldable pub on_purge : ℕ → ℕ → ClientTable → Outcome ClientTable
on_purge period now t = elim (purge t.last_purge t) [
  | fault f ↦ fault f
  | ok u ↦ ok (record u { last_purge = now; purge_event = now + period })
]

-- The constructor, with the id and the address of each line of the file.
unfoldable pub load_entries : ℕ → List (ℕ × ℕ) → ClientTable → ClientTable
load_entries now [] t = t
load_entries now ((clid, addr) ∷ lines) t = load_entries now lines (record t {
  rev = put addr clid t.rev;
  fwd = elim (find clid t.fwd) [
    | some e ↦ t.fwd
    | none ↦ put clid (record { addr = addr; last_used = now }) t.fwd
  ];
})

unfoldable pub make : ℕ → ℕ → List (ℕ × ℕ) → ClientTable
make period now lines =
    load_entries now lines
      (record { next_id = 0; fwd = []; rev = []; last_purge = now; purge_event = now + period })

-- ===== src/Tests/Clients.antt =====
-- The table of clients, at concrete inputs.
use udptun.Prelude.{
  ℕ, ◌≡◌, refl, [], ◌∷◌, Option, none, some, arith, ok, fault, assertion, find, ◌==◌, Bool-cases,
  inl, inr, subst,
}
use udptun.Clients.{Entry, ClientTable, seek, purge}
use udptun.Clients.Ids.{Sought, seek-Sought}
use udptun.Clients.Consistent.{Consistent}
use udptun.Clients.Purged.{purge_first}

-- One client, with the id that is next.
abbrev pub one_client : ClientTable
one_client = record {
  next_id = 0;
  fwd = (0, record { addr = 70; last_used = 5 }) ∷ [];
  rev = (70, 0) ∷ [];
  last_purge = 4;
  purge_event = 10;
}

-- The first of two clients has not been used since the time 7.
abbrev two_clients : ClientTable
two_clients = record {
  next_id = 2;
  fwd = (0, record { addr = 70; last_used = 5 }) ∷ (1, record { addr = 80; last_used = 8 }) ∷ [];
  rev = (70, 0) ∷ (80, 1) ∷ [];
  last_purge = 7;
  purge_event = 10;
}

find_one : {A : Type 0} (i k : ℕ) (v w : A) → find i ((k, v) ∷ []) ≡ some w → (k ≡ i) × (v ≡ w)
unfolding find
find_one {A} i k v w h = elim (Bool-cases (k == i)) [
  | inl b ↦ (ground arith, same_some (rw b at h))
  | inr b ↦ absurd (none_some (rw b at h))
]
  where
    same_some : ◌≡◌ {A = Option A} (some v) (some w) → v ≡ w
    same_some h = cc

    none_some : ◌≡◌ {A = Option A} none (some w) → ⊥
    none_some h = cc

find_it : {A : Type 0} (k : ℕ) (v : A) → find k ((k, v) ∷ []) ≡ some v
unfolding find
find_it k v = ground arith

pub one_client-Consistent : Consistent one_client
one_client-Consistent = record {
  forth = λ key id h.
      let (a, b) = find_one key 70 0 id h in
      (
        record { addr = 70; last_used = 5 },
        subst (λ x. find x one_client.fwd ≡ some (record { addr = 70; last_used = 5 })) b
            (find_it 0 (record { addr = 70; last_used = 5 })),
        a,
      );
  back = λ id e h.
      let (a, b) = find_one id 0 (record { addr = 70; last_used = 5 }) e h in
      subst (λ (x : Entry). find x.addr one_client.rev ≡ some id) b
        (subst (λ x. find 70 one_client.rev ≡ some x) a (find_it 70 0));
}

seek-Sought_example :
    (id : ℕ) × (t' : ClientTable) × (seek 2 9 80 one_client ≡ ok (some (id, t')))
    × Sought 80 one_client id t'
seek-Sought_example =
    seek-Sought 2 9 80 one_client one_client-Consistent (omega arith) (omega arith)

two_clients-rev : find 70 two_clients.rev ≡ some 0
unfolding find
two_clients-rev = refl

two_clients-fwd : find {V = Entry} 0 ((1, record { addr = 80; last_used = 8 }) ∷ []) ≡ none
unfolding find
two_clients-fwd = refl

purge_first_example :
    (t' : ClientTable) × (purge 7 two_clients ≡ ok t')
    × (find 80 t'.rev ≡ none)
    × ((fuel now : ℕ) → seek fuel now 70 t' ≡ fault assertion)
purge_first_example =
    purge_first 7 0 1 (record { addr = 70; last_used = 5 }) (record { addr = 80; last_used = 8 }) []
      two_clients refl (omega arith) (omega arith, tt) two_clients-fwd two_clients-rev (omega arith)

-- ===== src/Clients/Purged.antt =====
-- `purge` on a table with a client that has expired: it removes the id of one client and the
-- address of the next.
use udptun.Prelude.{
  ℕ, ◌≤◌, ◌<◌, ◌≡◌, ◌≢◌, refl, ap, ◌∙◌, true, false, List, [], ◌∷◌, ◌++◌, none, some, arith, ok,
  fault, assertion, undefined, find, erase, find-erase, ltb, ◌==◌,
}
use udptun.Clients.{Entry, ClientTable, seek, purge_from, purge}

-- No client was last used before this time.
abbrev pub AllRecent : ℕ → List (ℕ × Entry) → Type 0
AllRecent before [] = Unit {0}
AllRecent before ((id, e) ∷ m) = (before ≤ e.last_used) × AllRecent before m

purge_from_recent :
    (before : ℕ) (m : List (ℕ × Entry)) (rev : List (ℕ × ℕ))
    → AllRecent before m
    → purge_from before m rev ≡ ok (m, rev)
unfolding purge_from
purge_from_recent before [] rev v = refl
purge_from_recent before ((id, e) ∷ m) rev (r, v) =
    let b : ltb e.last_used before ≡ false = ground arith in
    rw (b, purge_from_recent before m rev v) refl

purge_ok :
    (before : ℕ) (t : ClientTable) (fwd : List (ℕ × Entry)) (rev : List (ℕ × ℕ))
    → purge_from before t.fwd t.rev ≡ ok (fwd, rev)
    → purge before t ≡ ok (record t { fwd = fwd; rev = rev })
unfolding purge
purge_ok before t fwd rev e = ground arith

purge_undefined :
    (before : ℕ) (t : ClientTable)
    → purge_from before t.fwd t.rev ≡ fault undefined
    → purge before t ≡ fault undefined
unfolding purge
purge_undefined before t e = ground arith

purge_from_last :
    (before id : ℕ) (e : Entry) (m : List (ℕ × Entry)) (rev : List (ℕ × ℕ))
    → AllRecent before m
    → e.last_used < before
    → purge_from before (m ++ ((id, e) ∷ [])) rev ≡ fault undefined
unfolding purge_from
purge_from_last before id e [] rev v h =
    let b : ltb e.last_used before ≡ true = ground arith in rw b refl
purge_from_last before id e ((i, d) ∷ m) rev (r, v) h =
    let b : ltb d.last_used before ≡ false = ground arith in
    rw (b, purge_from_last before id e m rev v h) refl

-- When the client at the end of the table, alone of all, has expired, `purge` uses the entry at
-- the end of the map, which is undefined.
pub purge_last :
    (before id : ℕ) (e : Entry) (m : List (ℕ × Entry)) (t : ClientTable)
    → t.fwd ≡ m ++ ((id, e) ∷ [])
    → AllRecent before m
    → e.last_used < before
    → purge before t ≡ fault undefined
purge_last before id e m t f v h =
    purge_undefined before t
      (ap (λ x. purge_from before x t.rev) f ∙ purge_from_last before id e m t.rev v h)

purge_from_expired :
    (before id id' : ℕ) (e e' : Entry) (m : List (ℕ × Entry)) (rev : List (ℕ × ℕ))
    → e.last_used < before
    → purge_from before ((id, e) ∷ (id', e') ∷ m) rev
      ≡ purge_from before ((id', e') ∷ m) (erase e'.addr rev)
unfolding purge_from
purge_from_expired before id id' e e' m rev h =
    let b : ltb e.last_used before ≡ true = ground arith in rw b refl

seek_lost :
    (fuel now key id : ℕ) (t : ClientTable)
    → find key t.rev ≡ some id
    → find id t.fwd ≡ none
    → seek fuel now key t ≡ fault assertion
unfolding seek
seek_lost fuel now key id t f g = ground arith

-- When the client at the front of the table, alone of all, has expired, its id is not in the table
-- again and its address is not that of the next client, `purge` removes its id, and the address of
-- the next client. After that any `seek` of the address of the client that expired fails an
-- assertion.
pub purge_first :
    (before id id' : ℕ) (e e' : Entry) (m : List (ℕ × Entry)) (t : ClientTable)
    → t.fwd ≡ (id, e) ∷ (id', e') ∷ m
    → e.last_used < before
    → AllRecent before ((id', e') ∷ m)
    → find id ((id', e') ∷ m) ≡ none
    → find e.addr t.rev ≡ some id
    → e'.addr ≢ e.addr
    → (t' : ClientTable) × (purge before t ≡ ok t')
      × (find e'.addr t'.rev ≡ none)
      × ((fuel now : ℕ) → seek fuel now e.addr t' ≡ fault assertion)
purge_first before id id' e e' m t f h v gone known apart =
    let rev = erase e'.addr t.rev in
    let t' = record t { fwd = (id', e') ∷ m; rev = rev } in
    let here : (e'.addr == e'.addr) ≡ true = ground arith in
    let there : (e'.addr == e.addr) ≡ false = ground arith in
    let stays : find e.addr rev ≡ some id = find-erase e.addr e'.addr t.rev ∙ rw there known in
    (
      t',
      purge_ok before t ((id', e') ∷ m) rev (
          ap (λ x. purge_from before x t.rev) f
          ∙ purge_from_expired before id id' e e' m t.rev h
          ∙ purge_from_recent before ((id', e') ∷ m) rev v),
      find-erase e'.addr e'.addr t.rev ∙ rw here refl,
      λ fuel now. seek_lost fuel now e.addr id t' stays gone,
    )

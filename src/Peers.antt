-- ===== src/Peers.antt =====
-- `PeerTable`: peers.hh and peers.cc. A key, the address family with the host in numeric form, and a
-- name are known by numbers; the configuration is parsed. `resolve` is `get_address_info` with
-- `getnameinfo` of each result, and `hash_of` is `std::hash`.
use udptun.Prelude.{
  ℕ, ◌≡◌, refl, ap, ◌∙◌, Bool, true, false, List, [], ◌∷◌, Option, none, some, arith, Outcome, ok,
  ◌>>=◌, ◌==◌, if◌then◌else◌, find, put, member, insert, find-put, member-insert, Option-cases,
  Bool-cases, inl, inr,
}

pub record Peer : Type 0 where
  pub name : ℕ
  pub hash : ℕ

abbrev pub Tab : Type 0
Tab = List (ℕ × Peer)

-- An entry of the configuration; `hosts` and `hash` may be absent.
pub record Item : Type 0 where
  pub id : ℕ
  pub hosts : Option (List ℕ)
  pub hash : Option ℕ

abbrev pub hash_or : (ℕ → ℕ) → Item → ℕ
hash_or hash_of item = elim item.hash [ some h ↦ h | none ↦ hash_of item.id ]

-- The loop over the results for a host.
unfoldable pub load_keys : List ℕ → Peer → Tab → Tab
load_keys [] p tab = tab
load_keys (k ∷ ks) p tab = load_keys ks p (put k p tab)

unfoldable pub load_hosts : (ℕ → Outcome (List ℕ)) → List ℕ → Peer → Tab → Outcome Tab
load_hosts resolve [] p tab = ok tab
load_hosts resolve (h ∷ hs) p tab =
    resolve h >>= λ keys. load_hosts resolve hs p (load_keys keys p tab)

unfoldable pub load : (ℕ → Outcome (List ℕ)) → (ℕ → ℕ) → List Item → Tab → Outcome Tab
load resolve hash_of [] tab = ok tab
load resolve hash_of (item ∷ items) tab = elim item.hosts [
  | none ↦ load resolve hash_of items tab
  | some hosts ↦
      load_hosts resolve hosts (record { name = item.id; hash = hash_or hash_of item }) tab
      >>= λ tab'. load resolve hash_of items tab'
]

-- `seek_resolved`, on the table and its backups, the nearest first.
unfoldable pub seek_resolved : ℕ → List Tab → Option Peer
seek_resolved key [] = none
seek_resolved key (tab ∷ backups) = elim (find key tab) [
  | some p ↦ some p
  | none ↦ seek_resolved key backups
]

-- The names of one table.
unfoldable pub tab_names : Tab → List ℕ → List ℕ
tab_names [] result = result
tab_names ((k, p) ∷ tab) result = tab_names tab (insert p.name result)

-- `get_names`, which adds those of the backups first.
unfoldable pub get_names : List Tab → List ℕ → List ℕ
get_names [] result = result
get_names (tab ∷ backups) result = tab_names tab (get_names backups result)

find-load_keys :
    (k : ℕ) (ks : List ℕ) (p : Peer) (tab : Tab)
    → find k (load_keys ks p tab) ≡ (if member k ks then some p else find k tab)
unfolding load_keys member
find-load_keys k [] p tab = refl
find-load_keys k (j ∷ ks) p tab =
    find-load_keys k ks p (put j p tab) ∙ ground (arith, find-put k j p tab)

-- The last item that one of its hosts has the key of, if there is one.
abbrev pub listed_hosts : (ℕ → List ℕ) → ℕ → List ℕ → Bool
listed_hosts keys_of k [] = false
listed_hosts keys_of k (h ∷ hs) = if member k (keys_of h) then true else listed_hosts keys_of k hs

abbrev pub item_lists : (ℕ → List ℕ) → ℕ → Option (List ℕ) → Bool
item_lists keys_of k none = false
item_lists keys_of k (some hosts) = listed_hosts keys_of k hosts

abbrev pub last_listing : (ℕ → List ℕ) → (ℕ → ℕ) → ℕ → List Item → Option Peer → Option Peer
last_listing keys_of hash_of k [] before = before
last_listing keys_of hash_of k (item ∷ items) before = last_listing keys_of hash_of k items (
    if item_lists keys_of k item.hosts
    then some (record { name = item.id; hash = hash_or hash_of item })
    else before)

module _ (resolve : ℕ → Outcome (List ℕ)) (keys_of : ℕ → List ℕ)
    (total : (h : ℕ) → resolve h ≡ ok (keys_of h)) where
  load_hosts_finds :
      (k : ℕ) (hs : List ℕ) (p : Peer) (tab : Tab)
      → (tab' : Tab) × (load_hosts resolve hs p tab ≡ ok tab')
        × (find k tab' ≡ (if listed_hosts keys_of k hs then some p else find k tab))
  unfolding load_hosts
  load_hosts_finds k [] p tab = (tab, refl, refl)
  load_hosts_finds k (h ∷ hs) p tab =
      let (tab', e, f) = load_hosts_finds k hs p (load_keys (keys_of h) p tab) in
      (tab', rw (total h) e, f ∙ ground (arith, find-load_keys k (keys_of h) p tab))

  -- When every host resolves, loading succeeds, and then each key is that of the last item that
  -- lists a host with the key, with its hash or that of its name; a key of no item is what it was
  -- before.
  pub find-load :
      (hash_of : ℕ → ℕ) (k : ℕ) (items : List Item) (tab : Tab)
      → (tab' : Tab) × (load resolve hash_of items tab ≡ ok tab')
        × (find k tab' ≡ last_listing keys_of hash_of k items (find k tab))
  unfolding load
  find-load hash_of k [] tab = (tab, refl, refl)
  find-load hash_of k (item ∷ items) tab = elim (Option-cases item.hosts) [
    | inl e ↦ let (tab', f, g) = find-load hash_of k items tab in (tab', rw (e, load) f, rw e g)
    | inr (hosts, e) ↦
        let p : Peer = record { name = item.id; hash = hash_or hash_of item } in
        let (mid, f, g) = load_hosts_finds k hosts p tab in
        let (tab', f', g') = find-load hash_of k items mid in
        (tab', rw (e, load, f) f', rw e (g' ∙ ap (last_listing keys_of hash_of k items) g))
  ]

tab_names_keeps :
    (n : ℕ) (tab : Tab) (r : List ℕ) → member n r ≡ true → member n (tab_names tab r) ≡ true
unfolding tab_names
tab_names_keeps n [] r h = h
tab_names_keeps n ((k, p) ∷ tab) r h =
    tab_names_keeps n tab (insert p.name r) (member-insert n p.name r ∙ ground arith)

tab_names_has :
    (k : ℕ) (p : Peer) (tab : Tab) (r : List ℕ)
    → find k tab ≡ some p
    → member p.name (tab_names tab r) ≡ true
unfolding tab_names find
tab_names_has k p [] r h = absurd (none_some h)
  where
    none_some : ◌≡◌ {A = Option Peer} none (some p) → ⊥
    none_some h = cc
tab_names_has k p ((j, q) ∷ tab) r h = elim (Bool-cases (j == k)) [
  | inl b ↦
      let same : q.name ≡ p.name = name_of (rw b at h) in
      tab_names_keeps p.name tab (insert q.name r)
        (member-insert p.name q.name r ∙ ground (arith, same))
  | inr b ↦ tab_names_has k p tab (insert q.name r) (rw b at h)
]
  where
    name_of : ◌≡◌ {A = Option Peer} (some q) (some p) → q.name ≡ p.name
    name_of h = cc

-- Every name that a look-up gives, from the table or from one behind it, is one of the names.
pub seek_resolved-get_names :
    (key : ℕ) (tabs : List Tab) (p : Peer)
    → seek_resolved key tabs ≡ some p
    → member p.name (get_names tabs []) ≡ true
unfolding seek_resolved get_names
seek_resolved-get_names key [] p h = absurd (none_some h)
  where
    none_some : ◌≡◌ {A = Option Peer} none (some p) → ⊥
    none_some h = cc
seek_resolved-get_names key (tab ∷ backups) p h = elim (Option-cases (find key tab)) [
  | inl e ↦
      tab_names_keeps p.name tab (get_names backups [])
        (seek_resolved-get_names key backups p (later e))
  | inr (q, e) ↦ tab_names_has key p tab (get_names backups []) (e ∙ here q e)
]
  where
    later : find key tab ≡ none → seek_resolved key backups ≡ some p
    later e = rw (e, seek_resolved) at h

    here : (q : Peer) → find key tab ≡ some q → some q ≡ some p
    here q e = rw (e, seek_resolved) at h

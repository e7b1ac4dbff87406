-- ===== src/Egress/Tcp/Activate.antt =====
-- The listeners of an egress.
use mathlib.Core.Quot
use udptun.Prelude.{
  sym, ◌≡◌, refl, ap, ◌∙◌, Bool, true, false, List, [], ◌∷◌, ◌++◌, some, ok, inl, inr, append-nil,
  append_assoc,
}
use udptun.Addresses.{AddressEntry, entries}
use udptun.Addresses.Found.{Found, SameMembers, Distinct, entries-Found, entries-Distinct}
use udptun.Egress.Listener
use udptun.Egress.Listener.{Listener, Errno, Waits}
use udptun.Egress.Tcp.{TcpEgress, Answers, new_listener, listen_all, activate}

-- A listener of an address, that waits.
pub record Listens (a : AddressEntry) (l : Listener) : Type 0 where
  pub same_family : l.family ≡ a.family
  pub same_protocol : l.protocol ≡ a.protocol
  pub same_addr : l.addr ≡ a.addr
  pub waits : Waits l

-- One such listener for each of some addresses, in their order.
abbrev pub AllListen : List AddressEntry → List Listener → Type 0
AllListen [] [] = Unit {0}
AllListen [] (l ∷ ls) = ⊥
AllListen (a ∷ addrs) [] = ⊥
AllListen (a ∷ addrs) (l ∷ ls) = Listens a l × AllListen addrs ls

-- A new listener waits once it is activated, whatever the system answers.
fresh-Listens :
    (made bound listening : Bool) (a : AddressEntry) (errno : Errno)
    → (l : Listener) × (Listener.activate made bound listening (new_listener a errno) ≡ ok l)
      × Listens a l
unfolding Listener.activate Listener.rebind
fresh-Listens false bound listening a errno = (_, refl, waiting (inr (refl, (30, refl))))
  where
    waiting :
        Waits (record (new_listener a errno) { rebind_at = some 30 })
        → Listens a (record (new_listener a errno) { rebind_at = some 30 })
    waiting w = record { same_family = refl; same_protocol = refl; same_addr = refl; waits = w }
fresh-Listens true false listening a errno = (
  _,
  refl,
  record {
    same_family = refl;
    same_protocol = refl;
    same_addr = refl;
    waits = inr (refl, (65, refl));
  },
)
fresh-Listens true true false a errno = (
  _,
  refl,
  record {
    same_family = refl;
    same_protocol = refl;
    same_addr = refl;
    waits = inr (refl, (30, refl));
  },
)
fresh-Listens true true true a errno = (
  _,
  refl,
  record { same_family = refl; same_protocol = refl; same_addr = refl; waits = inl (refl, refl) },
)

listen_all-AllListen :
    (answers : AddressEntry → Answers) (addrs : List AddressEntry) (ls : List Listener)
    → (new : List Listener) × (listen_all answers addrs ls ≡ ok (ls ++ new)) × AllListen addrs new
unfolding listen_all
listen_all-AllListen answers [] ls = ([], ap ok (sym (append-nil ls)), tt)
listen_all-AllListen answers (a ∷ addrs) ls =
    let (l, e, w) =
      fresh-Listens (answers a).made (answers a).bound (answers a).listening a (answers a).errno in
    let (new, f, all) = listen_all-AllListen answers addrs (ls ++ l ∷ []) in
    (l ∷ new, rw e (f ∙ ap ok (append_assoc ls (l ∷ []) new)), (w, all))

activate_found :
    (answers : AddressEntry → Answers) (info : List AddressEntry) (e : TcpEgress)
    (ls : List Listener)
    → listen_all answers (entries info []) e.listeners ≡ ok ls
    → activate answers (some info) e ≡ ok (record e { listeners = ls })
unfolding activate
activate_found answers info e ls h = rw h refl

-- When an egress that has no listeners is activated on addresses that were found, whatever the
-- system answers for each of them: it gets one listener for each different address that was found,
-- of this address's family, protocol and socket address, and no others; and each waits for a
-- connection, or for the time to bind again. Any other result of the look-up with the same
-- addresses, in whatever order and however often each, leads to the very same listeners.
pub activate-AllListen :
    (answers : AddressEntry → Answers) (info info' : List AddressEntry) (e : TcpEgress)
    → e.listeners ≡ []
    → ◌≡◌ {A = Found} (Quot.mk info) (Quot.mk info')
    → (e' : TcpEgress) × (activate answers (some info) e ≡ ok e')
      × (activate answers (some info') e ≡ ok e')
      × ((set : List AddressEntry) × Distinct set
          × SameMembers set info
          × AllListen set e'.listeners)
activate-AllListen answers info info' e n same =
    let (ls, f, all) = listen_all-AllListen answers (entries info []) [] in
    let found = ap (listen_all answers (entries info [])) n ∙ f in
    let found' =
      ap (λ set. listen_all answers set e.listeners) (sym (entries-Found info info' same))
      ∙ found in
    let (d, m) = entries-Distinct info in
    (
      record e { listeners = ls },
      activate_found answers info e ls found,
      activate_found answers info' e ls found',
      (entries info [], d, m, all),
    )

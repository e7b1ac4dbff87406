-- ===== src/Addressing.antt =====
-- `AddressEvent` and `AddressManager`: addressing.cc with addrevent.hh and addressing.hh. A name, a
-- service, a hint and a list of addresses are known by numbers. What `gai_cancel`, `getaddrinfo_a` and
-- `gai_error` answer is an argument; `gai_suspend` is called with no time to wait, and its answer
-- changes nothing. A call of a user changes no event.
pub mod Checks
pub mod Told
use udptun.Prelude.{
  ℕ, zero, suc, ◌≡◌, refl, Bool, true, false, List, [], ◌∷◌, Option, none, some, ◌==◌, ◌++◌,
  if◌then◌else◌, insert, remove,
}

-- `result` is `data.ar_result`.
pub record AddressEvent : Type 0 where
  pub node : ℕ
  pub srv : ℕ
  pub hint : Option ℕ
  pub result : Option ℕ
  pub on : Bool

-- The users, the events by their pointers, and what was passed to `freeaddrinfo`.
pub record AddressManager : Type 0 where
  pub users : List ℕ
  pub events : ℕ → AddressEvent
  pub freed : List ℕ

-- What `gai_cancel` returns; a request that is done has its result.
pub data Canceled : Type 0 where
  canceled not_canceled : Canceled
  all_done : Option ℕ → Canceled

-- What `gai_error` returns for a request: 0 with its result, that it goes on, or that it failed.
pub data Looked : Type 0 where
  done : Option ℕ → Looked
  in_progress failed : Looked

unfoldable pub with_event : ℕ → AddressEvent → (ℕ → AddressEvent) → ℕ → AddressEvent
with_event ptr ev events q = if ptr == q then ev else events q

-- The loop of `cancel`, which goes on for as long as the answers are that the request is not canceled.
unfoldable pub cancel_loop : List Canceled → AddressEvent → Option AddressEvent
cancel_loop [] ev = if ev.on then none else some ev
cancel_loop (canceled ∷ cs) ev = if ev.on then some (record ev { on = false }) else some ev
cancel_loop (all_done r ∷ cs) ev =
    if ev.on then some (record ev { on = false; result = r }) else some ev
cancel_loop (not_canceled ∷ cs) ev = let rest = cancel_loop cs ev in if ev.on then rest else some ev

abbrev pub held : AddressEvent → List ℕ
held ev = elim ev.result [ none ↦ [] | some r ↦ r ∷ [] ]

unfoldable pub cancel : List Canceled → ℕ → AddressManager → Option AddressManager
cancel cs ptr m = elim (cancel_loop cs (m.events ptr)) [
  | none ↦ none
  | some ev ↦ some (record m {
    events = with_event ptr (record ev { result = none }) m.events;
    freed = held ev ++ m.freed;
  })
]

-- Whether `getaddrinfo_a` returned 0 is `accepted`, and it throws where that is not so. The Boolean of
-- the result tells whether it returned.
unfoldable pub start_lookup : Bool → ℕ → AddressEvent → AddressManager → AddressManager × Bool
start_lookup accepted ptr ev m =
    if accepted
    then (
      record m {
        events = with_event ptr (record ev { on = true }) m.events;
        users = insert ptr m.users;
      },
      true,
    )
    else (record m { events = with_event ptr ev m.events }, false)

unfoldable pub initiate :
    List Canceled → Bool → ℕ → ℕ → ℕ → Option ℕ → AddressManager → Option (AddressManager × Bool)
initiate cs accepted ptr node srv hint m = elim (cancel cs ptr m) [
  | none ↦ none
  | some m' ↦ some (
      start_lookup accepted ptr
        (record { node = node; srv = srv; hint = hint; result = none; on = (m'.events ptr).on }) m')
]

-- The event after `AddressEvent::check`, and what its user is called with.
unfoldable pub check_event : Looked → AddressEvent → AddressEvent × List (Option ℕ)
check_event (done r) ev = if ev.on then (record ev { on = false; result = r }, r ∷ []) else (ev, [])
check_event in_progress ev = (ev, [])
check_event failed ev = (ev, [])

abbrev pub named : ℕ → List (Option ℕ) → List (ℕ × Option ℕ)
named ptr [] = []
named ptr (r ∷ rs) = (ptr, r) ∷ named ptr rs

-- The loop of `AddressManager::check` over the users.
unfoldable pub check_users :
    (ℕ → Looked) → List ℕ → (ℕ → AddressEvent) → (ℕ → AddressEvent) × List (ℕ × Option ℕ)
check_users looked [] events = (events, [])
check_users looked (p ∷ ps) events =
    let r = check_event (looked p) (events p) in
    let rest = check_users looked ps (with_event p r.0 events) in (rest.0, named p r.1 ++ rest.1)

unfoldable pub check : (ℕ → Looked) → AddressManager → AddressManager × List (ℕ × Option ℕ)
check looked m = let r = check_users looked m.users m.events in (record m { events = r.0 }, r.1)

-- The destructor of an event.
unfoldable pub destroy : Canceled → ℕ → AddressManager → AddressManager
destroy (all_done r) ptr m =
    let ev = m.events ptr in
    record m {
      users = remove ptr m.users;
      freed = held (if ev.on then record ev { result = r } else ev) ++ m.freed;
    }
destroy canceled ptr m = record m {
  users = remove ptr m.users;
  freed = held (m.events ptr) ++ m.freed;
}
destroy not_canceled ptr m = record m {
  users = remove ptr m.users;
  freed = held (m.events ptr) ++ m.freed;
}

-- The destructor of the manager, which cancels the users in the order of a copy of them.
unfoldable pub cancel_users : (ℕ → List Canceled) → List ℕ → AddressManager → Option AddressManager
cancel_users answers [] m = some m
cancel_users answers (p ∷ ps) m = elim (cancel (answers p) p m) [
  | none ↦ none
  | some m' ↦ cancel_users answers ps m'
]

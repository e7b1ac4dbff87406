-- ===== src/Addressing/Told.antt =====
-- The start of a lookup by `initiate`, and what its user is then told.
use udptun.Prelude.{
  ℕ, ◌≡◌, refl, ap, ◌∙◌, Bool, true, false, List, [], ◌∷◌, Option, none, some, ◌++◌, if◌then◌else◌,
  member-insert,
}
use udptun.Addressing.{
  AddressEvent, AddressManager, Canceled, Looked, with_event, canceled, not_canceled, all_done,
  cancel_loop, held, cancel, start_lookup, initiate,
}
use udptun.Addressing.Checks.{
  calls_of, checks, first_done, same_key, with_event_same, Awaits, checks-first_done,
}

-- Whether an answer ends the loop of `cancel`.
abbrev pub ends : List Canceled → Bool
ends [] = false
ends (canceled ∷ cs) = true
ends (all_done r ∷ cs) = true
ends (not_canceled ∷ cs) = ends cs

if_some : {A : Type 0} (b : Bool) (x y : A) → (z : A) × ((if b then some x else some y) ≡ some z)
if_some true x y = (x, refl)
if_some false x y = (y, refl)

if_next :
    {A : Type 0} (b : Bool) (o : Option A) (y : A)
    → ((z : A) × (o ≡ some z))
    → (z : A) × ((if b then o else some y) ≡ some z)
if_next true o y e = e
if_next false o y e = (y, refl)

cancel_loop-ends :
    (cs : List Canceled) (ev : AddressEvent)
    → ends cs ≡ true
    → (ev' : AddressEvent) × (cancel_loop cs ev ≡ some ev')
unfolding cancel_loop
cancel_loop-ends [] ev h = cc
cancel_loop-ends (canceled ∷ cs) ev h = if_some ev.on (record ev { on = false }) ev
cancel_loop-ends (all_done r ∷ cs) ev h = if_some ev.on (record ev { on = false; result = r }) ev
cancel_loop-ends (not_canceled ∷ cs) ev h =
    if_next ev.on (cancel_loop cs ev) ev (cancel_loop-ends cs ev h)

cancel-ends :
    (cs : List Canceled) (ptr : ℕ) (m : AddressManager)
    → ends cs ≡ true
    → (m' : AddressManager) × (cancel cs ptr m ≡ some m')
unfolding cancel
cancel-ends cs ptr m h =
    let c = cancel_loop-ends cs (m.events ptr) h in
    (
      record m {
        events = with_event ptr (record c.0 { result = none }) m.events;
        freed = held c.0 ++ m.freed;
      },
      rw (c.1, cancel) refl,
    )

start_lookup-Awaits :
    (ptr : ℕ) (ev : AddressEvent) (m : AddressManager) → Awaits ptr (start_lookup true ptr ev m).0
unfolding start_lookup
start_lookup-Awaits ptr ev m = (
  ap (λ x. x.on) (with_event_same ptr (record ev { on = true }) m.events),
  member-insert ptr ptr m.users ∙ rw (same_key ptr) refl,
)

-- A lookup that is initiated, with what its user is then told.
pub record Initiated (cs : List Canceled) (ptr node srv : ℕ) (hint : Option ℕ) (m : AddressManager)
    : Type 0 where
  pub after : AddressManager
  pub returns : initiate cs true ptr node srv hint m ≡ some (after, true)
  pub told : (ls : List (ℕ → Looked)) → calls_of ptr (checks ls after) ≡ first_done ptr ls

-- When one of the answers to `gai_cancel` ends its loop and `getaddrinfo_a` accepts the request,
-- `initiate` returns, whatever lookup went on before; and in any number of checks by the manager
-- after it, over any other users, the user is called exactly once, with the result at the first
-- check that finds the request done, and not at all where no check does, as when the lookup fails.
pub initiate-Initiated :
    (cs : List Canceled) (ptr node srv : ℕ) (hint : Option ℕ) (m : AddressManager)
    → ends cs ≡ true
    → Initiated cs ptr node srv hint m
unfolding initiate
initiate-Initiated cs ptr node srv hint m h =
    let c = cancel-ends cs ptr m h in
    let ev : AddressEvent = record {
      node = node;
      srv = srv;
      hint = hint;
      result = none;
      on = (c.0.events ptr).on;
    } in
    record {
      after = (start_lookup true ptr ev c.0).0;
      returns = rw (c.1, initiate) (unfold start_lookup in refl);
      told = λ ls.
          checks-first_done ptr ls (start_lookup true ptr ev c.0).0
            (start_lookup-Awaits ptr ev c.0);
    }

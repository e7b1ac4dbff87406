-- ===== src/Tests/Addressing.antt =====
-- The lookup of an address, at a concrete input.
use udptun.Prelude.{refl, true, List, [], ◌∷◌, none, some}
use udptun.Addressing.Told.{Initiated, initiate-Initiated}
use udptun.Addressing.{AddressManager, Canceled, not_canceled, all_done}

-- A lookup that is going on for the event 7.
abbrev manager : AddressManager
manager = record {
  users = 7 ∷ [];
  events = λ q. record { node = 1; srv = 2; hint = none; result = none; on = true };
  freed = [];
}

abbrev answers : List Canceled
answers = not_canceled ∷ all_done (some 30) ∷ []

initiate-Initiated_example : Initiated answers 7 3 4 (some 5) manager
initiate-Initiated_example = initiate-Initiated answers 7 3 4 (some 5) manager refl

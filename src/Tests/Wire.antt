-- ===== src/Tests/Wire.antt =====
-- The messages, and files of payloads, at concrete inputs.
use udptun.Prelude.{◌≡◌, refl, false, List, [], ◌∷◌, ◌++◌, none, arith, length, ok}
use udptun.Wire.{Message}
use udptun.Wire.Decode.{IsMessage}
use udptun.Payload.{load, load_all}
use udptun.Payload.Load.{load_all-saves, saves}
use udptun.Payload.Memory.{
  Memory, raw, Call, makes, moves, assigns, destroys, loads, cut_short, whole, calls,
}
use udptun.Payload.Owned.{Owned}
use udptun.Payload.Values.{after_all, calls-Owned}

abbrev pub first_message : Message
first_message = record { clid = 1; label = 2; payload = 7 ∷ 8 ∷ [] }

abbrev pub second_message : Message
second_message = record { clid = 300; label = 2; payload = 9 ∷ [] }

pub first_message-IsMessage : IsMessage first_message
first_message-IsMessage = record {
  clid_fits = omega arith;
  label_fits = omega arith;
  length_fits = omega arith;
}

pub second_message-IsMessage : IsMessage second_message
second_message-IsMessage = record {
  clid_fits = omega arith;
  label_fits = omega arith;
  length_fits = omega arith;
}

load_short : load (0 ∷ 5 ∷ 1 ∷ []) ≡ none
unfolding load
load_short = refl

load_all-saves_example :
    load_all (saves ((1 ∷ 2 ∷ []) ∷ (3 ∷ []) ∷ []) ++ 0 ∷ 5 ∷ 1 ∷ []) ≡ record {
      payloads = (1 ∷ 2 ∷ []) ∷ (3 ∷ []) ∷ [];
      sum = length (saves ((1 ∷ 2 ∷ []) ∷ (3 ∷ []) ∷ []));
    }
load_all-saves_example =
    load_all-saves ((1 ∷ 2 ∷ []) ∷ (3 ∷ []) ∷ []) (0 ∷ 5 ∷ 1 ∷ []) (omega arith, (omega arith, tt))
      load_short

-- Two payloads, the second of which is moved to the first, and then the first to itself; the second
-- is loaded again, and a third is made of it.
abbrev some_calls : List Call
some_calls =
    makes 0 (1 ∷ [])
    ∷ makes 1 (2 ∷ 3 ∷ [])
    ∷ assigns 0 1
    ∷ assigns 0 0
    ∷ loads 1 (whole (4 ∷ []))
    ∷ loads 1 cut_short
    ∷ moves 2 1
    ∷ destroys 0
    ∷ destroys 1
    ∷ []

abbrev no_payloads : Memory
no_payloads = record { objs = λ s. raw; live = λ a. false; bytes = λ a. []; next = 0 }

no_payloads-Owned : Owned no_payloads (λ s. raw)
no_payloads-Owned = record {
  values = λ s. refl;
  held = λ s a e. cc;
  one = λ s t a e f. cc;
  owned = λ a l. cc;
  below = λ a l. cc;
}

calls-Owned_example :
    (m' : Memory) × (calls some_calls no_payloads ≡ ok m')
    × Owned m' (after_all some_calls (λ s. raw))
calls-Owned_example =
    calls-Owned some_calls no_payloads (λ s. raw)
      (
        refl,
        (refl, ((refl, refl), ((refl, refl), (refl, (refl, ((refl, refl), (refl, (refl, tt)))))))),
      )
      no_payloads-Owned

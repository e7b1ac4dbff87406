-- ===== src/Tests/Quota.antt =====
-- The quota manager, at concrete inputs.
use udptun.Prelude.{refl, List, [], ◌∷◌, put, none, some, arith, find}
use udptun.Quota.{Quota, Callback, increase, decrease, oldest, check, check_ages}
use udptun.Quota.Amounts.{Balanced, decrease-Balanced}
use udptun.Quota.Run.{Op, grow, lower, leave, AllFit, run, apply, run-Balanced}
use udptun.Quota.Ages.{oldest-Placed}
use udptun.Quota.Placed.{Placed}
use udptun.Quota.Asked.{Unasked, calls_of, make-Unasked}
use udptun.Queue.{Entries, make}

-- Two users, one of them with an age, at whose callback it frees four bytes.
abbrev two_users : Quota
two_users = record {
  total = 12;
  max = 10;
  users = (1, record { amount = 8; age = 6 }) ∷ (2, record { amount = 4; age = 0 }) ∷ [];
  ages = (6, 1 ∷ []) ∷ [];
  asked = [];
}

abbrev frees_four : Callback
frees_four user q = decrease user 4 q

two_users-Balanced : Balanced two_users
two_users-Balanced = record { ordered = ((omega arith, tt), (tt, tt)); balance = refl }

-- One more user comes, and one of the others leaves.
abbrev three_ops : List Op
three_ops = grow 3 5 ∷ lower 2 5 ∷ leave 1 ∷ []

three_ops-AllFit : AllFit frees_four three_ops two_users
unfolding apply increase decrease check check_ages find put
three_ops-AllFit = (omega arith, (tt, (tt, tt)))

run-Balanced_example : Balanced (run frees_four three_ops two_users)
run-Balanced_example =
    run-Balanced frees_four three_ops two_users (λ u q b. decrease-Balanced u 4 q b)
      two_users-Balanced three_ops-AllFit

abbrev nobody : Quota
nobody = record { total = 0; max = 10; users = []; ages = []; asked = [] }

nobody-Placed : Placed nobody
unfolding find
nobody-Placed u when = ground arith

oldest-Placed_example : Placed (oldest 1 6 nobody)
oldest-Placed_example = oldest-Placed 1 6 nobody nobody-Placed

abbrev two_files : Entries
two_files = (some 5, 0 ∷ 1 ∷ 3 ∷ []) ∷ (none, 1 ∷ []) ∷ (some 8, 0 ∷ 1 ∷ 3 ∷ []) ∷ []

make-Unasked_example :
    Unasked
      (record nobody { max = 1 })
      (calls_of frees_four 1 (make 10 two_files).effects (record nobody { max = 1 }))
make-Unasked_example = make-Unasked frees_four 1 10 two_files (record nobody { max = 1 }) refl

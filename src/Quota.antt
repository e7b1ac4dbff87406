-- ===== src/Quota.antt =====
-- `Quota`: quotas.hh and quotas.cc. A user is known by a number, the address of its callback, and
-- amounts are `uintmax_t`s of 64 bits. Times are not zero, which stands for no time.
pub mod Amounts
pub mod Placed
pub mod Ages
pub mod Run
pub mod Asked
use udptun.Prelude.{
  ℕ, ◌+◌, ◌-◌, ◌%◌, ◌^◌, Bool, true, false, not, ◌&&◌, List, [], ◌∷◌, Option, none, some, ltb, ◌==◌,
  if◌then◌else◌, find, put, erase, member, insert, remove,
}

pub record Data : Type 0 where
  pub amount : ℕ
  pub age : ℕ

-- `asked` is the users whose callbacks were called, in order.
pub record Quota : Type 0 where
  pub total : ℕ
  pub max : ℕ
  pub users : List (ℕ × Data)
  pub ages : List (ℕ × List ℕ)
  pub asked : List ℕ

abbrev pub make : Quota
make = record { total = 0; max = 0; users = []; ages = []; asked = [] }

-- `users.try_emplace(&user)`
abbrev pub user_data : Option Data → Data
user_data none = record { amount = 0; age = 0 }
user_data (some d) = d

-- A user's callback, which may call the manager again.
abbrev pub Callback : Type 0
Callback = ℕ → Quota → Quota

-- `check`: the first user of each age is asked to free what it can, until the total is in bounds.
unfoldable pub check_ages : Callback → List (ℕ × List ℕ) → Quota → Quota
check_ages call [] q = q
check_ages call ((when, us) ∷ rest) q =
    if ltb q.max q.total
    then elim us [
      | [] ↦ check_ages call rest q
      | u ∷ _ ↦ check_ages call rest (call u (record q { asked = u ∷ q.asked }))
    ]
    else q

unfoldable pub check : Callback → Quota → Quota
check call q = check_ages call q.ages q

unfoldable pub set : Callback → ℕ → Quota → Quota
set call sz q = check call (record q { max = sz })

unfoldable pub increase : Callback → ℕ → ℕ → Quota → Quota
increase call user sz q =
    let d = user_data (find user q.users) in
    check call (record q {
      users = put user (record d { amount = (d.amount + sz) % 2 ^ 64 }) q.users;
      total = (q.total + sz) % 2 ^ 64;
    })

unfoldable pub decrease : ℕ → ℕ → Quota → Quota
decrease user sz q =
    let d = user_data (find user q.users) in
    let am : ℕ = if ltb d.amount sz then d.amount else sz in
    let left : ℕ = if ltb d.amount sz then 0 else d.amount - sz in
    record q {
      users = put user (record d { amount = left }) q.users;
      total = if ltb q.total am then 0 else q.total - am;
    }

abbrev pub is_empty : List ℕ → Bool
is_empty [] = true
is_empty (x ∷ xs) = false

-- `ages[when]`, without its entry if it is empty.
abbrev pub shrink : ℕ → List ℕ → List (ℕ × List ℕ) → List (ℕ × List ℕ)
shrink when left ages = if is_empty left then erase when ages else put when left ages

unfoldable pub erase_from_sequence : ℕ → ℕ → List (ℕ × List ℕ) → List (ℕ × List ℕ)
erase_from_sequence user when ages = if when == 0 then ages else elim (find when ages) [
  | none ↦ ages
  | some us ↦ if member user us then shrink when (remove user us) ages else ages
]

-- `ages[when].insert(&user)`
unfoldable pub insert_into_sequence : ℕ → ℕ → List (ℕ × List ℕ) → List (ℕ × List ℕ)
insert_into_sequence user when ages = elim (find when ages) [
  | none ↦ put when (insert user []) ages
  | some us ↦ put when (insert user us) ages
]

unfoldable pub forget : ℕ → Quota → Quota
forget user q = elim (find user q.users) [
  | none ↦ q
  | some d ↦ record q {
    ages = erase_from_sequence user d.age q.ages;
    total = if ltb q.total d.amount then 0 else q.total - d.amount;
    users = erase user q.users;
  }
]

unfoldable pub oldest : ℕ → ℕ → Quota → Quota
oldest user when q =
    let d = user_data (find user q.users) in
    if d.age == when
    then record q { users = put user d q.users }
    else let taken = erase_from_sequence user d.age q.ages in
      record q {
        users = put user (record d { age = when }) q.users;
        ages = if when == 0 then taken else insert_into_sequence user when taken;
      }

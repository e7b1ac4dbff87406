-- ===== src/Quota/Amounts.antt =====
-- The total of a quota is the sum of its users' amounts.
use udptun.Prelude.{
  ℕ, ◌+◌, ◌-◌, ◌%◌, ◌^◌, ◌≤◌, ◌<◌, ◌≡◌, refl, ap, subst, false, List, [], ◌∷◌, arith, ltb, ◌==◌,
  if◌then◌else◌, find, put, erase, Bool-cases, Option-cases, inl, inr,
}
use udptun.Prelude.Sorted.{Above, Ordered, find-Above, put-Ordered, erase-Ordered}
use udptun.Quota.{Data, Quota, user_data, check, check_ages, Callback, increase, decrease, forget}

abbrev pub sum_amounts : List (ℕ × Data) → ℕ
sum_amounts [] = 0
sum_amounts ((u, d) ∷ m) = d.amount + sum_amounts m

pub sum-put :
    (u : ℕ) (d : Data) (m : List (ℕ × Data))
    → Ordered m
    → sum_amounts (put u d m) + (user_data (find u m)).amount ≡ sum_amounts m + d.amount
unfolding put find
sum-put u d [] o = omega arith
sum-put u d ((i, w) ∷ m) (a, o) = elim (Bool-cases (i == u)) [
  | inl e ↦ rw e (omega arith)
  | inr e ↦ elim (Bool-cases (ltb u i)) [
    | inl f ↦
        let lt : u < i = ground arith in rw (e, f, find-Above u i m (omega arith) a) (omega arith)
    | inr f ↦ let ih = sum-put u d m o in rw (e, f) (omega (arith, ih))
  ]
]

erase-Above_same :
    (k : ℕ) (m : List (ℕ × Data)) → Above k m → sum_amounts (erase k m) ≡ sum_amounts m
unfolding erase
erase-Above_same k [] a = refl
erase-Above_same k ((i, w) ∷ m) (lt, a) =
    let e : (i == k) ≡ false = ground arith in
    rw e (ap (λ x. w.amount + x) (erase-Above_same k m a))

sum-erase :
    (u : ℕ) (m : List (ℕ × Data))
    → Ordered m
    → sum_amounts (erase u m) + (user_data (find u m)).amount ≡ sum_amounts m
unfolding erase find
sum-erase u [] o = omega arith
sum-erase u ((i, w) ∷ m) (a, o) = elim (Bool-cases (i == u)) [
  | inl e ↦
      let i_is : i ≡ u = ground arith in
      let same = erase-Above_same u m (subst (λ x. Above x m) i_is a) in rw e (omega (arith, same))
  | inr e ↦ let ih = sum-erase u m o in rw e (omega (arith, ih))
]

-- The total is the users' sum.
pub record Balanced (q : Quota) : Type 0 where
  pub ordered : Ordered q.users
  pub balance : q.total ≡ sum_amounts q.users

-- The callbacks call the manager only in ways that keep this.
abbrev pub Keeps : Callback → Type 0
Keeps call = (u : ℕ) (q : Quota) → Balanced q → Balanced (call u q)

asked-Balanced : (q : Quota) (us : List ℕ) → Balanced q → Balanced (record q { asked = us })
asked-Balanced q us b = record { ordered = b.ordered; balance = b.balance }

pub check_ages-Balanced :
    (call : Callback) (ages : List (ℕ × List ℕ)) (q : Quota)
    → Keeps call
    → Balanced q
    → Balanced (check_ages call ages q)
unfolding check_ages
check_ages-Balanced call [] q keeps b = b
check_ages-Balanced call ((when, []) ∷ rest) q keeps b = elim (Bool-cases (ltb q.max q.total)) [
  | inl e ↦ rw e (check_ages-Balanced call rest q keeps b)
  | inr e ↦ rw e b
]
check_ages-Balanced call ((when, u ∷ us) ∷ rest) q keeps b = elim (Bool-cases (ltb q.max q.total)) [
  | inl e ↦ rw e (
      check_ages-Balanced call rest (call u (record q { asked = u ∷ q.asked })) keeps
        (keeps u _ (asked-Balanced q (u ∷ q.asked) b)))
  | inr e ↦ rw e b
]

amount-le-sum :
    (u : ℕ) (m : List (ℕ × Data)) → Ordered m → (user_data (find u m)).amount ≤ sum_amounts m
amount-le-sum u m o = omega (arith, sum-erase u m o)

-- An increase that the total has room for keeps the total the sum of the users' amounts, through
-- all the evictions that it leads to, as long as the users' callbacks do.
pub increase-Balanced :
    (call : Callback) (user sz : ℕ) (q : Quota)
    → Keeps call
    → Balanced q
    → q.total + sz < 2 ^ 64
    → Balanced (increase call user sz q)
unfolding increase check
increase-Balanced call user sz q keeps b room =
    let d = user_data (find user q.users) in
    let bal : q.total ≡ sum_amounts q.users = b.balance in
    let small : d.amount ≤ sum_amounts q.users = amount-le-sum user q.users b.ordered in
    let e1 : (d.amount + sz) % 2 ^ 64 ≡ d.amount + sz = omega arith in
    let e2 : (q.total + sz) % 2 ^ 64 ≡ q.total + sz = omega arith in
    let s = sum-put user (record d { amount = d.amount + sz }) q.users b.ordered in
    check_ages-Balanced call q.ages _ keeps (record {
      ordered = put-Ordered user _ q.users b.ordered;
      balance = rw (e1, e2) (omega (arith, s, bal));
    })

-- A decrease, which stops at the user's amount, keeps the total the sum of the users' amounts.
pub decrease-Balanced : (user sz : ℕ) (q : Quota) → Balanced q → Balanced (decrease user sz q)
unfolding decrease
decrease-Balanced user sz q b =
    let d = user_data (find user q.users) in
    let bal : q.total ≡ sum_amounts q.users = b.balance in
    let small : d.amount ≤ sum_amounts q.users = amount-le-sum user q.users b.ordered in
    let left : ℕ = if ltb d.amount sz then 0 else d.amount - sz in
    let s = sum-put user (record d { amount = left }) q.users b.ordered in
    record {
      ordered = put-Ordered user _ q.users b.ordered;
      balance = ground (arith, s, bal, small);
    }

-- When a user leaves, with its amount, the total is still the sum of the users' amounts.
pub forget-Balanced : (user : ℕ) (q : Quota) → Balanced q → Balanced (forget user q)
unfolding forget
forget-Balanced user q b =
    let bal : q.total ≡ sum_amounts q.users = b.balance in
    elim (Option-cases (find user q.users)) [
      | inl e ↦ rw (e, forget) b
      | inr (d, e) ↦
          let s : sum_amounts (erase user q.users) + d.amount ≡ sum_amounts q.users =
            rw e at (sum-erase user q.users b.ordered) in
          let t : (if ltb q.total d.amount then 0 else q.total - d.amount)
              ≡ sum_amounts (erase user q.users) =
            ground (arith, s, bal) in
          rw (e, forget) (record { ordered = erase-Ordered user q.users b.ordered; balance = t })
    ]

-- ===== src/Quota/Run.antt =====
-- What any sequence of calls of the quota manager's operations leaves.
use udptun.Prelude.{ℕ, ◌+◌, ◌^◌, ◌<◌, ◌≡◌, List, [], ◌∷◌, arith, ◌==◌, find, Bool-cases, inl, inr}
use udptun.Prelude.Sorted.{put-Ordered}
use udptun.Quota.{Quota, Callback, user_data, check, set, increase, decrease, forget, oldest}
use udptun.Quota.Amounts.{
  Balanced, Keeps, sum_amounts, sum-put, check_ages-Balanced, increase-Balanced, decrease-Balanced,
  forget-Balanced,
}

-- A call of an operation.
pub data Op : Type 0 where
  cap : ℕ → Op
  grow lower : ℕ → ℕ → Op
  leave : ℕ → Op
  age : ℕ → ℕ → Op

unfoldable pub apply : Callback → Op → Quota → Quota
apply call (cap sz) q = set call sz q
apply call (grow user sz) q = increase call user sz q
apply call (lower user sz) q = decrease user sz q
apply call (leave user) q = forget user q
apply call (age user when) q = oldest user when q

unfoldable pub run : Callback → List Op → Quota → Quota
run call [] q = q
run call (op ∷ ops) q = run call ops (apply call op q)

-- An increase finds room in the 64 bits of the total.
abbrev pub Fits : Op → Quota → Type 0
Fits (cap sz) q = Unit {0}
Fits (grow user sz) q = q.total + sz < 2 ^ 64
Fits (lower user sz) q = Unit {0}
Fits (leave user) q = Unit {0}
Fits (age user when) q = Unit {0}

abbrev pub AllFit : Callback → List Op → Quota → Type 0
AllFit call [] q = Unit {0}
AllFit call (op ∷ ops) q = Fits op q × AllFit call ops (apply call op q)

set-Balanced :
    (call : Callback) (sz : ℕ) (q : Quota) → Keeps call → Balanced q → Balanced (set call sz q)
unfolding set check
set-Balanced call sz q keeps b =
    check_ages-Balanced call q.ages (record q { max = sz }) keeps
      (record { ordered = b.ordered; balance = b.balance })

oldest-Balanced : (user when : ℕ) (q : Quota) → Balanced q → Balanced (oldest user when q)
unfolding oldest
oldest-Balanced user when q b =
    let d = user_data (find user q.users) in
    let bal : q.total ≡ sum_amounts q.users = b.balance in
    let same = sum-put user d q.users b.ordered in
    let aged = sum-put user (record d { age = when }) q.users b.ordered in
    elim (Bool-cases (d.age == when)) [
      | inl e ↦ rw e (record {
        ordered = put-Ordered user d q.users b.ordered;
        balance = omega (arith, same, bal);
      })
      | inr e ↦ rw e (record {
        ordered = put-Ordered user (record d { age = when }) q.users b.ordered;
        balance = omega (arith, aged, bal);
      })
    ]

apply-Balanced :
    (call : Callback) (op : Op) (q : Quota)
    → Keeps call
    → Balanced q
    → Fits op q
    → Balanced (apply call op q)
unfolding apply
apply-Balanced call (cap sz) q keeps b f = set-Balanced call sz q keeps b
apply-Balanced call (grow user sz) q keeps b f = increase-Balanced call user sz q keeps b f
apply-Balanced call (lower user sz) q keeps b f = decrease-Balanced user sz q b
apply-Balanced call (leave user) q keeps b f = forget-Balanced user q b
apply-Balanced call (age user when) q keeps b f = oldest-Balanced user when q b

-- From a manager whose total is the sum of its users' amounts, as a new one's is, every sequence
-- of its operations, of which each increase has room in 64 bits, keeps this, through all the
-- evictions that they lead to, as long as the users' callbacks do.
pub run-Balanced :
    (call : Callback) (ops : List Op) (q : Quota)
    → Keeps call
    → Balanced q
    → AllFit call ops q
    → Balanced (run call ops q)
unfolding run
run-Balanced call [] q keeps b f = b
run-Balanced call (op ∷ ops) q keeps b f =
    run-Balanced call ops (apply call op q) keeps (apply-Balanced call op q keeps b f.0) f.1

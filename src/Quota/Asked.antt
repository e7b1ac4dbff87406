-- ===== src/Quota/Asked.antt =====
-- What a `PayloadQueue` makes of its quota manager: the time it reports is always zero.
use udptun.Prelude.{
  ℕ, ◌≡◌, refl, ◌∙◌, List, [], ◌∷◌, none, some, arith, ◌==◌, find, Bool-cases, Option-cases, inl,
  inr,
}
use udptun.Queue.{
  Effect, increased, decreased, oldest, forgotten, told_user, Entries, Scan, scan, make,
}
use udptun.Quota.{Quota, Callback, check, check_ages, erase_from_sequence}
use udptun.Quota

-- A call that the queue makes of the manager, as its user.
abbrev pub call_of : Callback → ℕ → Effect → Quota → Quota
call_of call user (increased sz) q = Quota.increase call user sz q
call_of call user (decreased sz) q = Quota.decrease user sz q
call_of call user (oldest when) q = Quota.oldest user when q
call_of call user forgotten q = Quota.forget user q
call_of call user told_user q = q

-- The calls so far, the latest first.
abbrev pub calls_of : Callback → ℕ → List Effect → Quota → Quota
calls_of call user [] q = q
calls_of call user (e ∷ es) q = calls_of call user es (call_of call user e q)

scan-oldest_key : (dir : Entries) (s : Scan) → s.oldest_key ≡ 0 → (scan dir s).oldest_key ≡ 0
unfolding scan
scan-oldest_key [] s z = z
scan-oldest_key ((none, bs) ∷ es) s z = scan-oldest_key es s z
scan-oldest_key ((some key, bs) ∷ es) s z = scan-oldest_key es _ (ground arith)

-- The calls report no time but zero.
abbrev pub Timeless : List Effect → Type 0
Timeless [] = Unit {0}
Timeless (oldest when ∷ es) = (when ≡ 0) × Timeless es
Timeless (increased sz ∷ es) = Timeless es
Timeless (decreased sz ∷ es) = Timeless es
Timeless (forgotten ∷ es) = Timeless es
Timeless (told_user ∷ es) = Timeless es

abbrev pub Unasked : Quota → Quota → Type 0
Unasked q q' = (q'.ages ≡ []) × (q'.asked ≡ q.asked)

erase-nil : (user when : ℕ) → erase_from_sequence user when [] ≡ []
unfolding erase_from_sequence find
erase-nil user when = ground arith

increase-Unasked :
    (call : Callback) (user sz : ℕ) (q : Quota)
    → q.ages ≡ []
    → Unasked q (Quota.increase call user sz q)
unfolding Quota.increase check check_ages
increase-Unasked call user sz q e = rw e (refl, refl)

decrease-Unasked : (user sz : ℕ) (q : Quota) → q.ages ≡ [] → Unasked q (Quota.decrease user sz q)
unfolding Quota.decrease
decrease-Unasked user sz q e = (e, refl)

forget-Unasked : (user : ℕ) (q : Quota) → q.ages ≡ [] → Unasked q (Quota.forget user q)
unfolding Quota.forget
forget-Unasked user q e = elim (Option-cases (find user q.users)) [
  | inl f ↦ rw (f, Quota.forget) (e, refl)
  | inr (d, f) ↦ rw (f, Quota.forget) (rw e (erase-nil user d.age), refl)
]

oldest-Unasked : (user : ℕ) (q : Quota) → q.ages ≡ [] → Unasked q (Quota.oldest user 0 q)
unfolding Quota.oldest
oldest-Unasked user q e =
    let d = Quota.user_data (find user q.users) in
    elim (Bool-cases (d.age == 0)) [
      | inl f ↦ rw (f, Quota.oldest) (e, refl)
      | inr f ↦ rw (f, Quota.oldest) (rw e (erase-nil user d.age), refl)
    ]

calls_of-Unasked :
    (call : Callback) (user : ℕ) (es : List Effect) (q : Quota)
    → Timeless es
    → q.ages ≡ []
    → Unasked q (calls_of call user es q)
calls_of-Unasked call user [] q t e = (e, refl)
calls_of-Unasked call user (increased sz ∷ es) q t e =
    let (a, b) = increase-Unasked call user sz q e in
    let (c, d) = calls_of-Unasked call user es _ t a in (c, d ∙ b)
calls_of-Unasked call user (decreased sz ∷ es) q t e =
    let (a, b) = decrease-Unasked user sz q e in
    let (c, d) = calls_of-Unasked call user es _ t a in (c, d ∙ b)
calls_of-Unasked call user (oldest when ∷ es) q (z, t) e =
    let (a, b) : Unasked q (Quota.oldest user when q) = rw z (oldest-Unasked user q e) in
    let (c, d) = calls_of-Unasked call user es _ t a in (c, d ∙ b)
calls_of-Unasked call user (forgotten ∷ es) q t e =
    let (a, b) = forget-Unasked user q e in
    let (c, d) = calls_of-Unasked call user es _ t a in (c, d ∙ b)
calls_of-Unasked call user (told_user ∷ es) q t e = calls_of-Unasked call user es q t e

-- Whatever files a queue finds when it is made: with a manager that has no age, there is still no
-- age after the calls that the queue then makes of it, and no user is asked to free its files, by
-- how much the total may exceed the bound.
pub make-Unasked :
    (call : Callback) (user max_mem : ℕ) (dir : Entries) (q : Quota)
    → q.ages ≡ []
    → Unasked q (calls_of call user (make max_mem dir).effects q)
unfolding make
make-Unasked call user max_mem dir q e =
    let z : (scan dir (record { files = []; total = 0; oldest_key = 0 })).oldest_key ≡ 0 =
      scan-oldest_key dir _ refl in
    calls_of-Unasked call user ((make max_mem dir).effects) q (z, tt) e

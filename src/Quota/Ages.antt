-- ===== src/Quota/Ages.antt =====
-- The age sequence of a quota holds each user at its age, and nowhere else.
use udptun.Prelude.{
  ℕ, ◌≡◌, refl, subst, ◌∙◌, Bool, true, false, not, ◌&&◌, List, arith, ◌==◌, if◌then◌else◌, find,
  put, find-put, Bool-cases, inl, inr,
}
use udptun.Quota.{Data, Quota, user_data, erase_from_sequence, insert_into_sequence, oldest}
use udptun.Quota.Placed.{has, Placed, has-erase, has-insert}

-- The age that a user is placed at.
abbrev age_of : ℕ → Quota → ℕ
age_of u q = (user_data (find u q.users)).age

oldest_same :
    (user when : ℕ) (q : Quota)
    → (age_of user q == when) ≡ true
    → oldest user when q ≡ record q { users = put user (user_data (find user q.users)) q.users }
unfolding oldest
oldest_same user when q e = rw e refl

oldest_none :
    (user : ℕ) (q : Quota)
    → (age_of user q == 0) ≡ false
    → oldest user 0 q ≡ record q {
      users = put user (record (user_data (find user q.users)) { age = 0 }) q.users;
      ages = erase_from_sequence user (age_of user q) q.ages;
    }
unfolding oldest
oldest_none user q e = rw e refl

oldest_other :
    (user when : ℕ) (q : Quota)
    → (age_of user q == when) ≡ false
    → (when == 0) ≡ false
    → oldest user when q ≡ record q {
      users = put user (record (user_data (find user q.users)) { age = when }) q.users;
      ages = insert_into_sequence user when (erase_from_sequence user (age_of user q) q.ages);
    }
unfolding oldest
oldest_other user when q e z = rw (e, z) refl

placed_put :
    (u user : ℕ) (d : Data) (m : List (ℕ × Data))
    → (user_data (find u (put user d m))).age
      ≡ (if user == u then d.age else (user_data (find u m)).age)
placed_put u user d m = ground (arith, find-put u user d m)

-- Where the user itself and any other are, after the user's report.
self_none :
    (a w : ℕ)
    → (if not (a == 0) && (true && (a == w)) then false else (not (w == 0) && (a == w)))
      ≡ (not (w == 0) && (0 == w))
self_none a w = ground arith

self_other :
    (a when w : ℕ)
    → (when == 0) ≡ false
    → (if true && (when == w)
        then true
        else if not (a == 0) && (true && (a == w))
        then false
        else (not (w == 0) && (a == w)))
      ≡ (not (w == 0) && (when == w))
self_other a when w z = ground arith

other_none : (a w : ℕ) (x : Bool) → (if not (a == 0) && (false && (a == w)) then false else x) ≡ x
other_none a w x = ground arith

-- If each user is in the age sequence at its age and nowhere else, this is so after any user has
-- reported any time, zero included.
pub oldest-Placed : (user when : ℕ) (q : Quota) → Placed q → Placed (oldest user when q)
oldest-Placed user when q p u w = elim (Bool-cases (user == u)) [
  | inl b ↦
      let same : user ≡ u = ground arith in
      subst
        (λ x.
          has x w (oldest user when q).ages
          ≡ (not (w == 0) && (age_of x (oldest user when q) == w)))
        same self
  | inr b ↦ others b
]
  where
    here : (user == user) ≡ true
    here = ground arith

    self :
        has user w (oldest user when q).ages
        ≡ (not (w == 0) && (age_of user (oldest user when q) == w))
    self = elim (Bool-cases (age_of user q == when)) [
      | inl e ↦ rw (oldest_same user when q e, placed_put, here) (p user w)
      | inr e ↦ elim (Bool-cases (when == 0)) [
        | inl z ↦
            let zero : when ≡ 0 = ground arith in
            let e' : (age_of user q == 0) ≡ false = ground arith in
            rw (zero, oldest_none user q e', placed_put, has-erase, here, p user w)
              (self_none (age_of user q) w)
        | inr z ↦
            rw (oldest_other user when q e z, placed_put, has-insert, has-erase, here, p user w)
              (self_other (age_of user q) when w z)
      ]
    ]

    others :
        (user == u) ≡ false
        → has u w (oldest user when q).ages ≡ (not (w == 0) && (age_of u (oldest user when q) == w))
    others b = elim (Bool-cases (age_of user q == when)) [
      | inl e ↦ rw (oldest_same user when q e, placed_put, b) (p u w)
      | inr e ↦ elim (Bool-cases (when == 0)) [
        | inl z ↦
            let zero : when ≡ 0 = ground arith in
            let e' : (age_of user q == 0) ≡ false = ground arith in
            rw (zero, oldest_none user q e', placed_put, has-erase, b)
              (other_none (age_of user q) w (has u w q.ages) ∙ p u w)
        | inr z ↦
            rw (oldest_other user when q e z, placed_put, has-insert, has-erase, b)
              (other_none (age_of user q) w (has u w q.ages) ∙ p u w)
      ]
    ]

-- ===== src/Addressing/Checks.antt =====
-- What the user of an `AddressEvent` is called with by any number of checks.
use udptun.Prelude.{
  ℕ, ◌≡◌, refl, sym, ap, ◌∙◌, Bool, true, false, List, [], ◌∷◌, Option, arith, ◌==◌, ◌++◌,
  if◌then◌else◌, member, Bool-cases, subst, inl, inr,
}
use udptun.Addressing.{
  AddressEvent, AddressManager, Looked, done, in_progress, failed, with_event, check_event, named,
  check_users, check,
}

-- The calls of one user.
unfoldable pub calls_of : ℕ → List (ℕ × Option ℕ) → List (Option ℕ)
calls_of q [] = []
calls_of q ((p, r) ∷ cs) = let rest = calls_of q cs in if p == q then r ∷ rest else rest

-- Several calls of `check`, each with what the system answers.
unfoldable pub checks : List (ℕ → Looked) → AddressManager → List (ℕ × Option ℕ)
checks [] m = []
checks (l ∷ ls) m = let r = check l m in r.1 ++ checks ls r.0

abbrev or_else : Looked → List (Option ℕ) → List (Option ℕ)
or_else (done r) rest = r ∷ []
or_else in_progress rest = rest
or_else failed rest = rest

-- The first result among the answers for an event.
unfoldable pub first_done : ℕ → List (ℕ → Looked) → List (Option ℕ)
first_done q [] = []
first_done q (l ∷ ls) = or_else (l q) (first_done q ls)

calls_of-append :
    (q : ℕ) (cs ds : List (ℕ × Option ℕ)) → calls_of q (cs ++ ds) ≡ calls_of q cs ++ calls_of q ds
unfolding calls_of
calls_of-append q [] ds = refl
calls_of-append q ((p, r) ∷ cs) ds = elim (Bool-cases (p == q)) [
  | inl b ↦ rw b (ap (λ x. r ∷ x) (calls_of-append q cs ds))
  | inr b ↦ rw b (calls_of-append q cs ds)
]

calls_of-named :
    (q p : ℕ) (rs : List (Option ℕ)) → calls_of q (named p rs) ≡ (if p == q then rs else [])
unfolding calls_of
calls_of-named q p [] = ground arith
calls_of-named q p (r ∷ rs) = elim (Bool-cases (p == q)) [
  | inl b ↦ rw b (ap (λ x. r ∷ x) (calls_of-named q p rs ∙ rw b refl))
  | inr b ↦ rw b (calls_of-named q p rs ∙ rw b refl)
]

check_event_again :
    (l : Looked) (ev : AddressEvent)
    → check_event l (check_event l ev).0 ≡ ((check_event l ev).0, [])
unfolding check_event
check_event_again (done r) ev = ground arith
check_event_again in_progress ev = refl
check_event_again failed ev = refl

append-nil : (rs : List (Option ℕ)) → rs ++ [] ≡ rs
append-nil [] = refl
append-nil (r ∷ rs) = ap (λ x. r ∷ x) (append-nil rs)

calls_of-told :
    (q p : ℕ) (rs : List (Option ℕ)) (cs : List (ℕ × Option ℕ))
    → calls_of q (named p rs ++ cs) ≡ (if p == q then rs else []) ++ calls_of q cs
calls_of-told q p rs cs =
    calls_of-append q (named p rs) cs ∙ ap (λ x. x ++ calls_of q cs) (calls_of-named q p rs)

pub same_key : (p : ℕ) → (p == p) ≡ true
same_key p = ground arith

pub with_event_same :
    (p : ℕ) (ev : AddressEvent) (events : ℕ → AddressEvent) → with_event p ev events p ≡ ev
unfolding with_event
with_event_same p ev events = rw (same_key p) refl

with_event_other :
    (p q : ℕ) (ev : AddressEvent) (events : ℕ → AddressEvent)
    → (p == q) ≡ false
    → with_event p ev events q ≡ events q
unfolding with_event
with_event_other p q ev events b = rw b refl

if_same : {A : Type 0} (b : Bool) (x : A) → (if b then x else x) ≡ x
if_same true x = refl
if_same false x = refl

abbrev Checked : ℕ → (ℕ → Looked) → List ℕ → (ℕ → AddressEvent) → Type 0
Checked q l ps events =
    (calls_of q (check_users l ps events).1
      ≡ (if member q ps then (check_event (l q) (events q)).1 else []))
    × ((check_users l ps events).0 q
        ≡ (if member q ps then (check_event (l q) (events q)).0 else events q))

Checked-head :
    (l : ℕ → Looked) (p : ℕ) (ps : List ℕ) (events : ℕ → AddressEvent)
    → Checked p l ps (with_event p (check_event (l p) (events p)).0 events)
    → Checked p l (p ∷ ps) events
unfolding check_users member
Checked-head l p ps events ih =
    let r = check_event (l p) (events p) in
    let again = check_event_again (l p) (events p) in
    let same = ap (λ ev. check_event (l p) ev) (with_event_same p r.0 events) ∙ again in
    (
      calls_of-told p p r.1 (check_users l ps (with_event p r.0 events)).1
          ∙ rw (same_key p) (
              ap (λ x. r.1 ++ x)
                (ih.0 ∙ ap (λ x. if member p ps then x.1 else []) same ∙ if_same (member p ps) [])
              ∙ append-nil r.1),
      ih.1
          ∙ ap (λ x. if member p ps then x.0 else with_event p r.0 events p) same
          ∙ ap (λ x. if member p ps then r.0 else x) (with_event_same p r.0 events)
          ∙ if_same (member p ps) r.0
          ∙ rw (same_key p) refl,
    )

Checked-tail :
    (q : ℕ) (l : ℕ → Looked) (p : ℕ) (ps : List ℕ) (events : ℕ → AddressEvent)
    → (p == q) ≡ false
    → Checked q l ps (with_event p (check_event (l p) (events p)).0 events)
    → Checked q l (p ∷ ps) events
unfolding check_users member
Checked-tail q l p ps events b ih =
    let r = check_event (l p) (events p) in
    let kept = with_event_other p q r.0 events b in
    (
      calls_of-told q p r.1 (check_users l ps (with_event p r.0 events)).1
          ∙ rw b (ih.0 ∙ ap (λ ev. if member q ps then (check_event (l q) ev).1 else []) kept),
      ih.1 ∙ ap (λ ev. if member q ps then (check_event (l q) ev).0 else ev) kept ∙ rw b refl,
    )

check_users-Checked :
    (q : ℕ) (l : ℕ → Looked) (ps : List ℕ) (events : ℕ → AddressEvent) → Checked q l ps events
unfolding check_users member
check_users-Checked q l [] events = unfold calls_of in (refl, refl)
check_users-Checked q l (p ∷ ps) events =
    let ih = check_users-Checked q l ps (with_event p (check_event (l p) (events p)).0 events) in
    elim (Bool-cases (p == q)) [
      | inl b ↦
          let e : p ≡ q = ground arith in
          subst (λ x. Checked x l (p ∷ ps) events) e
            (Checked-head l p ps events (
              subst (λ x. Checked x l ps (with_event p (check_event (l p) (events p)).0 events))
                (sym e) ih))
      | inr b ↦ Checked-tail q l p ps events b ih
    ]

check_event_off : (l : Looked) (ev : AddressEvent) → ev.on ≡ false → check_event l ev ≡ (ev, [])
unfolding check_event
check_event_off (done r) ev off = rw off refl
check_event_off in_progress ev off = refl
check_event_off failed ev off = refl

checks-cons :
    (q : ℕ) (l : ℕ → Looked) (ls : List (ℕ → Looked)) (m : AddressManager)
    → calls_of q (checks (l ∷ ls) m)
      ≡ (if member q m.users then (check_event (l q) (m.events q)).1 else [])
        ++ calls_of q (checks ls (check l m).0)
unfolding checks check
checks-cons q l ls m =
    calls_of-append q (check_users l m.users m.events).1 (checks ls (check l m).0)
    ∙ ap (λ x. x ++ calls_of q (checks ls (check l m).0))
        (check_users-Checked q l m.users m.events).0

events-check :
    (q : ℕ) (l : ℕ → Looked) (m : AddressManager)
    → (check l m).0.events q
      ≡ (if member q m.users then (check_event (l q) (m.events q)).0 else m.events q)
unfolding check
events-check q l m = (check_users-Checked q l m.users m.events).1

checks_off :
    (q : ℕ) (ls : List (ℕ → Looked)) (m : AddressManager)
    → (m.events q).on ≡ false
    → calls_of q (checks ls m) ≡ []
checks_off q [] m off = unfold checks calls_of in refl
checks_off q (l ∷ ls) m off =
    let still = check_event_off (l q) (m.events q) off in
    let kept =
      events-check q l m
      ∙ ap (λ x. if member q m.users then x.0 else m.events q) still
      ∙ if_same (member q m.users) (m.events q) in
    checks-cons q l ls m
    ∙ ap (λ x. (if member q m.users then x.1 else []) ++ calls_of q (checks ls (check l m).0)) still
    ∙ ap (λ x. x ++ calls_of q (checks ls (check l m).0)) (if_same (member q m.users) [])
    ∙ checks_off q ls (check l m).0 (ap (λ ev. ev.on) kept ∙ off)

-- An event that is on, and among the users.
abbrev pub Awaits : ℕ → AddressManager → Type 0
Awaits q m = ((m.events q).on ≡ true) × (member q m.users ≡ true)

-- What one check finds for an event that awaits.
checks_next :
    (q : ℕ) (l : ℕ → Looked) (ls : List (ℕ → Looked)) (m : AddressManager) (a : Looked)
    → l q ≡ a
    → Awaits q m
    → (((check l m).0.events q ≡ (check_event a (m.events q)).0)
        × (calls_of q (checks (l ∷ ls) m)
            ≡ (check_event a (m.events q)).1 ++ calls_of q (checks ls (check l m).0)))
checks_next q l ls m a e w =
    (events-check q l m ∙ rw (w.1, e) refl, checks-cons q l ls m ∙ rw (w.1, e) refl)

check-or_else :
    (q : ℕ) (l : ℕ → Looked) (ls : List (ℕ → Looked)) (m : AddressManager) (a : Looked)
    → l q ≡ a
    → Awaits q m
    → (Awaits q (check l m).0 → calls_of q (checks ls (check l m).0) ≡ first_done q ls)
    → calls_of q (checks (l ∷ ls) m) ≡ or_else a (first_done q ls)
unfolding check_event
check-or_else q l ls m (done r) e w later =
    let next = checks_next q l ls m (done r) e w in
    let off : ((check l m).0.events q).on ≡ false = ap (λ ev. ev.on) next.0 ∙ rw w.0 refl in
    next.1 ∙ rw w.0 (ap (λ x. r ∷ x) (checks_off q ls (check l m).0 off))
check-or_else q l ls m in_progress e w later =
    let next = checks_next q l ls m in_progress e w in
    next.1 ∙ later (ap (λ ev. ev.on) next.0 ∙ w.0, unfold check in w.1)
check-or_else q l ls m failed e w later =
    let next = checks_next q l ls m failed e w in
    next.1 ∙ later (ap (λ ev. ev.on) next.0 ∙ w.0, unfold check in w.1)

pub checks-first_done :
    (q : ℕ) (ls : List (ℕ → Looked)) (m : AddressManager)
    → Awaits q m
    → calls_of q (checks ls m) ≡ first_done q ls
unfolding first_done
checks-first_done q [] m w = unfold checks calls_of in refl
checks-first_done q (l ∷ ls) m w =
    check-or_else q l ls m (l q) refl w (checks-first_done q ls (check l m).0)

-- ===== src/Scheduler/Notified.antt =====
-- Which events a call of `poll` notifies.
use udptun.Prelude.{
  ℕ, zero, suc, ◌≡◌, refl, sym, ap, ◌∙◌, true, false, List, [], ◌∷◌, ◌++◌, Option, none, some,
  arith, ◌==◌, find, remove, member, append-nil, append_assoc, member-remove, Option-cases,
  Bool-cases, inl, inr, ==_refl, subst,
}
use udptun.Scheduler.{Scheduler}
use udptun.Scheduler.Calls.{Calls-AtMost}
use udptun.Scheduler.Drained.{
  Acts, drain_empty, drain_next, first_of-none, first_of-member, dispatch-none, dispatch-some,
}
use udptun.Scheduler.Poll.{Action, queue_at, first_of, first_prio, unqueue, drain, dispatch}
use udptun.Scheduler.Queued.{Queued, AtMost, is_at, set_or-put, unqueue-AtMost}
use udptun.Scheduler.Unnotified.{Calls-Same}

-- No action of another event takes the event out of the queue of the priority.
abbrev pub Stays : Action → ℕ → ℕ → Type 0
Stays act p x =
    (ev : ℕ) (s : Scheduler)
    → (ev == x) ≡ false
    → member x (queue_at p s) ≡ true
    → member x (queue_at p (act ev s)) ≡ true

-- The events that are notified, after those that were, and the queues of the other priorities.
pub record Notifies (act : Action) (p : ℕ) (s s' : Scheduler) : Type 0 where
  pub new : List ℕ
  pub appended : s'.notified ≡ s.notified ++ new
  pub all_new : (x : ℕ) → Stays act p x → member x (queue_at p s) ≡ true → member x new ≡ true
  pub others :
      (q x : ℕ)
      → (p == q) ≡ false
      → Stays act q x
      → member x (queue_at q s) ≡ true
      → member x (queue_at q s') ≡ true

unqueue-member :
    (p ev x : ℕ) (s : Scheduler)
    → (ev == x) ≡ false
    → member x (queue_at p s) ≡ true
    → member x (queue_at p (unqueue p ev s)) ≡ true
unqueue-member p ev x s n h = ground (
  arith,
  set_or-put p p (remove ev (queue_at p s)) s.queues,
  ==_refl p,
  member-remove x ev (queue_at p s),
)

unqueue-member_other :
    (p q ev x : ℕ) (s : Scheduler)
    → (p == q) ≡ false
    → member x (queue_at q s) ≡ true
    → member x (queue_at q (unqueue p ev s)) ≡ true
unqueue-member_other p q ev x s n h =
    ground (arith, set_or-put q p (remove ev (queue_at p s)) s.queues)

-- An event that is in the queue of another priority is not the next one.
next_other :
    (p q ev x : ℕ) (s : Scheduler)
    → Queued s
    → first_of (queue_at p s) ≡ some ev
    → (p == q) ≡ false
    → member x (queue_at q s) ≡ true
    → (ev == x) ≡ false
next_other p q ev x s k f n m = elim (Bool-cases (ev == x)) [
  | inr b ↦ b
  | inl b ↦
      let same : ev ≡ x = ground arith in
      let here : is_at p (find x s.applied) ≡ true =
        ap (λ y. is_at p (find y s.applied)) (sym same)
        ∙ sym (k.placed ev p)
        ∙ first_of-member ev (queue_at p s) f in
      let there : is_at q (find x s.applied) ≡ true = sym (k.placed x q) ∙ m in
      absurd (apart (find x s.applied) here there)
]
  where
    apart : (o : Option ℕ) → is_at p o ≡ true → is_at q o ≡ true → ⊥
    apart none h j = cc
    apart (some r) h j =
        let e1 : r ≡ p = ground arith in let e2 : r ≡ q = ground arith in ground arith

module _ (act : Action) (p : ℕ) (acts : Acts act) where
  nothing_left : (s : Scheduler) → first_of (queue_at p s) ≡ none → Notifies act p s s
  nothing_left s e = record {
    new = [];
    appended = sym (append-nil s.notified);
    all_new =
        λ x k m. absurd (no_member x (sym m ∙ ap (member x) (first_of-none (queue_at p s) e)));
    others = λ q x n k m. m;
  }
    where
      no_member : (x : ℕ) → true ≡ member x [] → ⊥
      no_member x h = unfold member in cc

  one_more :
      (ev : ℕ) (s s' : Scheduler)
      → Queued s
      → first_of (queue_at p s) ≡ some ev
      → Notifies act p (act ev (unqueue p ev s)) s'
      → Notifies act p s s'
  one_more ev s s' u f h =
      let same = Calls-Same (acts ev (unqueue p ev s)) in
      record {
        new = ev ∷ h.new;
        appended = h.appended ∙ ap (λ l. l ++ h.new) same ∙ append_assoc s.notified (ev ∷ []) h.new;
        all_new = λ x k m.
            unfold member in
            elim (Bool-cases (ev == x)) [
              | inl b ↦ rw b refl
              | inr b ↦ rw b (h.all_new x k (k ev (unqueue p ev s) b (unqueue-member p ev x s b m)))
            ];
        others = λ q x n k m. h.others q x n k (
            k ev (unqueue p ev s) (next_other p q ev x s u f n m)
              (unqueue-member_other p q ev x s n m));
      }

  drain_none :
      (s s' : Scheduler) (fuel : ℕ)
      → first_of (queue_at p s) ≡ none
      → drain fuel act p s ≡ some s'
      → Notifies act p s s'
  drain_none s s' fuel f e =
      let done : some s ≡ some s' = sym (drain_empty fuel act p s f) ∙ e in
      let same : s ≡ s' = cc in subst (Notifies act p s) same (nothing_left s f)

  pub drain-Notifies :
      (fuel : ℕ) (s s' : Scheduler)
      → AtMost fuel s
      → drain fuel act p s ≡ some s'
      → Notifies act p s s'
  drain-Notifies zero s s' m e = elim (Option-cases (first_of (queue_at p s))) [
    | inl f ↦ drain_none s s' zero f e
    | inr (ev, f) ↦ absurd (out_of_fuel (sym (stuck ev f) ∙ e))
  ]
    where
      stuck : (ev : ℕ) → first_of (queue_at p s) ≡ some ev → drain zero act p s ≡ none
      stuck ev f = unfold drain in rw (f, drain) refl

      out_of_fuel : ◌≡◌ {A = Option Scheduler} none (some s') → ⊥
      out_of_fuel h = cc
  drain-Notifies (suc fuel) s s' m e = elim (Option-cases (first_of (queue_at p s))) [
    | inl f ↦ drain_none s s' (suc fuel) f e
    | inr (ev, f) ↦
        let left : AtMost fuel (unqueue p ev s) =
          unqueue-AtMost fuel p ev s (first_of-member ev (queue_at p s) f) m in
        one_more ev s s' m.queued f (
          drain-Notifies fuel (act ev (unqueue p ev s)) s'
            (Calls-AtMost fuel (acts ev (unqueue p ev s)) left)
            (sym (drain_next fuel act p ev s f) ∙ e))
  ]

-- What `poll` notifies of the first priority that has an event.
abbrev pub NotifiesFirst : Action → Option ℕ → Scheduler → Scheduler → Type 0
NotifiesFirst act none s s' = s'.notified ≡ s.notified
NotifiesFirst act (some p) s s' = Notifies act p s s'

pub dispatch-NotifiesFirst :
    (fuel : ℕ) (act : Action) (s s' : Scheduler)
    → Acts act
    → AtMost fuel s
    → dispatch fuel act s ≡ some s'
    → NotifiesFirst act (first_prio s.queues) s s'
dispatch-NotifiesFirst fuel act s s' acts m e = elim (Option-cases (first_prio s.queues)) [
  | inl f ↦
      let done : some s ≡ some s' = sym (dispatch-none fuel act s f) ∙ e in
      let same : s ≡ s' = cc in
      subst (λ o. NotifiesFirst act o s s') (sym f) (ap (λ t. t.notified) (sym same))
  | inr (p, f) ↦
      subst (λ o. NotifiesFirst act o s s') (sym f)
        (drain-Notifies act p acts fuel s s' m (sym (dispatch-some fuel act p s f) ∙ e))
]

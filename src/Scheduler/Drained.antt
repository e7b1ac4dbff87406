-- ===== src/Scheduler/Drained.antt =====
-- The loop that notifies the events of one priority.
use udptun.Prelude.{
  ℕ, zero, suc, ◌≤◌, ◌≡◌, refl, sym, ap, ◌∙◌, true, List, [], ◌∷◌, Option, none, some, arith, find,
  member, length, Option-cases, subst, inl, inr, ==_refl,
}
use udptun.Scheduler.{Scheduler}
use udptun.Scheduler.Calls.{Calls, Calls-AtMost}
use udptun.Scheduler.Poll.{Action, queue_at, first_of, unqueue, drain, dispatch, first_prio}
use udptun.Scheduler.Queued.{Queued, AtMost, is_at, unqueue-AtMost}

-- An action makes any calls on events, cancellations and changes of priority included.
abbrev pub Acts : Action → Type 0
Acts act = (ev : ℕ) (s : Scheduler) → Calls s (act ev s)

pub drain_empty :
    (fuel : ℕ) (act : Action) (p : ℕ) (s : Scheduler)
    → first_of (queue_at p s) ≡ none
    → drain fuel act p s ≡ some s
unfolding drain
drain_empty zero act p s e = rw (e, drain) refl
drain_empty (suc fuel) act p s e = rw (e, drain) refl

pub drain_next :
    (fuel : ℕ) (act : Action) (p ev : ℕ) (s : Scheduler)
    → first_of (queue_at p s) ≡ some ev
    → drain (suc fuel) act p s ≡ drain fuel act p (act ev (unqueue p ev s))
unfolding drain
drain_next fuel act p ev s e = rw (e, drain) refl

pub first_of-none : (evs : List ℕ) → first_of evs ≡ none → evs ≡ []
unfolding first_of
first_of-none [] e = refl
first_of-none (x ∷ evs) e = cc

pub first_of-member : (ev : ℕ) (evs : List ℕ) → first_of evs ≡ some ev → member ev evs ≡ true
unfolding first_of member
first_of-member ev [] e = cc
first_of-member ev (x ∷ evs) e = let same : x ≡ ev = cc in rw same (rw (==_refl ev) refl)

none_queued : (p ev : ℕ) (s : Scheduler) → AtMost zero s → first_of (queue_at p s) ≡ some ev → ⊥
none_queued p ev s h e =
    let nothing : s.applied ≡ [] = no_entries s.applied h.few in
    no_event (
      sym (first_of-member ev (queue_at p s) e)
      ∙ h.queued.placed ev p
      ∙ ap (λ m. is_at p (find ev m)) nothing)
  where
    no_entries : (m : List (ℕ × ℕ)) → length m ≤ 0 → m ≡ []
    no_entries [] l = refl
    no_entries (x ∷ m) l = absurd (omega arith)

    no_event : true ≡ is_at p (find ev []) → ⊥
    no_event k = unfold find in cc

-- How the loop ends.
pub record Drained (p : ℕ) (o : Option Scheduler) : Type 0 where
  pub after : Scheduler
  pub ended : o ≡ some after
  pub queued : Queued after
  pub emptied : queue_at p after ≡ []

drain-Drained :
    (fuel : ℕ) (act : Action) (p : ℕ) (s : Scheduler)
    → Acts act
    → AtMost fuel s
    → Drained p (drain fuel act p s)
drain-Drained zero act p s acts h = elim (Option-cases (first_of (queue_at p s))) [
  | inl e ↦ record {
    after = s;
    ended = drain_empty zero act p s e;
    queued = h.queued;
    emptied = first_of-none (queue_at p s) e;
  }
  | inr (ev, e) ↦ absurd (none_queued p ev s h e)
]
drain-Drained (suc fuel) act p s acts h = elim (Option-cases (first_of (queue_at p s))) [
  | inl e ↦ record {
    after = s;
    ended = drain_empty (suc fuel) act p s e;
    queued = h.queued;
    emptied = first_of-none (queue_at p s) e;
  }
  | inr (ev, e) ↦
      let left : AtMost fuel (unqueue p ev s) =
        unqueue-AtMost fuel p ev s (first_of-member ev (queue_at p s) e) h in
      let more : Drained p (drain fuel act p (act ev (unqueue p ev s))) =
        drain-Drained fuel act p (act ev (unqueue p ev s)) acts
          (Calls-AtMost fuel (acts ev (unqueue p ev s)) left) in
      record {
        after = more.after;
        ended = drain_next fuel act p ev s e ∙ more.ended;
        queued = more.queued;
        emptied = more.emptied;
      }
]

-- The priority that `poll` notifies, if any event is queued, has no events afterwards.
abbrev pub IsEmptied : Option ℕ → Scheduler → Type 0
IsEmptied none s = Unit {0}
IsEmptied (some p) s = queue_at p s ≡ []

pub dispatch-none :
    (fuel : ℕ) (act : Action) (s : Scheduler)
    → first_prio s.queues ≡ none
    → dispatch fuel act s ≡ some s
unfolding dispatch
dispatch-none fuel act s e = rw (e, dispatch) refl

pub dispatch-some :
    (fuel : ℕ) (act : Action) (p : ℕ) (s : Scheduler)
    → first_prio s.queues ≡ some p
    → dispatch fuel act s ≡ drain fuel act p s
unfolding dispatch
dispatch-some fuel act p s e = rw (e, dispatch) refl

-- When each event is in the one queue of the priority that it was queued with, and whatever calls the
-- events' actions make, with fuel for each event that is queued: the notification ends, the first
-- priority with an event has none afterwards, and each event is still in its one queue.
pub dispatch-Drained :
    (fuel : ℕ) (act : Action) (s : Scheduler)
    → Acts act
    → AtMost fuel s
    → (s' : Scheduler) × (dispatch fuel act s ≡ some s')
      × Queued s'
      × IsEmptied (first_prio s.queues) s'
dispatch-Drained fuel act s acts h = elim (Option-cases (first_prio s.queues)) [
  | inl e ↦ (s, dispatch-none fuel act s e, h.queued, subst (λ o. IsEmptied o s) (sym e) tt)
  | inr (p, e) ↦
      let d : Drained p (drain fuel act p s) = drain-Drained fuel act p s acts h in
      (
        d.after,
        dispatch-some fuel act p s e ∙ d.ended,
        d.queued,
        subst (λ o. IsEmptied o d.after) (sym e) d.emptied,
      )
]

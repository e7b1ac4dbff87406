-- ===== src/Scheduler/Calls.antt =====
-- What the program may call on events between two calls of `poll`, and within an action.
use udptun.Prelude.{
  ℕ, ◌≡◌, refl, Bool, List, [], Outcome, ok, ◌>>=◌, ◌==◌, find, put, erase, insert, remove,
  Option-cases, Bool-cases, inl, inr,
}
use udptun.Scheduler.{
  Scheduler, Desc, dequeue, set_prio, set_idle, cancel_idle, set_timed, cancel_timed,
}
use udptun.Scheduler.Queued.{AtMost, AtMost-same, dequeue-AtMost, move-AtMost}
use udptun.Scheduler.Signals.{
  cancel_signal, set_signal, add_desc, remove_desc, set_desc, cancel_desc,
}
use udptun.Scheduler.Still.{
  Returns, Returns-bind, Returns-ok, Still, weaken, cancel_signal-Still, set_signal-Still,
  add_desc-Still, remove_desc-Still, set_timed-Still, unset_timed-Still,
}

-- One call that returns.
pub data Call (s t : Scheduler) : Type 0 where
  sets_idle : (ev : ℕ) → t ≡ set_idle ev s → Call s t
  cancels_idle : (ev : ℕ) → t ≡ cancel_idle ev s → Call s t
  sets_timed : (when ev : ℕ) → t ≡ set_timed when ev s → Call s t
  cancels_timed : (ev : ℕ) → t ≡ cancel_timed ev s → Call s t
  sets_signal :
      (reset_ok add_ok : Bool) (signo ev : ℕ)
      → set_signal reset_ok add_ok signo ev s ≡ ok t
      → Call s t
  cancels_signal : (reset_ok : Bool) (ev : ℕ) → cancel_signal reset_ok ev s ≡ ok t → Call s t
  sets_desc :
      (remove_ok add_ok : Bool) (fd : ℕ) (events : List ℕ) (ev : ℕ)
      → set_desc remove_ok add_ok fd events ev s ≡ ok t
      → Call s t
  cancels_desc : (remove_ok : Bool) (ev : ℕ) → cancel_desc remove_ok ev s ≡ ok t → Call s t
  sets_prio : (p ev : ℕ) → set_prio p ev s ≡ ok t → Call s t

-- Any calls, one after the other.
pub data Calls (s : Scheduler) : Scheduler → Type 0 where
  none_yet : Calls s s
  then_call : {t u : Scheduler} → Calls s t → Call t u → Calls s u

module _ (n : ℕ) where
  Still-AtMost : (s t : Scheduler) → AtMost n s → Still s t → AtMost n t
  Still-AtMost s t h (q, a) = AtMost-same n s t q a h

  fresh_desc-Still :
      (remove_ok add_ok : Bool) (ev : ℕ) (d : Desc) (s : Scheduler)
      → Returns (Still s) (
          remove_desc remove_ok ev s >>= λ t.
          add_desc add_ok ev d (record t { descs = put ev d t.descs }))
  fresh_desc-Still remove_ok add_ok ev d s =
      Returns-bind (Still s) (Still s) (remove_desc remove_ok ev s) _
        (remove_desc-Still remove_ok ev s)
        (λ t h.
          weaken s t (add_desc add_ok ev d (record t { descs = put ev d t.descs })) h
            (add_desc-Still add_ok ev d (record t { descs = put ev d t.descs })))

  set_desc-AtMost :
      (remove_ok add_ok : Bool) (fd : ℕ) (events : List ℕ) (ev : ℕ) (s : Scheduler)
      → AtMost n s
      → Returns (AtMost n) (set_desc remove_ok add_ok fd events ev s)
  unfolding set_desc
  set_desc-AtMost remove_ok add_ok fd events ev s h =
      let d : Desc = record { fd = fd; got = []; expected = events } in
      let fresh = fresh_desc-Still remove_ok add_ok ev d s in
      let again = add_desc-Still add_ok ev d (record s { descs = put ev d s.descs }) in
      elim (Option-cases (find ev s.descs)) [
        | inl e ↦ rw e (after _ fresh)
        | inr (old, e) ↦ elim (Bool-cases (old.fd == fd)) [
          | inl b ↦ rw (e, b) (after _ again)
          | inr b ↦ rw (e, b) (after _ fresh)
        ]
      ]
    where
      after :
          (o : Outcome Scheduler)
          → Returns (Still s) o
          → Returns (AtMost n) (o >>= λ t. ok (dequeue ev t))
      after o r =
          Returns-bind (Still s) (AtMost n) o (λ t. ok (dequeue ev t)) r
            (λ t k. dequeue-AtMost n ev t (Still-AtMost s t h k))

  cancel_desc-AtMost :
      (remove_ok : Bool) (ev : ℕ) (s : Scheduler)
      → AtMost n s
      → Returns (AtMost n) (cancel_desc remove_ok ev s)
  unfolding cancel_desc
  cancel_desc-AtMost remove_ok ev s h =
      Returns-bind (Still s) (AtMost n) (remove_desc remove_ok ev s)
        (λ t. ok (dequeue ev (record t { descs = erase ev t.descs })))
        (remove_desc-Still remove_ok ev s)
        (λ t k. dequeue-AtMost n ev (record t { descs = erase ev t.descs }) (Still-AtMost s _ h k))

  set_prio-AtMost : (p ev : ℕ) (s : Scheduler) → AtMost n s → Returns (AtMost n) (set_prio p ev s)
  unfolding set_prio
  set_prio-AtMost p ev s h = elim (Bool-cases (p == 0)) [
    | inl z ↦ rw z tt
    | inr z ↦ elim (Option-cases (find ev s.applied)) [
      | inl e ↦ rw (z, e) (AtMost-same n s (record s { prios = put ev p s.prios }) refl refl h)
      | inr (q, e) ↦ elim (Bool-cases (q == p)) [
        | inl b ↦ rw (z, e, b) (AtMost-same n s (record s { prios = put ev p s.prios }) refl refl h)
        | inr b ↦ rw (z, e, b) (move-AtMost n q p ev s e h)
      ]
    ]
  ]

  set_idle-AtMost : (ev : ℕ) (s : Scheduler) → AtMost n s → AtMost n (set_idle ev s)
  unfolding set_idle
  set_idle-AtMost ev s h =
      dequeue-AtMost n ev (record s { idleness = insert ev s.idleness })
        (AtMost-same n s _ refl refl h)

  cancel_idle-AtMost : (ev : ℕ) (s : Scheduler) → AtMost n s → AtMost n (cancel_idle ev s)
  unfolding cancel_idle
  cancel_idle-AtMost ev s h =
      dequeue-AtMost n ev (record s { idleness = remove ev s.idleness })
        (AtMost-same n s _ refl refl h)

  cancel_timed-AtMost : (ev : ℕ) (s : Scheduler) → AtMost n s → AtMost n (cancel_timed ev s)
  unfolding cancel_timed
  cancel_timed-AtMost ev s h =
      Still-AtMost (dequeue ev s) _ (dequeue-AtMost n ev s h) (unset_timed-Still ev (dequeue ev s))

  Call-AtMost : (s t : Scheduler) → Call s t → AtMost n s → AtMost n t
  Call-AtMost s t (sets_idle ev e) h = rw e (set_idle-AtMost ev s h)
  Call-AtMost s t (cancels_idle ev e) h = rw e (cancel_idle-AtMost ev s h)
  Call-AtMost s t (sets_timed when ev e) h =
      rw e (Still-AtMost s (set_timed when ev s) h (set_timed-Still when ev s))
  Call-AtMost s t (cancels_timed ev e) h = rw e (cancel_timed-AtMost ev s h)
  Call-AtMost s t (sets_signal a b signo ev e) h =
      Still-AtMost s t h
        (Returns-ok (Still s) (set_signal a b signo ev s) t (set_signal-Still a b signo ev s) e)
  Call-AtMost s t (cancels_signal a ev e) h =
      Still-AtMost s t h
        (Returns-ok (Still s) (cancel_signal a ev s) t (cancel_signal-Still a ev s) e)
  Call-AtMost s t (sets_desc a b fd events ev e) h =
      Returns-ok (AtMost n) (set_desc a b fd events ev s) t (set_desc-AtMost a b fd events ev s h) e
  Call-AtMost s t (cancels_desc a ev e) h =
      Returns-ok (AtMost n) (cancel_desc a ev s) t (cancel_desc-AtMost a ev s h) e
  Call-AtMost s t (sets_prio p ev e) h =
      Returns-ok (AtMost n) (set_prio p ev s) t (set_prio-AtMost p ev s h) e

  pub Calls-AtMost : {s t : Scheduler} → Calls s t → AtMost n s → AtMost n t
  Calls-AtMost none_yet h = h
  Calls-AtMost (then_call {t} {u} c k) h = Call-AtMost t u k (Calls-AtMost c h)

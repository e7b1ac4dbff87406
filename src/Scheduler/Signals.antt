-- ===== src/Scheduler/Signals.antt =====
-- `SignalEvent` and `DescriptorEvent`: signaling.cc, descriptor.cc and `Scheduler::update_signal` in
-- scheduling.cc. Whether `signalfd` and `epoll_ctl` succeed is an argument.
use udptun.Prelude.{
  ℕ, Bool, true, false, List, [], ◌∷◌, none, some, Outcome, ok, fault, thrown, ◌>>=◌, ◌==◌,
  if◌then◌else◌, find, put, erase, member, insert, remove,
}
use udptun.Scheduler.{Scheduler, Desc, set_or, dequeue}

-- Whether the signal has handlers.
abbrev pub handled : ℕ → Scheduler → Bool
handled signo s = elim (set_or (find signo s.handlers)) [ [] ↦ false | _ ∷ _ ↦ true ]

-- `if (!state) signal_handlers.erase(signo);`
abbrev pub tidy : ℕ → Scheduler → Scheduler
tidy signo s = if handled signo s then s else record s { handlers = erase signo s.handlers }

abbrev pub same : Bool → Bool → Bool
same true b = b
same false true = false
same false false = true

-- The signals to watch, with or without the signal.
abbrev pub watch : Bool → ℕ → List ℕ → List ℕ
watch state signo watching = if state then insert signo watching else remove signo watching

unfoldable pub update_signal : Bool → ℕ → Scheduler → Outcome Scheduler
update_signal signalfd_ok signo s =
    let state = handled signo s in
    let t = tidy signo s in
    if same state (member signo s.watching)
    then ok t
    else if signalfd_ok
    then ok (record t { watching = watch state signo s.watching })
    else fault thrown

-- `SignalEvent::reset`
unfoldable pub reset : Bool → ℕ → ℕ → Scheduler → Outcome Scheduler
reset signalfd_ok signo ev s =
    update_signal signalfd_ok signo
      (record s { handlers = put signo (remove ev (set_or (find signo s.handlers))) s.handlers })

-- `SignalEvent::cancel`
unfoldable pub cancel_signal : Bool → ℕ → Scheduler → Outcome Scheduler
cancel_signal signalfd_ok ev s = elim (find ev s.signos) [
  | none ↦ ok s
  | some signo ↦ reset signalfd_ok signo ev s >>= λ t. ok (record t { signos = erase ev t.signos })
]

-- The end of `SignalEvent::set`.
unfoldable pub add_signal : Bool → ℕ → ℕ → Scheduler → Outcome Scheduler
add_signal signalfd_ok signo ev s = update_signal signalfd_ok signo (record s {
  handlers = put signo (insert ev (set_or (find signo s.handlers))) s.handlers;
  signos = put ev signo s.signos;
})

-- `SignalEvent::set`, with whether the two calls of `signalfd` succeed.
unfoldable pub set_signal : Bool → Bool → ℕ → ℕ → Scheduler → Outcome Scheduler
set_signal reset_ok add_ok signo ev s =
    if signo == 0 then cancel_signal reset_ok ev s else elim (find ev s.signos) [
      | none ↦ add_signal add_ok signo ev s
      | some old ↦
          if old == signo
          then ok s
          else reset reset_ok old ev s >>= λ t. add_signal add_ok signo ev t
    ]

-- `Scheduler::add`: `EPOLL_CTL_MOD` and `EPOLL_CTL_ADD` both leave the descriptor with these events.
unfoldable pub add_desc : Bool → ℕ → Desc → Scheduler → Outcome Scheduler
add_desc ctl_ok ev d s =
    if ctl_ok
    then ok (record s { interest = put d.fd (d.expected, ev) s.interest })
    else fault thrown

-- `Scheduler::remove`
unfoldable pub remove_desc : Bool → ℕ → Scheduler → Outcome Scheduler
remove_desc ctl_ok ev s = elim (find ev s.descs) [
  | none ↦ ok s
  | some d ↦ if ctl_ok then ok (record s { interest = erase d.fd s.interest }) else fault thrown
]

-- `DescriptorEvent::set`, on a descriptor that is not negative.
unfoldable pub set_desc : Bool → Bool → ℕ → List ℕ → ℕ → Scheduler → Outcome Scheduler
set_desc remove_ok add_ok fd events ev s =
    let d : Desc = record { fd = fd; got = []; expected = events } in
    let fresh = remove_desc remove_ok ev s >>= λ t.
    add_desc add_ok ev d (record t { descs = put ev d t.descs }) in
    let again = add_desc add_ok ev d (record s { descs = put ev d s.descs }) in
    elim (find ev s.descs) [ none ↦ fresh | some old ↦ if old.fd == fd then again else fresh ]
    >>= λ t. ok (dequeue ev t)

-- `DescriptorEvent::cancel`
unfoldable pub cancel_desc : Bool → ℕ → Scheduler → Outcome Scheduler
cancel_desc remove_ok ev s =
    remove_desc remove_ok ev s >>= λ t. ok (dequeue ev (record t { descs = erase ev t.descs }))

abbrev pub union : List ℕ → List ℕ → List ℕ
union [] t = t
union (x ∷ s) t = insert x (union s t)

abbrev pub without : List ℕ → List ℕ → List ℕ
without [] t = t
without (x ∷ s) t = remove x (without s t)

-- `DescriptorEvent::update`
unfoldable pub update_desc : Bool → List ℕ → ℕ → Desc → Scheduler → Outcome Scheduler
update_desc mod_ok events ev d s =
    let d' : Desc = record d { got = union events d.got; expected = without events d.expected } in
    add_desc mod_ok ev d' (record s { descs = put ev d' s.descs })

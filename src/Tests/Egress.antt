-- ===== src/Tests/Egress.antt =====
-- The egress, its listeners and its table of peers, at concrete inputs.
use udptun.Prelude.{
  ℕ, ◌+◌, ◌≡◌, inl, inr, refl, Bool, true, false, List, [], ◌∷◌, ◌++◌, Option, none, some, arith,
  ok, ◌>>=◌, find, member, Bool-cases, ◌==◌, sym, ap, ◌∙◌,
}
use udptun.Wire.{Bytes, IsBytes, frame, decode_message}
use udptun.Wire.Split.{Splits, Splits-frames}
use udptun.Emitters.{Emitter}
use udptun.Egress.Connection.{Connection, ClientState, Maker, Outlets, process_all}
use udptun.Egress.Connection.Parse.{serve_all, process_all-serve_all}
use udptun.Egress.Connection.Receive.{Received, receive-Received}
use udptun.Egress.Connection.Read.{IsMade, Reads}
use udptun.Egress.Listener.{Listener, Accept, Errno, Owned, Waits, handle_fd, handle_fd-Waits}
use udptun.Peers.{Tab, Item, load, last_listing, find-load}
use udptun.Tests.Wire.{
  first_message, second_message, first_message-IsMessage, second_message-IsMessage,
}

abbrev test_emitter : Emitter
test_emitter = record { sock = some 3; family = 2; protocol = 17 }

abbrev outlets_of : ℕ → Outlets
outlets_of clid = (2, record { destination = clid; emitter = test_emitter } ∷ []) ∷ []

abbrev make_outlets : Maker
make_outlets clid = ok (outlets_of clid)

-- Two clients, of which one was last served at the time 5 and the other at 9.
abbrev used_connection : Connection
used_connection = record {
  sock = some 9;
  buf = 0 ∷ [];
  armed = true;
  cleanup = false;
  clstats =
      (1, record { last_used = 5; outlets = outlets_of 1 })
      ∷ (300, record { last_used = 9; outlets = outlets_of 300 })
      ∷ [];
  sent = [];
}

decode_one : decode_message (0 ∷ []) ≡ none
unfolding decode_message
decode_one = refl

decode_nil : decode_message [] ≡ none
unfolding decode_message
decode_nil = refl

abbrev both_frames : Bytes
both_frames = frame first_message ++ frame second_message

both_frames-Splits : Splits [] both_frames (first_message ∷ second_message ∷ [])
both_frames-Splits =
    Splits-frames (first_message ∷ second_message ∷ [])
      (first_message-IsMessage, (second_message-IsMessage, tt)) decode_nil

process_all-serve_all_example :
    process_all 20 make_outlets 7 (record used_connection { buf = both_frames }) ≡ (
      serve_all make_outlets 7 used_connection (first_message ∷ second_message ∷ []) >>= λ c'.
      ok (record c' { buf = [] }))
process_all-serve_all_example =
    process_all-serve_all make_outlets 7 20 used_connection (omega arith) both_frames-Splits

abbrev reads : List (ℕ × ℕ)
reads =
    (1, 3)
    ∷ (2, 1)
    ∷ (3, 2)
    ∷ (4, 5)
    ∷ (5, 5)
    ∷ (6, 5)
    ∷ (7, 5)
    ∷ (8, 5)
    ∷ (9, 5)
    ∷ (10, 5)
    ∷ (11, 5)
    ∷ (12, 5)
    ∷ (13, 5)
    ∷ (14, 5)
    ∷ []

used_connection-IsMade : IsMade outlets_of used_connection.clstats
unfolding find
used_connection-IsMade clid st h = elim (Bool-cases (1 == clid)) [
  | inl a ↦ let same : 1 ≡ clid = ground arith in state_outlets _ (rw a at h) ∙ ap outlets_of same
  | inr a ↦ elim (Bool-cases (300 == clid)) [
    | inl b ↦
        let same : 300 ≡ clid = ground arith in
        state_outlets _ (rw (a, b) at h) ∙ ap outlets_of same
    | inr b ↦ absurd (none_some (rw (a, b) at h))
  ]
]
  where
    none_some : ◌≡◌ {A = Option ClientState} none (some st) → ⊥
    none_some h = cc

    state_outlets :
        (s : ClientState) → ◌≡◌ {A = Option ClientState} (some s) (some st) → st.outlets ≡ s.outlets
    state_outlets s h = let e : s ≡ st = cc in ap (λ (x : ClientState). x.outlets) (sym e)

-- What the connection holds already is the first byte of the first message.
abbrev still_to_come : Bytes
still_to_come = 1 ∷ 0 ∷ 2 ∷ 0 ∷ 2 ∷ 7 ∷ 8 ∷ (frame second_message)

receive-Received_example :
    Received make_outlets outlets_of
      (λ clid. refl)
      used_connection
      reads
      still_to_come
      []
      (first_message ∷ second_message ∷ [])
receive-Received_example =
    receive-Received make_outlets outlets_of (λ clid. refl) reads used_connection 9 still_to_come []
      (first_message ∷ second_message ∷ []) refl decode_one bytes used_connection-IsMade all_reads
      (omega arith) both_frames-Splits
  where
    bytes : IsBytes (0 ∷ still_to_come)
    bytes = ground arith

    all_reads : Reads reads
    all_reads = ground arith

abbrev peers : List Tab
peers = [] ∷ ((77, record { name = 4; hash = 40 }) ∷ []) ∷ []

abbrev listener_with : Errno → Listener
listener_with e = record {
  family = 2;
  protocol = 6;
  addr = 0 ∷ 80 ∷ [];
  sock = true;
  watching = true;
  rebind_at = none;
  conns = [];
  opened = [];
  errno = e;
}

nothing_opened : (e : Errno) → Owned (listener_with e)
unfolding member
nothing_opened e fd h = absurd (false_true h)
  where
    false_true : ◌≡◌ {A = Bool} false true → ⊥
    false_true h = cc

handle_fd-Waits_example :
    (l' : Listener) × (handle_fd peers
        (Accept.failed Errno.again ∷ Accept.accepted 12 77 ∷ [])
        (listener_with Errno.other)
      ≡ ok l')
    × Owned l'
    × Waits l'
handle_fd-Waits_example =
    handle_fd-Waits peers (Accept.failed Errno.again ∷ Accept.accepted 12 77 ∷ [])
      (listener_with Errno.other) refl refl (nothing_opened Errno.other)

abbrev items : List Item
items =
    record { id = 1; hosts = some (10 ∷ 11 ∷ []); hash = none }
    ∷ record { id = 2; hosts = none; hash = some 5 }
    ∷ record { id = 3; hosts = some (11 ∷ []); hash = some 6 }
    ∷ []

abbrev keys_of : ℕ → List ℕ
keys_of h = h ∷ (h + 100) ∷ []

find-load_example :
    (tab' : Tab) × (load (λ h. ok (keys_of h)) (λ n. n + 1000) items [] ≡ ok tab')
    × (find 111 tab' ≡ last_listing keys_of (λ n. n + 1000) 111 items (find 111 []))
find-load_example = find-load (λ h. ok (keys_of h)) keys_of (λ h. refl) (λ n. n + 1000) 111 items []

-- ===== src/Tests/Main.antt =====
-- The egress as a whole, its addresses, and the main loop, at concrete inputs.
use mathlib.Core.List.{Memᴰ}
use mathlib.Core.Quot
use udptun.Prelude.{
  ℕ, ◌+◌, ◌≡◌, ◌⊎◌, refl, true, false, List, [], ◌∷◌, none, some, arith, ok, leb, inl, inr,
}
use udptun.Addresses.{AddressEntry}
use udptun.Addresses.Found.{Found, SameMembers, Distinct}
use udptun.Egress.Listener.{other}
use udptun.Egress.Tcp.Activate.{AllListen, activate-AllListen}
use udptun.Egress.Tcp.{TcpEgress, Answers, activate}
use udptun.Main.Idle.{AllQuiet, any_connected, round-AllQuiet}
use udptun.Main.Stop.{rounds_quit}
use udptun.Main.Quitting.{Going}
use udptun.Main.{Loop, Polled, seconds, round, rounds}

abbrev address : ℕ → AddressEntry
address last = record {
  flags = 1;
  family = 2;
  socktype = 1;
  protocol = 6;
  addr = 0 ∷ 80 ∷ last ∷ [];
}

abbrev found : List AddressEntry
found = address 9 ∷ address 4 ∷ address 9 ∷ []

abbrev unbound : AddressEntry → Answers
unbound a = record { made = true; bound = false; listening = true; errno = other }

abbrev new_egress : TcpEgress
new_egress = record {
  conns = [];
  listeners = [];
  flush_time = 20;
  flusher = some 20;
  client_timeout = 3600;
  told = [];
}

-- The same addresses, each once and in another order.
abbrev found_again : List AddressEntry
found_again = address 4 ∷ address 9 ∷ []

to_again : (x : AddressEntry) → Memᴰ x found → Memᴰ x found_again
to_again x (Memᴰ.head e) = Memᴰ.tail (Memᴰ.head e)
to_again x (Memᴰ.tail (Memᴰ.head e)) = Memᴰ.head e
to_again x (Memᴰ.tail (Memᴰ.tail m)) = Memᴰ.tail m

from_again : (x : AddressEntry) → Memᴰ x found_again → Memᴰ x found
from_again x (Memᴰ.head e) = Memᴰ.tail (Memᴰ.head e)
from_again x (Memᴰ.tail m) = Memᴰ.tail (Memᴰ.tail m)

found-again : ◌≡◌ {A = Found} (Quot.mk found) (Quot.mk found_again)
found-again = Quot.sound (λ x. (to_again x, from_again x))

activate-AllListen_example :
    (e' : TcpEgress) × (activate unbound (some found) new_egress ≡ ok e')
    × (activate unbound (some found_again) new_egress ≡ ok e')
    × ((set : List AddressEntry) × Distinct set
        × SameMembers set found
        × AllListen set e'.listeners)
activate-AllListen_example =
    activate-AllListen unbound found found_again new_egress refl found-again

-- A loop that has begun, with one egress.
abbrev begun : Loop
begun = record {
  quit = false;
  reload = false;
  more = true;
  awaiting_idle = false;
  timer = none;
  egresses = new_egress ∷ [];
}

begun-Going : Going 6 begun
begun-Going = record { timed = λ t e. absurd (unset t e) }
  where
    unset : (t : ℕ) → none ≡ some t → ⊥
    unset t e = cc

abbrev at_time : ℕ → Polled
at_time now = record {
  interrupted = false;
  now = now;
  later = now + 1;
  quits = false;
  reloads = false;
  egresses = new_egress ∷ [];
}

abbrev interrupted_at : ℕ → Polled
interrupted_at now = record (at_time now) { interrupted = true }

rounds_quit_example :
    (rounds
      (record (at_time 5) { quits = true }
        ∷ interrupted_at (6 + seconds 10)
        ∷ at_time (7 + seconds 10)
        ∷ [])
      begun).more
    ≡ false
rounds_quit_example =
    rounds_quit (record (at_time 5) { quits = true })
      (interrupted_at (6 + seconds 10) ∷ at_time (7 + seconds 10) ∷ []) begun begun-Going refl refl
      (inr (inl (refl, omega arith)))

abbrev quit_now : Polled
quit_now = record (at_time 5) { quits = true }

round-AllQuiet_example :
    ((round quit_now begun).more ≡ false
      → ((t : ℕ) × (begun.timer ≡ some t) × (leb t 5 ≡ true))
        ⊎ (((round quit_now begun).awaiting_idle ≡ true)
            × AllQuiet (round quit_now begun).egresses))
    × ((round quit_now begun).awaiting_idle ≡ true
        → any_connected (new_egress ∷ []) ≡ false
        → (round quit_now begun).more ≡ false)
round-AllQuiet_example = round-AllQuiet quit_now begun refl

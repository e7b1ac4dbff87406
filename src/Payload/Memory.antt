-- ===== src/Payload/Memory.antt =====
-- The arrays that payloads own: the constructors, moves, `clear`, `load` and the destructor of
-- payloads.cc and payloads.hh. An object is known by its place, an array by a number.
use udptun.Prelude.{
  ℕ, suc, ◌==◌, Bool, true, false, List, [], ◌∷◌, Option, none, some, Outcome, ok, fault, Fault,
  ◌>>=◌, if◌then◌else◌,
}
use udptun.Wire.{Bytes}

-- What is at a place: no object, a payload without an array, or one with the array.
pub data Slot (A : Type 0) : Type 0 where
  raw null : Slot A
  holds : A → Slot A

abbrev pub at_place {ℓ} : {A : Type ℓ} → ℕ → A → (ℕ → A) → ℕ → A
at_place k x f q = if k == q then x else f q

-- `live` are the arrays that were made by `new` and not yet deleted.
pub record Memory : Type 0 where
  pub objs : ℕ → Slot ℕ
  pub live : ℕ → Bool
  pub bytes : ℕ → Bytes
  pub next : ℕ

abbrev pub new_array : Bytes → Memory → Memory
new_array bs m = record m {
  live = at_place m.next true m.live;
  bytes = at_place m.next bs m.bytes;
  next = suc m.next;
}

unfoldable pub delete_array : ℕ → Memory → Outcome Memory
delete_array a m =
    if m.live a then ok (record m { live = at_place a false m.live }) else fault Fault.undefined

abbrev pub base_of : Slot ℕ → Outcome (Option ℕ)
base_of raw = fault Fault.undefined
base_of null = ok none
base_of (holds a) = ok (some a)

abbrev pub slot_of : Option ℕ → Slot ℕ
slot_of none = null
slot_of (some a) = holds a

abbrev pub delete_base : Option ℕ → Memory → Outcome Memory
delete_base none m = ok m
delete_base (some a) m = delete_array a m

abbrev pub set_base : ℕ → Slot ℕ → Memory → Memory
set_base s x m = record m { objs = at_place s x m.objs }

abbrev pub construct : Slot ℕ → Memory → Outcome Memory
construct raw m = ok m
construct _ m = fault Fault.undefined

-- `Payload(base, len)`
unfoldable pub make : ℕ → Bytes → Memory → Outcome Memory
make s bs m = construct (m.objs s) m >>= λ m'. ok (set_base s (holds m'.next) (new_array bs m'))

-- `Payload(Payload &&)`
unfoldable pub make_moved : ℕ → ℕ → Memory → Outcome Memory
make_moved d s m = construct (m.objs d) m >>= λ m'.
    base_of (m'.objs s) >>= λ b. ok (set_base s null (set_base d (slot_of b) m'))

-- `operator =(Payload &&)`
unfoldable pub move_assign : ℕ → ℕ → Memory → Outcome Memory
move_assign d s m = base_of (m.objs d) >>= λ old. delete_base old m >>= λ m'.
    base_of (m'.objs s) >>= λ b. ok (set_base s null (set_base d (slot_of b) m'))

unfoldable pub clear : ℕ → Memory → Outcome Memory
clear s m = base_of (m.objs s) >>= λ b. delete_base b m >>= λ m'. ok (set_base s null m')

-- The destructor.
unfoldable pub destroy : ℕ → Memory → Outcome Memory
destroy s m = base_of (m.objs s) >>= λ b. delete_base b m >>= λ m'. ok (set_base s raw m')

-- What `load` reads: no length, a length and not enough bytes, or a payload.
pub data Read : Type 0 where
  no_length cut_short : Read
  whole : Bytes → Read

unfoldable pub load_into : ℕ → Read → Memory → Outcome Memory
load_into s no_length m = base_of (m.objs s) >>= λ b. ok m
load_into s cut_short m = base_of (m.objs s) >>= λ b. delete_array m.next (new_array [] m)
load_into s (whole bs) m = clear s (new_array bs m) >>= λ m'. ok (set_base s (holds m.next) m')

pub data Call : Type 0 where
  makes : ℕ → Bytes → Call
  moves assigns : ℕ → ℕ → Call
  clears destroys : ℕ → Call
  loads : ℕ → Read → Call

unfoldable pub call : Call → Memory → Outcome Memory
call (makes s bs) m = make s bs m
call (moves d s) m = make_moved d s m
call (assigns d s) m = move_assign d s m
call (clears s) m = clear s m
call (destroys s) m = destroy s m
call (loads s r) m = load_into s r m

unfoldable pub calls : List Call → Memory → Outcome Memory
calls [] m = ok m
calls (c ∷ cs) m = call c m >>= λ m'. calls cs m'

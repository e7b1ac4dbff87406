-- ===== src/Queue/Memory.antt =====
-- The account that a queue keeps of its memory, and its word to a user that it has disappointed.
use udptun.Prelude.{
  ℕ, ◌<◌, ◌≡◌, refl, sym, ap, ◌∙◌, true, false, List, [], ◌∷◌, ◌++◌, Option, none, some, inl, inr,
  arith, Bool-cases,
}
use udptun.Wire.{Bytes}
use udptun.Payload.Load.{length-of_chunks}
use udptun.Payload.{Payload, save, load_all, sum_lengths, of_chunks}
use udptun.Queue.Peek.{peek-Peeks, peek_front}
use udptun.Queue.Push.Refine.{push_memory_fields}
use udptun.Queue.View.{sum_lengths-append}
use udptun.Queue.{
  PayloadQueue, Files, Entries, Spill, told_user, load_file, load_files, peek, poke, consume, unget,
  discard_file, push_memory, choose_file, account_file, write_out, close_out, push_file,
  fits_memory, push, make,
}

-- `sz_mem` is the bytes of the payloads in memory, so `consume` never takes away more than is there.
abbrev pub IsCounted : PayloadQueue → Type 0
IsCounted q = q.sz_mem ≡ sum_lengths q.queue

pub make-IsCounted : (max_mem : ℕ) (dir : Entries) → IsCounted (make max_mem dir)
unfolding make
make-IsCounted max_mem dir = refl

load_file-IsCounted :
    (k : ℕ) (bs : Bytes) (rest : Files) (q : PayloadQueue)
    → IsCounted q
    → IsCounted (load_file k bs rest q)
unfolding load_file
load_file-IsCounted k bs rest q c = omega (arith, sum_lengths-append q.queue (load_all bs).payloads)

load_files-IsCounted :
    (files : Files) (q : PayloadQueue) → IsCounted q → IsCounted (load_files files q).1
unfolding load_files
load_files-IsCounted [] q c = c
load_files-IsCounted ((k, bs) ∷ rest) q c =
    let c' = load_file-IsCounted k bs rest q c in
    ground (arith, load_files-IsCounted rest (load_file k bs rest q) c')

peek-IsCounted : (q : PayloadQueue) → IsCounted q → IsCounted (peek q).1
unfolding peek
peek-IsCounted q c = ground (arith, load_files-IsCounted q.queue_fns q c)

poke-IsCounted : (q : PayloadQueue) → IsCounted q → IsCounted (poke q)
unfolding poke
poke-IsCounted q c = ground (arith, peek-IsCounted q c)

consume-IsCounted : (q : PayloadQueue) (into : Payload) → IsCounted q → IsCounted (consume q into).0
unfolding consume
consume-IsCounted q into c = ground arith

unget-IsCounted : (q : PayloadQueue) (pl : Payload) → IsCounted q → IsCounted (unget q pl)
unfolding unget
unget-IsCounted q none c = c
unget-IsCounted q (some p) c = omega arith

discard_file-IsCounted : (q : PayloadQueue) → IsCounted q → IsCounted (discard_file q)
unfolding discard_file
discard_file-IsCounted q c = ground arith

-- Files and streams aside, a queue keeps what it has in memory.
abbrev SameMemory : PayloadQueue → PayloadQueue → Type 0
SameMemory q q' = (q'.sz_mem ≡ q.sz_mem) × (q'.queue ≡ q.queue)

close_out-SameMemory : (q : PayloadQueue) → SameMemory q (close_out q)
unfolding close_out
close_out-SameMemory q = (ground arith, ground arith)

choose_file-SameMemory : (now len : ℕ) (q : PayloadQueue) → SameMemory q (choose_file now len q)
unfolding choose_file
choose_file-SameMemory now len q =
    let (a, b) = close_out-SameMemory q in (ground arith, ground arith)

write_out-SameMemory :
    (spill : Spill) (bytes : Bytes) (q : PayloadQueue) → SameMemory q (write_out spill bytes q)
unfolding write_out
write_out-SameMemory spill bytes q = (ground arith, ground arith)

account_file-SameMemory : (len : ℕ) (q : PayloadQueue) → SameMemory q (account_file len q)
unfolding account_file close_out
account_file-SameMemory len q = (ground arith, ground arith)

pub push_file-SameMemory :
    (spill : Spill) (now : ℕ) (arr : List Bytes) (q : PayloadQueue)
    → SameMemory q (push_file spill now arr q)
unfolding push_file
push_file-SameMemory spill now arr q =
    let c = choose_file now (sum_lengths arr) q in
    let w = write_out spill (save arr) c in
    let (a, b) = choose_file-SameMemory now (sum_lengths arr) q in
    let (a', b') = write_out-SameMemory spill (save arr) c in
    let (a'', b'') = account_file-SameMemory (sum_lengths arr) w in (a'' ∙ a' ∙ a, b'' ∙ b' ∙ b)

push-IsCounted :
    (spill : Spill) (now : ℕ) (arr : List Bytes) (q : PayloadQueue)
    → IsCounted q
    → IsCounted (push spill now arr q)
unfolding push
push-IsCounted spill now arr q c = elim (Bool-cases (fits_memory q (sum_lengths arr))) [
  | inl f ↦
      let (a, _, _, b) = push_memory_fields arr q in
      rw (push, f, a, b)
        (omega (arith, sum_lengths-append q.queue (of_chunks arr ∷ []), length-of_chunks arr))
  | inr f ↦ let (a, b) = push_file-SameMemory spill now arr q in rw (push, f, a, b) c
]

-- The calls that a queue gets.
pub data Call : Type 0 where
  pushes : ℕ → List Bytes → Call
  peeks pokes discards : Call
  consumes ungets : Payload → Call

unfoldable pub step : Spill → PayloadQueue → Call → PayloadQueue
step spill q (pushes now arr) = push spill now arr q
step spill q peeks = (peek q).1
step spill q pokes = poke q
step spill q discards = discard_file q
step spill q (consumes into) = (consume q into).0
step spill q (ungets pl) = unget q pl

unfoldable pub run : Spill → PayloadQueue → List Call → PayloadQueue
run spill q [] = q
run spill q (c ∷ cs) = run spill (step spill q c) cs

step-IsCounted :
    (spill : Spill) (q : PayloadQueue) (c : Call) → IsCounted q → IsCounted (step spill q c)
unfolding step
step-IsCounted spill q (pushes now arr) v = push-IsCounted spill now arr q v
step-IsCounted spill q peeks v = peek-IsCounted q v
step-IsCounted spill q pokes v = poke-IsCounted q v
step-IsCounted spill q discards v = discard_file-IsCounted q v
step-IsCounted spill q (consumes into) v = consume-IsCounted q into v
step-IsCounted spill q (ungets pl) v = unget-IsCounted q pl v

run-IsCounted :
    (spill : Spill) (q : PayloadQueue) (cs : List Call) → IsCounted q → IsCounted (run spill q cs)
unfolding run
run-IsCounted spill q [] v = v
run-IsCounted spill q (c ∷ cs) v =
    run-IsCounted spill (step spill q c) cs (step-IsCounted spill q c v)

-- After any calls on a queue made on any directory, `sz_mem` is the bytes of the payloads in
-- memory.
pub run-make-IsCounted :
    (spill : Spill) (max_mem : ℕ) (dir : Entries) (cs : List Call)
    → IsCounted (run spill (make max_mem dir) cs)
run-make-IsCounted spill max_mem dir cs =
    run-IsCounted spill (make max_mem dir) cs (make-IsCounted max_mem dir)

push_memory_told :
    (arr : List Bytes) (q : PayloadQueue)
    → q.queue ≡ []
    → q.disappointed ≡ true
    → ((push_memory arr q).effects ≡ q.effects ++ told_user ∷ [])
      × ((push_memory arr q).disappointed ≡ false)
unfolding push_memory
push_memory_told arr q e d = (ground arith, ground arith)

fits_memory_empty :
    (q : PayloadQueue) (len : ℕ)
    → IsCounted q
    → q.queue ≡ []
    → q.queue_fns ≡ []
    → len < q.max_mem
    → fits_memory q len ≡ true
fits_memory_empty q len v e f h =
    let none_held : q.sz_mem ≡ 0 = v ∙ ap sum_lengths e in ground arith

push_wakes :
    (spill : Spill) (now : ℕ) (arr : List Bytes) (q : PayloadQueue)
    → IsCounted q
    → q.queue ≡ []
    → q.queue_fns ≡ []
    → q.disappointed ≡ true
    → sum_lengths arr < q.max_mem
    → ((push spill now arr q).effects ≡ q.effects ++ told_user ∷ [])
      × ((push spill now arr q).disappointed ≡ false)
      × ((peek (push spill now arr q)).0 ≡ some (of_chunks arr))
unfolding push
push_wakes spill now arr q v e f d h =
    let fits = fits_memory_empty q (sum_lengths arr) v e f h in
    let to_memory : push spill now arr q ≡ push_memory arr q = rw (push, fits) in
    let (told, calm) = push_memory_told arr q e d in
    let (held, _, _, _) = push_memory_fields arr q in
    let front = peek_front (push_memory arr q) (held ∙ ap (λ x. x ++ of_chunks arr ∷ []) e) in
    rw to_memory (told, calm, ap (λ r. r.0) front)

-- If `sz_mem` is right, a user whose peek has failed is told of the next payload, when that is
-- less than all of the memory, and then finds it at the head.
pub peek-push_wakes :
    (spill : Spill) (now : ℕ) (arr : List Bytes) (q : PayloadQueue)
    → IsCounted q
    → (peek q).0 ≡ none
    → sum_lengths arr < (peek q).1.max_mem
    → ((push spill now arr (peek q).1).effects ≡ (peek q).1.effects ++ told_user ∷ [])
      × ((push spill now arr (peek q).1).disappointed ≡ false)
      × ((peek (push spill now arr (peek q).1)).0 ≡ some (of_chunks arr))
peek-push_wakes spill now arr q v e h = elim (peek-Peeks q).result [
  | inl (_, f, g, d) ↦ push_wakes spill now arr (peek q).1 (peek-IsCounted q v) f g d h
  | inr (p, ps, f, g) ↦ absurd (none_some p (sym e ∙ f))
]
  where
    none_some : (p : Bytes) → ◌≡◌ {A = Option Bytes} none (some p) → ⊥
    none_some p h = cc

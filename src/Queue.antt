-- ===== src/Queue.antt =====
-- `PayloadQueue`: queues.hh and queues.cc. `queue_fns` and the files on disk are one map, from a key
-- to the bytes of the file that is named after it; the names are in Queue/Names. Calls to the quota
-- manager and to the user are collected in `effects`, in order; each is the last thing that its
-- operation does, so that what the callee calls back comes after.
pub mod View
pub mod Peek
pub mod Push
pub mod Memory
pub mod Lost
pub mod AsFifo
pub mod Names
pub mod Restart
pub mod Reread
use udptun.Prelude.{
  ℕ, zero, suc, ◌+◌, ◌-◌, ◌^◌, ◌%◌, Bool, true, false, List, [], ◌∷◌, ◌++◌, map, Option, none, some,
  length, take, drop, ltb, leb, ◌==◌, if◌then◌else◌, ◌&&◌, ◌||◌, not, put, concat,
}
use udptun.Wire.{Bytes}
use udptun.Payload.{Payload, save, save_one, load_all, sum_lengths, of_chunks}

pub data Effect : Type 0 where
  -- `quota.increase`, `quota.decrease`, `quota.oldest`, `quota.forget` and `user()`
  increased decreased oldest : ℕ → Effect
  forgotten told_user : Effect

-- `std::ofstream out`, when it is open: the file that it writes, whether that is still in the
-- directory, and the bytes that are not on disk yet.
pub record OutFile : Type 0 where
  pub key : ℕ
  pub linked : Bool
  pub pending : Bytes

abbrev pub Files : Type 0
Files = List (ℕ × Bytes)

pub record PayloadQueue : Type 0 where
  pub max_mem : ℕ
  pub sz_mem : ℕ
  pub queue : List Bytes
  pub queue_fns : Files
  pub sz_out : ℕ
  pub out : Option OutFile
  pub disappointed : Bool
  pub effects : List Effect

abbrev pub emit : PayloadQueue → Effect → PayloadQueue
emit q e = record q { effects = q.effects ++ e ∷ [] }

-- Bytes that reach the end of a file on disk.
unfoldable pub append_to : ℕ → Bytes → Files → Files
append_to k bs [] = []
append_to k bs ((j, old) ∷ m) = if j == k then (j, old ++ bs) ∷ m else (j, old) ∷ append_to k bs m

-- Those of a stream: a file that is no longer in the directory keeps its bytes from everybody else.
abbrev pub append_out : OutFile → Bytes → Files → Files
append_out o bs files = if o.linked then append_to o.key bs files else files

-- `out.close()`
unfoldable pub close_out : PayloadQueue → PayloadQueue
close_out q = elim q.out [
  | none ↦ q
  | some o ↦ record q { queue_fns = append_out o o.pending q.queue_fns; out = none }
]

-- `out.open(nf, std::ios::binary)` on the file of a key, which is made, or emptied.
abbrev pub open_out : ℕ → PayloadQueue → PayloadQueue
open_out key q = record q {
  queue_fns = put key [] q.queue_fns;
  out = some (record { key = key; linked = true; pending = [] });
}

-- `std::filesystem::remove` of a file, as the stream that may be writing it sees it.
abbrev pub unlink : ℕ → Option OutFile → Option OutFile
unlink k none = none
unlink k (some o) = some (record o { linked = if o.key == k then false else o.linked })

-- The entries of the directory: their size is that of their bytes; `none` is a name that does not
-- end in ".queue", and another is given by the key that was read of it.
abbrev pub Entries : Type 0
Entries = List (Option ℕ × Bytes)

pub record Scan : Type 0 where
  pub files : Files
  pub total : ℕ
  pub oldest_key : ℕ

-- The loop of the constructor, but for the reading of the names.
unfoldable pub scan : Entries → Scan → Scan
scan [] s = s
scan ((none, bs) ∷ es) s = scan es s
scan ((some key, bs) ∷ es) s = scan es (record {
  files = put key bs s.files;
  total = s.total + length bs;
  oldest_key = if not (s.oldest_key == 0) || ltb key s.oldest_key then key else s.oldest_key;
})

unfoldable pub make : ℕ → Entries → PayloadQueue
make max_mem dir =
    let s = scan dir (record { files = []; total = 0; oldest_key = 0 }) in
    record {
      max_mem = max_mem;
      sz_mem = 0;
      queue = [];
      queue_fns = s.files;
      sz_out = 0;
      out = none;
      disappointed = true;
      effects = increased s.total ∷ oldest s.oldest_key ∷ [];
    }

-- `load1` until it fails, on the oldest file, which is then removed.
unfoldable pub load_file : ℕ → Bytes → Files → PayloadQueue → PayloadQueue
load_file k bs rest q =
    let r = load_all bs in
    record q {
      queue = q.queue ++ r.payloads;
      sz_mem = q.sz_mem + sum_lengths r.payloads;
      queue_fns = rest;
      out = unlink k q.out;
      effects = q.effects ++ decreased r.sum ∷ [];
    }

-- `load_head_file`, by the files that are left: until the queue holds something, or there are none.
unfoldable pub load_files : Files → PayloadQueue → Bool × PayloadQueue
load_files [] q = (false, q)
load_files ((k, bs) ∷ rest) q =
    let q' = load_file k bs rest q in
    let more = load_files rest q' in elim q'.queue [ [] ↦ more | p ∷ ps ↦ (true, q') ]

-- `discard_file`: the quota manager drops the oldest file.
unfoldable pub discard_file : PayloadQueue → PayloadQueue
discard_file q = elim q.queue_fns [
  | [] ↦ q
  | (k, bs) ∷ rest ↦ record q {
    queue_fns = rest;
    out = unlink k q.out;
    effects = q.effects ++ decreased (length bs) ∷ [];
  }
]

-- The head of the queue, which `peek` asserts to be there.
abbrev pub front : PayloadQueue → Option Bytes
front q = elim q.queue [ [] ↦ none | p ∷ ps ↦ some p ]

-- `none` is the null pointer, which comes with a note that the user wants to be told.
unfoldable pub peek : PayloadQueue → Option Bytes × PayloadQueue
peek q = elim q.queue [
  | [] ↦
      let r = load_files q.queue_fns q in
      if r.0 then (front r.1, r.1) else (none, record r.1 { disappointed = true })
  | p ∷ ps ↦ (some p, q)
]

unfoldable pub poke : PayloadQueue → PayloadQueue
poke q = let r = peek q in elim r.0 [ none ↦ r.1 | some p ↦ emit r.1 told_user ]

-- The argument is the payload that is assigned to; nothing happens to it if the queue is empty.
unfoldable pub consume : PayloadQueue → Payload → PayloadQueue × Payload
consume q into = elim q.queue [
  | [] ↦ (q, into)
  | p ∷ ps ↦ (record q { sz_mem = q.sz_mem - length p; queue = ps }, some p)
]

unfoldable pub unget : PayloadQueue → Payload → PayloadQueue
unget q none = q
unget q (some p) = record q { sz_mem = q.sz_mem + length p; queue = p ∷ q.queue }

-- How many of the bytes that a stream holds go to disk after a write: the library's choice.
abbrev pub Spill : Type 0
Spill = Bytes → ℕ

-- `out.write` of some bytes.
unfoldable pub write_out : Spill → Bytes → PayloadQueue → PayloadQueue
write_out spill bytes q = elim q.out [
  | none ↦ q
  | some o ↦
      let held = o.pending ++ bytes in
      record q {
        queue_fns = append_out o (take (spill held) held) q.queue_fns;
        out = some (record o { pending = drop (spill held) held });
      }
]

-- The branch of `push` that adds the entry to memory.
unfoldable pub push_memory : List Bytes → PayloadQueue → PayloadQueue
push_memory arr q =
    let was_empty : Bool = elim q.queue [ [] ↦ true | p ∷ ps ↦ false ] in
    let kept = record q {
      queue = q.queue ++ of_chunks arr ∷ [];
      sz_mem = q.sz_mem + sum_lengths arr;
    } in
    if was_empty && q.disappointed
    then emit (record kept { disappointed = false }) told_user
    else kept

-- A new file, made at the time `now` in nanoseconds, unless the one being written has room.
unfoldable pub choose_file : ℕ → ℕ → PayloadQueue → PayloadQueue
choose_file now len q =
    let fresh = record (open_out now (close_out q)) { sz_out = 0 } in
    elim q.out [ none ↦ fresh | some o ↦ if leb q.max_mem (q.sz_out + (2 + len)) then fresh else q ]

-- What follows the write: the size of the file, which is closed when it is full, and the quota.
unfoldable pub account_file : ℕ → PayloadQueue → PayloadQueue
account_file len q =
    let sized = record q { sz_out = q.sz_out + (len + 2) } in
    emit (if leb sized.max_mem sized.sz_out then close_out sized else sized) (increased (len + 2))

-- The branch of `push` that appends the payload to the latest file.
unfoldable pub push_file : Spill → ℕ → List Bytes → PayloadQueue → PayloadQueue
push_file spill now arr q =
    let len = sum_lengths arr in
    account_file len (write_out spill (save arr) (choose_file now len q))

-- Whether an entry of the length goes to memory.
abbrev pub fits_memory : PayloadQueue → ℕ → Bool
fits_memory q len = elim q.queue_fns [ [] ↦ ltb (q.sz_mem + len) q.max_mem | f ∷ fs ↦ false ]

unfoldable pub push : Spill → ℕ → List Bytes → PayloadQueue → PayloadQueue
push spill now arr q =
    if fits_memory q (sum_lengths arr) then push_memory arr q else push_file spill now arr q

-- `now_index() - 1`, or the first key less 1, in 64 bits.
abbrev pub key_before : ℕ → Files → ℕ
key_before now [] = (now + 2 ^ 64 - 1) % 2 ^ 64
key_before now ((k, bs) ∷ m) = (k + 2 ^ 64 - 1) % 2 ^ 64

abbrev pub sizes : Files → ℕ
sizes [] = 0
sizes ((k, bs) ∷ m) = length bs + sizes m

-- What the destructor does with the payloads in memory.
unfoldable pub save_memory : ℕ → PayloadQueue → PayloadQueue
save_memory now q = elim q.queue [
  | [] ↦ q
  | p ∷ ps ↦
      let c = close_out q in
      let key = key_before now q.queue_fns in
      record c { queue_fns = put key (concat (map save_one q.queue)) c.queue_fns }
]

-- The destructor. The sizes are those on disk before the stream, a member, is closed in its turn.
unfoldable pub destroy : ℕ → PayloadQueue → PayloadQueue
destroy now q =
    let s = save_memory now q in
    close_out (record s { effects = s.effects ++ decreased (sizes s.queue_fns) ∷ forgotten ∷ [] })

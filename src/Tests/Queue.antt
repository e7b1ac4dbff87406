-- ===== src/Tests/Queue.antt =====
-- A queue of payloads, at concrete inputs.
use udptun.Prelude.{
  find, ◌+◌, ◌<◌, ◌≡◌, refl, true, false, List, [], ◌∷◌, ◌++◌, none, some, arith, ok, length, leb,
  put,
}
use udptun.Payload.{load, load_all, of_chunks, save_one, save}
use udptun.Queue.View.{contents, settled}
use udptun.Queue.Peek.{Peeks, peek-Peeks}
use udptun.Queue.Push.{IsTidy, Adds, IsWhole}
use udptun.Queue.Push.Refine.{push-Adds}
use udptun.Queue.Memory.{
  IsCounted, Call, pushes, peeks, pokes, discards, consumes, ungets, run, step, run-make-IsCounted,
  peek-push_wakes,
}
use udptun.Queue.Lost.{push_dangling}
use udptun.Queue.Names.{make_on, name_all}
use udptun.Queue.Reread.{Readable, destroy-make_on}
use udptun.Queue.Restart.{Lists}
use udptun.Queue.{
  destroy, save_memory, Entries, PayloadQueue, Spill, make, peek, push, consume, told_user,
  load_files, load_file, append_to, push_memory, push_file, choose_file, close_out, write_out,
  account_file, scan, fits_memory,
}

-- Everything goes to disk at once.
abbrev pub spill_all : Spill
spill_all held = length held

-- A queue of at most ten bytes in memory, which has one file of two payloads.
abbrev with_file : PayloadQueue
with_file = record {
  max_mem = 10;
  sz_mem = 0;
  queue = [];
  queue_fns = (5, 0 ∷ 2 ∷ 1 ∷ 2 ∷ 0 ∷ 1 ∷ 3 ∷ []) ∷ [];
  sz_out = 7;
  out = some (record { key = 5; linked = true; pending = [] });
  disappointed = false;
  effects = [];
}

abbrev pub empty_queue : PayloadQueue
empty_queue = record {
  max_mem = 10;
  sz_mem = 0;
  queue = [];
  queue_fns = [];
  sz_out = 0;
  out = none;
  disappointed = true;
  effects = [];
}

peek-Peeks_example : Peeks with_file (peek with_file)
peek-Peeks_example = peek-Peeks with_file

with_file-IsWhole : IsWhole (0 ∷ 2 ∷ 1 ∷ 2 ∷ 0 ∷ 1 ∷ 3 ∷ [])
unfolding save_one
with_file-IsWhole = ((1 ∷ 2 ∷ []) ∷ (3 ∷ []) ∷ [], refl, (omega arith, (omega arith, tt)))

with_file-IsTidy : IsTidy with_file
unfolding append_to
with_file-IsTidy = record {
  whole = (with_file-IsWhole, tt);
  writes_last = (refl, 0 ∷ 2 ∷ 1 ∷ 2 ∷ 0 ∷ 1 ∷ 3 ∷ [], ([], refl, tt));
}

push-Adds_example :
    Adds with_file
      (of_chunks ((4 ∷ []) ∷ (5 ∷ []) ∷ []))
      (push spill_all 6 ((4 ∷ []) ∷ (5 ∷ []) ∷ []) with_file)
push-Adds_example =
    push-Adds spill_all 6 ((4 ∷ []) ∷ (5 ∷ []) ∷ []) with_file with_file-IsTidy (omega arith, tt)
      (omega arith)

abbrev some_calls : List Call
some_calls =
    peeks
    ∷ pushes 6 ((4 ∷ []) ∷ [])
    ∷ consumes none
    ∷ ungets (some (9 ∷ []))
    ∷ discards
    ∷ pokes
    ∷ []

run-make-IsCounted_example :
    IsCounted (run spill_all (make 10 ((some 5, 0 ∷ 1 ∷ 3 ∷ []) ∷ [])) some_calls)
run-make-IsCounted_example =
    run-make-IsCounted spill_all 10 ((some 5, 0 ∷ 1 ∷ 3 ∷ []) ∷ []) some_calls

peek_empty-room : 1 < (peek empty_queue).1.max_mem
unfolding peek load_files
peek_empty-room = omega arith

peek_empty : (peek empty_queue).0 ≡ none
unfolding peek load_files
peek_empty = refl

peek-push_wakes_example :
    ((push spill_all 6 ((4 ∷ []) ∷ []) (peek empty_queue).1).effects
      ≡ (peek empty_queue).1.effects ++ told_user ∷ [])
    × ((push spill_all 6 ((4 ∷ []) ∷ []) (peek empty_queue).1).disappointed ≡ false)
    × ((peek (push spill_all 6 ((4 ∷ []) ∷ []) (peek empty_queue).1)).0
        ≡ some (of_chunks ((4 ∷ []) ∷ [])))
peek-push_wakes_example =
    peek-push_wakes spill_all 6 ((4 ∷ []) ∷ []) empty_queue refl peek_empty peek_empty-room

-- A first payload fills the memory, so the second one goes to a file. When the first is read, so is
-- that file, which is removed; then a third payload fills the memory again.
abbrev refilled_queue : PayloadQueue
refilled_queue = run spill_all (make 10 []) (
    pushes 1 ((1 ∷ 1 ∷ 1 ∷ 1 ∷ 1 ∷ 1 ∷ 1 ∷ 1 ∷ 1 ∷ []) ∷ [])
    ∷ pushes 2 ((5 ∷ []) ∷ [])
    ∷ consumes none
    ∷ peeks
    ∷ pushes 3 ((1 ∷ 1 ∷ 1 ∷ 1 ∷ 1 ∷ 1 ∷ 1 ∷ 1 ∷ []) ∷ [])
    ∷ [])

refilled_queue-fields :
    (refilled_queue.out ≡ some (record { key = 2; linked = false; pending = [] }))
    × (fits_memory refilled_queue 1 ≡ false)
    × (leb refilled_queue.max_mem (refilled_queue.sz_out + 3) ≡ false)
unfolding run step make scan push push_memory push_file choose_file close_out write_out save
    account_file append_to consume peek load_files load_file load_all load put
refilled_queue-fields = (refl, refl, refl)

push_dangling_example :
    settled (push spill_all 4 ((6 ∷ []) ∷ []) refilled_queue) ≡ settled refilled_queue
push_dangling_example =
    push_dangling spill_all 4 ((6 ∷ []) ∷ []) refilled_queue
      (record { key = 2; linked = false; pending = [] }) (refilled_queue-fields.0) refl
      (refilled_queue-fields.1) (refilled_queue-fields.2)

-- A payload in memory, and one that the stream still holds.
abbrev closing_queue : PayloadQueue
closing_queue = record with_file {
  sz_mem = 1;
  queue = (9 ∷ []) ∷ [];
  out = some (record { key = 5; linked = true; pending = 0 ∷ 1 ∷ 8 ∷ [] });
}

abbrev closing_directory : Entries
closing_directory =
    (some 5, 0 ∷ 2 ∷ 1 ∷ 2 ∷ 0 ∷ 1 ∷ 3 ∷ 0 ∷ 1 ∷ 8 ∷ [])
    ∷ (none, 1 ∷ [])
    ∷ (some 4, 0 ∷ 1 ∷ 9 ∷ [])
    ∷ []

closing_directory-Lists : Lists closing_directory (destroy 7 closing_queue).queue_fns
unfolding destroy save_memory close_out append_to put save_one find
closing_directory-Lists k = ground arith

closing_queue-Readable : Readable closing_queue.queue_fns
unfolding find
closing_queue-Readable k bs e = ground arith

destroy-make_on_example :
    (q' : PayloadQueue) × (make_on 10 (name_all closing_directory) ≡ ok q')
    × (contents q' ≡ settled closing_queue)
destroy-make_on_example =
    destroy-make_on 7 10 closing_queue closing_directory (omega arith, tt) (tt, tt)
      closing_queue-Readable (omega arith) (omega arith) closing_directory-Lists

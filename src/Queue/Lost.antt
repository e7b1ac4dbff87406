-- ===== src/Queue/Lost.antt =====
-- A stream that goes on writing a file which has been read back and removed.
use udptun.Prelude.{ℕ, ◌+◌, ◌≡◌, sym, ◌∙◌, false, List, ◌++◌, some, arith, leb, drop}
use udptun.Wire.{Bytes}
use udptun.Payload.{save, sum_lengths}
use udptun.Queue.View.{settled, stored}
use udptun.Queue.Push.OnDisk.{choose_file_same}
use udptun.Queue.{
  PayloadQueue, OutFile, Spill, close_out, write_out, choose_file, account_file, push_file,
  fits_memory, push,
}

write_out_dangling :
    (spill : Spill) (bytes : Bytes) (q : PayloadQueue) (o : OutFile)
    → q.out ≡ some o
    → o.linked ≡ false
    → ((write_out spill bytes q).queue_fns ≡ q.queue_fns)
      × ((write_out spill bytes q).queue ≡ q.queue)
      × ((o' : OutFile) × ((write_out spill bytes q).out ≡ some o') × (o'.linked ≡ false))
unfolding write_out
write_out_dangling spill bytes q o e l =
    let held = o.pending ++ bytes in
    (ground arith, ground arith, (record o { pending = drop (spill held) held }, ground arith, l))

account_file_dangling :
    (len : ℕ) (q : PayloadQueue) (o : OutFile)
    → q.out ≡ some o
    → o.linked ≡ false
    → settled (account_file len q) ≡ q.queue ++ stored q.queue_fns
unfolding account_file close_out
account_file_dangling len q o e l = ground arith

-- A payload that does not go to memory, while the stream is open on a file that is no longer in
-- the directory and has room for it, is lost: what there will be to read once the stream is closed
-- is as before the call.
pub push_dangling :
    (spill : Spill) (now : ℕ) (arr : List Bytes) (q : PayloadQueue) (o : OutFile)
    → q.out ≡ some o
    → o.linked ≡ false
    → fits_memory q (sum_lengths arr) ≡ false
    → leb q.max_mem (q.sz_out + (2 + sum_lengths arr)) ≡ false
    → settled (push spill now arr q) ≡ settled q
unfolding push push_file
push_dangling spill now arr q o e l f g =
    let len = sum_lengths arr in
    let w = write_out spill (save arr) q in
    let (a, b, (o', e', l')) = write_out_dangling spill (save arr) q o e l in
    let to_file : push spill now arr q ≡ push_file spill now arr q = rw (push, f) in
    let no_new : choose_file now len q ≡ q = choose_file_same now len q o e g in
    let after : settled (account_file len w) ≡ q.queue ++ stored q.queue_fns =
      account_file_dangling len w o' e' l' ∙ rw (a, b) in
    let before : settled q ≡ q.queue ++ stored q.queue_fns = ground arith in
    rw (to_file, no_new) (after ∙ sym before)

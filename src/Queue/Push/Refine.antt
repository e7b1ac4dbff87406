-- ===== src/Queue/Push/Refine.antt =====
-- `push` on all its branches.
use udptun.Prelude.{
  ℕ, ◌+◌, ◌≡◌, refl, true, List, [], ◌∷◌, ◌++◌, Option, none, some, inl, inr, arith, append-nil,
  Bool-cases,
}
use udptun.Wire.{Bytes}
use udptun.Payload.Load.{IsShort}
use udptun.Payload.{sum_lengths, of_chunks}
use udptun.Queue.View.{settled_files}
use udptun.Queue.Push.OnDisk.{push_file-Adds}
use udptun.Queue.Push.{IsTidy, AllBelow, Adds}
use udptun.Queue.{PayloadQueue, OutFile, Spill, append_to, push_memory, fits_memory, push}

pub push_memory_fields :
    (arr : List Bytes) (q : PayloadQueue)
    → ((push_memory arr q).queue ≡ q.queue ++ of_chunks arr ∷ [])
      × ((push_memory arr q).queue_fns ≡ q.queue_fns)
      × ((push_memory arr q).out ≡ q.out)
      × ((push_memory arr q).sz_mem ≡ q.sz_mem + sum_lengths arr)
unfolding push_memory
push_memory_fields arr q = (ground arith, ground arith, ground arith, ground arith)

pub fits_memory-queue_fns :
    (q : PayloadQueue) (len : ℕ) → fits_memory q len ≡ true → q.queue_fns ≡ []
fits_memory-queue_fns q len h = ground arith

settled_nil : (out : Option OutFile) → settled_files out [] ≡ []
settled_nil none = refl
settled_nil (some o) = elim (Bool-cases o.linked) [
  | inl e ↦ rw e (unfold append_to in refl)
  | inr e ↦ rw e
]

push_memory-Adds :
    (arr : List Bytes) (q : PayloadQueue)
    → IsTidy q
    → q.queue_fns ≡ []
    → Adds q (of_chunks arr) (push_memory arr q)
push_memory-Adds arr q t e =
    let (a, b, c, _) = push_memory_fields arr q in
    record {
      added = rw (a, b, c, e, settled_nil q.out, append-nil, append-nil);
      tidy = record { whole = rw (b, c) t.whole; writes_last = rw (b, c) t.writes_last };
    }

-- If the queue's files are in order, the time is after all of their keys, and the payload's length
-- has two bytes: on every branch, in memory or on disk, the payload is added at the end of what
-- the queue will give back once its stream is closed, and the files stay in order.
pub push-Adds :
    (spill : Spill) (now : ℕ) (arr : List Bytes) (q : PayloadQueue)
    → IsTidy q
    → AllBelow now q.queue_fns
    → IsShort (of_chunks arr)
    → Adds q (of_chunks arr) (push spill now arr q)
unfolding push
push-Adds spill now arr q t b h = elim (Bool-cases (fits_memory q (sum_lengths arr))) [
  | inl f ↦ rw (push, f) (push_memory-Adds arr q t (fits_memory-queue_fns q (sum_lengths arr) f))
  | inr f ↦ rw (push, f) (push_file-Adds spill now arr q t b h)
]

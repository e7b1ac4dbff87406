-- ===== src/Queue/View.antt =====
-- What a queue holds: the payloads in memory, then those of its files, oldest first.
use udptun.Prelude.{◌+◌, ◌≡◌, List, [], ◌∷◌, ◌++◌, none, some, Option, arith}
use udptun.Wire.{Bytes}
use udptun.Payload.{load_all, sum_lengths}
use udptun.Queue.{PayloadQueue, OutFile, Files, append_out}

-- The payloads that the files hold on disk.
abbrev pub stored : Files → List Bytes
stored [] = []
stored ((k, bs) ∷ m) = (load_all bs).payloads ++ stored m

-- What a reader may get at now.
abbrev pub contents : PayloadQueue → List Bytes
contents q = q.queue ++ stored q.queue_fns

-- The files once the stream is closed.
abbrev pub settled_files : Option OutFile → Files → Files
settled_files none files = files
settled_files (some o) files = append_out o o.pending files

-- What a reader may get at once the stream is closed.
abbrev pub settled : PayloadQueue → List Bytes
settled q = q.queue ++ stored (settled_files q.out q.queue_fns)

pub sum_lengths-append :
    (xs ys : List Bytes) → sum_lengths (xs ++ ys) ≡ sum_lengths xs + sum_lengths ys
sum_lengths-append [] ys = omega arith
sum_lengths-append (x ∷ xs) ys = omega (arith, sum_lengths-append xs ys)

-- ===== src/Queue/Restart.antt =====
-- A queue that is destroyed, and made again on the directory that it has left.
use udptun.Prelude.{
  ℕ, ◌+◌, ◌-◌, ◌%◌, ◌^◌, ◌<◌, ◌≡◌, refl, sym, ap, subst, ◌∙◌, true, false, List, [], ◌∷◌, ◌++◌, map,
  Option, none, some, inl, inr, arith, find, put, find-put, ltb, ◌==◌, if◌then◌else◌, Bool-cases,
  List-cases, concat,
}
use udptun.Prelude.Sorted.{Above, Ordered, put-Ordered, Ordered-ext}
use udptun.Payload.Load.{AllShort, saves, load_all_whole}
use udptun.Payload.{save_one}
use udptun.Queue.Push.{close_out-settled}
use udptun.Queue.View.{stored, contents, settled, settled_files}
use udptun.Queue.{
  PayloadQueue, OutFile, Files, Entries, Scan, scan, make, append_to, close_out, save_memory,
  destroy, key_before,
}
use udptun.Wire.{Bytes}

-- The bytes of the last entry of this key, or these if there is none.
abbrev pub listed : ℕ → Entries → Option Bytes → Option Bytes
listed k [] d = d
listed k ((none, bs) ∷ es) d = listed k es d
listed k ((some j, bs) ∷ es) d = listed k es (if j == k then some bs else d)

-- The directory, in whatever order it is read, has the files.
abbrev pub Lists : Entries → Files → Type 0
Lists dir files = (k : ℕ) → listed k dir none ≡ find k files

find-scan :
    (k : ℕ) (dir : Entries) (s : Scan) → find k (scan dir s).files ≡ listed k dir (find k s.files)
unfolding scan
find-scan k [] s = refl
find-scan k ((none, bs) ∷ es) s = find-scan k es s
find-scan k ((some j, bs) ∷ es) s = find-scan k es _ ∙ ap (listed k es) (find-put k j bs s.files)

scan-Ordered : (dir : Entries) (s : Scan) → Ordered s.files → Ordered (scan dir s).files
unfolding scan
scan-Ordered [] s o = o
scan-Ordered ((none, bs) ∷ es) s o = scan-Ordered es s o
scan-Ordered ((some j, bs) ∷ es) s o = scan-Ordered es _ (put-Ordered j bs s.files o)

find-none_files : (k : ℕ) → find {V = Bytes} k [] ≡ none
unfolding find
find-none_files k = refl

make-files :
    (max_mem : ℕ) (dir : Entries) (files : Files)
    → Ordered files
    → Lists dir files
    → contents (make max_mem dir) ≡ stored files
unfolding make
make-files max_mem dir files o l =
    let init : Scan = record { files = []; total = 0; oldest_key = 0 } in
    ap stored (
      Ordered-ext (scan dir init).files files (scan-Ordered dir init tt) o
        (λ k. find-scan k dir init ∙ ap (listed k dir) (find-none_files k) ∙ l k))

append_to-Above : (j k : ℕ) (bs : Bytes) (m : Files) → Above j m → Above j (append_to k bs m)
unfolding append_to
append_to-Above j k bs [] a = tt
append_to-Above j k bs ((i, old) ∷ m) (lt, a) = elim (Bool-cases (i == k)) [
  | inl e ↦ rw e (lt, a)
  | inr e ↦ rw e (lt, append_to-Above j k bs m a)
]

append_to-Ordered : (k : ℕ) (bs : Bytes) (m : Files) → Ordered m → Ordered (append_to k bs m)
unfolding append_to
append_to-Ordered k bs [] o = tt
append_to-Ordered k bs ((i, old) ∷ m) (a, o) = elim (Bool-cases (i == k)) [
  | inl e ↦ rw e (a, o)
  | inr e ↦ rw e (append_to-Above i k bs m a, append_to-Ordered k bs m o)
]

settled_files-Ordered :
    (out : Option OutFile) (m : Files) → Ordered m → Ordered (settled_files out m)
settled_files-Ordered none m o = o
settled_files-Ordered (some w) m o = elim (Bool-cases w.linked) [
  | inl e ↦ rw e (append_to-Ordered w.key w.pending m o)
  | inr e ↦ rw e o
]

-- The first key, if there is one, can be counted down from.
abbrev pub HasRoom : Files → Type 0
HasRoom [] = Unit {0}
HasRoom ((k, bs) ∷ m) = (0 < k) × (k < 2 ^ 64)

-- Settling keeps the first key.
abbrev SameFirst : Files → Files → Type 0
SameFirst [] m = m ≡ []
SameFirst ((k, bs) ∷ rest) m = (bs' : Bytes) × (rest' : Files) × (m ≡ (k, bs') ∷ rest')

append_to-SameFirst : (k : ℕ) (bs : Bytes) (m : Files) → SameFirst m (append_to k bs m)
unfolding append_to
append_to-SameFirst k bs [] = refl
append_to-SameFirst k bs ((i, old) ∷ m) = elim (Bool-cases (i == k)) [
  | inl e ↦ rw e (old ++ bs, m, refl)
  | inr e ↦ rw e (old, append_to k bs m, refl)
]

same_SameFirst : (m : Files) → SameFirst m m
same_SameFirst [] = refl
same_SameFirst ((k, bs) ∷ m) = (bs, m, refl)

settled_files-SameFirst : (out : Option OutFile) (m : Files) → SameFirst m (settled_files out m)
settled_files-SameFirst none m = same_SameFirst m
settled_files-SameFirst (some w) m = elim (Bool-cases w.linked) [
  | inl e ↦ rw e (append_to-SameFirst w.key w.pending m)
  | inr e ↦ rw e (same_SameFirst m)
]

put_first :
    (now : ℕ) (bs : Bytes) (files m : Files)
    → HasRoom files
    → SameFirst files m
    → put (key_before now files) bs m ≡ (key_before now files, bs) ∷ m
unfolding put
put_first now bs [] m r e = rw e refl
put_first now bs ((k, old) ∷ rest) m (pos, small) (bs', rest', e) =
    let less : (k + 2 ^ 64 - 1) % 2 ^ 64 < k = omega arith in
    let b1 : (k == (k + 2 ^ 64 - 1) % 2 ^ 64) ≡ false = ground arith in
    let b2 : ltb ((k + 2 ^ 64 - 1) % 2 ^ 64) k ≡ true = ground arith in rw (e, b1, b2) refl

settled_files_closed :
    (q : PayloadQueue) (out : Option OutFile) (m : Files) → out ≡ none → settled_files out m ≡ m
settled_files_closed q out m e = rw e refl

close_out-files : (q : PayloadQueue) → (close_out q).queue_fns ≡ settled_files q.out q.queue_fns
close_out-files q =
    let (e, n, _) = close_out-settled q in
    sym (settled_files_closed q (close_out q).out (close_out q).queue_fns n) ∙ e

save_memory-nil : (now : ℕ) (q : PayloadQueue) → q.queue ≡ [] → save_memory now q ≡ q
unfolding save_memory
save_memory-nil now q e = ground arith

save_memory_some :
    (now : ℕ) (q : PayloadQueue) (p : Bytes) (ps : List Bytes)
    → q.queue ≡ p ∷ ps
    → save_memory now q ≡ record (close_out q) {
      queue_fns =
          put (key_before now q.queue_fns) (concat (map save_one q.queue)) (close_out q).queue_fns;
    }
unfolding save_memory
save_memory_some now q p ps e = ground arith

destroy-files :
    (now : ℕ) (q : PayloadQueue)
    → (destroy now q).queue_fns
      ≡ settled_files (save_memory now q).out (save_memory now q).queue_fns
unfolding destroy
destroy-files now q = close_out-files _

pub destroy-files_nil :
    (now : ℕ) (q : PayloadQueue)
    → q.queue ≡ []
    → (destroy now q).queue_fns ≡ settled_files q.out q.queue_fns
destroy-files_nil now q e =
    destroy-files now q
    ∙ ap (λ (s : PayloadQueue). settled_files s.out s.queue_fns) (save_memory-nil now q e)

pub destroy-files_some :
    (now : ℕ) (q : PayloadQueue) (p : Bytes) (ps : List Bytes)
    → q.queue ≡ p ∷ ps
    → (destroy now q).queue_fns
      ≡ put (key_before now q.queue_fns) (saves q.queue) (settled_files q.out q.queue_fns)
destroy-files_some now q p ps e =
    let (_, n, _) = close_out-settled q in
    let key = key_before now q.queue_fns in
    destroy-files now q
    ∙ ap (λ (s : PayloadQueue). settled_files s.out s.queue_fns) (save_memory_some now q p ps e)
    ∙ settled_files_closed q (close_out q).out (put key (saves q.queue) (close_out q).queue_fns) n
    ∙ ap (put key (saves q.queue)) (close_out-files q)

-- What the files hold after the destructor, which is in order.
destroy-stored :
    (now : ℕ) (q : PayloadQueue)
    → AllShort q.queue
    → Ordered q.queue_fns
    → HasRoom q.queue_fns
    → Ordered (destroy now q).queue_fns × (stored (destroy now q).queue_fns ≡ settled q)
destroy-stored now q short o room = elim (List-cases q.queue) [
  | inl e ↦
      let f = destroy-files_nil now q e in
      let files = settled_files q.out q.queue_fns in
      (
        subst Ordered (sym f) (settled_files-Ordered q.out q.queue_fns o),
        ap stored f ∙ ap (λ x. x ++ stored files) (sym e),
      )
  | inr (p, ps, e) ↦
      let key = key_before now q.queue_fns in
      let files = settled_files q.out q.queue_fns in
      let f = destroy-files_some now q p ps e in
      let g : put key (saves q.queue) files ≡ (key, saves q.queue) ∷ files =
        put_first now (saves q.queue) q.queue_fns files room
          (settled_files-SameFirst q.out q.queue_fns) in
      (
        subst Ordered (sym f)
            (put-Ordered key (saves q.queue) files (settled_files-Ordered q.out q.queue_fns o)),
        ap stored (f ∙ g) ∙ ap (λ r. r.payloads ++ stored files) (load_all_whole q.queue short),
      )
]

-- The same with the keys of the files in place of their names.
pub destroy-make_keys :
    (now max_mem : ℕ) (q : PayloadQueue) (dir : Entries)
    → AllShort q.queue
    → Ordered q.queue_fns
    → HasRoom q.queue_fns
    → Lists dir (destroy now q).queue_fns
    → contents (make max_mem dir) ≡ settled q
destroy-make_keys now max_mem q dir short o room l =
    let (o', e) = destroy-stored now q short o room in
    make-files max_mem dir (destroy now q).queue_fns o' l ∙ e

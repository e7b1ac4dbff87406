-- ===== src/Queue/Push.antt =====
-- Adding to a queue: the payload comes last, in memory or at the end of the latest file.
pub mod OnDisk
pub mod Refine
use udptun.Prelude.{
  ℕ, suc, ◌+◌, ◌≤◌, ◌<◌, ◌≡◌, ◌≢◌, refl, sym, ap, ◌∙◌, Bool, true, false, List, [], ◌∷◌, ◌++◌, map,
  Option, none, some, inl, inr, ◌⊎◌, arith, length, take, drop, append-nil, append_assoc, put,
  concat, take-append-drop, ltb, leb, ◌==◌, if◌then◌else◌, Bool-cases, Option-cases, List-cases,
}
use udptun.Wire.{Bytes}
use udptun.Payload.Load.{
  AllShort, IsShort, saves, load_all_whole, saves-append, AllShort-append, save-save_one,
}
use udptun.Payload.{load_all, save, save_one, sum_lengths, of_chunks}
use udptun.Queue.View.{stored, contents, settled, settled_files}
use udptun.Queue.{
  PayloadQueue, OutFile, Files, Spill, append_to, append_out, close_out, open_out, write_out,
  push_memory, choose_file, push_file, fits_memory, push, emit, increased,
}

-- A file holds saved payloads, the last of them whole.
abbrev pub IsWhole : Bytes → Type 0
IsWhole bs = (ps : List Bytes) × (bs ≡ saves ps) × AllShort ps

abbrev pub AllWhole : Files → Type 0
AllWhole [] = Unit {0}
AllWhole ((k, bs) ∷ m) = IsWhole bs × AllWhole m

abbrev pub Absent : ℕ → Files → Type 0
Absent k [] = Unit {0}
Absent k ((j, bs) ∷ m) = (j ≢ k) × Absent k m

-- The last file has this key, and these bytes; it is the only one of the key.
abbrev pub IsLast : ℕ → Bytes → Files → Type 0
IsLast k bs m = (front : Files) × (m ≡ front ++ (k, bs) ∷ []) × Absent k front

-- Every key is below this one.
abbrev pub AllBelow : ℕ → Files → Type 0
AllBelow k [] = Unit {0}
AllBelow k ((j, bs) ∷ m) = (j < k) × AllBelow k m

-- The stream, if it is open, writes the last file of the directory.
abbrev pub WritesLast : Option OutFile → Files → Type 0
WritesLast none files = Unit {0}
WritesLast (some o) files = (o.linked ≡ true) × (bs : Bytes) × IsLast o.key bs files

-- The files are in order, but for what the stream still holds.
pub record IsTidy (q : PayloadQueue) : Type 0 where
  pub whole : AllWhole (settled_files q.out q.queue_fns)
  pub writes_last : WritesLast q.out q.queue_fns

append_to_last :
    (k : ℕ) (bs xs : Bytes) (front : Files)
    → Absent k front
    → append_to k xs (front ++ (k, bs) ∷ []) ≡ front ++ (k, bs ++ xs) ∷ []
unfolding append_to
append_to_last k bs xs [] h = ground arith
append_to_last k bs xs ((j, b) ∷ m) h = ground (arith, append_to_last k bs xs m)

put_above : (k : ℕ) (bs : Bytes) (m : Files) → AllBelow k m → put k bs m ≡ m ++ (k, bs) ∷ []
unfolding put
put_above k bs [] h = refl
put_above k bs ((j, b) ∷ m) h = ground (arith, put_above k bs m)

AllBelow-Absent : (k : ℕ) (m : Files) → AllBelow k m → Absent k m
AllBelow-Absent k [] h = tt
AllBelow-Absent k ((j, b) ∷ m) h = (omega arith, AllBelow-Absent k m h.1)

pub stored-append : (xs ys : Files) → stored (xs ++ ys) ≡ stored xs ++ stored ys
stored-append [] ys = refl
stored-append ((k, bs) ∷ m) ys = rw (stored-append m ys, append_assoc)

AllWhole-append : (xs ys : Files) → AllWhole xs → AllWhole ys → AllWhole (xs ++ ys)
AllWhole-append [] ys v w = w
AllWhole-append (f ∷ m) ys v w = (v.0, AllWhole-append m ys v.1 w)

AllWhole-left : (xs ys : Files) → AllWhole (xs ++ ys) → AllWhole xs
AllWhole-left [] ys v = tt
AllWhole-left (f ∷ m) ys v = (v.0, AllWhole-left m ys v.1)

AllWhole-right : (xs ys : Files) → AllWhole (xs ++ ys) → AllWhole ys
AllWhole-right [] ys v = v
AllWhole-right (f ∷ m) ys v = AllWhole-right m ys v.1

-- Saving a payload at the end of a whole file.
IsWhole-save :
    (bs p : Bytes)
    → IsWhole bs
    → IsShort p
    → IsWhole (bs ++ save_one p)
      × ((load_all (bs ++ save_one p)).payloads ≡ (load_all bs).payloads ++ p ∷ [])
IsWhole-save bs p (ps, e, v) h =
    let v' : AllShort (ps ++ p ∷ []) = AllShort-append ps (p ∷ []) v (h, tt) in
    let e' : bs ++ save_one p ≡ saves (ps ++ p ∷ []) =
      rw (e, saves-append ps (p ∷ []), append-nil) in
    ((ps ++ p ∷ [], e', v'), rw (e', e, load_all_whole ps v, load_all_whole (ps ++ p ∷ []) v'))

-- A payload saved at the end of the last file comes last of all that is stored.
stored_last :
    (k : ℕ) (bs p : Bytes) (front : Files)
    → AllWhole (front ++ (k, bs) ∷ [])
    → IsShort p
    → (stored (front ++ (k, bs ++ save_one p) ∷ []) ≡ stored (front ++ (k, bs) ∷ []) ++ p ∷ [])
      × AllWhole (front ++ (k, bs ++ save_one p) ∷ [])
stored_last k bs p front v h =
    let w : IsWhole bs = (AllWhole-right front ((k, bs) ∷ []) v).0 in
    let (w', e) = IsWhole-save bs p w h in
    (
      rw (stored-append, stored-append, e, append-nil, append-nil, append_assoc),
      AllWhole-append front _ (AllWhole-left front ((k, bs) ∷ []) v) (w', tt),
    )

append_to-AllBelow :
    (k i : ℕ) (bs : Bytes) (m : Files) → AllBelow i m → AllBelow i (append_to k bs m)
unfolding append_to
append_to-AllBelow k i bs [] h = tt
append_to-AllBelow k i bs ((j, b) ∷ m) h = ground (arith, append_to-AllBelow k i bs m h.1)

settled-AllBelow :
    (now : ℕ) (out : Option OutFile) (m : Files)
    → AllBelow now m
    → AllBelow now (settled_files out m)
settled-AllBelow now none m h = h
settled-AllBelow now (some o) m h = elim (Bool-cases o.linked) [
  | inl e ↦ rw e (append_to-AllBelow o.key now o.pending m h)
  | inr e ↦ rw e h
]

-- What closing the stream does to a queue, by whether it was open.
pub close_out-none : (q : PayloadQueue) → q.out ≡ none → close_out q ≡ q
unfolding close_out
close_out-none q e = ground arith

pub close_out-some :
    (q : PayloadQueue) (o : OutFile)
    → q.out ≡ some o
    → close_out q ≡ record q { queue_fns = append_out o o.pending q.queue_fns; out = none }
unfolding close_out
close_out-some q o e = ground arith

-- Closing the stream changes nothing of what there will be to read.
pub close_out-settled :
    (q : PayloadQueue)
    → (settled_files (close_out q).out (close_out q).queue_fns ≡ settled_files q.out q.queue_fns)
      × ((close_out q).out ≡ none)
      × ((close_out q).queue ≡ q.queue)
close_out-settled q = elim (Option-cases q.out) [
  | inl e ↦ rw (close_out-none q e) (refl, e, refl)
  | inr (o, e) ↦ rw (close_out-some q o e, e) (refl, refl, refl)
]

close_out-IsTidy : (q : PayloadQueue) → IsTidy q → IsTidy (close_out q)
close_out-IsTidy q t =
    let (e, n, _) = close_out-settled q in record { whole = rw e t.whole; writes_last = rw n tt }

-- A payload is added at the end of what there will be to read.
pub record Adds (q : PayloadQueue) (p : Bytes) (q' : PayloadQueue) : Type 0 where
  pub added : settled q' ≡ settled q ++ p ∷ []
  pub tidy : IsTidy q'

-- A new file for a queue whose stream is closed.
open_out-IsTidy :
    (now : ℕ) (q : PayloadQueue)
    → AllWhole q.queue_fns
    → AllBelow now q.queue_fns
    → IsTidy (open_out now q) × (settled (open_out now q) ≡ q.queue ++ stored q.queue_fns)
open_out-IsTidy now q v b =
    let e = put_above now [] q.queue_fns b in
    let absent = AllBelow-Absent now q.queue_fns b in
    let f = append_to_last now [] [] q.queue_fns absent in
    let none_yet : (load_all []).payloads ≡ [] = ap (λ l. l.payloads) (load_all_whole [] tt) in
    let w : IsWhole [] = ([], refl, tt) in
    (
      record {
        whole = rw (e, f) (AllWhole-append q.queue_fns ((now, []) ∷ []) v (w, tt));
        writes_last = (refl, [], (q.queue_fns, e, absent));
      },
      rw (e, f, stored-append, none_yet, append-nil),
    )

-- ===== src/Queue/Push/OnDisk.antt =====
-- The branch of `push` that writes a file.
use udptun.Prelude.{
  ℕ, ◌+◌, ◌≡◌, refl, sym, ap, ◌∙◌, true, false, List, [], ◌∷◌, ◌++◌, none, some, inl, inr, arith,
  take, drop, append_assoc, take-append-drop, leb, Bool-cases, Option-cases,
}
use udptun.Wire.{Bytes}
use udptun.Payload.Load.{IsShort, save-save_one}
use udptun.Payload.{save, save_one, sum_lengths, of_chunks}
use udptun.Queue.View.{settled, settled_files}
use udptun.Queue.Push.{
  IsTidy, AllWhole, AllBelow, WritesLast, Absent, Adds, append_to_last, stored_last,
  settled-AllBelow, close_out-settled, close_out-IsTidy, open_out-IsTidy,
}
use udptun.Queue.{
  PayloadQueue, OutFile, Files, Spill, append_out, close_out, open_out, write_out, choose_file,
  account_file, push_file, emit, increased,
}

-- A stream that is open on the last file, with nothing lost.
record Chosen (q c : PayloadQueue) : Type 0 where
  tidy : IsTidy c
  same : settled c ≡ settled q
  open_on : (o : OutFile) × (c.out ≡ some o)

fresh_file : ℕ → PayloadQueue → PayloadQueue
fresh_file now q = record (open_out now (close_out q)) { sz_out = 0 }

choose_file_fresh :
    (now len : ℕ) (q : PayloadQueue) → q.out ≡ none → choose_file now len q ≡ fresh_file now q
unfolding choose_file fresh_file
choose_file_fresh now len q e = ground arith

choose_file_full :
    (now len : ℕ) (q : PayloadQueue) (o : OutFile)
    → q.out ≡ some o
    → leb q.max_mem (q.sz_out + (2 + len)) ≡ true
    → choose_file now len q ≡ fresh_file now q
unfolding choose_file fresh_file
choose_file_full now len q o e h = ground arith

pub choose_file_same :
    (now len : ℕ) (q : PayloadQueue) (o : OutFile)
    → q.out ≡ some o
    → leb q.max_mem (q.sz_out + (2 + len)) ≡ false
    → choose_file now len q ≡ q
unfolding choose_file
choose_file_same now len q o e h = ground arith

fresh_file-Chosen :
    (now : ℕ) (q : PayloadQueue) → IsTidy q → AllBelow now q.queue_fns → Chosen q (fresh_file now q)
unfolding fresh_file
fresh_file-Chosen now q t b =
    let (e, n, k) = close_out-settled q in
    let c = close_out-IsTidy q t in
    let files : (close_out q).queue_fns ≡ settled_files q.out q.queue_fns = rw n at e in
    let whole : AllWhole (close_out q).queue_fns = rw files t.whole in
    let below : AllBelow now (close_out q).queue_fns =
      rw files (settled-AllBelow now q.out q.queue_fns b) in
    let (t', s) = open_out-IsTidy now (close_out q) whole below in
    record {
      tidy = record { whole = t'.whole; writes_last = t'.writes_last };
      same = s ∙ rw (k, files);
      open_on = (record { key = now; linked = true; pending = [] }, refl);
    }

choose_file-Chosen :
    (now len : ℕ) (q : PayloadQueue)
    → IsTidy q
    → AllBelow now q.queue_fns
    → Chosen q (choose_file now len q)
choose_file-Chosen now len q t b = elim (Option-cases q.out) [
  | inl e ↦ rw (choose_file_fresh now len q e) (fresh_file-Chosen now q t b)
  | inr (o, e) ↦ elim (Bool-cases (leb q.max_mem (q.sz_out + (2 + len)))) [
    | inl h ↦ rw (choose_file_full now len q o e h) (fresh_file-Chosen now q t b)
    | inr h ↦
        rw (choose_file_same now len q o e h) (record { tidy = t; same = refl; open_on = (o, e) })
  ]
]

write_out-some :
    (spill : Spill) (bytes : Bytes) (q : PayloadQueue) (o : OutFile)
    → q.out ≡ some o
    → write_out spill bytes q ≡ (
        let held = o.pending ++ bytes in
        record q {
          queue_fns = append_out o (take (spill held) held) q.queue_fns;
          out = some (record o { pending = drop (spill held) held });
        })
unfolding write_out
write_out-some spill bytes q o e = ground arith

-- Where the bytes of a write end up, whatever part of them goes to disk at once.
written_files :
    (n : ℕ) (o : OutFile) (m : Files) (bytes bs : Bytes) (front : Files)
    → o.linked ≡ true
    → m ≡ front ++ (o.key, bs) ∷ []
    → Absent o.key front
    → let held = o.pending ++ bytes in
      let m' = append_out o (take n held) m in
      (settled_files (some o) m ≡ front ++ (o.key, bs ++ o.pending) ∷ [])
      × (m' ≡ front ++ (o.key, bs ++ take n held) ∷ [])
      × (append_out o (drop n held) m' ≡ front ++ (o.key, (bs ++ o.pending) ++ bytes) ∷ [])
written_files n o m bytes bs front l e a =
    let held = o.pending ++ bytes in
    let to : (x b : Bytes)
        → append_out o x (front ++ (o.key, b) ∷ []) ≡ front ++ (o.key, b ++ x) ∷ [] =
      λ x b. rw l (append_to_last o.key b x front a) in
    let m₁ : append_out o (take n held) m ≡ front ++ (o.key, bs ++ take n held) ∷ [] =
      rw e (to (take n held) bs) in
    let joined : (bs ++ take n held) ++ drop n held ≡ (bs ++ o.pending) ++ bytes =
      append_assoc bs (take n held) (drop n held)
      ∙ ap (◌++◌ bs) (take-append-drop n held)
      ∙ sym (append_assoc bs o.pending bytes) in
    (
      rw e (to o.pending bs),
      m₁,
      ap (append_out o (drop n held)) m₁
          ∙ to (drop n held) (bs ++ take n held)
          ∙ ap (λ x. front ++ (o.key, x) ∷ []) joined,
    )

-- Writing a saved payload to a stream that is open on the last file.
write_out-Adds :
    (spill : Spill) (q : PayloadQueue) (o : OutFile) (p : Bytes)
    → IsTidy q
    → q.out ≡ some o
    → IsShort p
    → Adds q p (write_out spill (save_one p) q)
write_out-Adds spill q o p t e h =
    let w : WritesLast (some o) q.queue_fns = rw e at t.writes_last in
    let v : AllWhole (settled_files (some o) q.queue_fns) = rw e at t.whole in
    let (linked, bs, (front, fe, absent)) = w in
    let n = spill (o.pending ++ save_one p) in
    let (before, on_disk, after) =
      written_files n o q.queue_fns (save_one p) bs front linked fe absent in
    let (s, v') = stored_last o.key (bs ++ o.pending) p front (rw before at v) h in
    rw (write_out-some spill (save_one p) q o e) (record {
      added = rw (e, after, before) (ap (◌++◌ q.queue) s ∙ sym (append_assoc q.queue _ (p ∷ [])));
      tidy = record {
        whole = rw after v';
        writes_last = (linked, bs ++ take n (o.pending ++ save_one p), (front, on_disk, absent));
      };
    })

account_file_full :
    (len : ℕ) (q : PayloadQueue)
    → leb q.max_mem (q.sz_out + (len + 2)) ≡ true
    → account_file len q
      ≡ emit (close_out (record q { sz_out = q.sz_out + (len + 2) })) (increased (len + 2))
unfolding account_file
account_file_full len q h = rw (account_file, h)

account_file_room :
    (len : ℕ) (q : PayloadQueue)
    → leb q.max_mem (q.sz_out + (len + 2)) ≡ false
    → account_file len q ≡ emit (record q { sz_out = q.sz_out + (len + 2) }) (increased (len + 2))
unfolding account_file
account_file_room len q h = rw (account_file, h)

account_file-Adds :
    (len : ℕ) (q c : PayloadQueue) (p : Bytes) → Adds q p c → Adds q p (account_file len c)
account_file-Adds len q c p a = elim (Bool-cases (leb c.max_mem (c.sz_out + (len + 2)))) [
  | inl h ↦
      let sized = record c { sz_out = c.sz_out + (len + 2) } in
      let (e, n, k) = close_out-settled sized in
      let t =
        close_out-IsTidy sized
          (record { whole = a.tidy.whole; writes_last = a.tidy.writes_last }) in
      rw (account_file_full len c h) (record {
        added = rw (e, k) a.added;
        tidy = record { whole = t.whole; writes_last = t.writes_last };
      })
  | inr h ↦ rw (account_file_room len c h) (record {
    added = a.added;
    tidy = record { whole = a.tidy.whole; writes_last = a.tidy.writes_last };
  })
]

-- The branch of `push` that writes a file adds the payload at the end.
pub push_file-Adds :
    (spill : Spill) (now : ℕ) (arr : List Bytes) (q : PayloadQueue)
    → IsTidy q
    → AllBelow now q.queue_fns
    → IsShort (of_chunks arr)
    → Adds q (of_chunks arr) (push_file spill now arr q)
unfolding push_file
push_file-Adds spill now arr q t b h =
    let len = sum_lengths arr in
    let c = choose_file now len q in
    let chosen = choose_file-Chosen now len q t b in
    let (o, e) = chosen.open_on in
    let a : Adds c (of_chunks arr) (write_out spill (save arr) c) =
      rw (save-save_one arr) (write_out-Adds spill c o (of_chunks arr) chosen.tidy e h) in
    account_file-Adds len q (write_out spill (save arr) c) (of_chunks arr)
      (record { added = a.added ∙ ap (λ x. x ++ of_chunks arr ∷ []) chosen.same; tidy = a.tidy })

-- ===== src/Queue/Peek.antt =====
-- Reading a queue: nothing is lost or reordered on the way from the files to memory.
use udptun.Prelude.{
  ℕ, ◌≡◌, refl, sym, ap, ◌∙◌, Bool, true, false, List, [], ◌∷◌, none, some, Option, inl, inr, ◌⊎◌,
  arith, append_assoc, List-cases,
}
use udptun.Wire.{Bytes}
use udptun.Payload.{Payload}
use udptun.Queue.{PayloadQueue, Files, load_file, load_files, peek, consume}
use udptun.Queue.View.{contents}

-- Loading keeps the contents, and ends with something in memory, or with no file left.
record Loads (q : PayloadQueue) (r : Bool × PayloadQueue) : Type 0 where
  same : contents r.1 ≡ contents q
  ends :
      ((r.0 ≡ true) × (p : Bytes) × (ps : List Bytes) × (r.1.queue ≡ p ∷ ps))
      ⊎ ((r.0 ≡ false) × (r.1.queue ≡ []) × (r.1.queue_fns ≡ []))

load_file-contents :
    (k : ℕ) (bs : Bytes) (rest : Files) (q : PayloadQueue)
    → q.queue_fns ≡ (k, bs) ∷ rest
    → contents (load_file k bs rest q) ≡ contents q
unfolding load_file
load_file-contents k bs rest q e = rw (e, append_assoc)

load_files_more :
    (k : ℕ) (bs : Bytes) (rest : Files) (q : PayloadQueue)
    → (load_file k bs rest q).queue ≡ []
    → load_files ((k, bs) ∷ rest) q ≡ load_files rest (load_file k bs rest q)
unfolding load_files
load_files_more k bs rest q e = ground arith

load_files_stop :
    (k : ℕ) (bs : Bytes) (rest : Files) (q : PayloadQueue) {p : Bytes} {ps : List Bytes}
    → (load_file k bs rest q).queue ≡ p ∷ ps
    → load_files ((k, bs) ∷ rest) q ≡ (true, load_file k bs rest q)
unfolding load_files
load_files_stop k bs rest q e = ground arith

load_file-queue_fns :
    (k : ℕ) (bs : Bytes) (rest : Files) (q : PayloadQueue)
    → (load_file k bs rest q).queue_fns ≡ rest
unfolding load_file
load_file-queue_fns k bs rest q = refl

load_files-Loads :
    (files : Files) (q : PayloadQueue)
    → q.queue_fns ≡ files
    → q.queue ≡ []
    → Loads q (load_files files q)
unfolding load_files
load_files-Loads [] q e n = record { same = refl; ends = inr (refl, n, e) }
load_files-Loads ((k, bs) ∷ rest) q e n = elim (List-cases (load_file k bs rest q).queue) [
  | inl none_yet ↦
      let ih =
        load_files-Loads rest (load_file k bs rest q) (load_file-queue_fns k bs rest q) none_yet in
      rw (load_files_more k bs rest q none_yet)
        (record { same = ih.same ∙ load_file-contents k bs rest q e; ends = ih.ends })
  | inr (p, ps, some_now) ↦
      rw (load_files_stop k bs rest q some_now)
        (record { same = load_file-contents k bs rest q e; ends = inl (refl, p, ps, some_now) })
]

-- What `peek` does: the contents stay; the result is their head, which is then in memory, or null
-- if there is none, and then the queue is empty, on disk too, and notes that it has disappointed.
pub record Peeks (q : PayloadQueue) (r : Option Bytes × PayloadQueue) : Type 0 where
  pub same : contents r.1 ≡ contents q
  pub result :
      ((r.0 ≡ none) × (r.1.queue ≡ []) × (r.1.queue_fns ≡ []) × (r.1.disappointed ≡ true))
      ⊎ ((p : Bytes) × (ps : List Bytes) × (r.0 ≡ some p) × (r.1.queue ≡ p ∷ ps))

peek_none :
    (q : PayloadQueue)
    → q.queue ≡ []
    → (load_files q.queue_fns q).0 ≡ false
    → peek q ≡ (none, record (load_files q.queue_fns q).1 { disappointed = true })
unfolding peek
peek_none q e f = ground arith

peek_loaded :
    (q : PayloadQueue) {p : Bytes} {ps : List Bytes}
    → q.queue ≡ []
    → (load_files q.queue_fns q).0 ≡ true
    → (load_files q.queue_fns q).1.queue ≡ p ∷ ps
    → peek q ≡ (some p, (load_files q.queue_fns q).1)
unfolding peek
peek_loaded q e f g = ground arith

pub peek_front :
    (q : PayloadQueue) {p : Bytes} {ps : List Bytes} → q.queue ≡ p ∷ ps → peek q ≡ (some p, q)
unfolding peek
peek_front q e = ground arith

-- A peek loses nothing of what there is to read: it gives the head of it, which is then in memory,
-- or finds that there is none, in memory or on disk, and notes that the user wants to be told.
pub peek-Peeks : (q : PayloadQueue) → Peeks q (peek q)
peek-Peeks q = elim (List-cases q.queue) [
  | inl e ↦
      let l = load_files-Loads q.queue_fns q refl e in
      elim l.ends [
        | inl (found, p, ps, f) ↦
            rw (peek_loaded q e found f) (record { same = l.same; result = inr (p, ps, refl, f) })
        | inr (found, f, g) ↦
            rw (peek_none q e found) (record { same = l.same; result = inl (refl, f, g, refl) })
      ]
  | inr (p, ps, e) ↦ rw (peek_front q e) (record { same = refl; result = inr (p, ps, refl, e) })
]

pub consume-contents :
    (q : PayloadQueue) (into : Payload) (p : Bytes) (ps : List Bytes)
    → q.queue ≡ p ∷ ps
    → (contents q ≡ p ∷ contents (consume q into).0) × ((consume q into).1 ≡ some p)
unfolding consume
consume-contents q into p ps e = (ground arith, ground arith)

-- After a peek that has found something, what there is to read is the payload that was found and
-- then the rest; `consume` hands over the one and leaves the other.
pub peek-consume :
    (q : PayloadQueue) (into : Payload) {p : Bytes}
    → (peek q).0 ≡ some p
    → (contents q ≡ p ∷ contents (consume (peek q).1 into).0)
      × ((consume (peek q).1 into).1 ≡ some p)
peek-consume q into {p} e =
    let v = peek-Peeks q in
    elim v.result [
      | inl (n, _, _, _) ↦ absurd (none_some (sym n ∙ e))
      | inr (p', ps, f, g) ↦
          let same : some p' ≡ some p = sym f ∙ e in
          let same' : p' ≡ p = cc in
          let (c, d) = consume-contents (peek q).1 into p ps (g ∙ ap (λ x. x ∷ ps) same') in
          (sym v.same ∙ c, d)
    ]
  where
    none_some : ◌≡◌ {A = Option Bytes} none (some p) → ⊥
    none_some h = cc

-- ===== src/Queue/Reread.antt =====
-- A queue that is made again from the names of the files that the destructor has left.
use udptun.Prelude.{
  ℕ, ◌^◌, ◌<◌, ◌≡◌, refl, sym, ap, subst, ◌∙◌, [], ◌∷◌, Option, none, some, arith, ok, find, put,
  find-put, ◌==◌, ==_refl, if◌then◌else◌, Bool-cases, List-cases, inl, inr,
}
use udptun.Prelude.Sorted.{Ordered}
use udptun.Payload.Load.{AllShort, saves}
use udptun.Queue.View.{contents, settled, settled_files}
use udptun.Queue.Names.{make_on, read_keys, name_all, stoll-make_queue_file}
use udptun.Queue.Restart.{
  Lists, listed, HasRoom, destroy-make_keys, destroy-files_nil, destroy-files_some,
}
use udptun.Queue.{PayloadQueue, OutFile, Files, Entries, make, append_to, destroy, key_before}
use udptun.Wire.{Bytes}

-- The keys can be counted down from, and be read from the files' names.
abbrev pub Readable : Files → Type 0
Readable files = (k : ℕ) (bs : Bytes) → find k files ≡ some bs → (0 < k) × (k < 2 ^ 63)

abbrev Small : Files → Type 0
Small files = (k : ℕ) (bs : Bytes) → find k files ≡ some bs → k < 2 ^ 63

abbrev AllSmall : Entries → Type 0
AllSmall [] = Unit {0}
AllSmall ((none, bs) ∷ es) = AllSmall es
AllSmall ((some key, bs) ∷ es) = (key < 2 ^ 63) × AllSmall es

read_keys-name_all : (es : Entries) → AllSmall es → read_keys (name_all es) ≡ ok es
unfolding read_keys
read_keys-name_all [] h = refl
read_keys-name_all ((none, bs) ∷ es) h = rw (read_keys-name_all es h) refl
read_keys-name_all ((some key, bs) ∷ es) (small, h) =
    rw (stoll-make_queue_file key small, read_keys-name_all es h) refl

listed_some :
    (k : ℕ) (es : Entries) (bs : Bytes) → (bs' : Bytes) × (listed k es (some bs) ≡ some bs')
listed_some k [] bs = (bs, refl)
listed_some k ((none, old) ∷ es) bs = listed_some k es bs
listed_some k ((some j, old) ∷ es) bs = elim (Bool-cases (j == k)) [
  | inl e ↦ rw (e, listed) (listed_some k es old)
  | inr e ↦ rw (e, listed) (listed_some k es bs)
]

listed-AllSmall :
    (es : Entries) → ((k : ℕ) (bs : Bytes) → listed k es none ≡ some bs → k < 2 ^ 63) → AllSmall es
listed-AllSmall [] h = tt
listed-AllSmall ((none, old) ∷ es) h = listed-AllSmall es h
listed-AllSmall ((some j, old) ∷ es) h = (own, listed-AllSmall es rest)
  where
    own : j < 2 ^ 63
    own =
        let (bs, e) = listed_some j es old in
        h j bs (ap (λ b. listed j es (if b then some old else none)) (==_refl j) ∙ e)

    rest : (k : ℕ) (bs : Bytes) → listed k es none ≡ some bs → k < 2 ^ 63
    rest k bs e = elim (Bool-cases (j == k)) [
      | inl t ↦
          let (bs', f) = listed_some k es old in
          h k bs' (ap (λ b. listed k es (if b then some old else none)) t ∙ f)
      | inr t ↦ h k bs (ap (λ b. listed k es (if b then some old else none)) t ∙ e)
    ]

find-append_to :
    (k j : ℕ) (new bs : Bytes) (m : Files)
    → find k (append_to j new m) ≡ some bs
    → (bs' : Bytes) × (find k m ≡ some bs')
unfolding append_to find
find-append_to k j new bs [] e = (bs, e)
find-append_to k j new bs ((i, old) ∷ m) e = elim (Bool-cases (i == k)) [
  | inl t ↦ (old, rw t refl)
  | inr t ↦ elim (Bool-cases (i == j)) [
    | inl u ↦ (bs, rw t (rw (u, t) at e))
    | inr u ↦ let (bs', f) = find-append_to k j new bs m (rw (u, t) at e) in (bs', rw t f)
  ]
]

settled_files-Small : (out : Option OutFile) (m : Files) → Small m → Small (settled_files out m)
settled_files-Small none m h k bs e = h k bs e
settled_files-Small (some w) m h k bs e = elim (Bool-cases w.linked) [
  | inl l ↦ let (bs', f) = find-append_to k w.key w.pending bs m (rw l at e) in h k bs' f
  | inr l ↦ h k bs (rw l at e)
]

put-Small : (key : ℕ) (bs : Bytes) (m : Files) → key < 2 ^ 63 → Small m → Small (put key bs m)
put-Small key bs m small h k found e = elim (Bool-cases (key == k)) [
  | inl t ↦ ground arith
  | inr t ↦ h k found (rw (find-put k key bs m, t) at e)
]

key_before_small :
    (now : ℕ) (files : Files)
    → Readable files
    → 0 < now
    → now < 2 ^ 63
    → key_before now files < 2 ^ 63
key_before_small now [] r h l = omega arith
key_before_small now ((k, bs) ∷ m) r h l =
    let (pos, small) = r k bs (unfold find in rw (==_refl k) refl) in omega (arith, pos, small)

Readable-HasRoom : (files : Files) → Readable files → HasRoom files
Readable-HasRoom [] r = tt
Readable-HasRoom ((k, bs) ∷ m) r =
    let (pos, small) = r k bs (unfold find in rw (==_refl k) refl) in (pos, omega (arith, small))

destroy-Small :
    (now : ℕ) (q : PayloadQueue)
    → Readable q.queue_fns
    → 0 < now
    → now < 2 ^ 63
    → Small (destroy now q).queue_fns
destroy-Small now q r h l =
    let files : Small (settled_files q.out q.queue_fns) =
      settled_files-Small q.out q.queue_fns (λ k bs e. (r k bs e).1) in
    elim (List-cases q.queue) [
      | inl e ↦ subst Small (sym (destroy-files_nil now q e)) files
      | inr (p, ps, e) ↦ subst Small (sym (destroy-files_some now q p ps e)) (
          put-Small (key_before now q.queue_fns) (saves q.queue) (settled_files q.out q.queue_fns)
            (key_before_small now q.queue_fns r h l) files)
    ]

make_on-ok :
    (max_mem : ℕ) (es : Entries)
    → AllSmall es
    → make_on max_mem (name_all es) ≡ ok (make max_mem es)
unfolding make_on
make_on-ok max_mem es h = rw (read_keys-name_all es h) refl

-- If the lengths of the payloads in memory have two bytes each, the files are in the order of
-- their keys, each of which is from 1 up to 2^63, and so is the time: a queue that is made on the
-- directory that the destructor leaves, with the files by their names and read in any order, is
-- made without an exception, and has to give back just what the destroyed queue would have given
-- back once its stream was closed, in the same order.
pub destroy-make_on :
    (now max_mem : ℕ) (q : PayloadQueue) (es : Entries)
    → AllShort q.queue
    → Ordered q.queue_fns
    → Readable q.queue_fns
    → 0 < now
    → now < 2 ^ 63
    → Lists es (destroy now q).queue_fns
    → (q' : PayloadQueue) × (make_on max_mem (name_all es) ≡ ok q') × (contents q' ≡ settled q)
destroy-make_on now max_mem q es short o r h l lists =
    let small = destroy-Small now q r h l in
    (
      make max_mem es,
      make_on-ok max_mem es (listed-AllSmall es (λ k bs e. small k bs (sym (lists k) ∙ e))),
      destroy-make_keys now max_mem q es short o (Readable-HasRoom q.queue_fns r) lists,
    )

-- ===== src/Emitters/Counts.antt =====
-- The order of the counted addresses, and the first of them that a socket can be made and bound for.
use mathlib.Core.List.{Memᴰ}
use udptun.Prelude.{
  ℕ, ◌≤◌, ◌≡◌, sym, ap, ◌∙◌, ◌⊎◌, List, [], ◌∷◌, Option, none, some, arith, ok, ltb, if◌then◌else◌,
  Bool-cases, Option-cases, inl, inr,
}
use udptun.Destinations.{AddrInfo, Store}
use udptun.Prelude.Members.{mem_uncons, mem_cons, mem_cons_map, mem_map_cons}
use udptun.Emitters.{World, count_all, insert_count, sort_counts, choose, take_best, make_maker}

abbrev pub Counts : Type 0
Counts = List (AddrInfo × ℕ)

-- The socket that is made and bound, if both succeed.
abbrev pub opens : World → AddrInfo → Option ℕ
opens world ai = elim (world.makes ai) [
  | none ↦ none
  | some fd ↦ if world.binds ai then some fd else none
]

mem_of-insert_count :
    (x c : AddrInfo × ℕ) (seq : Counts) → Memᴰ x (insert_count c seq) → (x ≡ c) ⊎ Memᴰ x seq
unfolding insert_count
mem_of-insert_count x c [] m = mem_uncons m
mem_of-insert_count x c (d ∷ seq) m = elim (Bool-cases (ltb c.1 d.1)) [
  | inl b ↦ mem_cons_map (mem_of-insert_count x c seq) (rw b at m)
  | inr b ↦ mem_uncons (rw b at m)
]

mem-insert_count :
    (x c : AddrInfo × ℕ) (seq : Counts) → (x ≡ c) ⊎ Memᴰ x seq → Memᴰ x (insert_count c seq)
unfolding insert_count
mem-insert_count x c [] (inl e) = Memᴰ.head e
mem-insert_count x c [] (inr m) = Memᴰ.tail m
mem-insert_count x c (d ∷ seq) h = elim (Bool-cases (ltb c.1 d.1)) [
  | inl b ↦ rw b (mem_map_cons (mem-insert_count x c seq) h)
  | inr b ↦ rw b (mem_cons h)
]

pub mem_of-sort_counts : (x : AddrInfo × ℕ) (seq : Counts) → Memᴰ x (sort_counts seq) → Memᴰ x seq
unfolding sort_counts
mem_of-sort_counts x [] m = m
mem_of-sort_counts x (c ∷ seq) m = elim (mem_of-insert_count x c (sort_counts seq) m) [
  | inl e ↦ Memᴰ.head e
  | inr t ↦ Memᴰ.tail (mem_of-sort_counts x seq t)
]

pub mem-sort_counts : (x : AddrInfo × ℕ) (seq : Counts) → Memᴰ x seq → Memᴰ x (sort_counts seq)
unfolding sort_counts
mem-sort_counts x [] m = elim m [ ]
mem-sort_counts x (c ∷ seq) (Memᴰ.head e) = mem-insert_count x c (sort_counts seq) (inl e)
mem-sort_counts x (c ∷ seq) (Memᴰ.tail m) =
    mem-insert_count x c (sort_counts seq) (inr (mem-sort_counts x seq m))

-- The greater counts come first.
abbrev Capped : ℕ → Counts → Type 0
Capped n [] = Unit {0}
Capped n (c ∷ seq) = (c.1 ≤ n) × Capped n seq

abbrev Descends : Counts → Type 0
Descends [] = Unit {0}
Descends (c ∷ seq) = Capped c.1 seq × Descends seq

insert_count-Capped :
    (n : ℕ) (c : AddrInfo × ℕ) (seq : Counts)
    → c.1 ≤ n
    → Capped n seq
    → Capped n (insert_count c seq)
unfolding insert_count
insert_count-Capped n c [] h s = (h, tt)
insert_count-Capped n c (d ∷ seq) h s = elim (Bool-cases (ltb c.1 d.1)) [
  | inl b ↦ rw b (s.0, insert_count-Capped n c seq h s.1)
  | inr b ↦ rw b (h, s)
]

Capped-trans : (m n : ℕ) (seq : Counts) → m ≤ n → Capped m seq → Capped n seq
Capped-trans m n [] h s = tt
Capped-trans m n (c ∷ seq) h s = (omega arith, Capped-trans m n seq h s.1)

insert_count-Descends :
    (c : AddrInfo × ℕ) (seq : Counts) → Descends seq → Descends (insert_count c seq)
unfolding insert_count
insert_count-Descends c [] s = (tt, tt)
insert_count-Descends c (d ∷ seq) s = elim (Bool-cases (ltb c.1 d.1)) [
  | inl b ↦
      let less : c.1 ≤ d.1 = ground arith in
      rw b (insert_count-Capped d.1 c seq less s.0, insert_count-Descends c seq s.1)
  | inr b ↦
      let more : d.1 ≤ c.1 = ground arith in rw b ((more, Capped-trans d.1 c.1 seq more s.0), s)
]

pub sort_counts-Descends : (seq : Counts) → Descends (sort_counts seq)
unfolding sort_counts
sort_counts-Descends [] = tt
sort_counts-Descends (c ∷ seq) =
    insert_count-Descends c (sort_counts seq) (sort_counts-Descends seq)

mem-Capped : (n : ℕ) (x : AddrInfo × ℕ) (seq : Counts) → Capped n seq → Memᴰ x seq → x.1 ≤ n
mem-Capped n x [] s m = elim m [ ]
mem-Capped n x (c ∷ seq) s (Memᴰ.head e) = rw e s.0
mem-Capped n x (c ∷ seq) s (Memᴰ.tail m) = mem-Capped n x seq s.1 m

-- No entry whose address could be used has a greater count.
pub record First (world : World) (counters : Counts) (ai : AddrInfo) (fd : ℕ) : Type 0 where
  pub count : ℕ
  pub counted : Memᴰ (ai, count) counters
  pub opened : opens world ai ≡ some fd
  pub most :
      (x : AddrInfo × ℕ) (fd' : ℕ) → Memᴰ x counters → opens world x.0 ≡ some fd' → x.1 ≤ count

choose_skip :
    (world : World) (c : AddrInfo × ℕ) (seq : Counts)
    → opens world c.0 ≡ none
    → choose world (c ∷ seq) ≡ choose world seq
unfolding choose
choose_skip world c seq e = ground arith

choose_take :
    (world : World) (c : AddrInfo × ℕ) (seq : Counts) (fd : ℕ)
    → opens world c.0 ≡ some fd
    → choose world (c ∷ seq) ≡ some (c.0, fd)
unfolding choose
choose_take world c seq fd e = ground arith

pub choose-First :
    (world : World) (seq : Counts) (ai : AddrInfo) (fd : ℕ)
    → Descends seq
    → choose world seq ≡ some (ai, fd)
    → First world seq ai fd
choose-First world [] ai fd s e = absurd (unfold choose in none_chosen e)
  where
    none_chosen : ◌≡◌ {A = Option (AddrInfo × ℕ)} none (some (ai, fd)) → ⊥
    none_chosen h = cc
choose-First world (c ∷ seq) ai fd s e = elim (Option-cases (opens world c.0)) [
  | inl f ↦
      let rest : First world seq ai fd =
        choose-First world seq ai fd s.1 (sym (choose_skip world c seq f) ∙ e) in
      record {
        count = rest.count;
        counted = Memᴰ.tail rest.counted;
        opened = rest.opened;
        most = λ x fd' m o. elim (mem_uncons m) [
          | inl same ↦ absurd (closed (sym f ∙ ap (λ t. opens world t.0) (sym same) ∙ o))
          | inr t ↦ rest.most x fd' t o
        ];
      }
  | inr (fd0, f) ↦
      let same : ◌≡◌ {A = Option (AddrInfo × ℕ)} (some (c.0, fd0)) (some (ai, fd)) =
        sym (choose_take world c seq fd0 f) ∙ e in
      let is_ai : c.0 ≡ ai = cc in
      let is_fd : fd0 ≡ fd = cc in
      record {
        count = c.1;
        counted = Memᴰ.head (ap (λ a. (a, c.1)) (sym is_ai));
        opened = ap (opens world) (sym is_ai) ∙ f ∙ ap some is_fd;
        most = λ x fd' m o. elim (mem_uncons m) [
          | inl eq ↦ rw eq (omega arith)
          | inr t ↦ mem-Capped c.1 x seq s.0 t
        ];
      }
]
  where
    closed : {v : ℕ} → ◌≡◌ {A = Option ℕ} none (some v) → ⊥
    closed h = cc

pub make_maker_counted :
    (world : World) (store : Store) (required : List ℕ) (infos : List AddrInfo) (counters : Counts)
    → world.infos ≡ some infos
    → count_all store required infos ≡ ok counters
    → make_maker world store required ≡ take_best world store required (sort_counts counters)
unfolding make_maker
make_maker_counted world store required infos counters e f = ground arith

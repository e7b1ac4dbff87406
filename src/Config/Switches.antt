-- ===== src/Config/Switches.antt =====
-- What the command line sets.
use Prim.Native.Char.{code}
use Prim.Native.String.{String}
use text.Mathlib.Text.{◌==◌ as ◌is◌}
use text.Mathlib.TextEquality.{eq_iff}
use udptun.Prelude.{
  ◌≡◌, refl, sym, ap, ◌∙◌, ◌⊎◌, Bool, true, false, ◌==◌, ◌||◌, ◌&&◌, not, List, [], ◌∷◌, ◌++◌, ok,
  append-nil, append_assoc, arith, if◌then◌else◌, Bool-cases, inl, inr,
}
use udptun.Config.{
  Config, unknown_switch, source, kind_of, is_switch, push_source, push_all, parse_args, make,
}

-- Whether a text begins with `-` or `+`.
abbrev pub is_signed : String → Bool
is_signed String.[] = false
is_signed (String.◌∷◌ c s) = code c == 45 || code c == 43

-- Each of the arguments is `--no-ingress`, `--no-egress`, or the name of a file.
abbrev pub Known : List String → Type 0
Known [] = Unit {0}
Known (arg ∷ args) =
    ((arg ≡ "--no-ingress") ⊎ (arg ≡ "--no-egress") ⊎ (is_signed arg ≡ false)) × Known args

-- The names of files among them.
abbrev pub files_of : List String → List String
files_of [] = []
files_of (arg ∷ args) = if is_signed arg then files_of args else arg ∷ files_of args

-- Whether a text is among the arguments.
abbrev pub mentions : String → List String → Bool
mentions text [] = false
mentions text (arg ∷ args) = (arg is text) || mentions text args

abbrev after : List String → Config → Config
after xs c = record c {
  source_files = c.source_files ++ files_of xs;
  ingress = c.ingress && not (mentions "--no-ingress" xs);
  egress = c.egress && not (mentions "--no-egress" xs);
}

after-nil : (c : Config) → c ≡ after [] c
after-nil c = ground (arith, append-nil c.source_files)

and-false : (b : Bool) → false ≡ b && false
and-false true = refl
and-false false = refl

-- A text without the sign is none of those with it.
unlike : (arg text : String) → is_signed arg ≡ false → is_signed text ≡ true → (arg is text) ≡ false
unlike arg text e f = elim (Bool-cases (arg is text)) [
  | inr n ↦ n
  | inl y ↦ absurd (false_true (sym e ∙ ap is_signed ((eq_iff arg text).0 y) ∙ f))
]
  where
    false_true : ◌≡◌ {A = Bool} false true → ⊥
    false_true h = cc

is_signed-lem : (arg : String) → is_switch arg ≡ is_signed arg
unfolding is_switch
is_signed-lem String.[] = refl
is_signed-lem (String.◌∷◌ c s) = refl

kind_of_file : (arg : String) → is_signed arg ≡ false → kind_of arg ≡ source
unfolding kind_of
kind_of_file arg e =
    rw
      (
        unlike arg "--no-ingress" e refl,
        unlike arg "--no-egress" e refl,
        unlike arg "--" e refl,
        is_signed-lem arg,
        e,
      )
      refl

parse_args_file :
    (x : String) (ys : List String) (c : Config)
    → is_signed x ≡ false
    → parse_args (x ∷ ys) c ≡ parse_args ys (push_source x c)
unfolding parse_args
parse_args_file x ys c e = rw (kind_of_file x e, parse_args) refl

parse_args_no_ingress :
    (ys : List String) (c : Config)
    → parse_args ("--no-ingress" ∷ ys) c ≡ parse_args ys (record c { ingress = false })
unfolding parse_args kind_of
parse_args_no_ingress ys c = refl

parse_args_no_egress :
    (ys : List String) (c : Config)
    → parse_args ("--no-egress" ∷ ys) c ≡ parse_args ys (record c { egress = false })
unfolding parse_args kind_of
parse_args_no_egress ys c = refl

after_no_ingress :
    (xs : List String) (c : Config)
    → after xs (record c { ingress = false }) ≡ after ("--no-ingress" ∷ xs) c
after_no_ingress xs c = ap (λ b. record (after xs c) { ingress = b }) (and-false c.ingress)

after_no_egress :
    (xs : List String) (c : Config)
    → after xs (record c { egress = false }) ≡ after ("--no-egress" ∷ xs) c
after_no_egress xs c = ap (λ b. record (after xs c) { egress = b }) (and-false c.egress)

after_file :
    (x : String) (xs : List String) (c : Config)
    → is_signed x ≡ false
    → after xs (push_source x c) ≡ after (x ∷ xs) c
after_file x xs c e =
    rw (e, unlike x "--no-ingress" e refl, unlike x "--no-egress" e refl)
      (ap (λ l. record (after xs c) { source_files = l })
        (append_assoc c.source_files (x ∷ []) (files_of xs)))

parse_args-Known :
    (xs ys : List String) (c : Config)
    → Known xs
    → parse_args (xs ++ ys) c ≡ parse_args ys (after xs c)
parse_args-Known [] ys c k = ap (parse_args ys) (after-nil c)
parse_args-Known (x ∷ xs) ys c (inl e, k) =
    ap (λ a. parse_args (a ∷ xs ++ ys) c) e
    ∙ parse_args_no_ingress (xs ++ ys) c
    ∙ parse_args-Known xs ys (record c { ingress = false }) k
    ∙ ap (parse_args ys) (after_no_ingress xs c)
    ∙ ap (λ a. parse_args ys (after (a ∷ xs) c)) (sym e)
parse_args-Known (x ∷ xs) ys c (inr (inl e), k) =
    ap (λ a. parse_args (a ∷ xs ++ ys) c) e
    ∙ parse_args_no_egress (xs ++ ys) c
    ∙ parse_args-Known xs ys (record c { egress = false }) k
    ∙ ap (parse_args ys) (after_no_egress xs c)
    ∙ ap (λ a. parse_args ys (after (a ∷ xs) c)) (sym e)
parse_args-Known (x ∷ xs) ys c (inr (inr e), k) =
    parse_args_file x (xs ++ ys) c e
    ∙ parse_args-Known xs ys (push_source x c) k
    ∙ ap (parse_args ys) (after_file x xs c e)

push_all_files :
    (args : List String) (c : Config)
    → push_all args c ≡ record c { source_files = c.source_files ++ args }
unfolding push_all
push_all_files [] c = ground (arith, append-nil c.source_files)
push_all_files (arg ∷ args) c =
    push_all_files args (push_source arg c)
    ∙ ground (arith, append_assoc c.source_files (arg ∷ []) args)

-- What the switches and names in front set.
abbrev pub set_by : List String → List String → Bool → Config
set_by xs files wrong = record {
  source_files = files_of xs ++ files;
  ingress = not (mentions "--no-ingress" xs);
  egress = not (mentions "--no-egress" xs);
  error = wrong;
}

abbrev new : Config
new = record { source_files = []; ingress = true; egress = true; error = false }

parse_args_nil : (c : Config) → parse_args [] c ≡ c
unfolding parse_args
parse_args_nil c = refl

-- What `--` does, and another text with a sign.
parse_args_end :
    (ys : List String) (c : Config)
    → parse_args ("--" ∷ ys) c ≡ record c { source_files = c.source_files ++ ys }
unfolding parse_args kind_of
parse_args_end ys c = push_all_files ys c

-- A text that begins as a switch does, and is none of them.
pub record Unknown (arg : String) : Type 0 where
  pub signed : is_signed arg ≡ true
  pub not_no_ingress : (arg is "--no-ingress") ≡ false
  pub not_no_egress : (arg is "--no-egress") ≡ false
  pub not_end : (arg is "--") ≡ false

kind_of-Unknown : (arg : String) → Unknown arg → kind_of arg ≡ unknown_switch
unfolding kind_of
kind_of-Unknown arg u =
    rw (u.not_no_ingress, u.not_no_egress, u.not_end, is_signed-lem arg, u.signed) refl

parse_args-Unknown :
    (arg : String) (ys : List String) (c : Config)
    → Unknown arg
    → parse_args (arg ∷ ys) c ≡ record c { error = true }
unfolding parse_args
parse_args-Unknown arg ys c u = rw (kind_of-Unknown arg u, parse_args) refl

-- After arguments that are each `--no-ingress`, `--no-egress` or begin with neither `-` nor `+`,
-- the configuration is without an ingress just if `--no-ingress` is among them, without an egress
-- just if `--no-egress` is, and has the others as its files, in order; when `--` comes next,
-- everything after it is a file too, and when another text that begins with `-` or `+` comes next,
-- there is an error, and nothing after it is read.
pub make-set_by :
    (program arg : String) (xs ys : List String)
    → Known xs
    → (make (program ∷ xs) ≡ ok (set_by xs [] false))
      × (make (program ∷ xs ++ "--" ∷ ys) ≡ ok (set_by xs ys false))
      × (Unknown arg → make (program ∷ xs ++ arg ∷ ys) ≡ ok (set_by xs [] true))
unfolding make
make-set_by program arg xs ys k = (
  ap ok (
      ap (λ l. parse_args l new) (sym (append-nil xs))
      ∙ parse_args-Known xs [] new k
      ∙ parse_args_nil (after xs new)
      ∙ ap (λ fs. record (set_by xs [] false) { source_files = fs })
          (sym (append-nil (files_of xs)))),
  ap ok (parse_args-Known xs ("--" ∷ ys) new k ∙ parse_args_end ys (after xs new)),
  λ u. ap ok (
      parse_args-Known xs (arg ∷ ys) new k
      ∙ parse_args-Unknown arg ys (after xs new) u
      ∙ ap (λ fs. record (set_by xs [] true) { source_files = fs })
          (sym (append-nil (files_of xs)))),
)

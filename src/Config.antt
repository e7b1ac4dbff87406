-- ===== src/Config.antt =====
-- `Config`: config.cc with config.hh. The switches of the command line, and the merging of the files
-- that it names. A node is a value, with no anchors in it; a scalar, a key and a file are known by a
-- number. What yaml-cpp does to a node is an argument, and so is what it loads from a file.
pub mod Switches
pub mod Shape
pub mod Subscripts
pub mod Content
pub mod Merge
use Prim.Native.Char.{code}
use Prim.Native.String.{String}
use text.Mathlib.Text.{◌==◌ as ◌is◌}
use udptun.Prelude.{
  ℕ, ◌==◌, Bool, true, false, ◌||◌, List, [], ◌∷◌, ◌++◌, Outcome, ok, fault, Fault, ◌>>=◌,
  if◌then◌else◌,
}

pub record Config : Type 0 where
  pub source_files : List String
  pub ingress : Bool
  pub egress : Bool
  pub error : Bool

-- The first test that an argument passes while switches are looked for.
pub data Kind : Type 0 where
  no_ingress no_egress end_of_switches unknown_switch source : Kind

-- `!iter->empty() && strchr("-+", (*iter)[0])`, of a text with no byte 0.
unfoldable pub is_switch : String → Bool
is_switch String.[] = false
is_switch (String.◌∷◌ c s) = code c == b'-' || code c == b'+'

unfoldable pub kind_of : String → Kind
kind_of arg =
    if arg is "--no-ingress"
    then no_ingress
    else if arg is "--no-egress"
    then no_egress
    else if arg is "--"
    then end_of_switches
    else if is_switch arg
    then unknown_switch
    else source

abbrev pub push_source : String → Config → Config
push_source arg c = record c { source_files = c.source_files ++ arg ∷ [] }

-- The loop over the arguments: while `switches` is set, and then.
unfoldable pub push_all : List String → Config → Config
push_all [] c = c
push_all (arg ∷ args) c = push_all args (push_source arg c)

unfoldable pub parse_args : List String → Config → Config
parse_args [] c = c
parse_args (arg ∷ args) c = elim (kind_of arg) [
  | no_ingress ↦ parse_args args (record c { ingress = false })
  | no_egress ↦ parse_args args (record c { egress = false })
  | end_of_switches ↦ push_all args c
  | unknown_switch ↦ record c { error = true }
  | source ↦ parse_args args (push_source arg c)
]

-- The loop starts at the argument after the first.
unfoldable pub make : List String → Outcome Config
make [] = fault Fault.undefined
make (program ∷ args) =
    ok
      (parse_args args (record { source_files = []; ingress = true; egress = true; error = false }))

mutual
  pub data Node : Type 0 where
    undefined null : Node
    scalar : ℕ → Node
    sequence : Items → Node
    mapping : Fields → Node

  pub data Items : Type 0 where
    nil : Items
    cons : Node → Items → Items

  pub data Fields : Type 0 where
    end : Fields
    field : ℕ → Node → Fields → Fields

-- What yaml-cpp does: `dst.push_back(x)`, `dst[k]`, and `dst[k] = x`.
pub record Yaml : Type 0 where
  pub push_back : Node → Node → Outcome Node
  pub subscript : Node → ℕ → Outcome Node
  pub assign : Node → ℕ → Node → Outcome Node

unfoldable mutual
  pub merge : Yaml → Node → Node → Outcome Node
  merge yaml dst undefined = ok dst
  merge yaml dst null = ok dst
  merge yaml dst (scalar s) = ok (scalar s)
  merge yaml dst (sequence xs) = merge_items yaml dst xs
  merge yaml dst (mapping fs) = merge_fields yaml dst fs

  pub merge_items : Yaml → Node → Items → Outcome Node
  merge_items yaml dst nil = ok dst
  merge_items yaml dst (cons x xs) = yaml.push_back dst x >>= λ dst'. merge_items yaml dst' xs

  pub merge_fields : Yaml → Node → Fields → Outcome Node
  merge_fields yaml dst end = ok dst
  merge_fields yaml dst (field k v fs) = yaml.subscript dst k >>= λ ref.
      merge yaml ref v >>= λ ref'. yaml.assign dst k ref' >>= λ dst'. merge_fields yaml dst' fs

-- The loop of `get` over the files.
unfoldable pub merge_files : Yaml → (ℕ → Outcome Node) → List ℕ → Node → Outcome Node
merge_files yaml load_file [] result = ok result
merge_files yaml load_file (fn ∷ fns) result = load_file fn >>= λ elem.
    merge yaml result elem >>= λ result'. merge_files yaml load_file fns result'

unfoldable pub get : Yaml → (ℕ → Outcome Node) → List ℕ → Outcome Node
get yaml load_file fns = merge_files yaml load_file fns null

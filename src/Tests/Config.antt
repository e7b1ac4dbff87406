-- ===== src/Tests/Config.antt =====
-- The command line and the files of a configuration, at concrete inputs.
use Prim.Native.String.{String}
use udptun.Prelude.{
  ℕ, ◌≡◌, refl, inl, inr, ◌==◌, true, false, List, [], ◌∷◌, ◌++◌, Outcome, ok, fault, Fault,
  if◌then◌else◌,
}
use udptun.Config.{
  Node, undefined, null, scalar, sequence, mapping, nil, cons, end, field, Yaml, make, get,
}
use udptun.Config.Merge.{Loads, Combines, get-Combines}
use udptun.Config.Shape.{Shape, one, several, table, child, put_field, join, fields_of, items_of}
use udptun.Config.Subscripts.{IsListable, IsTabular, Documented}
use udptun.Config.Switches.{Known, Unknown, set_by, make-set_by}

abbrev named_and_switch : List String
named_and_switch = "a.yaml" ∷ "--no-egress" ∷ []

named_and_switch-Known : Known named_and_switch
named_and_switch-Known = (inr (inr refl), (inr (inl refl), tt))

make-set_by_example :
    (make ("udptun" ∷ named_and_switch) ≡ ok (set_by named_and_switch [] false))
    × (make ("udptun" ∷ named_and_switch ++ "--" ∷ "-b" ∷ [])
        ≡ ok (set_by named_and_switch ("-b" ∷ []) false))
    × (Unknown "-x"
        → make ("udptun" ∷ named_and_switch ++ "-x" ∷ "-b" ∷ [])
          ≡ ok (set_by named_and_switch [] true))
make-set_by_example = make-set_by "udptun" "-x" named_and_switch ("-b" ∷ []) named_and_switch-Known

-- Nodes as values; what is no list gets no item, and what is no table no field.
abbrev push_value : Node → Node → Outcome Node
push_value undefined x = ok (sequence (cons x nil))
push_value null x = ok (sequence (cons x nil))
push_value (scalar s) x = fault Fault.thrown
push_value (sequence xs) x = ok (sequence (join xs (cons x nil)))
push_value (mapping fs) x = fault Fault.thrown

abbrev subscript_value : Node → ℕ → Outcome Node
subscript_value undefined k = ok undefined
subscript_value null k = ok undefined
subscript_value (scalar s) k = fault Fault.thrown
subscript_value (sequence xs) k = fault Fault.thrown
subscript_value (mapping fs) k = ok (child k fs)

abbrev assign_value : Node → ℕ → Node → Outcome Node
assign_value undefined k v = ok (mapping (put_field k v end))
assign_value null k v = ok (mapping (put_field k v end))
assign_value (scalar s) k v = fault Fault.thrown
assign_value (sequence xs) k v = fault Fault.thrown
assign_value (mapping fs) k v = ok (mapping (put_field k v fs))

abbrev values : Yaml
values = record { push_back = push_value; subscript = subscript_value; assign = assign_value }

values_appends :
    (n x : Node) → IsListable n → push_value n x ≡ ok (sequence (join (items_of n) (cons x nil)))
values_appends undefined x h = refl
values_appends null x h = refl
values_appends (scalar s) x h = absurd h
values_appends (sequence xs) x h = refl
values_appends (mapping fs) x h = absurd h

values_subscripts :
    (n : Node) (k : ℕ) → IsTabular n → subscript_value n k ≡ ok (child k (fields_of n))
unfolding child
values_subscripts undefined k h = refl
values_subscripts null k h = refl
values_subscripts (scalar s) k h = absurd h
values_subscripts (sequence xs) k h = absurd h
values_subscripts (mapping fs) k h = refl

values_assigns :
    (n : Node) (k : ℕ) (v : Node)
    → IsTabular n
    → assign_value n k v ≡ ok (mapping (put_field k v (fields_of n)))
values_assigns undefined k v h = refl
values_assigns null k v h = refl
values_assigns (scalar s) k v h = absurd h
values_assigns (sequence xs) k v h = absurd h
values_assigns (mapping fs) k v h = refl

values-Documented : Documented values
values-Documented = record {
  appends = values_appends;
  subscripts = values_subscripts;
  assigns = values_assigns;
}

-- The key 1 has a list, the key 2 a table, and each other key a scalar.
abbrev schema : Shape
schema = table (λ k. if k == 1 then several else if k == 2 then table (λ j. one) else one)

abbrev first_file : Node
first_file =
    mapping
      (field 1 (sequence (cons (scalar 10) nil)) (field 2 (mapping (field 5 (scalar 7) end)) end))

abbrev second_file : Node
second_file =
    mapping (field 2 (mapping (field 5 (scalar 8) end)) (field 1 (sequence (cons null nil)) end))

abbrev load_node : ℕ → Outcome Node
load_node fn = if fn == 0 then ok first_file else ok second_file

loads : Loads load_node schema (0 ∷ 1 ∷ []) (first_file ∷ second_file ∷ [])
loads = (
  refl,
  (tt, (refl, tt), ((tt, tt, tt), tt, tt)),
  (refl, ((tt, tt, tt), (refl, tt), (tt, tt, tt)), tt),
)

get-Combines_example : Combines (first_file ∷ second_file ∷ []) (get values load_node (0 ∷ 1 ∷ []))
get-Combines_example =
    get-Combines values load_node schema (0 ∷ 1 ∷ []) (first_file ∷ second_file ∷ [])
      values-Documented loads

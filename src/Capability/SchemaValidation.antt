-- ===== src/Capability/SchemaValidation.antt =====
-- src/sdk_test_agent/capability/schema_validation.py.
use sth_boring.Base.{
  is_nil, ℕ, zero, suc, String, ◌<>◌, ◌==◌, Bool, true, false, not, ◌&&◌, ◌||◌, Option, none, some,
  List, [], ◌∷◌, ◌++◌, if◌then◌else◌, ltb, sorted, drop_prefix, str, is_none, or_default, ◌+◌,
}
use sth_boring.Base.Dict
use sth_boring.Base.Dict.{Dict}
use sth_boring.Base.Partial.{◌>>=◌}
use sth_boring.Json
use sth_boring.Json.{
  Number, number_of, number_lt, member, count, no_items, item, Value, null, bool, int, float, arr,
  obj, Items, Fields, no_fields, entry,
}
use sth_boring.Capability.Schema.{
  Schema, schema, no_any_of, any_of, Branches, no_branch, branch, Properties, no_property, property,
  ItemSchema, any_item, each, anything, RootSchema, Reason, no_branch_matches, not_one_of,
  expected_null, expected_object, expected_array, expected_string, expected_integer,
  expected_number, expected_boolean, missing_property, additional_property, too_few_items,
  below_minimum, above_maximum, SchemaError,
}

-- `properties.get(key)`
unfoldable pub find_property : String → Properties → Option Schema
find_property k no_property = none
find_property k (property j s ps) = if j == k then some s else find_property k ps

-- `_resolve_ref`: a reference to anything but a definition of the root is the empty schema.
unfoldable pub resolve_ref : Dict Schema → String → Schema
resolve_ref defs ref = elim (drop_prefix "#/$defs/" ref) [
  | none ↦ anything
  | some name ↦ or_default anything (Dict.get name defs)
]

-- The schema that is read in the place of one with a `$ref`.
unfoldable pub dereference : Dict Schema → Schema → Schema
unfolding resolve_ref
dereference defs (schema (some ref) a e t r p c m i lo hi) = resolve_ref defs ref
dereference defs (schema none a e t r p c m i lo hi) = schema none a e t r p c m i lo hi

abbrev pub Errors : Type 0
Errors = Option (List SchemaError)

-- A call of `_validate` on a part: schema, path, value.
abbrev pub Recur : Type 0
Recur = Schema → String → Value → Errors

abbrev error : String → Reason → List SchemaError
error path reason = record { path = path; reason = reason } ∷ []

-- `any(not errors for errors in branch_errors)`: every branch is tried.
unfoldable pub some_branch_accepts : Recur → Branches → String → Value → Option Bool
some_branch_accepts recur no_branch path v = some false
some_branch_accepts recur (branch s bs) path v = do
  errors ← recur s path v
  found ← some_branch_accepts recur bs path v
  some (is_nil errors || found)

-- `f"{path}.{key}"` and `f"{path}[{idx}]"`
abbrev pub at_key : String → String → String
at_key path key = path <> "." <> key

abbrev pub at_index : String → ℕ → String
at_index path idx = path <> "[" <> str idx <> "]"

unfoldable pub missing_errors : String → Fields → List String → List SchemaError
missing_errors path fs [] = []
missing_errors path fs (key ∷ keys) =
    let rest = missing_errors path fs keys in
    if is_none (Json.get key fs) then error (at_key path key) missing_property ++ rest else rest

-- `set(value) - set(properties)`, in the order of the value
unfoldable pub extra_keys : Properties → Fields → List String
extra_keys ps no_fields = []
extra_keys ps (entry k v fs) =
    let rest = extra_keys ps fs in if is_none (find_property k ps) then k ∷ rest else rest

unfoldable pub extra_errors : String → List String → List SchemaError
extra_errors path [] = []
extra_errors path (key ∷ keys) =
    error (at_key path key) additional_property ++ extra_errors path keys

unfoldable pub property_errors : Recur → Properties → String → Fields → Errors
property_errors recur ps path no_fields = some []
property_errors recur ps path (entry k v fs) = do
  here ← elim (find_property k ps) [ none ↦ some [] | some s ↦ recur s (at_key path k) v ]
  rest ← property_errors recur ps path fs
  some (here ++ rest)

unfoldable pub item_errors : Recur → Schema → String → ℕ → Items → Errors
item_errors recur s path idx no_items = some []
item_errors recur s path idx (item v vs) = do
  here ← recur s (at_index path idx) v
  rest ← item_errors recur s path (idx + 1) vs
  some (here ++ rest)

abbrev item_schema : ItemSchema → Schema
item_schema any_item = anything
item_schema (each s) = s

unfoldable pub object_errors : Recur → List String → Properties → Bool → String → Value → Errors
object_errors recur required ps closed path (obj fs) = do
  nested ← property_errors recur ps path fs
  some (
      missing_errors path fs required
      ++ ((if closed then extra_errors path (sorted (extra_keys ps fs)) else []) ++ nested))
object_errors recur required ps closed path _ = some (error path expected_object)

abbrev too_few : Option ℕ → ℕ → Option ℕ
too_few none n = none
too_few (some m) n = if ltb n m then some m else none

unfoldable pub array_errors : Recur → Option ℕ → ItemSchema → String → Value → Errors
array_errors recur min_items items path (arr vs) = elim (too_few min_items (count vs)) [
  | some m ↦ some (error path (too_few_items m))
  | none ↦ item_errors recur (item_schema items) path 0 vs
]
array_errors recur min_items items path _ = some (error path expected_array)

-- `isinstance`; a bool is an int.
abbrev is_string : Value → Bool
is_string (Value.str s) = true
is_string _ = false

abbrev is_integer : Value → Bool
is_integer (bool b) = true
is_integer (int n) = true
is_integer _ = false

abbrev is_boolean : Value → Bool
is_boolean (bool b) = true
is_boolean _ = false

abbrev is_null : Value → Bool
is_null null = true
is_null _ = false

abbrev above : Option Number → String → Number → List SchemaError
above none path n = []
above (some hi) path n = if number_lt hi n then error path (above_maximum hi) else []

abbrev range_errors : Option Number → Option Number → String → Option Number → List SchemaError
range_errors minimum maximum path none = []
range_errors none maximum path (some n) = above maximum path n
range_errors (some lo) maximum path (some n) =
    if number_lt n lo then error path (below_minimum lo) else above maximum path n

-- What follows the tests for null, object and array.
unfoldable pub scalar_errors :
    Option String → Option Number → Option Number → String → Value → List SchemaError
scalar_errors type minimum maximum path v =
    let t = or_default "" type in
    if t == "string" && not (is_string v)
    then error path expected_string
    else if t == "integer" && not (is_integer v)
    then error path expected_integer
    else if t == "number" && is_none (number_of v)
    then error path expected_number
    else if t == "boolean" && not (is_boolean v)
    then error path expected_boolean
    else range_errors minimum maximum path (number_of v)

-- The enum, if the value is not in it.
abbrev excluded : Option Items → Value → Option Items
excluded none v = none
excluded (some vs) v = if member v vs then none else some vs

-- `_validate` after `$ref`, with `recur` for its calls of itself.
unfoldable pub check : Recur → Schema → String → Value → Errors
check recur (schema _ (any_of bs) enum type required ps closed min_items items lo hi) path v = do
  found ← some_branch_accepts recur bs path v
  some (if found then [] else error path no_branch_matches)
check recur (schema _ no_any_of enum type required ps closed min_items items lo hi) path v =
    let t = or_default "" type in
    elim (excluded enum v) [
      | some vs ↦ some (error path (not_one_of vs))
      | none ↦
          if t == "null"
          then some (if is_null v then [] else error path expected_null)
          else if t == "object"
          then object_errors recur required ps closed path v
          else if t == "array"
          then array_errors recur min_items items path v
          else some (scalar_errors type lo hi path v)
    ]

-- `_validate`. The fuel is the depth of calls that the stack has room for.
unfoldable pub validate : ℕ → Dict Schema → Schema → String → Value → Errors
validate zero defs s path v = none
validate (suc fuel) defs s path v = check (validate fuel defs) (dereference defs s) path v

-- The depth that the stack is taken to have room for.
abbrev pub recursion_limit : ℕ
recursion_limit = 900

-- `validate_payload_against_schema`
unfoldable pub validate_payload_against_schema : Value → RootSchema → Errors
validate_payload_against_schema payload root =
    validate recursion_limit root.defs root.body "$" payload

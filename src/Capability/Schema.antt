-- ===== src/Capability/Schema.antt =====
-- The schemas that src/sdk_test_agent/capability/schema_validation.py reads, and its errors. A schema
-- is a dict of keywords; here it has a field for each keyword that the validator reads. A schema with
-- none of them accepts every value, which the source tests first. An error is the path and the reason
-- that its text is made of.
use sth_boring.Base.{ℕ, String, Bool, false, Option, none, List, []}
use sth_boring.Base.Dict.{Dict}
use sth_boring.Json.{Number, Items}

mutual
  pub data Schema : Type 0 where
    schema :
        (ref : Option String) (any_of : AnyOf) (enum : Option Items) (type : Option String)
        (required : List String) (properties : Properties) (closed : Bool) (min_items : Option ℕ)
        (items : ItemSchema) (minimum maximum : Option Number)
        → Schema

  pub data AnyOf : Type 0 where
    no_any_of : AnyOf
    any_of : Branches → AnyOf

  pub data Branches : Type 0 where
    no_branch : Branches
    branch : Schema → Branches → Branches

  pub data Properties : Type 0 where
    no_property : Properties
    property : String → Schema → Properties → Properties

  pub data ItemSchema : Type 0 where
    any_item : ItemSchema
    each : Schema → ItemSchema

-- The schema `{}`.
abbrev pub anything : Schema
anything = schema none no_any_of none none [] no_property false none any_item none none

-- A whole schema, with its `$defs`.
pub record RootSchema : Type 0 where
  pub body : Schema
  pub defs : Dict Schema

pub data Reason : Type 0 where
  no_branch_matches : Reason
  not_one_of : Items → Reason
  expected_null expected_object expected_array expected_string expected_integer : Reason
  expected_number expected_boolean : Reason
  missing_property additional_property : Reason
  too_few_items : ℕ → Reason
  below_minimum above_maximum : Number → Reason

pub record SchemaError : Type 0 where
  pub path : String
  pub reason : Reason

-- The text of an issue: a text, or that of a schema error.
pub data Message : Type 0 where
  text : String → Message
  schema_error : SchemaError → Message

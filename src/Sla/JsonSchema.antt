-- ===== src/Sla/JsonSchema.antt =====
-- packages/sla/jsonschema.js: what the checker and the validator of schemas share. The texts of
-- a failure are kept as data: their rendering (`String`, `JSON.stringify`) is the engine's.
pub mod Assert
pub mod Failure
pub mod Validate
pub mod Total
mod Examples
use verdikt.Base.{
  ℕ, zero, suc, ◌+◌, Bool, true, false, List, [], ◌∷◌, ◌++◌, Option, none, some, JsString, ◌&&◌,
  ◌||◌, ◌==◌, same_text, sort_texts, length, take, if◌then◌else◌, js, decimal, ltb, any,
}
use verdikt.Base.Dict.{Dict, get}
use verdikt.Json.{Json, null, bool, num, str, arr, obj, items, members, keys, is_plain_object}
use verdikt.Json.Numbers.{Number, eq, is_integer, is_finite}

pub replace_all : ℕ → JsString → JsString → JsString
replace_all c by [] = []
replace_all c by (d ∷ s) = let rest = replace_all c by s in if d == c then by ++ rest else d ∷ rest

-- '~' is 126 and '/' is 47.
pub escape_token : JsString → JsString
unfolding replace_all js
escape_token token = replace_all 47 (js "~1") (replace_all 126 (js "~0") token)

unfoldable pub child : JsString → JsString → JsString
unfolding escape_token
child pointer token = pointer ++ 47 ∷ escape_token token

unfoldable pub child_index : JsString → ℕ → JsString
unfolding child decimal
child_index pointer index = child pointer (decimal index)

-- A type name that is no string matches nothing.
unfoldable pub matches_type : Json → Json → Bool
unfolding js same_text
matches_type value (str name) =
    if same_text name (js "null")
    then elim value [ null ↦ true | _ ↦ false ]
    else if same_text name (js "array")
    then elim value [ arr _ ↦ true | _ ↦ false ]
    else if same_text name (js "object")
    then is_plain_object value
    else if same_text name (js "string")
    then elim value [ str _ ↦ true | _ ↦ false ]
    else if same_text name (js "boolean")
    then elim value [ bool _ ↦ true | _ ↦ false ]
    else if same_text name (js "number")
    then elim value [ num n ↦ is_finite n | _ ↦ false ]
    else if same_text name (js "integer")
    then elim value [ num n ↦ is_integer n | _ ↦ false ]
    else false
matches_type value _ = false

-- What `describeValue` says of a value: a text is cut at 40 units, with a mark that it was.
pub data Description : Type 0 where
  a_null : Description
  an_array : ℕ → Description
  an_object : ℕ → Description
  a_string : JsString → (cut : Bool) → Description
  a_number : Number → Description
  a_boolean : Bool → Description

unfoldable pub describe_value : Json → Description
describe_value null = a_null
describe_value (arr vs) = an_array (length (items vs))
describe_value (obj ms) = an_object (length (keys (members ms)))
describe_value (str s) = if ltb 40 (length s) then a_string (take 40 s) true else a_string s false
describe_value (num n) = a_number n
describe_value (bool b) = a_boolean b

abbrev same_bool : Bool → Bool → Bool
same_bool true b = b
same_bool false true = false
same_bool false false = true

-- `every` over two arrays of the same length, and over two sorted lists of keys.
all_equal : (Json → Json → Bool) → List Json → List Json → Bool
all_equal same [] [] = true
all_equal same (x ∷ xs) (y ∷ ys) = same x y && all_equal same xs ys
all_equal same _ _ = false

abbrev equal_at : (Json → Json → Bool) → Option Json → Option Json → Bool
equal_at same (some x) (some y) = same x y
equal_at same _ _ = false

members_equal : (Json → Json → Bool) → Dict Json → Dict Json → List JsString → List JsString → Bool
members_equal same a b [] [] = true
members_equal same a b (k ∷ ks) (j ∷ js) =
    same_text k j && equal_at same (get k a) (get k b) && members_equal same a b ks js
members_equal same a b _ _ = false

-- The fuel bounds the depth of the nesting; out of it, values count as different.
unfoldable pub deep_equal : ℕ → Json → Json → Bool
unfolding all_equal members_equal sort_texts same_text get
deep_equal zero _ _ = false
deep_equal (suc fuel) null null = true
deep_equal (suc fuel) (bool a) (bool b) = same_bool a b
deep_equal (suc fuel) (num a) (num b) = eq a b
deep_equal (suc fuel) (str a) (str b) = same_text a b
deep_equal (suc fuel) (arr a) (arr b) = all_equal (deep_equal fuel) (items a) (items b)
deep_equal (suc fuel) (obj a) (obj b) =
    members_equal (deep_equal fuel) (members a) (members b) (sort_texts (keys (members a)))
      (sort_texts (keys (members b)))
deep_equal (suc fuel) _ _ = false

-- ===== src/Sla/JsonSchema/Assert.antt =====
-- `assertSchema` of packages/sla/jsonschema.js: refusing a schema that cannot be enforced.
pub mod Parts
use verdikt.Base.{
  ℕ, zero, suc, ◌+◌, Bool, true, false, not, List, [], ◌∷◌, ◌++◌, Option, none, some, JsString,
  ◌&&◌, ◌||◌, ◌==◌, same_text, sort_texts, length, if◌then◌else◌, js, ltb, any, Result, ok, throw,
  ◌>>=◌, ◌>>◌, throw_if, map,
}
use verdikt.Base.Dict.{Dict, get}
use verdikt.Json.{
  Json, null, bool, num, str, arr, obj, items, members, keys, as_object, is_string, size,
}
use verdikt.Json.Reading.{has}
use verdikt.Json.Numbers.{Number, lt, is_integer, is_finite, of_ℕ}
use verdikt.Sla.JsonSchema.{child, child_index}

-- Each carries the pointer into the schema that its message quotes.
pub data SchemaError : Type 0 where
  not_an_object : JsString → SchemaError
  unsupported_keyword : JsString → JsString → SchemaError
  no_type_name : JsString → SchemaError
  unknown_type : Json → JsString → SchemaError
  bad_enum bad_required : JsString → SchemaError
  not_non_negative : JsString → JsString → SchemaError
  not_finite : JsString → JsString → SchemaError
  bad_properties bad_one_of : JsString → SchemaError
  out_of_fuel : SchemaError

abbrev pub Check : Type 0
Check = Result SchemaError (Unit {0})

abbrev pub annotation_keywords : List JsString
annotation_keywords =
    map js ("$schema" ∷ "$id" ∷ "$comment" ∷ "title" ∷ "description" ∷ "examples" ∷ "default" ∷ [])

abbrev pub supported_keywords : List JsString
supported_keywords = map js (
    "type" ∷ "const" ∷ "enum" ∷ "properties" ∷ "required" ∷ "additionalProperties" ∷ "items"
    ∷ "minItems" ∷ "maxItems" ∷ "minLength" ∷ "maxLength" ∷ "minimum" ∷ "maximum" ∷ "oneOf" ∷ [])

abbrev pub type_names : List JsString
type_names = map js ("object" ∷ "array" ∷ "string" ∷ "number" ∷ "integer" ∷ "boolean" ∷ "null" ∷ [])

check_keywords : JsString → List JsString → Check
check_keywords at [] = ok tt
check_keywords at (keyword ∷ rest) = do
  throw_if (not (has annotation_keywords keyword || has supported_keywords keyword))
      (unsupported_keyword keyword at)
  check_keywords at rest

abbrev pub is_type_name : Json → Bool
is_type_name (str name) = has type_names name
is_type_name _ = false

check_names : JsString → List Json → Check
check_names at [] = ok tt
check_names at (name ∷ rest) = do
  throw_if (not (is_type_name name)) (unknown_type name at)
  check_names at rest

-- The names that a `type` member lists: it may be one name or an array of them.
abbrev pub names_of : Json → List Json
names_of (arr names) = items names
names_of name = name ∷ []

abbrev is_empty : List Json → Bool
is_empty [] = true
is_empty (_ ∷ _) = false

check_type : JsString → Option Json → Check
unfolding check_names
check_type at none = ok tt
check_type at (some type) = do
  throw_if (is_empty (names_of type)) (no_type_name at)
  check_names at (names_of type)

check_enum : JsString → Option Json → Check
check_enum at none = ok tt
check_enum at (some (arr options)) = throw_if (is_empty (items options)) (bad_enum at)
check_enum at (some _) = throw (bad_enum at)

abbrev some_not_string : List Json → Bool
some_not_string = any (λ name. not (is_string name))

check_required : JsString → Option Json → Check
check_required at none = ok tt
check_required at (some (arr names)) = throw_if (some_not_string (items names)) (bad_required at)
check_required at (some _) = throw (bad_required at)

-- `"minItems"` and its like.
check_count : JsString → Dict Json → JsString → Check
check_count at schema keyword = elim (get keyword schema) [
  | none ↦ ok tt
  | some (num n) ↦ throw_if (not (is_integer n) || lt n (of_ℕ 0)) (not_non_negative keyword at)
  | some _ ↦ throw (not_non_negative keyword at)
]

check_finite : JsString → Dict Json → JsString → Check
check_finite at schema keyword = elim (get keyword schema) [
  | none ↦ ok tt
  | some (num n) ↦ throw_if (not (is_finite n)) (not_finite keyword at)
  | some _ ↦ throw (not_finite keyword at)
]

check_bounds : JsString → Dict Json → Check
unfolding check_count check_finite
check_bounds at schema = do
  check_count at schema (js "minItems")
  check_count at schema (js "maxItems")
  check_count at schema (js "minLength")
  check_count at schema (js "maxLength")
  check_finite at schema (js "minimum")
  check_finite at schema (js "maximum")

-- The keywords whose values hold no schema.
unfoldable pub check_shape : Dict Json → JsString → Check
unfolding check_keywords check_type check_enum check_required check_bounds
check_shape schema pointer = do
  check_keywords pointer (sort_texts (keys schema))
  check_type pointer (get (js "type") schema)
  check_enum pointer (get (js "enum") schema)
  check_required pointer (get (js "required") schema)
  check_bounds pointer schema

-- The recursive calls, over the schema that stand at the sorted names of `properties` and in
-- `oneOf`.
module _ (recur : Json → JsString → Check) where
  abbrev pub check_property : JsString → Option Json → Check
  check_property at none = ok tt
  check_property at (some sub) = recur sub at

  unfoldable pub check_each_property : JsString → Dict Json → List JsString → Check
  check_each_property pointer props [] = ok tt
  check_each_property pointer props (name ∷ rest) = do
    check_property (child pointer name) (get name props)
    check_each_property pointer props rest

  unfoldable pub check_properties : JsString → Option Json → Check
  unfolding check_each_property
  check_properties pointer none = ok tt
  check_properties pointer (some (obj props)) =
      check_each_property (pointer ++ js "/properties") (members props)
        (sort_texts (keys (members props)))
  check_properties pointer (some _) = throw (bad_properties pointer)

  unfoldable pub check_additional : JsString → Option Json → Check
  check_additional pointer none = ok tt
  check_additional pointer (some (bool _)) = ok tt
  check_additional pointer (some sub) = recur sub (pointer ++ js "/additionalProperties")

  unfoldable pub check_items : JsString → Option Json → Check
  check_items pointer none = ok tt
  check_items pointer (some sub) = recur sub (pointer ++ js "/items")

  unfoldable pub check_branches : JsString → ℕ → List Json → Check
  check_branches pointer index [] = ok tt
  check_branches pointer index (branch ∷ rest) = do
    recur branch (child_index pointer index)
    check_branches pointer (suc index) rest

  unfoldable pub check_one_of : JsString → Option Json → Check
  unfolding check_branches
  check_one_of pointer none = ok tt
  check_one_of pointer (some (arr branches)) = do
    throw_if (ltb (length (items branches)) 2) (bad_one_of pointer)
    check_branches (pointer ++ js "/oneOf") 0 (items branches)
  check_one_of pointer (some _) = throw (bad_one_of pointer)

  unfoldable pub check_parts : Dict Json → JsString → Check
  check_parts schema pointer = do
    check_properties pointer (get (js "properties") schema)
    check_additional pointer (get (js "additionalProperties") schema)
    check_items pointer (get (js "items") schema)
    check_one_of pointer (get (js "oneOf") schema)

  unfoldable pub check_object : Dict Json → JsString → Check
  check_object schema pointer = do check_shape schema pointer; check_parts schema pointer

-- The fuel bounds the nesting of the schema.
unfoldable pub assert_from : ℕ → Json → JsString → Check
unfolding check_object check_shape check_parts check_properties check_additional check_items
    check_one_of
assert_from zero _ pointer = throw out_of_fuel
assert_from (suc fuel) (obj schema) pointer =
    check_object (assert_from fuel) (members schema) pointer
assert_from (suc fuel) _ pointer = throw (not_an_object pointer)

unfoldable pub assert_schema : Json → JsString → Check
unfolding assert_from size
assert_schema schema pointer = assert_from (size schema) schema pointer

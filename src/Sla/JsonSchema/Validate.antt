-- ===== src/Sla/JsonSchema/Validate.antt =====
-- `validate` of packages/sla/jsonschema.js: the first failure in a fixed order, or none.
use verdikt.Base.{
  ℕ, zero, suc, Bool, true, false, List, [], ◌∷◌, Option, none, some, JsString, ◌==◌, sort_texts,
  length, if◌then◌else◌, js, any, Result, ok, throw, ◌>>=◌, is_some,
}
use verdikt.Base.Dict.{Dict, get}
use verdikt.Json.{Json, bool, num, str, arr, obj, items, members, keys, as_object, as_number, size}
use verdikt.Json.Numbers.{Number, lt, of_ℕ}
use verdikt.Sla.JsonSchema.{child, child_index, matches_type, describe_value, deep_equal}
use verdikt.Sla.JsonSchema.Assert.{names_of}
use verdikt.Sla.JsonSchema.Failure.{
  Expected, types, constant, one_of, at_least, at_most, length_at_least, length_at_most,
  items_at_least, items_at_most, present, no_such_member, exactly_one_of, Actual, described, number,
  length_of, items_of, absent, matched, SchemaFailure, ValidateError, non_object_schema,
  out_of_fuel, Finding, fail, ◌else_check◌,
}

unfoldable pub check_type : Json → JsString → Option Json → Option SchemaFailure
check_type value pointer none = none
check_type value pointer (some type) =
    if any (matches_type value) (names_of type)
    then none
    else fail pointer (types (names_of type)) (described (describe_value value))

unfoldable pub same_json : Json → Json → Bool
unfolding deep_equal size
same_json a b = deep_equal (size a) a b

unfoldable pub check_const : Json → JsString → Option Json → Option SchemaFailure
check_const value pointer none = none
check_const value pointer (some const) =
    if same_json value const
    then none
    else fail pointer (constant const) (described (describe_value value))

-- An `enum` that is no array cannot reach the source's cast: `assertSchema` refuses it.
abbrev pub elements : Json → List Json
elements (arr vs) = items vs
elements _ = []

unfoldable pub check_enum : Json → JsString → Option Json → Option SchemaFailure
check_enum value pointer none = none
check_enum value pointer (some options) =
    if any (same_json value) (elements options)
    then none
    else fail pointer (one_of (elements options)) (described (describe_value value))

-- A bound that is not a number is not applied.
abbrev pub below : Number → Option Number → Bool
below n (some bound) = lt n bound
below n none = false

abbrev pub above : Number → Option Number → Bool
above n (some bound) = lt bound n
above n none = false

abbrev pub bound_at : JsString → Dict Json → Option Number
bound_at keyword schema = as_number (get keyword schema)

abbrev pub or_zero : Option Number → Number
or_zero (some n) = n
or_zero none = of_ℕ 0

-- One `if (typeof schema.low === 'number' && n < schema.low)` and its twin.
unfoldable pub check_range :
    JsString
    → Number
    → Actual
    → Option Number
    → Option Number
    → (Number → Expected)
    → (Number → Expected)
    → Option SchemaFailure
check_range pointer n actual low high too_low too_high =
    if below n low
    then fail pointer (too_low (or_zero low)) actual
    else if above n high
    then fail pointer (too_high (or_zero high)) actual
    else none

unfoldable pub check_number : Dict Json → Json → JsString → Option SchemaFailure
unfolding check_range
check_number schema (num n) pointer =
    check_range pointer n (number n) (bound_at (js "minimum") schema)
      (bound_at (js "maximum") schema) at_least at_most
check_number schema _ pointer = none

unfoldable pub check_string : Dict Json → Json → JsString → Option SchemaFailure
unfolding check_range
check_string schema (str s) pointer =
    check_range pointer (of_ℕ (length s)) (length_of (length s)) (bound_at (js "minLength") schema)
      (bound_at (js "maxLength") schema) length_at_least length_at_most
check_string schema _ pointer = none

unfoldable pub check_size : Dict Json → JsString → ℕ → Option SchemaFailure
unfolding check_range
check_size schema pointer n =
    check_range pointer (of_ℕ n) (items_of n) (bound_at (js "minItems") schema)
      (bound_at (js "maxItems") schema) items_at_least items_at_most

unfoldable pub has_own : Json → Dict Json → Bool
has_own (str name) ms = is_some (get name ms)
has_own _ ms = false

abbrev pub text_of : Json → JsString
text_of (str s) = s
text_of _ = []

unfoldable pub check_required : Dict Json → JsString → List Json → Option SchemaFailure
unfolding has_own
check_required value pointer [] = none
check_required value pointer (name ∷ rest) =
    let later = check_required value pointer rest in
    if has_own name value then later else fail (child pointer (text_of name)) present absent

abbrev pub count_match : Option SchemaFailure → ℕ → ℕ
count_match none n = suc n
count_match (some _) n = n

abbrev pub one_match : ℕ → ℕ → JsString → Option SchemaFailure
one_match n branches pointer =
    if n == 1 then none else fail pointer (exactly_one_of branches) (matched n)

infixr 20 ◌or_fail◌
abbrev pub ◌or_fail◌ : Option SchemaFailure → Option SchemaFailure → Option SchemaFailure
none or_fail later = later
some failure or_fail later = some failure

-- The keywords that hold no schema.
unfoldable pub check_scalars : Dict Json → Json → JsString → Option SchemaFailure
check_scalars schema value pointer =
    check_type value pointer (get (js "type") schema)
    or_fail check_const value pointer (get (js "const") schema)
    or_fail check_enum value pointer (get (js "enum") schema)
    or_fail check_number schema value pointer
    or_fail check_string schema value pointer

-- The recursive calls, over items, members and branches.
module _ (recur : Json → Json → JsString → Finding) where
  unfoldable pub check_each_item : Json → JsString → ℕ → List Json → Finding
  check_each_item sub pointer index [] = ok none
  check_each_item sub pointer index (v ∷ vs) =
      recur sub v (child_index pointer index) else_check check_each_item sub pointer (suc index) vs

  abbrev pub check_items : Option Json → JsString → List Json → Finding
  check_items none pointer vs = ok none
  check_items (some sub) pointer vs = check_each_item sub pointer 0 vs

  unfoldable pub check_array : Dict Json → Json → JsString → Finding
  check_array schema (arr vs) pointer =
      ok (check_size schema pointer (length (items vs)))
      else_check check_items (get (js "items") schema) pointer (items vs)
  check_array schema _ pointer = ok none

  abbrev pub check_property : JsString → Option Json → Option Json → Finding
  check_property at (some sub) (some v) = recur sub v at
  check_property at _ _ = ok none

  unfoldable pub check_properties : Dict Json → Dict Json → JsString → List JsString → Finding
  check_properties props value pointer [] = ok none
  check_properties props value pointer (name ∷ rest) =
      check_property (child pointer name) (get name props) (get name value)
      else_check check_properties props value pointer rest

  abbrev pub check_extra : JsString → Json → Option Json → Option Json → Finding
  check_extra at additional (some _) _ = ok none
  check_extra at (bool false) none (some v) =
      ok (fail at no_such_member (described (describe_value v)))
  check_extra at (bool true) none (some v) = ok none
  check_extra at additional none (some v) = recur additional v at
  check_extra at additional none none = ok none

  unfoldable pub check_extras : Json → Dict Json → Dict Json → JsString → List JsString → Finding
  check_extras additional props value pointer [] = ok none
  check_extras additional props value pointer (name ∷ rest) =
      check_extra (child pointer name) additional (get name props) (get name value)
      else_check check_extras additional props value pointer rest

  abbrev pub check_additional : Option Json → Dict Json → Dict Json → JsString → Finding
  check_additional none props value pointer = ok none
  check_additional (some additional) props value pointer =
      check_extras additional props value pointer (sort_texts (keys value))

  abbrev pub required_of : Option Json → List Json
  required_of (some (arr names)) = items names
  required_of _ = []

  unfoldable pub check_members : Dict Json → Json → JsString → Finding
  check_members schema (obj ms) pointer =
      let props = as_object (get (js "properties") schema) in
      ok (check_required (members ms) pointer (required_of (get (js "required") schema)))
      else_check check_properties props (members ms) pointer (sort_texts (keys props))
      else_check check_additional (get (js "additionalProperties") schema) props (members ms)
          pointer
  check_members schema _ pointer = ok none

  -- `filter(...).length`
  unfoldable pub count_matches : List Json → Json → JsString → Result ValidateError ℕ
  count_matches [] value pointer = ok 0
  count_matches (branch ∷ rest) value pointer = do
    found ← recur branch value pointer
    n ← count_matches rest value pointer
    ok (count_match found n)

  unfoldable pub check_one_of : Option Json → Json → JsString → Finding
  check_one_of (some (arr branches)) value pointer = do
    n ← count_matches (items branches) value pointer
    ok (one_match n (length (items branches)) pointer)
  check_one_of _ value pointer = ok none

  unfoldable pub check_value : Dict Json → Json → JsString → Finding
  check_value schema value pointer =
      ok (check_scalars schema value pointer)
      else_check check_array schema value pointer
      else_check check_members schema value pointer
      else_check check_one_of (get (js "oneOf") schema) value pointer

-- The fuel bounds the nesting of the schema.
unfoldable pub validate_from : ℕ → Json → Json → JsString → Finding
unfolding check_value check_scalars check_type check_const check_enum check_number check_string
    check_array check_members check_one_of check_size check_each_item check_required
    check_properties check_extras count_matches
validate_from zero _ value pointer = throw out_of_fuel
validate_from (suc fuel) (obj schema) value pointer =
    check_value (validate_from fuel) (members schema) value pointer
validate_from (suc fuel) _ value pointer = throw non_object_schema

unfoldable pub validate : Json → Json → JsString → Finding
unfolding validate_from size
validate schema value pointer = validate_from (size schema) schema value pointer

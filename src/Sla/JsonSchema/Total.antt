-- ===== src/Sla/JsonSchema/Total.antt =====
-- A schema that `assertSchema` accepts can be applied to any value: no throw, and no fuel runs out.
use verdikt.Base.{
  ◌≡◌, refl, true, false, List, [], ◌∷◌, Option, some, none, JsString, ℕ, zero, suc, js, ok, throw,
  All, ◌⊎◌, inl, inr,
}
use verdikt.Base.Dict.{Dict, get}
use verdikt.Sla.JsonSchema.{child}
use verdikt.Json.{Json, Items, obj, arr, bool, as_object, items, members, size}
use verdikt.Sla.JsonSchema.Assert.{assert_from, assert_schema}
use verdikt.Sla.JsonSchema.Assert.Parts.{Accepted, IsBool, assert_from-Parts}
use verdikt.Sla.JsonSchema.Failure.{Finding, SchemaFailure, ValidateError, ◌else_check◌}
use verdikt.Sla.JsonSchema.Validate.{
  validate_from, validate, check_each_item, check_items, check_array, check_properties,
  check_property, check_extra, check_extras, check_additional, check_members, count_matches,
  check_one_of, check_value,
}
use verdikt.Base.{Result}
use verdikt.Sla.JsonSchema.Validate.{count_match}
use verdikt.Sla.JsonSchema.Validate.{check_scalars}
use verdikt.Sla.JsonSchema.Validate.{one_match}
use verdikt.Base.{length}

-- The call returns: it finds a failure or none, and does not throw.
abbrev pub Returns : {A : Type 0} → Result ValidateError A → Type 0
Returns {A} r = (a : A) × (r ≡ ok a)

Returns-else_check : (a b : Finding) → Returns a → Returns b → Returns (a else_check b)
Returns-else_check (ok none) b ra rb = rb
Returns-else_check (ok (some failure)) b ra rb = (some failure, refl)
Returns-else_check (throw e) b ra rb = cc (ra.1)

module _ (recur : Json → Json → JsString → Finding) (Good : Json → Type 0)
    (returns : (sub v : Json) (pointer : JsString) → Good sub → Returns (recur sub v pointer)) where
  check_each_item-Returns :
      (sub : Json) (pointer : JsString) (index : ℕ) (vs : List Json)
      → Good sub
      → Returns (check_each_item recur sub pointer index vs)
  unfolding check_each_item
  check_each_item-Returns sub pointer index [] g = (none, refl)
  check_each_item-Returns sub pointer index (v ∷ vs) g =
      Returns-else_check _ _ (returns sub v _ g)
        (check_each_item-Returns sub pointer (suc index) vs g)

  check_properties-Returns :
      (props value : Dict Json) (pointer : JsString) (names : List JsString)
      → ((name : JsString) (sub : Json) → get name props ≡ some sub → Good sub)
      → Returns (check_properties recur props value pointer names)
  unfolding check_properties
  check_properties-Returns props value pointer [] good = (none, refl)
  check_properties-Returns props value pointer (name ∷ names) good =
      Returns-else_check _ _ (one (get name props) (get name value) (good name))
        (check_properties-Returns props value pointer names good)
    where
      one :
          (s v : Option Json)
          → ((sub : Json) → s ≡ some sub → Good sub)
          → Returns (check_property recur (child pointer name) s v)
      one (some sub) (some v) g = returns sub v _ (g sub refl)
      one (some sub) none g = (none, refl)
      one none v g = (none, refl)

  check_extra-Returns :
      (at : JsString) (additional : Json) (known found : Option Json)
      → IsBool additional ⊎ Good additional
      → Returns (check_extra recur at additional known found)
  check_extra-Returns at additional (some _) found good = (none, refl)
  check_extra-Returns at (bool false) none (some v) good = (_, refl)
  check_extra-Returns at (bool true) none (some v) good = (none, refl)
  check_extra-Returns at additional none none good = (none, refl)
  check_extra-Returns at additional none (some v) (inr good) = returns additional v at good
  check_extra-Returns at additional none (some v) (inl b) = absurd b

  check_extras-Returns :
      (additional : Json) (props value : Dict Json) (pointer : JsString) (names : List JsString)
      → IsBool additional ⊎ Good additional
      → Returns (check_extras recur additional props value pointer names)
  unfolding check_extras
  check_extras-Returns additional props value pointer [] good = (none, refl)
  check_extras-Returns additional props value pointer (name ∷ names) good =
      Returns-else_check _ _ (check_extra-Returns _ additional _ _ good)
        (check_extras-Returns additional props value pointer names good)

  count_matches-Returns :
      (bs : List Json) (value : Json) (pointer : JsString)
      → All Good bs
      → Returns (count_matches recur bs value pointer)
  unfolding count_matches
  count_matches-Returns [] value pointer good = (0, refl)
  count_matches-Returns (b ∷ bs) value pointer (good, rest) =
      let (o, e) = returns b value pointer good in
      let (n, d) = count_matches-Returns bs value pointer rest in (count_match o n, rw (e, d))

  -- A check of all the keywords returns if the schemas inside are good.
  check_array-Returns :
      (schema : Dict Json) (value : Json) (pointer : JsString)
      → ((sub : Json) → get (js "items") schema ≡ some sub → Good sub)
      → Returns (check_array recur schema value pointer)
  unfolding check_array
  check_array-Returns schema (arr vs) pointer good =
      Returns-else_check _ _ (_, refl) (each (get (js "items") schema) good)
    where
      each :
          (o : Option Json)
          → ((sub : Json) → o ≡ some sub → Good sub)
          → Returns (check_items recur o pointer (items vs))
      each none g = (none, refl)
      each (some sub) g = check_each_item-Returns sub pointer 0 (items vs) (g sub refl)
  check_array-Returns schema _ pointer good = (none, refl)

  check_members-Returns :
      (schema : Dict Json) (value : Json) (pointer : JsString)
      → ((name : JsString) (sub : Json)
          → get name (as_object (get (js "properties") schema)) ≡ some sub
          → Good sub)
      → ((sub : Json) → get (js "additionalProperties") schema ≡ some sub → IsBool sub ⊎ Good sub)
      → Returns (check_members recur schema value pointer)
  unfolding check_members
  check_members-Returns schema (obj ms) pointer props extra =
      Returns-else_check _ _ (_, refl)
        (Returns-else_check _ _ (check_properties-Returns _ (members ms) pointer _ props)
          (rest (get (js "additionalProperties") schema) extra))
    where
      rest :
          (o : Option Json)
          → ((sub : Json) → o ≡ some sub → IsBool sub ⊎ Good sub)
          → Returns (
              check_additional recur o
                (as_object (get (js "properties") schema))
                (members ms)
                pointer)
      rest none g = (none, refl)
      rest (some sub) g = check_extras-Returns sub _ (members ms) pointer _ (g sub refl)
  check_members-Returns schema _ pointer props extra = (none, refl)

  check_one_of-Returns :
      (o : Option Json) (value : Json) (pointer : JsString)
      → ((bs : Items) → o ≡ some (arr bs) → All Good (items bs))
      → Returns (check_one_of recur o value pointer)
  unfolding check_one_of
  check_one_of-Returns (some (arr bs)) value pointer good =
      let (n, e) = count_matches-Returns (items bs) value pointer (good bs refl) in
      (one_match n (length (items bs)) pointer, rw e)
  check_one_of-Returns _ value pointer good = (none, refl)

-- With the same fuel as the checker had, the validator returns on every value.
validate_from-Returns :
    (fuel : ℕ) (schema v : Json) (pointer : JsString)
    → Accepted fuel schema
    → Returns (validate_from fuel schema v pointer)
unfolding validate_from check_value assert_from
validate_from-Returns zero schema v pointer (_, h) = cc
validate_from-Returns (suc fuel) (obj schema) v pointer h =
    let parts = assert_from-Parts fuel schema h in
    let recur = validate_from fuel in
    let ih = validate_from-Returns fuel in
    Returns-else_check (ok (check_scalars (members schema) v pointer)) _ (_, refl)
      (Returns-else_check _ _
        (check_array-Returns recur (Accepted fuel) ih (members schema) v pointer parts.item)
        (Returns-else_check _ _
          (check_members-Returns recur (Accepted fuel) ih (members schema) v pointer parts.property
            parts.additional)
          (check_one_of-Returns recur (Accepted fuel) ih _ v pointer parts.branches)))
validate_from-Returns (suc fuel) _ v pointer (_, h) = cc

-- A schema that `assertSchema` accepts can be applied to every value: `validate` returns a failure
-- or null, and neither throws nor runs out of its fuel.
pub validate-returns :
    (schema v : Json) (at pointer : JsString)
    → assert_schema schema at ≡ ok tt
    → (found : Option SchemaFailure) × (validate schema v pointer ≡ ok found)
unfolding validate assert_schema
validate-returns schema v at pointer h =
    validate_from-Returns (size schema) schema v pointer (at, h)

-- ===== src/Sla/JsonSchema/Assert/Parts.antt =====
-- The schemas inside a schema that `assertSchema` accepts are accepted.
use verdikt.Base.{
  ◌++◌, ◌≡◌, true, List, [], ◌∷◌, Option, some, none, JsString, arith, same_text, ℕ, suc, js,
  sort_texts, ok, Bool-cases, inl, inr, All, ◌⊎◌, >>-eq-ok,
}
use verdikt.Base.Dict.{Dict, get}
use verdikt.Sla.JsonSchema.{child}
use verdikt.Json.{Json, Items, obj, arr, bool, keys, as_object, items, members}
use verdikt.Json.Reading.{has, has-sort_texts, has-keys}
use verdikt.Sla.JsonSchema.Assert.{
  Check, assert_from, check_each_property, check_properties, check_additional, check_items,
  check_branches, check_one_of,
}
use verdikt.Base.{◌∙◌}
use verdikt.Base.{throw_if}
use verdikt.Json.{Members}
use verdikt.Sla.JsonSchema.Assert.{check_parts}
use verdikt.Base.{ltb}
use verdikt.Sla.JsonSchema.Assert.{check_shape}
use verdikt.Base.{length}
use verdikt.Sla.JsonSchema.Assert.{bad_one_of}
use verdikt.Base.{subst}
use verdikt.Base.{same_text→eq}
use verdikt.Sla.JsonSchema.Assert.{check_property}

-- A schema that the checker accepts, with this fuel and at some pointer.
abbrev pub Accepted : ℕ → Json → Type 0
Accepted fuel schema = (pointer : JsString) × (assert_from fuel schema pointer ≡ ok tt)

abbrev pub IsBool : Json → Type 0
IsBool (bool _) = Unit
IsBool _ = ⊥

-- The schemas that stand inside an accepted one are accepted.
pub record Parts (fuel : ℕ) (schema : Dict Json) : Type 0 where
  pub item : (sub : Json) → get (js "items") schema ≡ some sub → Accepted fuel sub
  pub property :
      (name : JsString) (sub : Json)
      → get name (as_object (get (js "properties") schema)) ≡ some sub
      → Accepted fuel sub
  pub additional :
      (sub : Json)
      → get (js "additionalProperties") schema ≡ some sub
      → IsBool sub ⊎ Accepted fuel sub
  pub branches :
      (bs : Items) → get (js "oneOf") schema ≡ some (arr bs) → All (Accepted fuel) (items bs)

module _ (recur : Json → JsString → Check) where
  abbrev Passes : Json → Type 0
  Passes sub = (pointer : JsString) × (recur sub pointer ≡ ok tt)

  check_each_property-Passes :
      (pointer : JsString) (props : Dict Json) (names : List JsString) (name : JsString)
      (sub : Json)
      → check_each_property recur pointer props names ≡ ok tt
      → has names name ≡ true
      → get name props ≡ some sub
      → Passes sub
  unfolding check_each_property
  check_each_property-Passes pointer props [] name sub h m g = cc
  check_each_property-Passes pointer props (n ∷ names) name sub h m g =
      let (first, later) =
        >>-eq-ok (check_property recur (child pointer n) (get n props))
          (check_each_property recur pointer props names) h in
      elim (Bool-cases (same_text name n)) [
        | inl same ↦ (
          child pointer n,
          rw (subst (λ k. get k props ≡ some sub) (same_text→eq _ _ same) g) at first,
        )
        | inr other ↦ check_each_property-Passes pointer props names name sub later (ground arith) g
      ]

  check_properties-Passes :
      (pointer : JsString) (o : Option Json) (name : JsString) (sub : Json)
      → check_properties recur pointer o ≡ ok tt
      → get name (as_object o) ≡ some sub
      → Passes sub
  unfolding check_properties get
  check_properties-Passes pointer none name sub h g = cc
  check_properties-Passes pointer (some (obj props)) name sub h g =
      check_each_property-Passes _ (members props) (sort_texts (keys (members props))) name sub h
        (has-sort_texts (keys (members props)) name ∙ has-keys name (members props) g) g
  check_properties-Passes pointer (some _) name sub h g = cc

  check_branches-Passes :
      (pointer : JsString) (i : ℕ) (bs : List Json)
      → check_branches recur pointer i bs ≡ ok tt
      → All Passes bs
  unfolding check_branches
  check_branches-Passes pointer i [] h = tt
  check_branches-Passes pointer i (b ∷ bs) h =
      let (first, later) = >>-eq-ok _ _ h in
      ((_, first), check_branches-Passes pointer (suc i) bs later)

  check_additional-Passes :
      (pointer : JsString) (sub : Json)
      → check_additional recur pointer (some sub) ≡ ok tt
      → IsBool sub ⊎ Passes sub
  unfolding check_additional
  check_additional-Passes pointer (bool b) h = inl tt
  check_additional-Passes pointer _ h = inr (_, h)

  check_one_of-Passes :
      (pointer : JsString) (bs : Items)
      → check_one_of recur pointer (some (arr bs)) ≡ ok tt
      → All Passes (items bs)
  unfolding check_one_of
  check_one_of-Passes pointer bs h =
      check_branches-Passes _ 0 (items bs)
        (>>-eq-ok (throw_if (ltb (length (items bs)) 2) (bad_one_of pointer)) _ h).1

check_parts-Parts :
    (fuel : ℕ) (schema : Dict Json) (pointer : JsString)
    → check_parts (assert_from fuel) schema pointer ≡ ok tt
    → Parts fuel schema
unfolding check_parts check_items
check_parts-Parts fuel schema pointer h =
    let recur = assert_from fuel in
    let (props, h1) =
      >>-eq-ok (check_properties recur pointer (get (js "properties") schema)) _ h in
    let (extra, h2) =
      >>-eq-ok (check_additional recur pointer (get (js "additionalProperties") schema)) _ h1 in
    let (its, one) = >>-eq-ok (check_items recur pointer (get (js "items") schema)) _ h2 in
    record {
      item = λ sub e. (pointer ++ js "/items", rw e at its);
      property = λ name sub e. check_properties-Passes recur pointer _ name sub props e;
      additional = λ sub e. check_additional-Passes recur pointer sub (rw e at extra);
      branches = λ bs e. check_one_of-Passes recur pointer bs (rw e at one);
    }

pub assert_from-Parts :
    (fuel : ℕ) (schema : Members) → Accepted (suc fuel) (obj schema) → Parts fuel (members schema)
unfolding assert_from
assert_from-Parts fuel schema (pointer, h) =
    check_parts-Parts fuel (members schema) pointer
      (>>-eq-ok (check_shape (members schema) pointer) _ h).1

-- ===== src/Sla/Document.antt =====
-- `assertSlaDocument` and `parseSla` of packages/sla/index.js. `JSON.parse` is a parameter. The
-- clauses that later code reads are read here, once the document has been checked.
pub mod Checked
use verdikt.Base.{
  ℕ, zero, suc, ◌+◌, ◌-◌, ◌*◌, Bool, true, false, not, ◌&&◌, ◌||◌, List, [], ◌∷◌, Option, none,
  some, JsString, Result, ok, throw, ◌>>=◌, ◌>>◌, throw_if, ltb, leb, ◌==◌, every, is_digit,
  if◌then◌else◌, js, same_text,
}
use verdikt.Base.Dict.{Dict, get}
use verdikt.Json.{Json, null, bool, num, str, arr, obj, items, members}
use verdikt.Json.Reading.{has}
use verdikt.Json.Numbers.{Number}
use verdikt.Sla.JsonSchema.Assert.{SchemaError, assert_schema}
use verdikt.Sla.JsonSchema.Failure.{SchemaFailure, Finding}
use verdikt.Sla.JsonSchema.Validate.{validate}
use verdikt.Sla.MetaSchema.{meta_schema}
use verdikt.Sla.Observation.{
  SlaError, not_json, invalid_sla, validation_fault, reserved_id, duplicate_id, bad_schema,
  not_decimal, crossed_bounds, unknown_clause,
}
use verdikt.Sla.Clauses.{
  SlaClause, schema, latency, price_range, semantic, id_of, delivery_clause_id,
}

-- `/^(0|[1-9][0-9]*)$/`
unfoldable pub is_decimal_integer : JsString → Bool
is_decimal_integer [] = false
is_decimal_integer (c ∷ []) = is_digit c
is_decimal_integer (c ∷ d ∷ cs) = leb 49 c && leb c 57 && is_digit d && every is_digit cs

-- `BigInt(s)` of such a text.
unfoldable pub big_int : ℕ → JsString → ℕ
big_int n [] = n
big_int n (c ∷ cs) = big_int (n * 10 + (c - 48)) cs

-- A clause with its price bounds still as texts, as the document holds them.
pub data RawClause : Type 0 where
  raw_schema : (id : JsString) → Json → RawClause
  raw_latency : (id : JsString) → (max_ms : Number) → RawClause
  raw_price : (id min_minor_units max_minor_units asset : JsString) → RawClause
  raw_semantic : (id criteria : JsString) → RawClause

abbrev pub raw_id : RawClause → JsString
raw_id (raw_schema id _) = id
raw_id (raw_latency id _) = id
raw_id (raw_price id _ _ _) = id
raw_id (raw_semantic id _) = id

abbrev text_at : JsString → Dict Json → Option JsString
text_at k ms = elim (get k ms) [ some (str s) ↦ some s | _ ↦ none ]

abbrev number_at : JsString → Dict Json → Option Number
number_at k ms = elim (get k ms) [ some (num n) ↦ some n | _ ↦ none ]

infixl 5 ◌and_then◌
abbrev ◌and_then◌ : {A B : Type 0} → Option A → (A → Option B) → Option B
none and_then f = none
some a and_then f = f a

-- The members of a clause, by its `type`. A document that the schema accepts has them all.
unfoldable pub read_fields : JsString → JsString → Dict Json → Option RawClause
read_fields type id ms =
    if same_text type (js "schema")
    then (get (js "schema") ms and_then λ s. some (raw_schema id s))
    else if same_text type (js "latency")
    then (number_at (js "maxMs") ms and_then λ n. some (raw_latency id n))
    else if same_text type (js "priceRange")
    then (text_at (js "minMinorUnits") ms and_then λ low.
        text_at (js "maxMinorUnits") ms and_then λ high.
        text_at (js "asset") ms and_then λ asset. some (raw_price id low high asset))
    else if same_text type (js "semantic")
    then (text_at (js "criteria") ms and_then λ criteria. some (raw_semantic id criteria))
    else none

unfoldable pub read_clause : Json → Option RawClause
read_clause (obj ms) = text_at (js "type") (members ms) and_then λ type.
    text_at (js "id") (members ms) and_then λ id. read_fields type id (members ms)
read_clause _ = none

abbrev pub clauses_of : Json → List Json
clauses_of (obj ms) = elim (get (js "clauses") (members ms)) [ some (arr cs) ↦ items cs | _ ↦ [] ]
clauses_of _ = []

abbrev pub schema_fault : Result SchemaError (Unit {0}) → Result SlaError (Unit {0})
schema_fault (ok tt) = ok tt
schema_fault (throw e) = throw (bad_schema e)

-- The checks that the schema cannot express. The pointer `/clauses/<id>/schema` is for messages.
unfoldable pub check_clause : RawClause → Result SlaError SlaClause
check_clause (raw_schema id s) = do
  schema_fault (assert_schema s (js "/clauses/schema"))
  ok (schema id s)
check_clause (raw_latency id max_ms) = ok (latency id max_ms)
check_clause (raw_semantic id criteria) = ok (semantic id criteria)
check_clause (raw_price id low high asset) = do
  throw_if (not (is_decimal_integer low)) (not_decimal id (js "minMinorUnits"))
  throw_if (not (is_decimal_integer high)) (not_decimal id (js "maxMinorUnits"))
  throw_if (ltb (big_int 0 high) (big_int 0 low)) (crossed_bounds id)
  ok (price_range id (big_int 0 low) (big_int 0 high) asset)

abbrev pub clause_or_fault : Option RawClause → Result SlaError RawClause
clause_or_fault none = throw unknown_clause
clause_or_fault (some raw) = ok raw

-- The loop over the clauses; `seen` holds the ids of those before.
unfoldable pub check_clauses : List JsString → List Json → Result SlaError (List SlaClause)
check_clauses seen [] = ok []
check_clauses seen (c ∷ cs) = do
  raw ← clause_or_fault (read_clause c)
  throw_if (same_text (raw_id raw) delivery_clause_id) reserved_id
  throw_if (has seen (raw_id raw)) (duplicate_id (raw_id raw))
  clause ← check_clause raw
  rest ← check_clauses (raw_id raw ∷ seen) cs
  ok (clause ∷ rest)

abbrev pub valid_or_fault : Finding → Result SlaError (Unit {0})
valid_or_fault (ok none) = ok tt
valid_or_fault (ok (some failure)) = throw (invalid_sla failure)
valid_or_fault (throw e) = throw (validation_fault e)

unfoldable pub assert_sla_document : Json → Result SlaError (List SlaClause)
unfolding check_clauses check_clause read_clause read_fields is_decimal_integer big_int
assert_sla_document sla = do
  valid_or_fault (validate meta_schema sla [])
  check_clauses [] (clauses_of sla)

abbrev pub checked : Option Json → Result SlaError Json
checked none = throw not_json
checked (some parsed) = assert_sla_document parsed >>= λ _. ok parsed

module _ (parse_json : JsString → Option Json) where
  unfoldable pub parse_sla : JsString → Result SlaError Json
  parse_sla text = checked (parse_json text)

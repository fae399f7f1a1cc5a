-- ===== src/Sla/Document/Checked.antt =====
-- What `assertSlaDocument` has checked of the clauses that it returns.
use verdikt.Base.{
  ◌≡◌, refl, false, List, [], ◌∷◌, JsString, arith, ok, throw, All, js, >>=-eq-ok, >>-eq-ok,
  throw_if, same_text, ok-injective, map,
}
use verdikt.Json.{Json}
use verdikt.Json.Reading.{has}
use verdikt.Sla.JsonSchema.Assert.{assert_schema}
use verdikt.Sla.Clauses.{SlaClause, schema, price_range, id_of, delivery_clause_id}
use verdikt.Sla.Document.{
  RawClause, raw_schema, raw_latency, raw_price, raw_semantic, raw_id, check_clause, check_clauses,
  clause_or_fault, read_clause, schema_fault, assert_sla_document, valid_or_fault, clauses_of,
}
use verdikt.Base.{◌≤◌}
use verdikt.Base.{Result}
use verdikt.Base.{not}
use verdikt.Sla.Document.{reserved_id}
use verdikt.Sla.Document.{validate}
use verdikt.Sla.Document.{SchemaError}
use verdikt.Sla.Document.{duplicate_id}
use verdikt.Sla.Document.{is_decimal_integer}
use verdikt.Sla.Document.{meta_schema}
use verdikt.Base.{throw_if-eq-ok}
use verdikt.Sla.Document.{not_decimal}
use verdikt.Base.{ltb}
use verdikt.Sla.Document.{big_int}
use verdikt.Sla.Document.{crossed_bounds}

-- The schema of a clause that has one is accepted, and its price bounds do not cross.
abbrev pub IsSound : SlaClause → Type 0
IsSound (schema id s) = (at : JsString) × (assert_schema s at ≡ ok tt)
IsSound (price_range id low high asset) = low ≤ high
IsSound _ = Unit

schema_fault-eq-ok : (r : Result SchemaError (Unit {0})) → schema_fault r ≡ ok tt → r ≡ ok tt
schema_fault-eq-ok (ok tt) h = refl
schema_fault-eq-ok (throw e) h = cc

check_clause-IsSound :
    (raw : RawClause) (c : SlaClause) → check_clause raw ≡ ok c → IsSound c × (id_of c ≡ raw_id raw)
unfolding check_clause id_of
check_clause-IsSound (raw_schema id s) c h =
    let (accepted, made) = >>-eq-ok (schema_fault (assert_schema s (js "/clauses/schema"))) _ h in
    rw (← (ok-injective made)) ((js "/clauses/schema", schema_fault-eq-ok _ accepted), refl)
check_clause-IsSound (raw_latency id n) c h = rw (← (ok-injective h)) (tt, refl)
check_clause-IsSound (raw_semantic id n) c h = rw (← (ok-injective h)) (tt, refl)
check_clause-IsSound (raw_price id low high asset) c h =
    let (_, h1) =
      >>-eq-ok (throw_if (not (is_decimal_integer low)) (not_decimal id (js "minMinorUnits"))) _
        h in
    let (_, h2) =
      >>-eq-ok (throw_if (not (is_decimal_integer high)) (not_decimal id (js "maxMinorUnits"))) _
        h1 in
    let (ordered, made) =
      >>-eq-ok (throw_if (ltb (big_int 0 high) (big_int 0 low)) (crossed_bounds id)) _ h2 in
    let straight =
      throw_if-eq-ok (ltb (big_int 0 high) (big_int 0 low)) (crossed_bounds id) ordered in
    rw (← (ok-injective made)) (ground arith, refl)

-- No id of the list is among those seen, nor twice in it.
abbrev pub Fresh : List JsString → List JsString → Type 0
Fresh seen [] = Unit
Fresh seen (id ∷ ids) =
    (has seen id ≡ false) × (same_text id delivery_clause_id ≡ false) × Fresh (id ∷ seen) ids

check_clauses-IsSound :
    (seen : List JsString) (raw : List Json) (cs : List SlaClause)
    → check_clauses seen raw ≡ ok cs
    → All IsSound cs × Fresh seen (map id_of cs)
unfolding check_clauses
check_clauses-IsSound seen [] cs h = rw (← (ok-injective h)) (tt, tt)
check_clauses-IsSound seen (r ∷ rs) cs h =
    let (raw, read, h1) = >>=-eq-ok (clause_or_fault (read_clause r)) _ h in
    let (named, h2) =
      >>-eq-ok (throw_if (same_text (raw_id raw) delivery_clause_id) reserved_id) _ h1 in
    let (fresh, h3) =
      >>-eq-ok (throw_if (has seen (raw_id raw)) (duplicate_id (raw_id raw))) _ h2 in
    let (c, checked, h4) = >>=-eq-ok (check_clause raw) _ h3 in
    let (rest, later, made) = >>=-eq-ok (check_clauses (raw_id raw ∷ seen) rs) _ h4 in
    let (sound, same) = check_clause-IsSound raw c checked in
    let (all, ids) = check_clauses-IsSound (raw_id raw ∷ seen) rs rest later in
    rw (← (ok-injective made))
      ((sound, all), rw same (throw_if-eq-ok _ _ fresh, throw_if-eq-ok _ _ named, ids))

-- Every document that `assertSlaDocument` accepts has clauses with ids of their own, none of them
-- the reserved one, whose schemas are enforceable and whose price bounds do not cross.
pub assert_sla_document-IsSound :
    (sla : Json) (cs : List SlaClause)
    → assert_sla_document sla ≡ ok cs
    → All IsSound cs × Fresh [] (map id_of cs)
unfolding assert_sla_document
assert_sla_document-IsSound sla cs h =
    check_clauses-IsSound [] (clauses_of sla) cs
      (>>-eq-ok (valid_or_fault (validate meta_schema sla [])) _ h).1

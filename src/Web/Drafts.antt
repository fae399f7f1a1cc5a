-- ===== src/Web/Drafts.antt =====
-- The clauses of a draft in the SLA composer, of web/src/forms/sla-draft.js, and the ids that they
-- get. `Number(text)` and the rendering of a number are parameters.
pub mod Fresh
mod Examples
use verdikt.Base.{
  ℕ, zero, suc, ◌+◌, ◌-◌, ◌*◌, ◌/◌, ◌%◌, ◌^◌, Bool, true, false, not, ◌||◌, List, [], ◌∷◌, ◌++◌,
  Option, none, some, JsString, js, same_text, decimal, ◌==◌, length, map, if◌then◌else◌,
}
use verdikt.Json.Numbers.{Number, finite, pos, negsuc, is_finite}
use verdikt.Json.Reading.{has}

-- `${wanted}-${n}`
abbrev pub candidate : JsString → ℕ → JsString
candidate wanted n = wanted ++ 45 ∷ decimal n

-- The loop of `uniqueId`.
unfoldable pub next_free : List JsString → JsString → ℕ → ℕ → JsString
next_free taken wanted zero n = candidate wanted n
next_free taken wanted (suc fuel) n =
    let later = next_free taken wanted fuel (suc n) in
    if has taken (candidate wanted n) then later else candidate wanted n

-- As many numbers are taken as there are names, at most.
unfoldable pub unique_id : JsString → List JsString → JsString
unfolding next_free
unique_id wanted taken =
    if has taken wanted then next_free taken wanted (length taken) 2 else wanted

pub data ClauseDraft (N : Type 0) : Type 0 where
  latency : (id : JsString) → (id_touched : Bool) → (max_ms : JsString) → ClauseDraft N
  price_range : (id : JsString) → (id_touched : Bool) → (min max asset : JsString) → ClauseDraft N
  semantic : (id : JsString) → (id_touched : Bool) → (criteria : JsString) → ClauseDraft N
  schema : (id : JsString) → (id_touched : Bool) → (root : Option N) → ClauseDraft N

-- `ms / 1000` where `ms % 1000 === 0`.
abbrev pub seconds_of : Number → Option Number
seconds_of (finite (pos a) k) =
    let unit = 1000 * 2 ^ k in if a % unit == 0 then some (finite (pos (a / unit)) 0) else none
seconds_of (finite (negsuc a) k) =
    let unit = 1000 * 2 ^ k in
    if suc a % unit == 0 then some (finite (negsuc (suc a / unit - 1)) 0) else none
seconds_of _ = none

pub data ClauseKind : Type 0 where
  latency_kind price_kind semantic_kind schema_kind : ClauseKind

module _ (N : Type 0) where
  abbrev pub id_of : ClauseDraft N → JsString
  id_of (latency id touched max_ms) = id
  id_of (price_range id touched min max asset) = id
  id_of (semantic id touched criteria) = id
  id_of (schema id touched root) = id

  abbrev pub with_id : JsString → ClauseDraft N → ClauseDraft N
  with_id id (latency old touched max_ms) = latency id touched max_ms
  with_id id (price_range old touched min max asset) = price_range id touched min max asset
  with_id id (semantic old touched criteria) = semantic id touched criteria
  with_id id (schema old touched root) = schema id touched root

  abbrev pub id_touched : ClauseDraft N → Bool
  id_touched (latency id touched max_ms) = touched
  id_touched (price_range id touched min max asset) = touched
  id_touched (semantic id touched criteria) = touched
  id_touched (schema id touched root) = touched

  abbrev pub blank : ClauseKind → ClauseDraft N
  blank latency_kind = latency [] false (js "5000")
  blank price_kind = price_range [] false [] [] (js "USDC")
  blank semantic_kind = semantic [] false []
  blank schema_kind = schema [] false none

  module _ (number_of : JsString → Number) (render : Number → JsString) where
    abbrev within : Number → Option Number → JsString
    within ms (some seconds) = js "responds-within-" ++ render seconds ++ js "s"
    within ms none = js "responds-within-" ++ render ms ++ js "ms"

    abbrev suggest_latency : JsString → Number → JsString
    suggest_latency [] ms = js "responds-in-time"
    suggest_latency (c ∷ cs) ms =
        if is_finite ms then within ms (seconds_of ms) else js "responds-in-time"

    unfoldable pub suggest_id : ClauseDraft N → JsString
    unfolding js is_finite
    suggest_id (latency id touched max_ms) = suggest_latency max_ms (number_of max_ms)
    suggest_id (price_range id touched min max asset) = js "price-band"
    suggest_id (semantic id touched criteria) = js "meets-criteria"
    suggest_id (schema id touched root) = js "response-shape"

    unfoldable pub new_clause : ClauseKind → List (ClauseDraft N) → ClauseDraft N
    unfolding unique_id suggest_id
    new_clause kind siblings =
        with_id (unique_id (suggest_id (blank kind)) (map id_of siblings)) (blank kind)

    -- The siblings that are not the clause itself.
    unfoldable pub refresh_id : ClauseDraft N → List (ClauseDraft N) → ClauseDraft N
    unfolding unique_id suggest_id
    refresh_id clause others =
        if id_touched clause
        then clause
        else with_id (unique_id (suggest_id clause) (map id_of others)) clause

-- ===== src/Sdk/Registry.antt =====
-- packages/sdk/registry.js: the ordinals of the contract's enums, and the clause that a verdict
-- names. `keccak256` of a text is a parameter.
pub mod Clauses
mod Examples
use verdikt.Base.{
  ℕ, Bool, true, false, List, [], ◌∷◌, ◌++◌, Option, none, some, JsString, Result, ok, throw, js,
  same_text, to_lower, replicate, is_some, if◌then◌else◌, get_elem?,
}
use verdikt.Json.Numbers.{Number, finite, infinite, nan, ℤ, pos, negsuc}
use verdikt.Sla.Evaluate.{SlaOutcome, pass, fail, down}
use verdikt.Proxy.Router.{ServiceStatus, missing, active, suspended, deregistered}

unfoldable pub outcome_to_ordinal : SlaOutcome → ℕ
outcome_to_ordinal pass = 0
outcome_to_ordinal fail = 1
outcome_to_ordinal down = 2

abbrev pub outcome_by_ordinal : List SlaOutcome
outcome_by_ordinal = pass ∷ fail ∷ down ∷ []

unfoldable pub status_to_ordinal : ServiceStatus → ℕ
status_to_ordinal missing = 0
status_to_ordinal active = 1
status_to_ordinal suspended = 2
status_to_ordinal deregistered = 3

abbrev pub status_by_ordinal : List ServiceStatus
status_by_ordinal = missing ∷ active ∷ suspended ∷ deregistered ∷ []

-- An integer that is in range is an index.
unfoldable pub outcome_from_ordinal : ℕ → Option SlaOutcome
outcome_from_ordinal ordinal = get_elem? outcome_by_ordinal ordinal

unfoldable pub status_from_ordinal : ℕ → Option ServiceStatus
status_from_ordinal ordinal = get_elem? status_by_ordinal ordinal

-- `0x` and 64 zeros.
unfoldable pub no_clause : JsString
unfolding js
no_clause = js "0x" ++ replicate 64 48

module _ (keccak256 : JsString → JsString) where
  abbrev pub clause_hash : JsString → JsString
  clause_hash id = keccak256 id

  unfoldable pub first_match : JsString → List JsString → Option JsString
  first_match target [] = some (js "unknown")
  first_match target (id ∷ ids) =
      let rest = first_match target ids in
      if same_text (to_lower (clause_hash id)) target then some id else rest

  abbrev pub match_word : JsString → List JsString → Option JsString
  match_word target ids =
      if same_text (to_lower (clause_hash (js "delivery"))) target
      then some (js "delivery")
      else first_match target ids

  -- The ids are those of the clauses of the SLA, which may be missing.
  unfoldable pub match_failed_clause : JsString → List JsString → Option JsString
  unfolding first_match
  match_failed_clause [] ids = none
  match_failed_clause (c ∷ cs) ids =
      if same_text (to_lower (c ∷ cs)) no_clause then none else match_word (to_lower (c ∷ cs)) ids

-- ===== src/Cre/Reputation.antt =====
-- cre/lib/reputation.js: the scores of every service over the trailing window. A time is a number
-- of seconds; that `now` is finite holds by its type. Where the source subtracts the window from
-- `now`, the model adds it to the other side.
pub mod ByService
mod Examples
use verdikt.Base.{
  ℕ, ◌+◌, Bool, true, false, not, ◌&&◌, ◌||◌, List, [], ◌∷◌, ◌++◌, Option, none, some, JsString,
  Result, ok, throw, ◌>>=◌, js, same_text, leb, ltb, is_some, ◌==◌, if◌then◌else◌,
}
use verdikt.Base.Dict.{Dict, get, set}
use verdikt.Sla.Aggregate.{Entry, bare, ReputationScores, AggregateError, aggregate_window}

pub record WindowService : Type 0 where
  pub service_id : JsString
  pub slug : JsString
  pub status : JsString

pub record WindowVerdict : Type 0 where
  pub service_id : JsString
  pub outcome : JsString
  pub timestamp : ℕ

pub record ServiceScores : Type 0 where
  pub service_id : JsString
  pub slug : JsString
  pub scores : ReputationScores

abbrev pub window_seconds : ℕ
window_seconds = 86400

-- `ACTIVE` or `SUSPENDED`.
abbrev pub is_live : WindowService → Bool
is_live service =
    same_text service.status (js "ACTIVE") || same_text service.status (js "SUSPENDED")

unfoldable pub open_buckets : Dict (List Entry) → List WindowService → Dict (List Entry)
open_buckets buckets [] = buckets
open_buckets buckets (service ∷ services) =
    open_buckets (if is_live service then set service.service_id [] buckets else buckets) services

-- Neither `timestamp <= now - window` nor `timestamp > now`.
abbrev pub in_window : ℕ → ℕ → WindowVerdict → Bool
in_window now window verdict = ltb now (verdict.timestamp + window) && leb verdict.timestamp now

abbrev pub push : JsString → Entry → Option (List Entry) → Dict (List Entry) → Dict (List Entry)
push id entry none buckets = buckets
push id entry (some bucket) buckets = set id (bucket ++ entry ∷ []) buckets

unfoldable pub fill_buckets : ℕ → ℕ → Dict (List Entry) → List WindowVerdict → Dict (List Entry)
fill_buckets now window buckets [] = buckets
fill_buckets now window buckets (verdict ∷ verdicts) =
    fill_buckets now window
      (if in_window now window verdict
        then push verdict.service_id (bare verdict.outcome) (get verdict.service_id buckets) buckets
        else buckets)
      verdicts

abbrev pub with_scores : WindowService → ReputationScores → ServiceScores
with_scores service scores = record {
  service_id = service.service_id;
  slug = service.slug;
  scores = scores;
}

abbrev pub score_service :
    WindowService
    → Option (List Entry)
    → Result AggregateError (List ServiceScores)
    → Result AggregateError (List ServiceScores)
score_service service none rest = rest
score_service service (some bucket) rest = do
  scores ← aggregate_window bucket
  others ← rest
  ok (with_scores service scores ∷ others)

-- The `filter` and the `map`.
unfoldable pub score_services :
    Dict (List Entry) → List WindowService → Result AggregateError (List ServiceScores)
score_services buckets [] = ok []
score_services buckets (service ∷ services) =
    score_service service (get service.service_id buckets) (score_services buckets services)

unfoldable pub reputation_for_window :
    List WindowService → List WindowVerdict → ℕ → ℕ → Result AggregateError (List ServiceScores)
unfolding open_buckets fill_buckets score_services
reputation_for_window services verdicts now window =
    score_services (fill_buckets now window (open_buckets [] services) verdicts) services

-- A score that was never published is `none`.
abbrev pub differs : ℕ → Option ℕ → Bool
differs computed none = true
differs computed (some published) = not (computed == published)

unfoldable pub scores_changed : ReputationScores → Option ℕ → Option ℕ → Bool
scores_changed computed conformance availability =
    differs computed.conformance conformance || differs computed.availability availability

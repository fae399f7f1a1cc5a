-- ===== src/Cre/RelayPayload/Examples.antt =====
-- A run of the trimming, and the theorem at it.
use verdikt.Base.{◌≡◌, refl, ◌≤◌, Bool, true, false, [], ◌∷◌, some, JsString, length}
use verdikt.Cre.RelayPayload.{fit_to_budget, fit_loop}
use verdikt.Cre.RelayPayload.Prefix.{IsPrefix, fit_to_budget-IsPrefix}

-- An envelope of two units, of which the first is the flag.
abbrev envelope : JsString → Bool → JsString
envelope body true = 49 ∷ 44 ∷ body
envelope body false = 48 ∷ 44 ∷ body

trimmed : fit_to_budget envelope length 5 (some (1 ∷ 2 ∷ 3 ∷ 4 ∷ 5 ∷ [])) ≡ 49 ∷ 44 ∷ 1 ∷ 2 ∷ 3 ∷ []
unfolding fit_to_budget fit_loop
trimmed = refl

fit_to_budget-IsPrefix_example :
    IsPrefix envelope length 5
      (1 ∷ 2 ∷ 3 ∷ [])
      (fit_to_budget envelope length 5 (some (1 ∷ 2 ∷ 3 ∷ [])))
    × (length (envelope (1 ∷ 2 ∷ 3 ∷ []) false) ≤ 5
        → fit_to_budget envelope length 5 (some (1 ∷ 2 ∷ 3 ∷ [])) ≡ envelope (1 ∷ 2 ∷ 3 ∷ []) false)
fit_to_budget-IsPrefix_example = fit_to_budget-IsPrefix envelope length 5 (some (1 ∷ 2 ∷ 3 ∷ []))

-- ===== src/Sdk/Registry/Examples.antt =====
-- Runs of the ordinals, and the theorems at them.
use verdikt.Base.{
  ◌≡◌, refl, [], ◌∷◌, some, js, JsString, Bool, true, false, same_text, same_text_iff, to_lower,
  Bool-cases, inl, inr, ◌≢◌,
}
use verdikt.Sdk.Registry.{match_failed_clause, no_clause}
use verdikt.Sdk.Registry.Clauses.{match_failed_clause-declared, Apart}
use verdikt.Json.Reading.{has}

abbrev digit_of : Bool → JsString
digit_of true = 48 ∷ 120 ∷ 0 ∷ []
digit_of false = 48 ∷ 120 ∷ 1 ∷ []

abbrev sample_hash : JsString → JsString
sample_hash s = digit_of (same_text s (js "delivery"))

sample_lower : (s : JsString) → to_lower (sample_hash s) ≡ sample_hash s
unfolding to_lower js
sample_lower s = by_digit (same_text s (js "delivery"))
  where
    by_digit : (b : Bool) → to_lower (digit_of b) ≡ digit_of b
    by_digit true = refl
    by_digit false = refl

sample-Apart : Apart sample_hash (js "fast") (js "delivery" ∷ js "fast" ∷ [])
unfolding same_text js
sample-Apart j m h = elim (Bool-cases (same_text j (js "delivery"))) [
  | inl e ↦ absurd (let h' = rw e at h in cc)
  | inr e ↦ elim (Bool-cases (same_text j (js "fast"))) [
    | inl f ↦ (same_text_iff j (js "fast")).0 f
    | inr f ↦ absurd (let m' = rw (e, f) at m in cc)
  ]
]

declared : has (js "delivery" ∷ js "fast" ∷ []) (js "fast") ≡ true
unfolding same_text js
declared = refl

word : sample_hash (js "fast") ≡ 48 ∷ 120 ∷ 1 ∷ []
unfolding same_text js
word = refl

nonzero : sample_hash (js "fast") ≢ no_clause
unfolding same_text js no_clause
nonzero h = cc

match_failed_clause-declared_example :
    match_failed_clause sample_hash (sample_hash (js "fast")) (js "fast" ∷ []) ≡ some (js "fast")
match_failed_clause-declared_example =
    match_failed_clause-declared sample_hash (js "fast") (js "fast" ∷ []) 48 (120 ∷ 1 ∷ [])
      sample_lower declared sample-Apart word nonzero

-- ===== src/Sdk/Registry/Clauses.antt =====
-- Reading back the clause that a verdict names.
use verdikt.Base.{
  ℕ, zero, suc, ◌≡◌, ◌≢◌, refl, sym, ap, ◌∙◌, true, false, List, [], ◌∷◌, some, JsString, js,
  same_text, same_text_iff, same_text_refl, to_lower, Bool-cases, inl, inr, ◌↔◌,
}
use verdikt.Json.Reading.{has}
use verdikt.Sdk.Registry.{
  outcome_to_ordinal, outcome_from_ordinal, first_match, match_failed_clause, no_clause,
}
use verdikt.Sla.Evaluate.{SlaOutcome, pass, fail, down}
use verdikt.Base.{suc}

-- An ordinal is read as an outcome exactly when it is the ordinal of that outcome.
pub outcome_from_ordinal-roundtrip :
    (n : ℕ) (o : SlaOutcome) → (outcome_from_ordinal n ≡ some o) ↔ (n ≡ outcome_to_ordinal o)
unfolding outcome_from_ordinal outcome_to_ordinal
outcome_from_ordinal-roundtrip n o = (forward n, λ e. rw e (back o))
  where
    back : (o : SlaOutcome) → outcome_from_ordinal (outcome_to_ordinal o) ≡ some o
    back pass = refl
    back fail = refl
    back down = refl

    forward : (n : ℕ) → outcome_from_ordinal n ≡ some o → n ≡ outcome_to_ordinal o
    forward zero h = let same : pass ≡ o = cc in rw (← same) refl
    forward (suc zero) h = let same : fail ≡ o = cc in rw (← same) refl
    forward (suc (suc zero)) h = let same : down ≡ o = cc in rw (← same) refl
    forward (suc (suc (suc n))) h = cc

module _ (keccak256 : JsString → JsString) where
  abbrev pub Apart : JsString → List JsString → Type 0
  Apart id ids = (j : JsString) → has ids j ≡ true → keccak256 j ≡ keccak256 id → j ≡ id

  first_match-in :
      (id : JsString) (ids : List JsString)
      → ((s : JsString) → to_lower (keccak256 s) ≡ keccak256 s)
      → has ids id ≡ true
      → Apart id ids
      → first_match keccak256 (keccak256 id) ids ≡ some id
  unfolding first_match
  first_match-in id [] lower h apart = cc
  first_match-in id (i ∷ ids) lower h apart =
      elim (Bool-cases (same_text (to_lower (keccak256 i)) (keccak256 id))) [
        | inl e ↦
            let hashed =
              sym (lower i) ∙ (same_text_iff (to_lower (keccak256 i)) (keccak256 id)).0 e in
            rw e (ap some (apart i (rw (same_text_refl i) refl) hashed))
        | inr e ↦ rw e (
            first_match-in id ids lower
              (elim (Bool-cases (same_text id i)) [
                | inl s ↦ absurd (
                    let same = (same_text_iff id i).0 s in
                    let hit = rw (← same, lower id, same_text_refl (keccak256 id)) at e in cc)
                | inr s ↦ rw s at h
              ])
              (λ j m.
                apart j (elim (Bool-cases (same_text j i)) [ inl s ↦ rw s refl | inr s ↦ rw s m ])))
      ]

  -- From the hash of a clause that the SLA declares, or of the delivery clause, the clause is read
  -- back, if the hash is a lower-case word other than the zero word and no other of those clauses
  -- has the same hash.
  pub match_failed_clause-declared :
      (id : JsString) (ids : List JsString) (c : ℕ) (cs : JsString)
      → ((s : JsString) → to_lower (keccak256 s) ≡ keccak256 s)
      → has (js "delivery" ∷ ids) id ≡ true
      → Apart id (js "delivery" ∷ ids)
      → keccak256 id ≡ c ∷ cs
      → keccak256 id ≢ no_clause
      → match_failed_clause keccak256 (keccak256 id) ids ≡ some id
  unfolding match_failed_clause
  match_failed_clause-declared id ids c cs lower h apart word nonzero =
      let found = first_match-in id (js "delivery" ∷ ids) lower h apart in
      let same = sym (lower id) ∙ ap to_lower word in
      let other : same_text (to_lower (c ∷ cs)) no_clause ≡ false =
        (elim (Bool-cases (same_text (to_lower (c ∷ cs)) no_clause)) [
          | inl e ↦ absurd (nonzero (same ∙ (same_text_iff (to_lower (c ∷ cs)) no_clause).0 e))
          | inr e ↦ e
        ]) in
      rw (word, other) (rw (← same) found)

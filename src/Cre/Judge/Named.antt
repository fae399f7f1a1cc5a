-- ===== src/Cre/Judge/Named.antt =====
-- The clause that a verdict names.
use verdikt.Base.{
  ◌≡◌, refl, ap, true, false, List, [], ◌∷◌, ◌++◌, none, some, JsString, Bool-cases, inl, inr, ◌↔◌,
  every,
}
use verdikt.Sla.Clauses.{SlaClauseResult}
use verdikt.Sla.Evaluate.{passed}
use verdikt.Cre.Judge.{Judgement, first_failed, failed_clause_of}

-- `failedClauseOf` gives an id exactly when it is the id of a clause that failed before which all
-- passed, and null exactly when every clause passed.
pub first_failed-splits :
    (j : Judgement)
    → ((failed_clause_of j ≡ none) ↔ (every passed j.clauses ≡ true))
      × ((id : JsString)
          → failed_clause_of j ≡ some id
          → (before : List SlaClauseResult) × (r : SlaClauseResult) × (after : List SlaClauseResult)
            × (j.clauses ≡ before ++ r ∷ after)
            × (every passed before ≡ true)
            × (r.pass ≡ false)
            × (r.id ≡ id))
first_failed-splits j = (none_iff j.clauses, splits j.clauses)
  where
    none_iff : (rs : List SlaClauseResult) → (first_failed rs ≡ none) ↔ (every passed rs ≡ true)
    none_iff [] = (λ _. refl, λ _. refl)
    none_iff (r ∷ rs) = elim (Bool-cases r.pass) [
      | inl e ↦ rw e (none_iff rs)
      | inr e ↦ rw e (λ h. cc, λ h. cc)
    ]

    splits :
        (rs : List SlaClauseResult) (id : JsString)
        → first_failed rs ≡ some id
        → (before : List SlaClauseResult) × (r : SlaClauseResult) × (after : List SlaClauseResult)
          × (rs ≡ before ++ r ∷ after)
          × (every passed before ≡ true)
          × (r.pass ≡ false)
          × (r.id ≡ id)
    splits [] id h = cc
    splits (r ∷ rs) id h = elim (Bool-cases r.pass) [
      | inl e ↦
          let (before, s, after, same, good, bad, named) = splits rs id (rw e at h) in
          (r ∷ before, s, after, ap (λ l. r ∷ l) same, rw e good, bad, named)
      | inr e ↦ ([], r, rs, refl, refl, e, let h' = rw e at h in cc)
    ]

-- ===== src/Web/Drafts/Examples.antt =====
-- Ids of clauses, and the theorem at some.
use verdikt.Base.{
  ℕ, ◌≡◌, refl, Bool, true, false, List, [], ◌∷◌, Option, none, some, JsString, js, decimal, map,
}
use verdikt.Json.Numbers.{Number, finite, pos, of_ℕ}
use verdikt.Json.Reading.{has}
use verdikt.Sla.Document.{big_int}
use verdikt.Web.Drafts.{
  ClauseDraft, latency, semantic, semantic_kind, id_of, id_touched, new_clause, refresh_id,
  suggest_id,
}
use verdikt.Web.Drafts.Fresh.{new_clause-free}

abbrev reads : JsString → Number
reads text = of_ℕ (big_int 0 text)

abbrev renders : Number → JsString
renders (finite (pos n) k) = decimal n
renders _ = []

abbrev two_semantic : List (ClauseDraft ℕ)
two_semantic =
    semantic (js "meets-criteria") false []
    ∷ semantic (js "meets-criteria-2") false (js "polite")
    ∷ []

third_named :
    id_of ℕ (new_clause ℕ reads renders semantic_kind two_semantic) ≡ js "meets-criteria-3"
unfolding new_clause verdikt.Base.same_text decimal
third_named = refl

latency_named : suggest_id ℕ reads renders (latency [] false (js "5000")) ≡ js "responds-within-5s"
unfolding suggest_id big_int decimal
latency_named = refl

new_clause-free_example :
    (has
        (map (id_of ℕ) two_semantic)
        (id_of ℕ (new_clause ℕ reads renders semantic_kind two_semantic))
      ≡ false)
    × (id_touched ℕ (latency [] false (js "5000")) ≡ false
        → has
            (map (id_of ℕ) two_semantic)
            (id_of ℕ (refresh_id ℕ reads renders (latency [] false (js "5000")) two_semantic))
          ≡ false)
    × (id_touched ℕ (latency [] false (js "5000")) ≡ true
        → refresh_id ℕ reads renders (latency [] false (js "5000")) two_semantic
          ≡ latency [] false (js "5000"))
new_clause-free_example =
    new_clause-free ℕ reads renders semantic_kind (latency [] false (js "5000")) two_semantic

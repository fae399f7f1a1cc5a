-- ===== src/Sla/Aggregate/Examples.antt =====
-- Runs of the ratios, and the theorems at them.
use verdikt.Base.{ℕ, ◌≡◌, refl, List, [], ◌∷◌, ok, js, All, ◌↔◌, length, ◌≤◌}
use verdikt.Sla.Aggregate.{Entry, bare, ReputationScores, aggregate_window}
use mathlib.Core.List.{Permᴰ}
use verdikt.Sla.Aggregate.Ratios.{
  aggregate_window-ok_iff, aggregate_window-full, aggregate_window-perm, Known, count,
}

abbrev verdicts : List Entry
verdicts = bare (js "PASS") ∷ bare (js "FAIL") ∷ bare (js "PASS") ∷ bare (js "DOWN") ∷ []

abbrev scores : ReputationScores
scores = record {
  conformance = 666;
  availability = 750;
  counts = record { pass = 2; fail = 1; down = 1 };
  total = 4;
}

scored : aggregate_window verdicts ≡ ok scores
unfolding aggregate_window js verdikt.Base.same_text
scored = refl

aggregate_window-ok_iff_example :
    ((s : ReputationScores) × (aggregate_window verdicts ≡ ok s)) ↔ All Known verdicts
aggregate_window-ok_iff_example = aggregate_window-ok_iff verdicts

aggregate_window-full_example :
    (scores.conformance ≤ 1000)
    × (scores.availability ≤ 1000)
    × ((scores.conformance ≡ 1000) ↔ (count (js "FAIL") verdicts ≡ 0))
    × ((scores.availability ≡ 1000) ↔ (count (js "DOWN") verdicts ≡ 0))
aggregate_window-full_example = aggregate_window-full verdicts scores scored

abbrev reordered : List Entry
reordered = bare (js "FAIL") ∷ bare (js "PASS") ∷ bare (js "PASS") ∷ bare (js "DOWN") ∷ []

aggregate_window-perm_example : aggregate_window reordered ≡ ok scores
aggregate_window-perm_example =
    aggregate_window-perm verdicts reordered scores (Permᴰ.swap refl refl) scored

-- ===== src/Cre/Reputation/Examples.antt =====
-- A run of the window, and the theorem at it.
use verdikt.Base.{ℕ, ◌≡◌, refl, List, [], ◌∷◌, ok, js}
use verdikt.Cre.Reputation.{WindowService, WindowVerdict, reputation_for_window, with_scores}
use verdikt.Cre.Reputation.ByService.{scores_by_service, reputation_for_window-by_service}

abbrev weather : WindowService
weather = record { service_id = js "0x01"; slug = js "weather"; status = js "ACTIVE" }

abbrev closed : WindowService
closed = record { service_id = js "0x02"; slug = js "closed"; status = js "DEREGISTERED" }

abbrev verdict : ℕ → WindowVerdict
verdict timestamp = record { service_id = js "0x01"; outcome = js "FAIL"; timestamp = timestamp }

-- A verdict that is as old as the window has aged out.
boundary :
    reputation_for_window (weather ∷ closed ∷ []) (verdict 100 ∷ []) 200 100
    ≡ ok (
        with_scores weather (record {
          conformance = 1000;
          availability = 1000;
          counts = record { pass = 0; fail = 0; down = 0 };
          total = 0;
        })
        ∷ [])
unfolding reputation_for_window js verdikt.Base.Dict.get verdikt.Base.same_text
    verdikt.Base.Dict.set verdikt.Sla.Aggregate.aggregate_window
boundary = refl

reputation_for_window-by_service_example :
    reputation_for_window (weather ∷ closed ∷ []) (verdict 150 ∷ []) 200 100
    ≡ scores_by_service (weather ∷ closed ∷ []) (verdict 150 ∷ []) 200 100 (weather ∷ closed ∷ [])
reputation_for_window-by_service_example =
    reputation_for_window-by_service (weather ∷ closed ∷ []) (verdict 150 ∷ []) 200 100

-- ===== src/Cre/Reputation/ByService.antt =====
-- The scores against their definition service by service.
use verdikt.Base.{
  ℕ, ◌≡◌, refl, sym, ap, ◌∙◌, Bool, true, false, ◌&&◌, ◌||◌, List, [], ◌∷◌, ◌++◌, Option, none,
  some, JsString, Result, ok, any, same_text, same_text_iff, append_assoc, append-nil, Bool-cases,
  inl, inr, if◌then◌else◌,
}
use verdikt.Base.Dict.{Dict, get, set, get-set}
use verdikt.Sla.Aggregate.{Entry, bare, AggregateError}
use verdikt.Cre.Reputation.{
  WindowService, WindowVerdict, ServiceScores, is_live, open_buckets, in_window, push, fill_buckets,
  score_service, score_services, reputation_for_window,
}

-- The outcomes of one service in the window, in the order of the verdicts.
abbrev pub outcomes_of : ℕ → ℕ → JsString → List WindowVerdict → List Entry
outcomes_of now window id [] = []
outcomes_of now window id (verdict ∷ verdicts) =
    if in_window now window verdict && same_text verdict.service_id id
    then bare verdict.outcome ∷ outcomes_of now window id verdicts
    else outcomes_of now window id verdicts

-- Whether an id is that of a live service.
abbrev pub is_listed : List WindowService → JsString → Bool
is_listed services id = any (λ s. is_live s && same_text s.service_id id) services

abbrev appended : Option (List Entry) → List Entry → Option (List Entry)
appended none more = none
appended (some bucket) more = some (bucket ++ more)

get-push :
    (k j : JsString) (entry : Entry) (o : Option (List Entry)) (m : Dict (List Entry))
    → get k m ≡ o
    → get j (push k entry o m)
      ≡ (if same_text k j then appended (get j m) (entry ∷ []) else get j m)
get-push k j entry none m g = elim (Bool-cases (same_text k j)) [
  | inl e ↦ let same = (same_text_iff k j).0 e in rw e (rw (← same, g) refl)
  | inr e ↦ rw e refl
]
get-push k j entry (some bucket) m g = elim (Bool-cases (same_text k j)) [
  | inl e ↦
      let same = (same_text_iff k j).0 e in
      get-set k j (bucket ++ entry ∷ []) m ∙ rw e (rw (← same, g) refl)
  | inr e ↦ get-set k j (bucket ++ entry ∷ []) m ∙ rw e refl
]

appended-twice :
    (o : Option (List Entry)) (entry : Entry) (more : List Entry)
    → appended (appended o (entry ∷ [])) more ≡ appended o (entry ∷ more)
appended-twice none entry more = refl
appended-twice (some bucket) entry more = ap some (append_assoc bucket (entry ∷ []) more)

appended-nil : (o : Option (List Entry)) → o ≡ appended o []
appended-nil none = refl
appended-nil (some bucket) = ap some (sym (append-nil bucket))

get-fill_buckets :
    (now window : ℕ) (id : JsString) (m : Dict (List Entry)) (verdicts : List WindowVerdict)
    → get id (fill_buckets now window m verdicts)
      ≡ appended (get id m) (outcomes_of now window id verdicts)
unfolding fill_buckets
get-fill_buckets now window id m [] = appended-nil (get id m)
get-fill_buckets now window id m (v ∷ verdicts) = elim (Bool-cases (in_window now window v)) [
  | inr e ↦ rw e (get-fill_buckets now window id m verdicts)
  | inl e ↦
      let m' = push v.service_id (bare v.outcome) (get v.service_id m) m in
      let pushed = get-push v.service_id id (bare v.outcome) (get v.service_id m) m refl in
      elim (Bool-cases (same_text v.service_id id)) [
        | inl s ↦
            rw (e, s)
              (get-fill_buckets now window id m' verdicts
                ∙ ap (λ o. appended o (outcomes_of now window id verdicts)) (rw s at pushed)
                ∙ appended-twice (get id m) (bare v.outcome) (outcomes_of now window id verdicts))
        | inr s ↦
            rw (e, s)
              (get-fill_buckets now window id m' verdicts
                ∙ ap (λ o. appended o (outcomes_of now window id verdicts)) (rw s at pushed))
      ]
]

-- What the buckets hold once they are opened.
abbrev opened : Bool → Option (List Entry) → Option (List Entry)
opened true o = some []
opened false o = o

opened-or : (a b : Bool) (o : Option (List Entry)) → opened b (opened a o) ≡ opened (a || b) o
opened-or true true o = refl
opened-or true false o = refl
opened-or false b o = refl

get-open_one :
    (id : JsString) (m : Dict (List Entry)) (s : WindowService)
    → get id (if is_live s then set s.service_id [] m else m)
      ≡ opened (is_live s && same_text s.service_id id) (get id m)
get-open_one id m s = elim (Bool-cases (is_live s)) [
  | inr e ↦ rw e refl
  | inl e ↦ elim (Bool-cases (same_text s.service_id id)) [
    | inl f ↦ rw (e, f) (get-set s.service_id id [] m ∙ rw f refl)
    | inr f ↦ rw (e, f) (get-set s.service_id id [] m ∙ rw f refl)
  ]
]

get-open_buckets :
    (id : JsString) (m : Dict (List Entry)) (services : List WindowService)
    → get id (open_buckets m services) ≡ opened (is_listed services id) (get id m)
unfolding open_buckets
get-open_buckets id m [] = refl
get-open_buckets id m (s ∷ services) =
    get-open_buckets id (if is_live s then set s.service_id [] m else m) services
    ∙ ap (opened (is_listed services id)) (get-open_one id m s)
    ∙ opened-or (is_live s && same_text s.service_id id) (is_listed services id) (get id m)

-- The definition service by service: the outcomes of a listed id that lie in the window.
abbrev pub listed_outcomes :
    List WindowService → List WindowVerdict → ℕ → ℕ → JsString → Option (List Entry)
listed_outcomes all verdicts now window id =
    if is_listed all id then some (outcomes_of now window id verdicts) else none

abbrev pub scores_by_service :
    List WindowService
    → List WindowVerdict
    → ℕ
    → ℕ
    → List WindowService
    → Result AggregateError (List ServiceScores)
scores_by_service all verdicts now window [] = ok []
scores_by_service all verdicts now window (service ∷ services) =
    score_service service (listed_outcomes all verdicts now window service.service_id)
      (scores_by_service all verdicts now window services)

get-buckets :
    (all : List WindowService) (verdicts : List WindowVerdict) (now window : ℕ) (id : JsString)
    → get id (fill_buckets now window (open_buckets [] all) verdicts)
      ≡ listed_outcomes all verdicts now window id
unfolding get
get-buckets all verdicts now window id =
    get-fill_buckets now window id (open_buckets [] all) verdicts
    ∙ ap (λ o. appended o (outcomes_of now window id verdicts)) (get-open_buckets id [] all)
    ∙ either (is_listed all id)
  where
    either :
        (b : Bool)
        → appended (opened b none) (outcomes_of now window id verdicts)
          ≡ (if b then some (outcomes_of now window id verdicts) else none)
    either true = refl
    either false = refl

score_services-by_service :
    (all : List WindowService) (verdicts : List WindowVerdict) (now window : ℕ)
    (services : List WindowService)
    → score_services (fill_buckets now window (open_buckets [] all) verdicts) services
      ≡ scores_by_service all verdicts now window services
unfolding score_services
score_services-by_service all verdicts now window [] = refl
score_services-by_service all verdicts now window (s ∷ services) =
    ap
      (λ o.
        score_service s o
          (score_services (fill_buckets now window (open_buckets [] all) verdicts) services))
      (get-buckets all verdicts now window s.service_id)
    ∙ ap (score_service s (listed_outcomes all verdicts now window s.service_id))
        (score_services-by_service all verdicts now window services)

-- The scores are those of the definition service by service: each service whose id is that of an
-- ACTIVE or SUSPENDED one has the ratios of exactly the outcomes recorded for its id in the window,
-- in their order, those without a verdict included; no other service is scored.
pub reputation_for_window-by_service :
    (services : List WindowService) (verdicts : List WindowVerdict) (now window : ℕ)
    → reputation_for_window services verdicts now window
      ≡ scores_by_service services verdicts now window services
unfolding reputation_for_window
reputation_for_window-by_service services verdicts now window =
    score_services-by_service services verdicts now window services

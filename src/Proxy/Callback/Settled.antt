-- ===== src/Proxy/Callback/Settled.antt =====
-- When a callback settles a verification.
use verdikt.Base.{
  ℕ, ◌≡◌, refl, sym, ap, ◌∙◌, Bool, true, false, List, [], ◌∷◌, ◌++◌, Option, none, some, JsString,
  Result, ok, throw, ◌≢◌, ◌⊎◌, inl, inr, js, same_text, same_text→eq, starts_with, drop, length,
  ◌==◌, ◌&&◌, ==_iff, and-eq-true, if◌then◌else◌,
}
use verdikt.Base.Dict.{get, delete}
use verdikt.Json.{Json, null, bool, num, str, arr, obj}
use verdikt.Sdk.Payment.{member_of}
use verdikt.Proxy.Pending.{answered, delivered, refused, result, registry_step, clear, hand_over}
use verdikt.Proxy.Callback.{
  WorkflowResult, Pending, ResultFault, CallbackReply, unauthorized, accepted, Handled, unchanged,
  settled, parse_workflow_result, bearer_matches, settle_with, handle_id, handle_payload,
  handle_callback,
}

starts_with-append :
    (prefix s : JsString) → starts_with prefix s ≡ true → s ≡ prefix ++ drop (length prefix) s
unfolding starts_with
starts_with-append [] s h = refl
starts_with-append (p ∷ prefix) [] h = cc
starts_with-append (p ∷ prefix) (c ∷ cs) h =
    let (same, rest) = and-eq-true (p == c) (starts_with prefix cs) h in
    ap (λ d. d ∷ cs) (sym ((==_iff p c).0 same))
    ∙ ap (λ ds. p ∷ ds) (starts_with-append prefix cs rest)

abbrev pub IsRefusal : CallbackReply → Type 0
IsRefusal accepted = ⊥
IsRefusal _ = Unit

module _ (parse_json : JsString → Option Json) (utf8 : JsString → List ℕ) where
  -- The header bears the token, byte for byte.
  abbrev pub Bears : Option JsString → Option JsString → Type 0
  Bears token header =
      (expected given : JsString) × (token ≡ some expected)
      × (expected ≢ [])
      × (header ≡ some (js "Bearer " ++ given))
      × (utf8 given ≡ utf8 expected)

  abbrev pub Settles :
      Option JsString → Option JsString → JsString → Option Pending → Handled → Type 0
  Settles token header body workflow h =
      Bears token header
      × (payload : Json) × (id : JsString) × (s : Pending) × (waiter : ℕ)
      × (outcome : WorkflowResult) × (parse_json body ≡ some payload)
      × (member_of (js "requestId") payload ≡ some (str id))
      × (workflow ≡ some s)
      × (get id s.pending ≡ some waiter)
      × (parse_workflow_result parse_json utf8 payload ≡ ok outcome)
      × (h.reply ≡ accepted)
      × (h.told ≡ answered waiter (result outcome) ∷ delivered ∷ [])
      × (h.after
          ≡ some (record {
            pending = delete id s.pending;
            running = clear WorkflowResult (some waiter) s.running;
          }))

  -- Nobody who waits is told, and the registry is as it was.
  abbrev pub Untouched : Option Pending → Handled → Type 0
  Untouched workflow h =
      IsRefusal h.reply × (h.after ≡ workflow) × ((h.told ≡ []) ⊎ (h.told ≡ refused ∷ []))

  bearer_matches-Bears :
      (header : Option JsString) (c : ℕ) (cs : JsString)
      → bearer_matches parse_json utf8 header (c ∷ cs) ≡ true
      → Bears (some (c ∷ cs)) header
  unfolding bearer_matches
  bearer_matches-Bears none c cs h = cc
  bearer_matches-Bears (some text) c cs h =
      let (starts, same) =
        and-eq-true (starts_with (js "Bearer ") text)
          (same_text (utf8 (drop 7 text)) (utf8 (c ∷ cs)))
          (as_and (starts_with (js "Bearer ") text) (same_text (utf8 (drop 7 text)) (utf8 (c ∷ cs)))
            h) in
      (
        c ∷ cs,
        drop 7 text,
        refl,
        (λ e. cc),
        ap some (starts_with-append (js "Bearer ") text starts),
        same_text→eq (utf8 (drop 7 text)) (utf8 (c ∷ cs)) same,
      )
    where
      as_and : (a b : Bool) → (if a then b else false) ≡ true → (a && b) ≡ true
      as_and true b h = h
      as_and false b h = h

  module _ (token header : Option JsString) (body : JsString) (borne : Bears token header) where
    settle_with-cases :
        (payload : Json) (id : JsString) (s : Pending) (r : Result ResultFault WorkflowResult)
        → parse_json body ≡ some payload
        → member_of (js "requestId") payload ≡ some (str id)
        → parse_workflow_result parse_json utf8 payload ≡ r
        → Untouched (some s) (settle_with parse_json utf8 id r s)
          ⊎ Settles token header body (some s) (settle_with parse_json utf8 id r s)
    unfolding registry_step
    settle_with-cases payload id s (throw fault) e f g = inl (tt, refl, inl refl)
    settle_with-cases payload id s (ok outcome) e f g = by_waiter (get id s.pending) refl
      where
        by_waiter :
            (o : Option ℕ)
            → get id s.pending ≡ o
            → let h = settled id (hand_over WorkflowResult id (result outcome) o s) in
              Untouched (some s) h ⊎ Settles token header body (some s) h
        by_waiter none w = inl (tt, refl, inr refl)
        by_waiter (some waiter) w =
            inr (borne, payload, id, s, waiter, outcome, e, f, refl, w, g, refl, refl, refl)

    handle_id-cases :
        (payload : Json) (o : Option Json) (workflow : Option Pending)
        → parse_json body ≡ some payload
        → member_of (js "requestId") payload ≡ o
        → Untouched workflow (handle_id parse_json utf8 o payload workflow)
          ⊎ Settles token header body workflow (handle_id parse_json utf8 o payload workflow)
    handle_id-cases payload none workflow e f = inl (tt, refl, inl refl)
    handle_id-cases payload (some null) workflow e f = inl (tt, refl, inl refl)
    handle_id-cases payload (some (bool b)) workflow e f = inl (tt, refl, inl refl)
    handle_id-cases payload (some (num n)) workflow e f = inl (tt, refl, inl refl)
    handle_id-cases payload (some (arr vs)) workflow e f = inl (tt, refl, inl refl)
    handle_id-cases payload (some (obj ms)) workflow e f = inl (tt, refl, inl refl)
    handle_id-cases payload (some (str id)) none e f = inl (tt, refl, inl refl)
    handle_id-cases payload (some (str id)) (some s) e f = settle_with-cases payload id s _ e f refl

    handle_payload-cases :
        (o : Option Json) (workflow : Option Pending)
        → parse_json body ≡ o
        → Untouched workflow (handle_payload parse_json utf8 o workflow)
          ⊎ Settles token header body workflow (handle_payload parse_json utf8 o workflow)
    handle_payload-cases none workflow e = inl (tt, refl, inl refl)
    handle_payload-cases (some payload) workflow e = handle_id-cases payload _ workflow e refl

  -- A callback is accepted only with a configured token that the header bears byte for byte, a body
  -- with a textual request id, and somebody waiting for that id, who alone is told what the body
  -- says and waits no longer. Every other callback is refused; it tells nobody who waits anything
  -- and leaves the registry as it was.
  pub handle_callback-cases :
      (token header : Option JsString) (body : JsString) (workflow : Option Pending)
      → let h = handle_callback parse_json utf8 token header body workflow in
        Untouched workflow h ⊎ Settles token header body workflow h
  unfolding handle_callback
  handle_callback-cases none header body workflow = inl (tt, refl, inl refl)
  handle_callback-cases (some []) header body workflow = inl (tt, refl, inl refl)
  handle_callback-cases (some (c ∷ cs)) header body workflow =
      by_token (bearer_matches parse_json utf8 header (c ∷ cs)) refl
    where
      by_token :
          (b : Bool)
          → bearer_matches parse_json utf8 header (c ∷ cs) ≡ b
          → let h =
              if b
              then handle_payload parse_json utf8 (parse_json body) workflow
              else unchanged unauthorized workflow in
            Untouched workflow h ⊎ Settles (some (c ∷ cs)) header body workflow h
      by_token false other = inl (tt, refl, inl refl)
      by_token true same =
          handle_payload-cases (some (c ∷ cs)) header body (bearer_matches-Bears header c cs same) _
            workflow refl

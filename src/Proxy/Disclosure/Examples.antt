-- ===== src/Proxy/Disclosure/Examples.antt =====
-- A run of the disclosure, and the theorem at it.
use verdikt.Base.{
  ℕ, ◌≡◌, refl, true, List, [], ◌∷◌, ◌++◌, Option, none, some, JsString, Result, ok, js, replicate,
  to_lower,
}
use verdikt.Proxy.Evidence.{Entries, read}
use verdikt.Proxy.Disclosure.{
  StoredVerdict, is_request_id, disclosed, handle_evidence_read, handle_evidence_read-disclosed,
}
use verdikt.Base.{false}

abbrev upper_id : JsString
upper_id = 48 ∷ 120 ∷ replicate 64 65

abbrev lower_id : JsString
lower_id = 48 ∷ 120 ∷ replicate 64 97

abbrev cache : Entries ℕ
cache = (lower_id, record { envelope = 7; expires_at = 100; disclosed = false }) ∷ []

abbrev get_verdict : JsString → Result JsString (Option StoredVerdict)
get_verdict id = ok (some (record { payer = js "0xab"; outcome = 1 }))

shown : (handle_evidence_read ℕ get_verdict 40 500 upper_id (some cache)).0 ≡ disclosed 7
unfolding handle_evidence_read read verdikt.Base.Dict.get verdikt.Base.same_text
shown = refl

handle_evidence_read-disclosed_example :
    (is_request_id upper_id ≡ true)
    × (entries : Entries ℕ) × (◌≡◌ {A = Option (Entries ℕ)} (some cache) (some entries))
    × (verdict : StoredVerdict) × (get_verdict (to_lower upper_id) ≡ ok (some verdict))
    × ((read ℕ 40 (to_lower upper_id) 500 entries).0 ≡ some 7)
handle_evidence_read-disclosed_example =
    handle_evidence_read-disclosed ℕ get_verdict 40 500 upper_id (some cache) 7 shown

-- ===== src/Proxy/Disclosure.antt =====
-- Who may read the evidence of a call: `authorizeDisclosure` of proxy/src/evidence.js and
-- `handleEvidenceRead` of proxy/src/router.js, over the store in memory. The registry's reader is a
-- parameter; what is said in a `detail` is left out.
mod Examples
use verdikt.Base.{
  ℕ, Bool, true, false, ◌&&◌, List, [], ◌∷◌, ◌++◌, ◌≡◌, refl, Option, none, some, JsString, Result,
  ok, throw, js, length, every, is_some, to_lower, starts_with, drop, ◌==◌, Bool-cases, inl, inr,
  ap, if◌then◌else◌,
}
use verdikt.Cre.RequestBody.{hex_value}
use verdikt.Proxy.Evidence.{Entry, Entries, read}

pub record StoredVerdict : Type 0 where
  pub payer : JsString
  pub outcome : ℕ

pub data Gate : Type 0 where
  admitted : (payer : JsString) → Gate
  registry_unavailable no_verdict : Gate

-- The signature is not looked at.
unfoldable pub authorize_disclosure : Result JsString (Option StoredVerdict) → Gate
authorize_disclosure (throw message) = registry_unavailable
authorize_disclosure (ok none) = no_verdict
authorize_disclosure (ok (some verdict)) = admitted verdict.payer

-- `/^0x[0-9a-fA-F]{64}$/`
unfoldable pub is_request_id : JsString → Bool
unfolding hex_value starts_with js
is_request_id id =
    starts_with (js "0x") id && length id == 66 && every (λ c. is_some (hex_value c)) (drop 2 id)

module _ (E : Type 0) where
  pub data EvidenceReply : Type 0 where
    evidence_unavailable bad_request_id no_evidence : EvidenceReply
    refused_by : Gate → EvidenceReply
    disclosed : E → EvidenceReply

  abbrev pub found : Option E → EvidenceReply
  found none = no_evidence
  found (some envelope) = disclosed envelope

  abbrev pub read_admitted : Gate → ℕ → ℕ → JsString → Entries E → EvidenceReply × Entries E
  read_admitted (admitted payer) now ttl id entries =
      (found (read E now id ttl entries).0, (read E now id ttl entries).1)
  read_admitted registry_unavailable now ttl id entries = (refused_by registry_unavailable, entries)
  read_admitted no_verdict now ttl id entries = (refused_by no_verdict, entries)

  module _ (get_verdict : JsString → Result JsString (Option StoredVerdict)) where
    abbrev pub read_lower : ℕ → ℕ → JsString → Entries E → EvidenceReply × Entries E
    read_lower now ttl id entries =
        read_admitted (authorize_disclosure (get_verdict id)) now ttl id entries

    -- The entries are those of the store that is configured.
    unfoldable pub handle_evidence_read :
        ℕ → ℕ → JsString → Option (Entries E) → EvidenceReply × Option (Entries E)
    unfolding is_request_id authorize_disclosure to_lower
    handle_evidence_read now ttl path_id none = (evidence_unavailable, none)
    handle_evidence_read now ttl path_id (some entries) =
        if is_request_id path_id
        then (
          (read_lower now ttl (to_lower path_id) entries).0,
          some (read_lower now ttl (to_lower path_id) entries).1,
        )
        else (bad_request_id, some entries)

    admitted-verdict :
        (r : Result JsString (Option StoredVerdict)) (now ttl : ℕ) (id : JsString)
        (entries : Entries E) (e : E)
        → (read_admitted (authorize_disclosure r) now ttl id entries).0 ≡ disclosed e
        → (verdict : StoredVerdict) × (r ≡ ok (some verdict))
          × ((read E now id ttl entries).0 ≡ some e)
    unfolding authorize_disclosure
    admitted-verdict (throw message) now ttl id entries e h = cc
    admitted-verdict (ok none) now ttl id entries e h = cc
    admitted-verdict (ok (some verdict)) now ttl id entries e h =
        (verdict, refl, of_found (read E now id ttl entries).0 h)
      where
        of_found : (o : Option E) → found o ≡ disclosed e → o ≡ some e
        of_found none h = cc
        of_found (some e') h = cc

    -- An envelope is disclosed only if a store is configured, the id is 32 bytes in hex, the
    -- registry holds a verdict for the id in lower case, and the store has the envelope under it.
    pub handle_evidence_read-disclosed :
        (now ttl : ℕ) (path_id : JsString) (store : Option (Entries E)) (e : E)
        → (handle_evidence_read now ttl path_id store).0 ≡ disclosed e
        → (is_request_id path_id ≡ true)
          × (entries : Entries E) × (store ≡ some entries)
          × (verdict : StoredVerdict) × (get_verdict (to_lower path_id) ≡ ok (some verdict))
          × ((read E now (to_lower path_id) ttl entries).0 ≡ some e)
    unfolding handle_evidence_read
    handle_evidence_read-disclosed now ttl path_id none e h = cc
    handle_evidence_read-disclosed now ttl path_id (some entries) e h =
        elim (Bool-cases (is_request_id path_id)) [
          | inr bad ↦ let h' = rw bad at h in cc
          | inl good ↦
              let (verdict, got, kept) =
                admitted-verdict (get_verdict (to_lower path_id)) now ttl (to_lower path_id) entries
                  e (rw good at h) in
              (good, entries, refl, verdict, got, kept)
        ]

-- ===== src/Proxy/Evidence.antt =====
-- proxy/src/evidence.js and evidence-do.js: the two stores of evidence. A time is a number of
-- milliseconds. The envelope is of any type.
pub mod Refines
pub mod Deadlines
use verdikt.Base.{
  ℕ, ◌+◌, Bool, true, false, List, [], ◌∷◌, Option, none, some, JsString, Result, ok, throw, leb,
  max, if◌then◌else◌,
}
use verdikt.Base.Dict.{Dict, get, set, delete}

module _ (E : Type 0) where
  pub record Entry : Type 0 where
    pub envelope : E
    pub expires_at : ℕ
    pub disclosed : Bool

  -- `new Map()` of `createMemoryEvidenceStore`.
  abbrev pub Entries : Type 0
  Entries = Dict Entry

  abbrev pub live_entry : ℕ → Option Entry → Option Entry
  live_entry now none = none
  live_entry now (some entry) = if leb entry.expires_at now then none else some entry

  -- `live` also deletes what has expired.
  abbrev pub forget_expired : ℕ → JsString → Option Entry → Entries → Entries
  forget_expired now request_id none entries = entries
  forget_expired now request_id (some entry) entries =
      if leb entry.expires_at now then delete request_id entries else entries

  unfoldable pub store : ℕ → JsString → E → ℕ → Entries → Entries
  store now request_id envelope ttl entries =
      set request_id (record { envelope = envelope; expires_at = now + ttl; disclosed = false })
        entries

  -- The first authorised read starts the second clock, and never moves the deadline back.
  abbrev pub disclose : ℕ → ℕ → Entry → Entry
  disclose now ttl entry = if entry.disclosed then entry else (record {
    envelope = entry.envelope;
    expires_at = max entry.expires_at (now + ttl);
    disclosed = true;
  })

  abbrev pub read_entry : ℕ → JsString → ℕ → Option Entry → Entries → Option E × Entries
  read_entry now request_id ttl none entries = (none, entries)
  read_entry now request_id ttl (some entry) entries =
      if leb entry.expires_at now
      then (none, delete request_id entries)
      else (some entry.envelope, set request_id (disclose now ttl entry) entries)

  unfoldable pub read : ℕ → JsString → ℕ → Entries → Option E × Entries
  read now request_id ttl entries = read_entry now request_id ttl (get request_id entries) entries

  -- The storage of one `EvidenceCache`, with its alarm: the keys are put together or deleted
  -- together.
  pub record Storage : Type 0 where
    pub envelope : Option E
    pub expires_at : Option ℕ
    pub disclosed : Option Bool
    pub alarm : Option ℕ

  abbrev pub empty_storage : Storage
  empty_storage = record { envelope = none; expires_at = none; disclosed = none; alarm = none }

  unfoldable pub do_store : ℕ → E → ℕ → Storage → Storage
  do_store now envelope ttl s = record {
    envelope = some envelope;
    expires_at = some (now + ttl);
    disclosed = some false;
    alarm = some (now + ttl);
  }

  abbrev pub extend_storage : ℕ → ℕ → ℕ → Option Bool → Storage → Storage
  extend_storage now ttl expires_at (some true) s = s
  extend_storage now ttl expires_at _ s = record {
    envelope = s.envelope;
    expires_at = some (max expires_at (now + ttl));
    disclosed = some true;
    alarm = some (max expires_at (now + ttl));
  }

  -- A `null` envelope is the 404.
  abbrev pub do_read_keys : ℕ → ℕ → Option E → Option ℕ → Storage → Option E × Storage
  do_read_keys now ttl (some envelope) (some expires_at) s =
      if leb expires_at now
      then (none, s)
      else (some envelope, extend_storage now ttl expires_at s.disclosed s)
  do_read_keys now ttl _ _ s = (none, s)

  unfoldable pub do_read : ℕ → ℕ → Storage → Option E × Storage
  do_read now ttl s = do_read_keys now ttl s.envelope s.expires_at s

  -- `alarm` deletes all the keys.
  unfoldable pub do_alarm : Storage → Storage
  do_alarm s = empty_storage

  -- What happens to the evidence of one call: the clock moves between the requests, and the alarm
  -- fires at any time after it is due, or never.
  pub data Step : Type 0 where
    stores : E → (ttl : ℕ) → Step
    reads : (ttl : ℕ) → Step
    waits : (time : ℕ) → Step
    alarms : Step

  abbrev pub alarm_due : ℕ → Option ℕ → Bool
  alarm_due now none = false
  alarm_due now (some at) = leb at now

  -- The answers to the reads.
  unfoldable pub run_memory : JsString → ℕ → Entries → List Step → List (Option E)
  unfolding store read
  run_memory id now entries [] = []
  run_memory id now entries (stores envelope ttl ∷ steps) =
      run_memory id now (store now id envelope ttl entries) steps
  run_memory id now entries (reads ttl ∷ steps) =
      (read now id ttl entries).0 ∷ run_memory id now (read now id ttl entries).1 steps
  run_memory id now entries (waits time ∷ steps) = run_memory id (now + time) entries steps
  run_memory id now entries (alarms ∷ steps) = run_memory id now entries steps

  unfoldable pub run_object : ℕ → Storage → List Step → List (Option E)
  unfolding do_store do_read do_alarm
  run_object now s [] = []
  run_object now s (stores envelope ttl ∷ steps) =
      run_object now (do_store now envelope ttl s) steps
  run_object now s (reads ttl ∷ steps) =
      (do_read now ttl s).0 ∷ run_object now (do_read now ttl s).1 steps
  run_object now s (waits time ∷ steps) = run_object (now + time) s steps
  run_object now s (alarms ∷ steps) =
      run_object now (if alarm_due now s.alarm then do_alarm s else s) steps

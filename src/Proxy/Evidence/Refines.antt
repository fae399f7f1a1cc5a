-- ===== src/Proxy/Evidence/Refines.antt =====
-- The Durable Object does what the entry of the memory store does.
use verdikt.Base.{
  ℕ, ◌+◌, ◌≤◌, ◌≡◌, refl, sym, ◌∙◌, Bool, true, false, Option, none, some, JsString, leb, leb→le,
  arith, Bool-cases, inl, inr, ◌⊎◌, same_text, same_text_refl, if◌then◌else◌, subst,
}
use verdikt.Base.Dict.{get, set, delete, get-set, get-delete}
use verdikt.Proxy.Evidence.{
  alarms, Entry, Entries, store, read, read_entry, disclose, Storage, empty_storage, do_store,
  do_read, do_alarm, extend_storage,
}
use verdikt.Proxy.Evidence.{alarm_due}
use verdikt.Base.{List}
use verdikt.Proxy.Evidence.{run_memory}
use verdikt.Proxy.Evidence.{Step}
use verdikt.Proxy.Evidence.{run_object}
use verdikt.Base.{[]}
use verdikt.Base.{◌∷◌}
use verdikt.Proxy.Evidence.{stores}
use verdikt.Proxy.Evidence.{reads}
use verdikt.Proxy.Evidence.{waits}

module _ (E : Type 0) where
  -- The storage of an object that has been stored to.
  abbrev pub stored : Entry E → Storage E
  stored entry = record {
    envelope = some entry.envelope;
    expires_at = some entry.expires_at;
    disclosed = some entry.disclosed;
    alarm = some entry.expires_at;
  }

  -- At time `now`, an object and an entry hold the same: the same keys with the alarm at the
  -- deadline, or each is empty or has expired.
  abbrev pub Same : ℕ → Option (Entry E) → Storage E → Type 0
  Same now o s =
      ((entry : Entry E) × (o ≡ some entry) × (s ≡ stored entry))
      ⊎ (((o ≡ none) ⊎ ((entry : Entry E) × (o ≡ some entry) × (entry.expires_at ≤ now)))
          × ((s ≡ empty_storage E)
              ⊎ ((entry : Entry E) × (s ≡ stored entry) × (entry.expires_at ≤ now))))

  -- Storing to the one or the other, whatever was there.
  pub store-do_store :
      (now : ℕ) (request_id : JsString) (envelope : E) (ttl : ℕ) (entries : Entries E)
      (s : Storage E)
      → Same now
          (get request_id (store E now request_id envelope ttl entries))
          (do_store E now envelope ttl s)
  unfolding store do_store
  store-do_store now request_id envelope ttl entries s =
      let entry : Entry E = (record {
        envelope = envelope;
        expires_at = now + ttl;
        disclosed = false;
      }) in
      inl (entry, get-set request_id request_id entry entries ∙ self request_id entry, refl)
    where
      self :
          (k : JsString) (entry : Entry E)
          → (if same_text k k then some entry else get k entries) ≡ some entry
      self k entry = rw (same_text_refl k) refl

  set_same :
      (k : JsString) (entry : Entry E) (entries : Entries E)
      → get k (set k entry entries) ≡ some entry
  set_same k entry entries = get-set k k entry entries ∙ rw (same_text_refl k) refl

  delete_same : (k : JsString) (entries : Entries E) → get k (delete k entries) ≡ none
  delete_same k entries = get-delete k k entries ∙ rw (same_text_refl k) refl

  Same-later :
      (now time : ℕ) (o : Option (Entry E)) (s : Storage E) → Same now o s → Same (now + time) o s
  Same-later now time o s (inl found) = inl found
  Same-later now time o s (inr (a, b)) = inr (older a, older' b)
    where
      older :
          (o ≡ none) ⊎ ((entry : Entry E) × (o ≡ some entry) × (entry.expires_at ≤ now))
          → (o ≡ none) ⊎ ((entry : Entry E) × (o ≡ some entry) × (entry.expires_at ≤ now + time))
      older (inl e) = inl e
      older (inr (entry, e, past)) = inr (entry, e, omega arith)

      older' :
          (s ≡ empty_storage E)
            ⊎ ((entry : Entry E) × (s ≡ stored entry) × (entry.expires_at ≤ now))
          → (s ≡ empty_storage E)
            ⊎ ((entry : Entry E) × (s ≡ stored entry) × (entry.expires_at ≤ now + time))
      older' (inl e) = inl e
      older' (inr (entry, e, past)) = inr (entry, e, omega arith)

  Same-alarm :
      (now : ℕ) (o : Option (Entry E)) (s : Storage E)
      → Same now o s
      → Same now o (if alarm_due E now s.alarm then do_alarm E s else s)
  unfolding do_alarm
  Same-alarm now o s (inl (entry, e, f)) = rw f (elim (Bool-cases (leb entry.expires_at now)) [
    | inl due ↦ rw due (inr (inr (entry, e, leb→le _ _ due), inl refl))
    | inr early ↦ rw early (inl (entry, e, refl))
  ])
  Same-alarm now o s (inr (a, b)) = elim (Bool-cases (alarm_due E now s.alarm)) [
    | inl due ↦ rw due (inr (a, inl refl))
    | inr early ↦ rw early (inr (a, b))
  ]

  -- Reading from the one and the other.
  abbrev pub SameAfter : ℕ → JsString → Option E × Entries E → Option E × Storage E → Type 0
  SameAfter now id m d = (m.0 ≡ d.0) × Same now (get id m.1) d.1

  extended :
      (now ttl : ℕ) (envelope : E) (expires_at : ℕ) (disclosed : Bool)
      → extend_storage E now ttl expires_at
          (some disclosed)
          (stored (record { envelope = envelope; expires_at = expires_at; disclosed = disclosed }))
        ≡ stored (
            disclose E now ttl
              (record { envelope = envelope; expires_at = expires_at; disclosed = disclosed }))
  extended now ttl envelope expires_at true = refl
  extended now ttl envelope expires_at false = refl

  read-live :
      (now : ℕ) (id : JsString) (ttl : ℕ) (entry : Entry E) (entries : Entries E)
      → SameAfter now id
          (read_entry E now id ttl (some entry) entries)
          (do_read E now ttl (stored entry))
  unfolding do_read
  read-live now id ttl entry entries = elim (Bool-cases (leb entry.expires_at now)) [
    | inl past ↦
        rw past (refl, inr (inl (delete_same id entries), inr (entry, refl, leb→le _ _ past)))
    | inr live ↦ rw live (
      refl,
      inl (
        disclose E now ttl entry,
        set_same id (disclose E now ttl entry) entries,
        extended now ttl entry.envelope entry.expires_at entry.disclosed,
      ),
    )
  ]

  gone-memory :
      (now : ℕ) (id : JsString) (ttl : ℕ) (entries : Entries E) (o : Option (Entry E))
      → get id entries ≡ o
      → (o ≡ none) ⊎ ((entry : Entry E) × (o ≡ some entry) × (entry.expires_at ≤ now))
      → ((read_entry E now id ttl o entries).0 ≡ none)
        × (get id (read_entry E now id ttl o entries).1 ≡ none)
  gone-memory now id ttl entries none g h = (refl, g)
  gone-memory now id ttl entries (some entry) g (inl e) = cc
  gone-memory now id ttl entries (some entry) g (inr (entry', e, past)) =
      let same : entry ≡ entry' = cc in
      let due : leb entry.expires_at now ≡ true = (rw same (ground arith)) in
      rw due (refl, delete_same id entries)

  gone-object :
      (now ttl : ℕ) (s : Storage E)
      → (s ≡ empty_storage E) ⊎ ((entry : Entry E) × (s ≡ stored entry) × (entry.expires_at ≤ now))
      → do_read E now ttl s ≡ (none, s)
  unfolding do_read
  gone-object now ttl s (inl e) = rw e refl
  gone-object now ttl s (inr (entry, e, past)) =
      let due : leb entry.expires_at now ≡ true = ground arith in rw e (rw due refl)

  read-do_read :
      (now : ℕ) (id : JsString) (ttl : ℕ) (entries : Entries E) (s : Storage E)
      → Same now (get id entries) s
      → SameAfter now id (read E now id ttl entries) (do_read E now ttl s)
  unfolding read
  read-do_read now id ttl entries s (inl (entry, e, f)) =
      subst (λ o. SameAfter now id (read_entry E now id ttl o entries) (do_read E now ttl s))
        (sym e)
        (subst
          (λ t.
            SameAfter now id (read_entry E now id ttl (some entry) entries) (do_read E now ttl t))
          (sym f) (read-live now id ttl entry entries))
  read-do_read now id ttl entries s (inr (a, b)) =
      let (answer, left) = gone-memory now id ttl entries (get id entries) refl a in
      subst (λ d. SameAfter now id (read_entry E now id ttl (get id entries) entries) d)
        (sym (gone-object now ttl s b)) (answer, inr (inl left, b))

  run-agree :
      (id : JsString) (now : ℕ) (entries : Entries E) (s : Storage E) (steps : List (Step E))
      → Same now (get id entries) s
      → run_memory E id now entries steps ≡ run_object E now s steps
  unfolding run_memory run_object
  run-agree id now entries s [] same = refl
  run-agree id now entries s (stores envelope ttl ∷ steps) same =
      run-agree id now (store E now id envelope ttl entries) (do_store E now envelope ttl s) steps
        (store-do_store now id envelope ttl entries s)
  run-agree id now entries s (reads ttl ∷ steps) same =
      let (answer, after) = read-do_read now id ttl entries s same in
      let later =
        run-agree id now (read E now id ttl entries).1 (do_read E now ttl s).1 steps after in
      cc
  run-agree id now entries s (waits time ∷ steps) same =
      run-agree id (now + time) entries s steps (Same-later now time (get id entries) s same)
  run-agree id now entries s (alarms ∷ steps) same =
      run-agree id now entries (if alarm_due E now s.alarm then do_alarm E s else s) steps
        (Same-alarm now (get id entries) s same)

  -- The Durable Object answers every read as the memory store does, in any sequence of stores,
  -- reads, waits and alarms, when both start empty.
  pub run_object-refines :
      (id : JsString) (now : ℕ) (steps : List (Step E))
      → run_object E now (empty_storage E) steps ≡ run_memory E id now [] steps
  unfolding get
  run_object-refines id now steps =
      sym (run-agree id now [] (empty_storage E) steps (inr (inl refl, inl refl)))

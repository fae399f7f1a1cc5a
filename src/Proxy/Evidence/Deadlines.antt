-- ===== src/Proxy/Evidence/Deadlines.antt =====
-- The two clocks of an entry.
use verdikt.Base.{
  ℕ, ◌+◌, ◌≤◌, ◌<◌, ◌≡◌, refl, ◌∙◌, Bool, true, false, none, some, JsString, leb, arith,
  same_text_refl,
}
use verdikt.Base.Dict.{get, get-set}
use verdikt.Proxy.Evidence.{Entry, Entries, read, read_entry, disclose}
use verdikt.Base.Dict.{get-delete}

module _ (E : Type 0) where
  kept :
      (now ttl : ℕ) (entry : Entry E)
      → ((disclose E now ttl entry).disclosed ≡ true)
        × (entry.expires_at ≤ (disclose E now ttl entry).expires_at)
        × (entry.disclosed ≡ false → now + ttl ≤ (disclose E now ttl entry).expires_at)
        × (entry.disclosed ≡ true → disclose E now ttl entry ≡ entry)
  kept now ttl entry = by_field entry.envelope entry.expires_at entry.disclosed
    where
      by_field :
          (envelope : E) (expires_at : ℕ) (disclosed : Bool)
          → let entry : Entry E = (record {
            envelope = envelope;
            expires_at = expires_at;
            disclosed = disclosed;
          }) in
            ((disclose E now ttl entry).disclosed ≡ true)
            × (entry.expires_at ≤ (disclose E now ttl entry).expires_at)
            × (entry.disclosed ≡ false → now + ttl ≤ (disclose E now ttl entry).expires_at)
            × (entry.disclosed ≡ true → disclose E now ttl entry ≡ entry)
      by_field envelope expires_at true = (refl, omega arith, λ h. cc, λ h. refl)
      by_field envelope expires_at false = (refl, omega arith, λ h. omega arith, λ h. cc)

  -- Of an entry that is there, a read before its deadline gives the envelope and leaves an entry
  -- that is disclosed, with a deadline that is not earlier; the first read guarantees the whole
  -- adjudication window from now, and a later one changes nothing. A read from the deadline on
  -- gives nothing and leaves nothing.
  pub read-deadline :
      (now ttl : ℕ) (id : JsString) (entries : Entries E) (entry : Entry E)
      → get id entries ≡ some entry
      → (now < entry.expires_at
          → (left : Entry E) × ((read E now id ttl entries).0 ≡ some entry.envelope)
            × (get id (read E now id ttl entries).1 ≡ some left)
            × (left.disclosed ≡ true)
            × (entry.expires_at ≤ left.expires_at)
            × (entry.disclosed ≡ false → now + ttl ≤ left.expires_at)
            × (entry.disclosed ≡ true → left ≡ entry))
        × (entry.expires_at ≤ now
            → ((read E now id ttl entries).0 ≡ none)
              × (get id (read E now id ttl entries).1 ≡ none))
  unfolding read
  read-deadline now ttl id entries entry g = rw g (live, expired)
    where
      live :
          now < entry.expires_at
          → (left : Entry E) × ((read_entry E now id ttl (some entry) entries).0
              ≡ some entry.envelope)
            × (get id (read_entry E now id ttl (some entry) entries).1 ≡ some left)
            × (left.disclosed ≡ true)
            × (entry.expires_at ≤ left.expires_at)
            × (entry.disclosed ≡ false → now + ttl ≤ left.expires_at)
            × (entry.disclosed ≡ true → left ≡ entry)
      live early =
          let over : leb entry.expires_at now ≡ false = ground arith in
          let (a, b, c, d) = kept now ttl entry in
          (
            disclose E now ttl entry,
            rw over refl,
            rw over
                (get-set id id (disclose E now ttl entry) entries ∙ rw (same_text_refl id) refl),
            a,
            b,
            c,
            d,
          )

      expired :
          entry.expires_at ≤ now
          → ((read_entry E now id ttl (some entry) entries).0 ≡ none)
            × (get id (read_entry E now id ttl (some entry) entries).1 ≡ none)
      expired late =
          let over : leb entry.expires_at now ≡ true = ground arith in
          rw over (refl, get-delete id id entries ∙ rw (same_text_refl id) refl)

-- ===== src/Sdk/Payment/Signed.antt =====
-- What binds a decoded payment to its payer.
use verdikt.Base.{
  some-injective, ◌≡◌, refl, sym, ap, ◌∙◌, subst, Bool, true, false, not, List, [], ◌∷◌, Option,
  none, some, JsString, Result, ok, throw, throw_if, >>=-eq-ok, >>-eq-ok, ok-injective,
  throw_if-eq-ok, js, same_text, same_text→eq, inl, inr, ◌⊎◌, keep, find, if◌then◌else◌, arith,
  Bool-cases,
}
use verdikt.Json.{Json, null, bool, num, str, arr, obj}
use verdikt.Json.Numbers.{ℤ, Number}
use verdikt.Sdk.Payment.{
  DecodeFault, ambiguous_option, cannot_verify, payload_incomplete, unhashable, unrecoverable,
  bad_address, not_bound, PaymentEnvelope, TypedDomain, TransferMessage, DecodedPayment, member_of,
  as_text, as_object_value, need, fits, choose, matching_option, check_fields, authorization_fields,
  EthCall, decode_payment_envelope, validated_by_account, domain_of, message_of, settle,
  verify_exact, verify_option, decode_payment, is_bound, identical, extra_name,
}

abbrev pub In : Json → List Json → Type 0
In v [] = ⊥
In v (w ∷ ws) = (v ≡ w) ⊎ In v ws

need-eq-ok : {E A : Type 0} (o : Option A) (fault : E) (a : A) → need o fault ≡ ok a → o ≡ some a
need-eq-ok none fault a h = cc
need-eq-ok (some b) fault a h = ap some (ok-injective h)

if_ok-eq-ok :
    {A : Type 0} (b : Bool) (r : Result DecodeFault A) (fault : DecodeFault) (a : A)
    → (if b then r else throw fault) ≡ ok a
    → (b ≡ true) × (r ≡ ok a)
if_ok-eq-ok true r fault a h = (refl, h)
if_ok-eq-ok false r fault a h = cc

keep-In : (p : Json → Bool) (vs : List Json) (v : Json) → In v (keep p vs) → In v vs × (p v ≡ true)
keep-In p [] v h = elim h [ ]
keep-In p (w ∷ ws) v h = elim (Bool-cases (p w)) [
  | inl e ↦ kept e (keep-In p ws v) (subst (λ b. In v (if b then w ∷ keep p ws else keep p ws)) e h)
  | inr e ↦
      let (found, holds) =
        keep-In p ws v (subst (λ b. In v (if b then w ∷ keep p ws else keep p ws)) e h) in
      (inr found, holds)
]
  where
    kept :
        p w ≡ true
        → (In v (keep p ws) → In v ws × (p v ≡ true))
        → In v (w ∷ keep p ws)
        → In v (w ∷ ws) × (p v ≡ true)
    kept e more (inl same) = (inl same, ap p same ∙ e)
    kept e more (inr later) = let (found, holds) = more later in (inr found, holds)

find-In : (p : Json → Bool) (vs : List Json) (v : Json) → find p vs ≡ some v → In v vs
find-In p [] v h = cc
find-In p (w ∷ ws) v h = elim (Bool-cases (p w)) [
  | inl e ↦ inl (sym (some-injective (subst (λ b. (if b then some w else find p ws) ≡ some v) e h)))
  | inr e ↦ inr (find-In p ws v (subst (λ b. (if b then some w else find p ws) ≡ some v) e h))
]

as_text-some : (o : Option Json) (s : JsString) → as_text o ≡ some s → o ≡ some (str s)
as_text-some (some (str t)) s h = ap text h
  where
    text : Option JsString → Option Json
    text none = none
    text (some t) = some (str t)
as_text-some none s h = cc
as_text-some (some null) s h = cc
as_text-some (some (bool b)) s h = cc
as_text-some (some (num n)) s h = cc
as_text-some (some (arr vs)) s h = cc
as_text-some (some (obj ms)) s h = cc

as_object_value-some : (o : Option Json) (v : Json) → as_object_value o ≡ some v → o ≡ some v
as_object_value-some (some (obj ms)) v h = h
as_object_value-some (some (arr vs)) v h = h
as_object_value-some none v h = cc
as_object_value-some (some null) v h = cc
as_object_value-some (some (bool b)) v h = cc
as_object_value-some (some (num n)) v h = cc
as_object_value-some (some (str s)) v h = cc

choose-In :
    (envelope : PaymentEnvelope) (vs : List Json) (v : Json) → choose envelope vs ≡ ok v → In v vs
choose-In envelope [] v h = cc
choose-In envelope (w ∷ []) v h = inl (sym (ok-injective h))
choose-In envelope (w ∷ u ∷ us) v h =
    find-In (λ entry. identical (extra_name (some entry)) (extra_name envelope.accepted))
      (w ∷ u ∷ us) v (need-eq-ok _ ambiguous_option v h)

pub matching_option-In :
    (envelope : PaymentEnvelope) (accepts : List Json) (option : Json)
    → matching_option envelope accepts ≡ ok option
    → In option accepts × (fits envelope option ≡ true)
unfolding matching_option
matching_option-In envelope accepts option h =
    keep-In (fits envelope) accepts option (choose-In envelope _ option h)

module _ (parse_json : JsString → Option Json) (from_base64 : JsString → JsString)
    (to_bigint : Json → Option ℤ) (get_address : Json → Option JsString)
    (hash_typed_data : TypedDomain → TransferMessage → Option JsString)
    (recover_address : (hash signature : JsString) → Option JsString)
    (encode_call : (hash signature : JsString) → Option JsString)
    (decode_answer : JsString → Option JsString) where
  abbrev domain_in : PaymentEnvelope → Json → Result DecodeFault TypedDomain
  domain_in =
      domain_of parse_json from_base64 to_bigint get_address hash_typed_data recover_address
        encode_call decode_answer

  abbrev message_in : Json → Result DecodeFault TransferMessage
  message_in =
      message_of parse_json from_base64 to_bigint get_address hash_typed_data recover_address
        encode_call decode_answer

  abbrev validated : EthCall → Number → (account hash signature : JsString) → Bool
  validated =
      validated_by_account parse_json from_base64 to_bigint get_address hash_typed_data
        recover_address encode_call decode_answer

  -- The signature is the payer's own over that hash, or the payer's account validates it.
  abbrev pub Bound : Option EthCall → TypedDomain → (payer hash signature : JsString) → Type 0
  Bound eth_call domain payer hash signature =
      ((signer : JsString) × (recover_address hash signature ≡ some signer)
        × (get_address (str signer) ≡ some payer))
      ⊎ ((call : EthCall) × (eth_call ≡ some call)
          × (validated call domain.chain_id payer hash signature ≡ true))

  abbrev pub Signed :
      Option EthCall → TypedDomain → TransferMessage → JsString → DecodedPayment → Type 0
  Signed eth_call domain message signature payment =
      (hash : JsString) × (hash_typed_data domain message ≡ some hash)
      × (payment.payer ≡ message.from)
      × (payment.amount ≡ message.value)
      × Bound eth_call domain payment.payer hash signature

  is_bound-Bound :
      (eth_call : Option EthCall) (domain : TypedDomain) (message : TransferMessage)
      (hash signature recovered signer : JsString)
      → recover_address hash signature ≡ some recovered
      → get_address (str recovered) ≡ some signer
      → is_bound parse_json from_base64 to_bigint get_address hash_typed_data recover_address
          encode_call decode_answer eth_call domain message hash signature signer
        ≡ true
      → Bound eth_call domain message.from hash signature
  is_bound-Bound none domain message hash signature recovered signer e f h =
      inl (recovered, e, f ∙ ap some (same_text→eq signer message.from (ground arith)))
  is_bound-Bound (some call) domain message hash signature recovered signer e f h =
      elim (Bool-cases (same_text signer message.from)) [
        | inl s ↦ inl (recovered, e, f ∙ ap some (same_text→eq signer message.from s))
        | inr s ↦ inr (call, refl, ground arith)
      ]

  settle-Signed :
      (eth_call : Option EthCall) (domain : TypedDomain) (message : TransferMessage)
      (signature : JsString) (payment : DecodedPayment)
      → settle parse_json from_base64 to_bigint get_address hash_typed_data recover_address
          encode_call decode_answer eth_call domain message signature
        ≡ ok payment
      → Signed eth_call domain message signature payment
  settle-Signed eth_call domain message signature payment h =
      let (hash, hashed, h1) = >>=-eq-ok (need (hash_typed_data domain message) unhashable) _ h in
      let (recovered, got, h2) =
        >>=-eq-ok (need (recover_address hash signature) unrecoverable) _ h1 in
      let (signer, read, h3) = >>=-eq-ok (need (get_address (str recovered)) bad_address) _ h2 in
      let (bound, made) = >>-eq-ok (throw_if (not _) not_bound) _ h3 in
      let same = ok-injective made in
      (
        hash,
        need-eq-ok _ unhashable hash hashed,
        sym (ap (λ p. p.payer) same),
        sym (ap (λ p. p.amount) same),
        subst (λ who. Bound eth_call domain who hash signature) (ap (λ p. p.payer) same)
            (is_bound-Bound eth_call domain message hash signature recovered signer
              (need-eq-ok _ unrecoverable recovered got) (need-eq-ok _ bad_address signer read)
              (straight _ (throw_if-eq-ok _ _ bound))),
      )
    where
      straight : (b : Bool) → not b ≡ false → b ≡ true
      straight true e = refl
      straight false e = cc

  verify_option-exact :
      (envelope : PaymentEnvelope) (eth_call : Option EthCall) (option : Json)
      (payment : DecodedPayment)
      → verify_option parse_json from_base64 to_bigint get_address hash_typed_data recover_address
          encode_call decode_answer envelope eth_call option
        ≡ ok payment
      → (envelope.scheme ≡ js "exact")
        × (verify_exact parse_json from_base64 to_bigint get_address hash_typed_data recover_address
              encode_call decode_answer envelope option eth_call
            ≡ ok payment)
  verify_option-exact envelope eth_call option payment h =
      let (exact, verified) =
        if_ok-eq-ok (same_text envelope.scheme (js "exact")) _ cannot_verify payment h in
      (same_text→eq envelope.scheme (js "exact") exact, verified)

  -- What stands behind a decoded payment: the option of the challenge, the authorization of the
  -- header, and the signature over the two.
  abbrev pub Vouched : JsString → Option (List Json) → Option EthCall → DecodedPayment → Type 0
  Vouched header accepts eth_call payment =
      (envelope : PaymentEnvelope) × (options : List Json) × (option authorization : Json)
      × (signature : JsString) × (domain : TypedDomain) × (message : TransferMessage)
      × (decode_payment_envelope parse_json from_base64 header ≡ ok envelope)
      × (accepts ≡ some options)
      × In option options
      × (fits envelope option ≡ true)
      × (envelope.scheme ≡ js "exact")
      × (member_of (js "signature") envelope.payload ≡ some (str signature))
      × (member_of (js "authorization") envelope.payload ≡ some authorization)
      × (domain_in envelope option ≡ ok domain)
      × (message_in authorization ≡ ok message)
      × Signed eth_call domain message signature payment

  -- A header is decoded into a payment only against an option of the challenge that has the
  -- `exact` scheme and the network of the header. The EIP-712 domain is built from that option;
  -- the payer and the amount are those of the authorization whose hash is verified: the signer
  -- recovered from it is the payer, or the payer's account validated it through the reader given.
  pub decode_payment-Signed :
      (header : JsString) (accepts : Option (List Json)) (eth_call : Option EthCall)
      (payment : DecodedPayment)
      → decode_payment parse_json from_base64 to_bigint get_address hash_typed_data recover_address
          encode_call decode_answer header accepts eth_call
        ≡ ok payment
      → Vouched header accepts eth_call payment
  unfolding decode_payment verify_exact
  decode_payment-Signed header none eth_call payment h =
      let (envelope, read, h1) =
        >>=-eq-ok (decode_payment_envelope parse_json from_base64 header) _ h in
      cc
  decode_payment-Signed header (some options) eth_call payment h =
      let (envelope, read, h1) =
        >>=-eq-ok (decode_payment_envelope parse_json from_base64 header) _ h in
      let (option, matched, h2) = >>=-eq-ok (matching_option envelope options) _ h1 in
      let (exact, h3) = verify_option-exact envelope eth_call option payment h2 in
      let (signature, signed, h4) =
        >>=-eq-ok (need (as_text (member_of (js "signature") envelope.payload)) payload_incomplete)
          _ h3 in
      let (authorization, given, h5) =
        >>=-eq-ok
          (need (as_object_value (member_of (js "authorization") envelope.payload))
            payload_incomplete)
          _ h4 in
      let (full, h6) = >>-eq-ok (check_fields authorization authorization_fields) _ h5 in
      let (domain, within, h7) = >>=-eq-ok (domain_in envelope option) _ h6 in
      let (message, stated, h8) = >>=-eq-ok (message_in authorization) _ h7 in
      let (offered, fit) = matching_option-In envelope options option matched in
      (
        envelope,
        options,
        option,
        authorization,
        signature,
        domain,
        message,
        read,
        refl,
        offered,
        fit,
        exact,
        as_text-some _ signature (need-eq-ok _ payload_incomplete signature signed),
        as_object_value-some _ authorization (need-eq-ok _ payload_incomplete authorization given),
        within,
        stated,
        settle-Signed eth_call domain message signature payment h8,
      )

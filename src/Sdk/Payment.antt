-- ===== src/Sdk/Payment.antt =====
-- packages/sdk/payment.js: who paid, and how much, as the payment header binds it. viem's
-- functions, the reader of the payment's chain, and the platform's JSON, base64 and BigInt readers
-- are parameters: each gives `none` where it throws.
pub mod Envelope
pub mod Signed
pub mod Examples
use verdikt.Base.{
  ℕ, zero, suc, ◌+◌, ◌-◌, ◌*◌, ◌/◌, ◌%◌, ◌^◌, Bool, true, false, not, ◌&&◌, ◌||◌, List, [], ◌∷◌,
  Option, none, some, JsString, Result, ok, throw, ◌>>=◌, ◌>>◌, throw_if, js, same_text, ltb, leb,
  ◌==◌, every, is_digit, is_some, keep, find, if◌then◌else◌,
}
use verdikt.Base.Dict.{get}
use verdikt.Json.{Json, null, bool, num, str, arr, obj, members}
use verdikt.Json.Numbers.{ℤ, pos, Number, finite, infinite, eq}
use verdikt.Sla.Document.{big_int}
pub use Envelope.{
  DecodeFault, PaymentEnvelope, TypedDomain, TransferMessage, DecodedPayment, member_of,
  optional_member, nullish_or, as_text, as_object_value, identical, need, bit_length,
  round_half_even, bounded_double, digits_or, after_prefix, fits, extra_name, choose,
  authorization_fields, check_fields, or_null, erc1271_magic, EthCall, envelope_of, empty_header,
  not_base64_json, header_not_object, missing_scheme, missing_payload, no_option, ambiguous_option,
  cannot_verify, payload_incomplete, missing_field, unsupported_network, bad_address,
  missing_domain, bad_amount, unhashable, unrecoverable, not_bound,
}
unfoldable pub use Envelope.{nearest_double, chain_id_of, matching_option}

module _ (parse_json : JsString → Option Json) (from_base64 : JsString → JsString) where
  unfoldable pub decode_payment_envelope : JsString → Result DecodeFault PaymentEnvelope
  decode_payment_envelope [] = throw empty_header
  decode_payment_envelope (c ∷ cs) = do
    json ← need (parse_json (from_base64 (c ∷ cs))) not_base64_json
    envelope_of json

  module _ (to_bigint : Json → Option ℤ) (get_address : Json → Option JsString)
      (hash_typed_data : TypedDomain → TransferMessage → Option JsString)
      (recover_address : (hash signature : JsString) → Option JsString)
      (encode_call : (hash signature : JsString) → Option JsString)
      (decode_answer : JsString → Option JsString) where
    abbrev address_at : Option Json → Option JsString
    address_at none = none
    address_at (some v) = get_address v

    abbrev bigint_at : Option Json → Option ℤ
    bigint_at none = none
    bigint_at (some v) = to_bigint v

    abbrev is_magic : Option JsString → Bool
    is_magic none = false
    is_magic (some magic) = same_text magic erc1271_magic

    abbrev answered : Option JsString → Bool
    answered none = false
    answered (some returned) = is_magic (decode_answer returned)

    abbrev asked : EthCall → Number → JsString → Option JsString → Bool
    asked eth_call chain_id account none = false
    asked eth_call chain_id account (some call) = answered (eth_call chain_id account call)

    -- Whatever fails, the account has not validated.
    unfoldable pub validated_by_account :
        EthCall → Number → (account hash signature : JsString) → Bool
    validated_by_account eth_call chain_id account hash signature =
        asked eth_call chain_id account (encode_call hash signature)

    abbrev pub asks_account : Option EthCall → Number → (account hash signature : JsString) → Bool
    asks_account none chain_id account hash signature = false
    asks_account (some eth_call) chain_id account hash signature =
        validated_by_account eth_call chain_id account hash signature

    unfoldable pub domain_of : PaymentEnvelope → Json → Result DecodeFault TypedDomain
    domain_of envelope option = do
      chain_id ← need (chain_id_of envelope.network) unsupported_network
      contract ←
          need
            (address_at (
              nullish_or (optional_member (js "verifyingContract") (member_of (js "extra") option))
                (member_of (js "asset") option)))
            bad_address
      name ← need (as_text (extra_name (some option))) missing_domain
      version ←
          need (as_text (optional_member (js "version") (member_of (js "extra") option)))
            missing_domain
      ok (record {
        name = name;
        version = version;
        chain_id = chain_id;
        verifying_contract = contract;
      })

    unfoldable pub message_of : Json → Result DecodeFault TransferMessage
    message_of authorization = do
      from ← need (address_at (member_of (js "from") authorization)) bad_address
      to ← need (address_at (member_of (js "to") authorization)) bad_address
      value ← need (bigint_at (member_of (js "value") authorization)) bad_amount
      after ← need (bigint_at (member_of (js "validAfter") authorization)) bad_amount
      before ← need (bigint_at (member_of (js "validBefore") authorization)) bad_amount
      ok (record {
        from = from;
        to = to;
        value = value;
        valid_after = after;
        valid_before = before;
        nonce = or_null (member_of (js "nonce") authorization);
      })

    -- The signer is the payer, or the account of the payer validates the hash.
    abbrev pub is_bound :
        Option EthCall → TypedDomain → TransferMessage → (hash signature signer : JsString) → Bool
    is_bound eth_call domain message hash signature signer =
        same_text signer message.from
        || asks_account eth_call domain.chain_id message.from hash signature

    abbrev pub settle :
        Option EthCall
        → TypedDomain
        → TransferMessage
        → (signature : JsString) → Result DecodeFault DecodedPayment
    settle eth_call domain message signature = do
      hash ← need (hash_typed_data domain message) unhashable
      recovered ← need (recover_address hash signature) unrecoverable
      signer ← need (get_address (str recovered)) bad_address
      throw_if (not (is_bound eth_call domain message hash signature signer)) not_bound
      ok (record { payer = message.from; amount = message.value })

    unfoldable pub verify_exact :
        PaymentEnvelope → Json → Option EthCall → Result DecodeFault DecodedPayment
    verify_exact envelope option eth_call = do
      signature ← need (as_text (member_of (js "signature") envelope.payload)) payload_incomplete
      authorization ←
          need (as_object_value (member_of (js "authorization") envelope.payload))
            payload_incomplete
      check_fields authorization authorization_fields
      domain ← domain_of envelope option
      message ← message_of authorization
      settle eth_call domain message signature

    abbrev pub verify_option :
        PaymentEnvelope → Option EthCall → Json → Result DecodeFault DecodedPayment
    verify_option envelope eth_call option =
        if same_text envelope.scheme (js "exact")
        then verify_exact envelope option eth_call
        else throw cannot_verify

    abbrev pub against :
        PaymentEnvelope → Option EthCall → Option (List Json) → Result DecodeFault DecodedPayment
    against envelope eth_call none = throw cannot_verify
    against envelope eth_call (some accepts) = do
      option ← matching_option envelope accepts
      verify_option envelope eth_call option

    unfoldable pub decode_payment :
        JsString → Option (List Json) → Option EthCall → Result DecodeFault DecodedPayment
    decode_payment header accepts eth_call = do
      envelope ← decode_payment_envelope header
      against envelope eth_call accepts

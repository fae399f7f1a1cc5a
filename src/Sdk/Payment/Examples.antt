-- ===== src/Sdk/Payment/Examples.antt =====
-- A payment header, decoded, and the theorems at it.
use verdikt.Base.{
  ℕ, ◌≡◌, refl, Bool, true, false, List, [], ◌∷◌, Option, none, some, JsString, Result, ok, throw,
  js,
}
use verdikt.Base.Dict.{get}
use verdikt.Json.{Json, str, obj, object}
use verdikt.Json.Numbers.{ℤ, pos, of_ℕ}
use verdikt.Sdk.Payment.{
  DecodeFault, ambiguous_option, not_bound, TypedDomain, TransferMessage, DecodedPayment, EthCall,
  chain_id_of, nearest_double, decode_payment, matching_option, PaymentEnvelope,
}
use verdikt.Sdk.Payment.Signed.{Vouched, decode_payment-Signed}

abbrev pub sample_option : Json
sample_option = obj (
    object (
      (js "scheme", str (js "exact"))
      ∷ (js "network", str (js "eip155:84532"))
      ∷ (js "asset", str (js "0xa5"))
      ∷ (
        js "extra",
        obj (object ((js "name", str (js "USDC")) ∷ (js "version", str (js "2")) ∷ [])),
      )
      ∷ []))

abbrev sample_authorization : Json
sample_authorization = obj (
    object (
      (js "from", str (js "0x03"))
      ∷ (js "to", str (js "0x04"))
      ∷ (js "value", str (js "5"))
      ∷ (js "validAfter", str (js "0"))
      ∷ (js "validBefore", str (js "9"))
      ∷ (js "nonce", str (js "0x00"))
      ∷ []))

abbrev sample_header : Json
sample_header = obj (
    object (
      (js "scheme", str (js "exact"))
      ∷ (js "network", str (js "eip155:84532"))
      ∷ (
        js "payload",
        obj (
            object (
              (js "signature", str (js "0xff")) ∷ (js "authorization", sample_authorization) ∷ [])),
      )
      ∷ []))

abbrev pub read_header : JsString → Option Json
read_header text = some sample_header

abbrev pub same_base64 : JsString → JsString
same_base64 text = text

abbrev pub five : Json → Option ℤ
five v = some (pos 5)

abbrev pub text_address : Json → Option JsString
text_address (str s) = some s
text_address _ = none

abbrev pub some_hash : TypedDomain → TransferMessage → Option JsString
some_hash domain message = some (js "0xab")

-- A signature by the owner of an account, so that the account has to be asked.
abbrev pub owner_recovered : JsString → JsString → Option JsString
owner_recovered hash signature = some (js "0x99")

abbrev pub call_data : JsString → JsString → Option JsString
call_data hash signature = some hash

abbrev pub decoded_answer : JsString → Option JsString
decoded_answer returned = some returned

abbrev pub agreeing_account : EthCall
agreeing_account chain_id account call = some (js "0x1626ba7e")

abbrev sample_payment : DecodedPayment
sample_payment = record { payer = js "0x03"; amount = pos 5 }

sample_decoded :
    decode_payment read_header same_base64 five text_address some_hash owner_recovered call_data
      decoded_answer
      (js "signed")
      (some (sample_option ∷ []))
      (some agreeing_account)
    ≡ ok sample_payment
unfolding decode_payment verdikt.Sdk.Payment.decode_payment_envelope js get verdikt.Base.same_text
    matching_option verdikt.Sdk.Payment.verify_exact verdikt.Sdk.Payment.domain_of chain_id_of
    verdikt.Sdk.Payment.message_of verdikt.Sdk.Payment.validated_by_account
sample_decoded = refl

-- Without a reader of the chain the same header is refused.
sample_refused :
    decode_payment read_header same_base64 five text_address some_hash owner_recovered call_data
      decoded_answer
      (js "signed")
      (some (sample_option ∷ []))
      none
    ≡ throw not_bound
unfolding decode_payment verdikt.Sdk.Payment.decode_payment_envelope js get verdikt.Base.same_text
    matching_option verdikt.Sdk.Payment.verify_exact verdikt.Sdk.Payment.domain_of chain_id_of
    verdikt.Sdk.Payment.message_of
sample_refused = refl

sample_rounded : chain_id_of (js "eip155:9007199254740993") ≡ some (of_ℕ 9007199254740992)
unfolding chain_id_of verdikt.Sla.Document.big_int
sample_rounded = refl

decode_payment-Signed_example :
    Vouched read_header same_base64 five text_address some_hash owner_recovered call_data
      decoded_answer
      (js "signed")
      (some (sample_option ∷ []))
      (some agreeing_account)
      sample_payment
decode_payment-Signed_example =
    decode_payment-Signed read_header same_base64 five text_address some_hash owner_recovered
      call_data decoded_answer (js "signed") (some (sample_option ∷ [])) (some agreeing_account)
      sample_payment sample_decoded

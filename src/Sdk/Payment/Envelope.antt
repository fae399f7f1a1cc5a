-- ===== src/Sdk/Payment/Envelope.antt =====
-- packages/sdk/payment.js: what a header says, and which option of the challenge it answers.
use verdikt.Base.{
  ℕ, zero, suc, ◌+◌, ◌-◌, ◌*◌, ◌/◌, ◌%◌, ◌^◌, Bool, true, false, not, ◌&&◌, ◌||◌, List, [], ◌∷◌,
  Option, none, some, JsString, Result, ok, throw, ◌>>=◌, ◌>>◌, throw_if, js, same_text, ltb, leb,
  ◌==◌, every, is_digit, is_some, keep, find, if◌then◌else◌,
}
use verdikt.Base.Dict.{get}
use verdikt.Json.{Json, null, bool, num, str, arr, obj, members}
use verdikt.Json.Numbers.{ℤ, pos, Number, finite, infinite, eq}
use verdikt.Sla.Document.{big_int}

pub data DecodeFault : Type 0 where
  empty_header not_base64_json header_not_object missing_scheme missing_payload : DecodeFault
  no_option ambiguous_option cannot_verify payload_incomplete : DecodeFault
  missing_field : (field : JsString) → DecodeFault
  unsupported_network bad_address missing_domain bad_amount : DecodeFault
  unhashable unrecoverable not_bound : DecodeFault

pub record PaymentEnvelope : Type 0 where
  pub x402_version : Option Json
  pub scheme : JsString
  pub network : JsString
  pub payload : Json
  pub accepted : Option Json

-- The EIP-712 domain, and the message that TRANSFER_WITH_AUTHORIZATION describes.
pub record TypedDomain : Type 0 where
  pub name : JsString
  pub version : JsString
  pub chain_id : Number
  pub verifying_contract : JsString

pub record TransferMessage : Type 0 where
  pub from : JsString
  pub to : JsString
  pub value : ℤ
  pub valid_after : ℤ
  pub valid_before : ℤ
  pub nonce : Json

pub record DecodedPayment : Type 0 where
  pub payer : JsString
  pub amount : ℤ

-- `v?.k`
abbrev pub member_of : JsString → Json → Option Json
member_of k (obj ms) = get k (members ms)
member_of k v = none

abbrev pub optional_member : JsString → Option Json → Option Json
optional_member k none = none
optional_member k (some v) = member_of k v

-- `a ?? b`
abbrev pub nullish_or : Option Json → Option Json → Option Json
nullish_or none other = other
nullish_or (some null) other = other
nullish_or (some v) other = some v

abbrev pub as_text : Option Json → Option JsString
as_text (some (str s)) = some s
as_text _ = none

-- `v && typeof v === 'object'`
abbrev pub as_object_value : Option Json → Option Json
as_object_value (some (obj ms)) = some (obj ms)
as_object_value (some (arr vs)) = some (arr vs)
as_object_value _ = none

-- `a === b` for values of two documents: no object of one is an object of the other.
abbrev pub identical : Option Json → Option Json → Bool
identical none none = true
identical (some null) (some null) = true
identical (some (bool true)) (some (bool b)) = b
identical (some (bool false)) (some (bool b)) = not b
identical (some (num m)) (some (num n)) = eq m n
identical (some (str s)) (some (str t)) = same_text s t
identical _ _ = false

abbrev pub need : {E A : Type 0} → Option A → E → Result E A
need none fault = throw fault
need (some a) fault = ok a

-- `Number(s)` of a text of digits: the nearest double, ties to even.
abbrev pub bit_length : ℕ → ℕ → ℕ
bit_length zero n = 0
bit_length (suc fuel) n = elim (n == 0) [ true ↦ 0 | false ↦ suc (bit_length fuel (n / 2)) ]

abbrev pub round_half_even : ℕ → ℕ → ℕ
round_half_even n e =
    let q = n / 2 ^ e in
    let r = n % 2 ^ e in
    if ltb (2 ^ (e - 1)) r || (r == 2 ^ (e - 1) && q % 2 == 1) then (q + 1) * 2 ^ e else q * 2 ^ e

abbrev pub bounded_double : ℕ → Number
bounded_double n = if ltb n (2 ^ 1024) then finite (pos n) 0 else infinite false

unfoldable pub nearest_double : ℕ → Number
nearest_double n =
    let bits = bit_length n n in
    if leb bits 53 then finite (pos n) 0 else bounded_double (round_half_even n (bits - 53))

abbrev pub digits_or : JsString → Option Number
digits_or [] = none
digits_or (c ∷ cs) =
    if every is_digit (c ∷ cs) then some (nearest_double (big_int 0 (c ∷ cs))) else none

abbrev pub after_prefix : JsString → JsString → Option Number
after_prefix [] rest = digits_or rest
after_prefix (p ∷ prefix) [] = none
after_prefix (p ∷ prefix) (c ∷ cs) = if p == c then after_prefix prefix cs else none

-- `/^eip155:(\d+)$/`
unfoldable pub chain_id_of : JsString → Option Number
unfolding js nearest_double
chain_id_of network = after_prefix (js "eip155:") network

abbrev pub fits : PaymentEnvelope → Json → Bool
fits envelope entry =
    identical (member_of (js "scheme") entry) (some (str envelope.scheme))
    && identical (member_of (js "network") entry) (some (str envelope.network))

abbrev pub extra_name : Option Json → Option Json
extra_name entry = optional_member (js "name") (optional_member (js "extra") entry)

abbrev pub choose : PaymentEnvelope → List Json → Result DecodeFault Json
choose envelope [] = throw no_option
choose envelope (entry ∷ []) = ok entry
choose envelope (one ∷ other ∷ more) =
    need
      (find (λ entry. identical (extra_name (some entry)) (extra_name envelope.accepted))
        (one ∷ other ∷ more))
      ambiguous_option

unfoldable pub matching_option : PaymentEnvelope → List Json → Result DecodeFault Json
matching_option envelope accepts = choose envelope (keep (fits envelope) accepts)

abbrev pub authorization_fields : List JsString
authorization_fields =
    js "from" ∷ js "to" ∷ js "value" ∷ js "validAfter" ∷ js "validBefore" ∷ js "nonce" ∷ []

abbrev pub check_fields : Json → List JsString → Result DecodeFault (Unit {0})
check_fields authorization [] = ok tt
check_fields authorization (field ∷ fields) = do
  throw_if (not (is_some (member_of field authorization))) (missing_field field)
  check_fields authorization fields

abbrev pub or_null : Option Json → Json
or_null none = null
or_null (some v) = v

-- The magic value of ERC-1271.
abbrev pub erc1271_magic : JsString
erc1271_magic = js "0x1626ba7e"

-- A reader of a chain: its id, the account, the data.
abbrev pub EthCall : Type 0
EthCall = Number → JsString → JsString → Option JsString

abbrev pub envelope_of : Json → Result DecodeFault PaymentEnvelope
envelope_of json = do
  value ← need (as_object_value (some json)) header_not_object
  scheme ←
      need
        (as_text (
          nullish_or (member_of (js "scheme") value)
            (optional_member (js "scheme") (member_of (js "accepted") value))))
        missing_scheme
  network ←
      need
        (as_text (
          nullish_or (member_of (js "network") value)
            (optional_member (js "network") (member_of (js "accepted") value))))
        missing_scheme
  payload ← need (as_object_value (member_of (js "payload") value)) missing_payload
  ok (record {
    x402_version = member_of (js "x402Version") value;
    scheme = scheme;
    network = network;
    payload = payload;
    accepted = member_of (js "accepted") value;
  })

-- ===== src/Cre/RequestBody.antt =====
-- cre/lib/http-request.js, and `bodyToHex` of proxy/src/http.js, which writes what it reads: the
-- request body travels as hex through the trigger's JSON. A body is a list of bytes.
pub mod RoundTrip
mod Examples
use verdikt.Base.{
  ℕ, zero, suc, ◌+◌, ◌-◌, ◌*◌, ◌/◌, ◌%◌, List, [], ◌∷◌, ◌++◌, Bool, Option, none, some, Result, ok,
  throw, ◌>>=◌, ltb, leb, ◌==◌, ◌||◌, if◌then◌else◌, JsString, length, drop, js, starts_with,
  is_digit, ◌&&◌,
}

pub data BodyError : Type 0 where
  odd_digits : ℕ → BodyError
  bad_pair : JsString → ℕ → BodyError

-- One unit of `/[0-9a-fA-F]/`, with what `parseInt(..., 16)` reads it as.
unfoldable pub hex_value : ℕ → Option ℕ
hex_value c =
    if is_digit c
    then some (c - 48)
    else if leb 97 c && leb c 102
    then some (c - 87)
    else if leb 65 c && leb c 70
    then some (c - 55)
    else none

abbrev pair_value : Option ℕ → Option ℕ → Option ℕ
pair_value (some a) (some b) = some (a * 16 + b)
pair_value _ _ = none

abbrev byte_of : JsString → ℕ → Option ℕ → Result BodyError ℕ
byte_of pair index none = throw (bad_pair pair index)
byte_of pair index (some n) = ok n

-- The loop over the pairs. A last odd digit has been refused before it.
decode_pairs : ℕ → JsString → Result BodyError (List ℕ)
unfolding hex_value
decode_pairs index (a ∷ b ∷ rest) = do
  n ← byte_of (a ∷ b ∷ []) index (pair_value (hex_value a) (hex_value b))
  ns ← decode_pairs (suc index) rest
  ok (n ∷ ns)
decode_pairs index _ = ok []

pub strip_prefix : JsString → JsString
unfolding js starts_with
strip_prefix hex =
    if starts_with (js "0x") hex || starts_with (js "0X") hex then drop 2 hex else hex

decode_digits : JsString → Result BodyError (Option (List ℕ))
decode_digits digits =
    if length digits % 2 == 0
    then (do bytes ← decode_pairs 0 digits; ok (some bytes))
    else throw (odd_digits (length digits))

-- `{}` is `none`, and `{ body }` is `some body`.
unfoldable pub request_body_field : Option JsString → Result BodyError (Option (List ℕ))
unfolding strip_prefix decode_pairs decode_digits
request_body_field none = ok none
request_body_field (some body_hex) = decode_digits (strip_prefix body_hex)

-- A digit of `byte.toString(16)`.
abbrev hex_digit : ℕ → ℕ
hex_digit n = if ltb n 10 then 48 + n else 87 + n

encode_bytes : List ℕ → JsString
encode_bytes [] = []
encode_bytes (b ∷ bs) = hex_digit (b / 16) ∷ hex_digit (b % 16) ∷ encode_bytes bs

unfoldable pub body_to_hex : Option (List ℕ) → Option JsString
unfolding encode_bytes js
body_to_hex none = none
body_to_hex (some []) = none
body_to_hex (some (b ∷ bs)) = some (js "0x" ++ encode_bytes (b ∷ bs))

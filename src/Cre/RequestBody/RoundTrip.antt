-- ===== src/Cre/RequestBody/RoundTrip.antt =====
-- What the proxy writes, the enclave reads back.
use verdikt.Base.{
  ◌==◌, ℕ, suc, ◌*◌, ◌%◌, ◌<◌, ◌≡◌, List, [], ◌∷◌, Option, none, some, ok, arith, length, All,
  JsString,
}
use verdikt.Cre.RequestBody.{
  hex_value, pair_value, decode_pairs, strip_prefix, request_body_field, byte_of,
}
use verdikt.Base.{ap}
use verdikt.Cre.RequestBody.{decode_digits}
use verdikt.Base.{inl}
use verdikt.Base.{◌∙◌}
use verdikt.Base.{inr}
use verdikt.Base.{>>=-eq-ok}
use verdikt.Base.{subst}
use verdikt.Base.{ok-injective}
use verdikt.Base.{Bool-cases}
use verdikt.Base.{==_iff}

abbrev pub non_empty : List ℕ → Option (List ℕ)
non_empty [] = none
non_empty (b ∷ bs) = some (b ∷ bs)

hex_value_bound : (c : ℕ) {n : ℕ} → hex_value c ≡ some n → n < 16
unfolding hex_value
hex_value_bound c h = ground arith

byte_of_bound :
    (pair : JsString) (i a b : ℕ) {n : ℕ}
    → byte_of pair i (pair_value (hex_value a) (hex_value b)) ≡ ok n
    → n < 256
unfolding hex_value
byte_of_bound pair i a b h = ground arith

decode_pairs-bytes :
    (i : ℕ) (digits : JsString) (bytes : List ℕ)
    → decode_pairs i digits ≡ ok bytes
    → length digits % 2 ≡ 0
    → (length digits ≡ 2 * length bytes) × All (λ b. b < 256) bytes
unfolding decode_pairs
decode_pairs-bytes i [] bytes h e = ground arith
decode_pairs-bytes i (a ∷ []) bytes h e = absurd (omega arith)
decode_pairs-bytes i (a ∷ b ∷ rest) bytes h e =
    let (n, got, later) =
      >>=-eq-ok (byte_of (a ∷ b ∷ []) i (pair_value (hex_value a) (hex_value b))) _ h in
    let (ns, read, made) = >>=-eq-ok (decode_pairs (suc i) rest) _ later in
    let (len, small) = decode_pairs-bytes (suc i) rest ns read (omega arith) in
    subst (λ bs. (length (a ∷ b ∷ rest) ≡ 2 * length bs) × All (λ b. b < 256) bs)
      (ok-injective made) (omega arith, (byte_of_bound (a ∷ b ∷ []) i a b got, small))

decode_digits-eq-ok :
    (digits : JsString) (bytes : List ℕ)
    → decode_digits digits ≡ ok (some bytes)
    → (decode_pairs 0 digits ≡ ok bytes) × (length digits % 2 ≡ 0)
unfolding decode_digits
decode_digits-eq-ok digits bytes h = elim (Bool-cases (length digits % 2 == 0)) [
  | inl even ↦
      let (got, read, made) = >>=-eq-ok (decode_pairs 0 digits) _ (rw even at h) in
      (read ∙ ap ok (ground arith), (==_iff _ 0).0 even)
  | inr odd ↦ cc (rw odd at h)
]

-- A body that the enclave accepts holds one byte for each two hex digits, and each is below 256.
pub request_body_field-bytes :
    (body_hex : JsString) (bytes : List ℕ)
    → request_body_field (some body_hex) ≡ ok (some bytes)
    → (length (strip_prefix body_hex) ≡ 2 * length bytes) × All (λ b. b < 256) bytes
unfolding request_body_field
request_body_field-bytes body_hex bytes h =
    let (read, even) = decode_digits-eq-ok (strip_prefix body_hex) bytes h in
    decode_pairs-bytes 0 (strip_prefix body_hex) bytes read even

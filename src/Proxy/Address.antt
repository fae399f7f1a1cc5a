-- ===== src/Proxy/Address.antt =====
-- proxy/src/http.js: which hosts a provider may not point the proxy at. A host is the text that
-- `URL.hostname` gives; a byte is a number.
pub mod Ranges
pub mod Octets
pub mod Local
mod Examples
use verdikt.Base.{
  ℕ, zero, suc, ◌+◌, ◌-◌, ◌*◌, ◌/◌, ◌%◌, Bool, true, false, not, ◌&&◌, ◌||◌, List, [], ◌∷◌, ◌++◌,
  Option, none, some, JsString, js, length, take, drop, every, any, ltb, leb, ◌==◌, is_digit, split,
  starts_with, ends_with, to_lower, same_text, replicate, if◌then◌else◌,
}
use mathlib.Core.List.{reverse}
use verdikt.Cre.RequestBody.{hex_value}

-- Four bytes, and the text patterns on them in the order of the source.
abbrev pub is_private_quad : ℕ → ℕ → ℕ → ℕ → Bool
is_private_quad a b c d =
    a == 0
    || a == 10
    || a == 127
    || (a == 169 && b == 254)
    || (a == 172 && leb 16 b && leb b 31)
    || (a == 192 && b == 168)
    || (a == 100 && leb 64 b && leb b 127)
    || (a == 255 && b == 255 && c == 255 && d == 255)

-- The parameter is destructured, `[a, b, c, d]`; the callers pass four bytes.
abbrev pub is_private_ipv4 : List ℕ → Bool
is_private_ipv4 (a ∷ b ∷ c ∷ d ∷ _) = is_private_quad a b c d
is_private_ipv4 _ = false

abbrev pub digits_value : ℕ → JsString → ℕ
digits_value n [] = n
digits_value n (c ∷ cs) = digits_value (n * 10 + (c - 48)) cs

-- `/^\d{1,3}$/`
abbrev pub is_short_number : JsString → Bool
is_short_number part = leb 1 (length part) && leb (length part) 3 && every is_digit part

-- A part read as a number that is at most 255; `none` is `NaN` or what is larger.
abbrev pub octet_of : JsString → Option ℕ
octet_of part =
    if is_short_number part && leb (digits_value 0 part) 255
    then some (digits_value 0 part)
    else none

abbrev pub quad_of : Option ℕ → Option ℕ → Option ℕ → Option ℕ → Option (List ℕ)
quad_of (some a) (some b) (some c) (some d) = some (a ∷ b ∷ c ∷ d ∷ [])
quad_of _ _ _ _ = none

abbrev pub octets_of : List JsString → Option (List ℕ)
octets_of (p ∷ q ∷ r ∷ s ∷ []) = quad_of (octet_of p) (octet_of q) (octet_of r) (octet_of s)
octets_of _ = none

-- `.` is 46.
unfoldable pub parse_ipv4 : JsString → Option (List ℕ)
unfolding split
parse_ipv4 host = octets_of (split 46 host)

-- `s.split('::')`; `cur` is the part read so far, last unit first. `:` is 58.
unfoldable pub split_double : JsString → JsString → List JsString
split_double cur [] = reverse cur ∷ []
split_double cur (c ∷ []) = reverse (c ∷ cur) ∷ []
split_double cur (c ∷ d ∷ cs) = elim (c == 58 && d == 58) [
  | true ↦ reverse cur ∷ split_double [] cs
  | false ↦ split_double (c ∷ cur) (d ∷ cs)
]

abbrev pub hex_digits : ℕ → JsString → Option ℕ
hex_digits n [] = some n
hex_digits n (c ∷ cs) = elim (hex_value c) [ none ↦ none | some v ↦ hex_digits (n * 16 + v) cs ]

-- A group, `/^[0-9a-fA-F]{1,4}$/`, as its two bytes.
abbrev pub bytes_of_group : Option ℕ → Option (List ℕ)
bytes_of_group none = none
bytes_of_group (some n) = some (n / 256 ∷ n % 256 ∷ [])

abbrev pub group_bytes : JsString → Option (List ℕ)
group_bytes g =
    if leb 1 (length g) && leb (length g) 4 then bytes_of_group (hex_digits 0 g) else none

abbrev pub has_dot : JsString → Bool
has_dot = any (λ c. c == 46)

abbrev pub append_bytes : Option (List ℕ) → Option (List ℕ) → Option (List ℕ)
append_bytes (some a) (some b) = some (a ++ b)
append_bytes _ _ = none

-- The loop over the groups: one with a dot is an IPv4 address, and must be the last.
unfoldable pub groups_bytes : List JsString → Option (List ℕ)
unfolding parse_ipv4 hex_value
groups_bytes [] = some []
groups_bytes (g ∷ []) = if has_dot g then parse_ipv4 g else group_bytes g
groups_bytes (g ∷ h ∷ gs) =
    let rest = groups_bytes (h ∷ gs) in
    if has_dot g then none else append_bytes (group_bytes g) rest

abbrev pub to_bytes : JsString → Option (List ℕ)
to_bytes [] = some []
to_bytes (c ∷ cs) = groups_bytes (split 58 (c ∷ cs))

-- Two halves have the zeros between them; a single one must have all the bytes.
abbrev pub join_halves : Option (List ℕ) → Option (List ℕ) → Option (List ℕ)
join_halves (some head) (some tail) =
    if leb (length head + length tail) 16
    then some (head ++ replicate (16 - length head - length tail) 0 ++ tail)
    else none
join_halves _ _ = none

abbrev pub whole : Option (List ℕ) → Option (List ℕ)
whole none = none
whole (some head) = if length head == 16 then some head else none

abbrev pub halves_bytes : List JsString → Option (List ℕ)
halves_bytes (head ∷ []) = whole (to_bytes head)
halves_bytes (head ∷ tail ∷ []) = join_halves (to_bytes head) (to_bytes tail)
halves_bytes _ = none

unfoldable pub parse_ipv6 : JsString → Option (List ℕ)
unfolding groups_bytes split split_double
parse_ipv6 host = halves_bytes (split_double [] host)

-- `b.slice(0, n).every((x) => x === 0)`
abbrev pub zero_up_to : ℕ → List ℕ → Bool
zero_up_to n b = every (λ x. x == 0) (take n b)

-- `b[i]`
abbrev pub byte_at : ℕ → List ℕ → ℕ
byte_at n [] = 0
byte_at zero (x ∷ xs) = x
byte_at (suc n) (x ∷ xs) = byte_at n xs

-- `b & 0xfe` and `b & 0xc0` of a byte.
abbrev pub mask_fe : ℕ → ℕ
mask_fe b = b / 2 * 2

abbrev pub mask_c0 : ℕ → ℕ
mask_c0 b = b / 64 * 64

abbrev pub is_private_ipv6 : List ℕ → Bool
is_private_ipv6 b =
    if zero_up_to 10 b && byte_at 10 b == 255 && byte_at 11 b == 255
    then is_private_ipv4 (drop 12 b)
    else if zero_up_to 12 b
    then is_private_ipv4 (drop 12 b)
    else mask_fe (byte_at 0 b) == 252 || (byte_at 0 b == 254 && mask_c0 (byte_at 1 b) == 128)

abbrev pub private_or_refused : Option (List ℕ) → Bool
private_or_refused none = true
private_or_refused (some bytes) = is_private_ipv6 bytes

abbrev pub private_or_name : JsString → Option (List ℕ) → Bool
private_or_name hostname (some v4) = is_private_ipv4 v4
private_or_name hostname none =
    same_text (to_lower hostname) (js "localhost")
    || ends_with (js ".localhost") (to_lower hostname)

-- `hostname.slice(1, -1)`
abbrev pub inside : JsString → JsString
inside s = take (length s - 2) (drop 1 s)

-- `[` is 91 and `]` is 93.
unfoldable pub is_private_host : JsString → Bool
unfolding parse_ipv4 parse_ipv6 js starts_with ends_with to_lower same_text
is_private_host hostname =
    if starts_with (91 ∷ []) hostname && ends_with (93 ∷ []) hostname
    then private_or_refused (parse_ipv6 (inside hostname))
    else private_or_name hostname (parse_ipv4 hostname)

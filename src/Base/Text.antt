-- ===== src/Base/Text.antt =====
-- JavaScript strings, as their UTF-16 code units: `length`, `slice`, `===` and the order that
-- `Array.prototype.sort` uses are then those of lists of numbers.
use Prim.Native.Nat.{ℕ, zero, suc, ◌+◌, ◌/◌, ◌%◌}
use Prim.Native.Char.{code}
use Prim.Native.String.{String}
use mathlib.Core.Path.{◌≡◌, refl}
use mathlib.Core.Logic.{◌↔◌}
use mathlib.Core.Bool.{Bool, true, false, ◌&&◌, ◌||◌}
use mathlib.Core.List.{List, [], ◌∷◌, map, reverse}
use native.Mathlib.Omega.{arith}
use verdikt.Base.Tests.{ltb, leb, ◌==◌, if◌then◌else◌}

abbrev pub JsString : Type 0
JsString = List ℕ

-- A literal of the source. They lie in the basic plane: one unit for each character.
unfoldable pub js : String → JsString
js String.[] = []
js (String.◌∷◌ c s) = code c ∷ js s

-- `a === b`
unfoldable pub same_text : JsString → JsString → Bool
same_text [] [] = true
same_text (x ∷ xs) (y ∷ ys) = x == y && same_text xs ys
same_text [] (_ ∷ _) = false
same_text (_ ∷ _) [] = false

pub same_text_refl : (s : JsString) → same_text s s ≡ true
unfolding same_text
same_text_refl [] = refl
same_text_refl (x ∷ xs) = ground (arith, same_text_refl xs)

pub same_text→eq : (s t : JsString) → same_text s t ≡ true → s ≡ t
unfolding same_text
same_text→eq [] [] h = refl
same_text→eq (x ∷ xs) (y ∷ ys) h = ground (arith, same_text→eq xs ys)
same_text→eq [] (_ ∷ _) h = cc
same_text→eq (_ ∷ _) [] h = cc

pub same_text_iff : (s t : JsString) → (same_text s t ≡ true) ↔ (s ≡ t)
same_text_iff s t = (same_text→eq s t, λ e. rw e (same_text_refl t))

-- `a < b` on strings.
unfoldable pub text_lt : JsString → JsString → Bool
text_lt [] [] = false
text_lt [] (_ ∷ _) = true
text_lt (_ ∷ _) [] = false
text_lt (x ∷ xs) (y ∷ ys) = ltb x y || (x == y && text_lt xs ys)

-- `Array.prototype.sort` on strings, by insertion: any sort gives this list.
unfoldable pub insert_text : JsString → List JsString → List JsString
insert_text s [] = s ∷ []
insert_text s (t ∷ ts) = let rest = insert_text s ts in if text_lt t s then t ∷ rest else s ∷ t ∷ ts

unfoldable pub sort_texts : List JsString → List JsString
unfolding insert_text text_lt
sort_texts [] = []
sort_texts (s ∷ ts) = insert_text s (sort_texts ts)

unfoldable pub starts_with : JsString → JsString → Bool
starts_with [] s = true
starts_with (_ ∷ _) [] = false
starts_with (x ∷ xs) (y ∷ ys) = x == y && starts_with xs ys

unfoldable pub ends_with : JsString → JsString → Bool
unfolding starts_with
ends_with suffix s = starts_with (reverse suffix) (reverse s)

-- `toLowerCase` where it changes ASCII letters only, as it does on hex, host names and slugs.
abbrev pub lower_unit : ℕ → ℕ
lower_unit c = if leb 65 c && leb c 90 then c + 32 else c

unfoldable pub to_lower : JsString → JsString
to_lower = map lower_unit

-- `String(n)` of a natural number, in decimal. The fuel is the number itself.
unfoldable pub decimal_from : ℕ → ℕ → JsString → JsString
decimal_from zero n rest = (48 + n % 10) ∷ rest
decimal_from (suc fuel) n rest =
    let more = decimal_from fuel (n / 10) ((48 + n % 10) ∷ rest) in
    if ltb n 10 then (48 + n % 10) ∷ rest else more

unfoldable pub decimal : ℕ → JsString
unfolding decimal_from
decimal n = decimal_from n n []

abbrev pub is_digit : ℕ → Bool
is_digit c = leb 48 c && leb c 57

-- `s.split(sep)` for a one-unit separator; `cur` is the part read so far, last unit first.
unfoldable pub split_from : ℕ → JsString → JsString → List JsString
split_from sep cur [] = reverse cur ∷ []
split_from sep cur (c ∷ cs) = elim (c == sep) [
  | true ↦ reverse cur ∷ split_from sep [] cs
  | false ↦ split_from sep (c ∷ cur) cs
]

unfoldable pub split : ℕ → JsString → List JsString
unfolding split_from
split sep s = split_from sep [] s

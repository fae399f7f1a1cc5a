-- ===== src/Proxy/HeaderText.antt =====
-- `headerSafe` and `failureDetailHeaders` of proxy/src/router.js: the text of a clause result in a
-- header.
pub mod Safe
mod Examples
use verdikt.Base.{
  ℕ, ◌+◌, Bool, true, false, not, ◌&&◌, ◌||◌, List, [], ◌∷◌, ◌++◌, Option, none, some, JsString, js,
  length, take, ltb, leb, ◌==◌, find, if◌then◌else◌,
}
use verdikt.Base.Dict.{Dict}

-- CR is 13 and LF is 10.
abbrev pub is_break : ℕ → Bool
is_break c = c == 13 || c == 10

-- `value.replace(/[\r\n]+/g, ' ')`: a run of breaks is one space. `inside` says that the unit
-- before was a break.
unfoldable pub join_lines : Bool → JsString → JsString
join_lines inside [] = []
join_lines inside (c ∷ cs) =
    let rest = join_lines (is_break c) cs in
    if is_break c then (if inside then rest else 32 ∷ rest) else c ∷ rest

-- `/[\x20-\x7e]/`
abbrev pub is_printable : ℕ → Bool
is_printable c = leb 32 c && leb c 126

-- `replace(/[^\x20-\x7e]/g, '?')`; `?` is 63.
abbrev pub printable_or_mark : ℕ → ℕ
printable_or_mark c = if is_printable c then c else 63

abbrev pub printable : JsString → JsString
printable [] = []
printable (c ∷ cs) = printable_or_mark c ∷ printable cs

-- `...` is three 46.
abbrev pub clip : JsString → JsString
clip flat = if ltb 180 (length flat) then take 177 flat ++ 46 ∷ 46 ∷ 46 ∷ [] else flat

unfoldable pub header_safe : JsString → JsString
unfolding join_lines
header_safe value = clip (printable (join_lines false value))

-- What the proxy reads of a clause result.
pub record ClauseReport : Type 0 where
  pub id : JsString
  pub type : JsString
  pub pass : Bool
  pub expected : JsString
  pub actual : JsString

abbrev pub broken_headers : Option ClauseReport → Dict JsString
broken_headers none = []
broken_headers (some broke) =
    (js "x-verdikt-failed-clause", header_safe broke.id)
    ∷ (js "x-verdikt-failed-clause-type", header_safe broke.type)
    ∷ (js "x-verdikt-expected", header_safe broke.expected)
    ∷ (js "x-verdikt-actual", header_safe broke.actual)
    ∷ []

unfoldable pub failure_detail_headers : List ClauseReport → Dict JsString
failure_detail_headers clauses = broken_headers (find (λ c. not c.pass) clauses)

-- ===== src/Proxy/HeaderText/Examples.antt =====
-- Runs of the header text, and the theorem at one.
use verdikt.Base.{◌≡◌, ◌≤◌, refl, [], ◌∷◌, JsString, All, length}
use verdikt.Proxy.HeaderText.{header_safe}
use verdikt.Proxy.HeaderText.Safe.{IsPlain, header_safe-IsPlain}

abbrev split_header : JsString
split_header = 97 ∷ 13 ∷ 10 ∷ 98 ∷ 8212 ∷ []

flattened : header_safe split_header ≡ 97 ∷ 32 ∷ 98 ∷ 63 ∷ []
unfolding header_safe
flattened = refl

header_safe-IsPlain_example :
    All IsPlain (header_safe split_header)
    × (length (header_safe split_header) ≤ 180)
    × (All IsPlain split_header
        → length split_header ≤ 180
        → header_safe split_header ≡ split_header)
header_safe-IsPlain_example = header_safe-IsPlain split_header

-- ===== src/Cre/RequestBody/Examples.antt =====
-- Runs of the two codecs, and the theorems at them.
use verdikt.Base.{◌≡◌, refl, [], ◌∷◌, some, ok, throw, js}
use verdikt.Cre.RequestBody.{request_body_field, bad_pair}

upper_prefix : request_body_field (some (js "0X0aFF")) ≡ ok (some (10 ∷ 255 ∷ []))
unfolding request_body_field js
upper_prefix = refl

bad_digits : request_body_field (some (js "12g4")) ≡ throw (bad_pair (js "g4") 1)
unfolding request_body_field js
bad_digits = refl

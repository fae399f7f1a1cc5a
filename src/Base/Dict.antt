-- ===== src/Base/Dict.antt =====
-- A `Map` with string keys, and the members of an object: pairs in insertion order.
use mathlib.Core.Path.{◌≡◌, refl}
use mathlib.Core.List.{List, [], ◌∷◌}
use mathlib.Core.Option.{Option, none, some}
use native.Mathlib.Omega.{arith}
use verdikt.Base.Tests.{if◌then◌else◌}
use verdikt.Base.Text.{JsString, same_text, same_text_iff}

abbrev pub Dict {ℓ} : Type ℓ → Type ℓ
Dict V = List (JsString × V)

module _ {ℓ} {V : Type ℓ} where
  unfoldable pub get : JsString → Dict V → Option V
  get k [] = none
  get k ((j, v) ∷ m) = if same_text j k then some v else get k m

  unfoldable pub set : JsString → V → Dict V → Dict V
  set k v [] = (k, v) ∷ []
  set k v ((j, w) ∷ m) = if same_text j k then (j, v) ∷ m else (j, w) ∷ set k v m

  unfoldable pub delete : JsString → Dict V → Dict V
  delete k [] = []
  delete k ((j, w) ∷ m) = if same_text j k then delete k m else (j, w) ∷ delete k m

  pub get-set :
      (k j : JsString) (v : V) (m : Dict V)
      → get j (set k v m) ≡ (if same_text k j then some v else get j m)
  unfolding get set
  get-set k j v [] = refl
  get-set k j v ((i, w) ∷ m) =
      ground (arith, same_text_iff k j, same_text_iff i k, same_text_iff i j, get-set k j v m)

  pub get-delete :
      (k j : JsString) (m : Dict V) → get j (delete k m) ≡ (if same_text k j then none else get j m)
  unfolding get delete
  get-delete k j [] = ground arith
  get-delete k j ((i, w) ∷ m) =
      ground (arith, same_text_iff k j, same_text_iff i k, same_text_iff i j, get-delete k j m)

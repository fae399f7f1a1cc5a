-- ===== src/Json/Reading.antt =====
-- Reading members: a key that is found stands among the keys, sorted or not.
use verdikt.Base.{
  ◌≡◌, refl, Bool, true, ◌||◌, List, [], ◌∷◌, some, JsString, arith, same_text, same_text_iff,
  sort_texts, insert_text, any,
}
use verdikt.Base.Dict.{Dict, get}
use verdikt.Json.{keys}

-- `names.includes(s)`, and `has` of a set.
abbrev pub has : List JsString → JsString → Bool
has names s = any (same_text s) names

has-insert_text :
    (s k : JsString) (ts : List JsString) → has (insert_text s ts) k ≡ (same_text k s || has ts k)
unfolding insert_text
has-insert_text s k [] = refl
has-insert_text s k (t ∷ ts) = ground (arith, has-insert_text s k ts)

pub has-sort_texts : (names : List JsString) (k : JsString) → has (sort_texts names) k ≡ has names k
unfolding sort_texts
has-sort_texts [] k = refl
has-sort_texts (s ∷ names) k =
    ground (arith, has-insert_text s k (sort_texts names), has-sort_texts names k)

pub has-keys {ℓ} :
    {V : Type ℓ} (k : JsString) (m : Dict V) {v : V} → get k m ≡ some v → has (keys m) k ≡ true
unfolding get
has-keys k [] h = cc
has-keys k ((j, w) ∷ m) {v} h =
    ground (arith, same_text_iff j k, same_text_iff k j, has-keys k m {v = v})

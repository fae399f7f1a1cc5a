-- ===== src/Json.antt =====
-- The values that `JSON.parse` makes, and how the program reads them.
pub mod Numbers
pub mod Reading
use verdikt.Base.{
  ℕ, zero, suc, ◌+◌, Bool, true, false, List, [], ◌∷◌, Option, none, some, JsString, ◌&&◌, ◌==◌,
  same_text, sort_texts, length, if◌then◌else◌,
}
use verdikt.Base.Dict
use verdikt.Base.Dict.{Dict}
use Numbers.{Number, eq}

mutual
  pub data Json : Type 0 where
    null : Json
    bool : Bool → Json
    num : Number → Json
    str : JsString → Json
    arr : Items → Json
    obj : Members → Json

  pub data Items : Type 0 where
    nil : Items
    cons : Json → Items → Items

  -- In insertion order. The parser leaves each key once; a reader finds the first.
  pub data Members : Type 0 where
    end : Members
    member : JsString → Json → Members → Members

abbrev pub items : Items → List Json
items nil = []
items (cons v vs) = v ∷ items vs

abbrev pub members : Members → Dict Json
members end = []
members (member k v ms) = (k, v) ∷ members ms

abbrev pub array : List Json → Items
array [] = nil
array (v ∷ vs) = cons v (array vs)

abbrev pub object : Dict Json → Members
object [] = end
object ((k, v) ∷ ms) = member k v (object ms)

-- `Object.keys`
abbrev pub keys {ℓ} : {V : Type ℓ} → Dict V → List JsString
keys [] = []
keys ((k, _) ∷ ms) = k ∷ keys ms

unfoldable mutual
  pub size : Json → ℕ
  size null = 1
  size (bool b) = 1
  size (num n) = 1
  size (str s) = 1
  size (arr vs) = suc (size_items vs)
  size (obj ms) = suc (size_members ms)

  pub size_items : Items → ℕ
  size_items nil = 0
  size_items (cons v vs) = size v + size_items vs

  pub size_members : Members → ℕ
  size_members end = 0
  size_members (member k v ms) = size v + size_members ms

abbrev pub is_plain_object : Json → Bool
is_plain_object (obj _) = true
is_plain_object _ = false

abbrev pub is_string : Json → Bool
is_string (str _) = true
is_string _ = false

-- A member that is a number, `typeof o.k === 'number'`.
abbrev pub as_number : Option Json → Option Number
as_number (some (num n)) = some n
as_number _ = none

-- `isPlainObject(o.k) ? o.k : {}`
abbrev pub as_object : Option Json → Dict Json
as_object (some (obj ms)) = members ms
as_object _ = []

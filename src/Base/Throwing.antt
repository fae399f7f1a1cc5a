-- ===== src/Base/Throwing.antt =====
-- A function that may throw returns a `Result`; `E` is what it throws.
use mathlib.Core.Path.{◌≡◌, refl}
use mathlib.Core.Bool.{Bool, true, false}

pub data Result (E A : Type 0) : Type 0 where
  ok : A → Result E A
  throw : E → Result E A

-- `if (b) throw e`
abbrev pub throw_if : {E : Type 0} → Bool → E → Result E (Unit {0})
throw_if false fault = ok tt
throw_if true fault = throw fault

module _ {E B : Type 0} where
  infixl 5 ◌>>=◌
  abbrev pub ◌>>=◌ : {A : Type 0} → Result E A → (A → Result E B) → Result E B
  throw fault >>= next = throw fault
  ok got >>= next = next got

  infixl 5 ◌>>◌
  abbrev pub ◌>>◌ : Result E (Unit {0}) → Result E B → Result E B
  check >> next = check >>= λ done. next

-- What a chain that ends well went through.
module _ {E B : Type 0} {final : B} where
  pub >>=-eq-ok :
      {A : Type 0} (start : Result E A) (next : A → Result E B)
      → (start >>= next) ≡ ok final
      → (got : A) × (start ≡ ok got) × (next got ≡ ok final)
  >>=-eq-ok (throw fault) next ended = cc
  >>=-eq-ok (ok got) next ended = (got, refl, ended)

  pub >>-eq-ok :
      (check : Result E (Unit {0})) (next : Result E B)
      → (check >> next) ≡ ok final
      → (check ≡ ok tt) × (next ≡ ok final)
  >>-eq-ok (throw fault) next ended = cc
  >>-eq-ok (ok tt) next ended = (refl, ended)

pub ok-injective :
    {E A : Type 0} {one other : A} → ◌≡◌ {A = Result E A} (ok one) (ok other) → one ≡ other
ok-injective same = cc

pub throw_if-eq-ok : {E : Type 0} (b : Bool) (fault : E) → throw_if b fault ≡ ok tt → b ≡ false
throw_if-eq-ok false fault passed = refl
throw_if-eq-ok true fault passed = cc

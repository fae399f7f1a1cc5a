-- ===== src/Json/Numbers.antt =====
-- The numbers of JavaScript, as far as the program looks into them: comparison, `===`,
-- `Number.isInteger` and `Number.isFinite`. A finite double is m / 2 ^ k for an integer m.
use verdikt.Base.{ℕ, suc, ◌-◌, ◌*◌, ◌%◌, ◌^◌, ◌≡◌, Bool, true, false, not, ◌||◌, ◌==◌, ltb, arith}

-- `negsuc n` is -(n + 1).
pub data ℤ : Type 0 where
  pos : ℕ → ℤ
  negsuc : ℕ → ℤ

pub data Number : Type 0 where
  finite : ℤ → ℕ → Number
  infinite : (negative : Bool) → Number
  nan : Number

abbrev pub of_ℕ : ℕ → Number
of_ℕ n = finite (pos n) 0

abbrev scale : ℤ → ℕ → ℤ
scale (pos a) n = pos (a * n)
scale (negsuc a) n = negsuc (suc a * n - 1)

abbrev pub lt_ℤ : ℤ → ℤ → Bool
lt_ℤ (pos a) (pos b) = ltb a b
lt_ℤ (negsuc a) (negsuc b) = ltb b a
lt_ℤ (negsuc _) (pos _) = true
lt_ℤ (pos _) (negsuc _) = false

abbrev pub eq_ℤ : ℤ → ℤ → Bool
eq_ℤ (pos a) (pos b) = a == b
eq_ℤ (negsuc a) (negsuc b) = a == b
eq_ℤ _ _ = false

abbrev magnitude : ℤ → ℕ
magnitude (pos a) = a
magnitude (negsuc a) = suc a

-- `a < b`
unfoldable pub lt : Number → Number → Bool
lt (finite a j) (finite b k) = lt_ℤ (scale a (2 ^ k)) (scale b (2 ^ j))
lt (finite _ _) (infinite negative) = not negative
lt (infinite negative) (finite _ _) = negative
lt (infinite true) (infinite false) = true
lt _ _ = false

-- `a === b`
unfoldable pub eq : Number → Number → Bool
eq (finite a j) (finite b k) = eq_ℤ (scale a (2 ^ k)) (scale b (2 ^ j))
eq (infinite true) (infinite true) = true
eq (infinite false) (infinite false) = true
eq _ _ = false

-- `a <= b`
unfoldable pub le : Number → Number → Bool
unfolding lt eq
le a b = lt a b || eq a b

unfoldable pub is_integer : Number → Bool
is_integer (finite a k) = magnitude a % 2 ^ k == 0
is_integer _ = false

unfoldable pub is_finite : Number → Bool
is_finite (finite _ _) = true
is_finite _ = false

pub lt-of_ℕ : (a b : ℕ) → lt (of_ℕ a) (of_ℕ b) ≡ ltb a b
unfolding lt
lt-of_ℕ a b = ground arith

pub le-of_ℕ : (a b : ℕ) → le (of_ℕ a) (of_ℕ b) ≡ (ltb a b || (a == b))
unfolding le
le-of_ℕ a b = ground arith

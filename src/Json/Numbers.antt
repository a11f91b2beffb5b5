-- ===== src/Json/Numbers.antt =====
-- The numbers of JavaScript. A finite double is a dyadic rational, so ± mantissa / 2 ^ scale
-- stands for every one of them exactly.
use bighead.Common.{ℕ, ◌*◌, ◌/◌, ◌%◌, ◌^◌, Bool, true, false, ◌||◌, ◌&&◌, ltb, leb, eqb}

pub data Number : Type 0 where
  finite : (negative : Bool) (mantissa scale : ℕ) → Number
  infinite : (negative : Bool) → Number
  not_a_number : Number

abbrev pub of_ℕ : ℕ → Number
of_ℕ n = finite false n 0

-- `Number.isInteger`
abbrev pub is_integer : Number → Bool
is_integer (finite s m k) = eqb (m % 2 ^ k) 0
is_integer _ = false

-- `Number.isFinite`
abbrev pub is_finite : Number → Bool
is_finite (finite s m k) = true
is_finite _ = false

-- `x < n` for a numeral `n`; -0 is not below 0
abbrev pub below : Number → ℕ → Bool
below (finite true m k) n = ltb 0 n || ltb 0 m
below (finite false m k) n = ltb m (n * 2 ^ k)
below (infinite s) n = s
below not_a_number n = false

-- `x > n`
abbrev pub above : Number → ℕ → Bool
above (finite true m k) n = false
above (finite false m k) n = ltb (n * 2 ^ k) m
above (infinite true) n = false
above (infinite false) n = true
above not_a_number n = false

-- The magnitude of an integer that is not below 0.
abbrev pub natural : Number → ℕ
natural (finite s m k) = m / 2 ^ k
natural _ = 0

-- Whether the truth value of a number is false.
abbrev pub is_zero_or_nan : Number → Bool
is_zero_or_nan (finite s m k) = eqb m 0
is_zero_or_nan (infinite s) = false
is_zero_or_nan not_a_number = true

-- `Number.isSafeInteger`
abbrev pub is_safe_integer : Number → Bool
is_safe_integer (finite s m k) = eqb (m % 2 ^ k) 0 && leb (m / 2 ^ k) 9007199254740991
is_safe_integer _ = false

-- ===== src/Json/Counts.antt =====
-- The values of JSON that stand for a natural number, whichever way the code tells them.
use native.Mathlib.Nat.{mod-add-div, mul-div_left, mul-mod_left, one-le-pow, mul_comm}
use bighead.Common.{
  arith, ℕ, suc, ◌*◌, ◌/◌, ◌%◌, ◌^◌, ◌<◌, ◌≤◌, zero, String, Bool, true, false, not, ◌&&◌, ◌≡◌, ◌≢◌,
  refl, sym, ap, ◌∙◌, ◌⊎◌, inl, inr, Option, none, some, eqb, subst, some_inj,
}
use bighead.Json.{Json, null, bool, num, str, arr, obj, as_string}
use bighead.Json.Numbers.{Number, finite, infinite, not_a_number, is_integer, below, natural}

-- The number is this integer: its mantissa is the integer times the power of two that it is divided
-- by, and it has no minus sign, but for -0.
abbrev pub IsCount : Number → ℕ → Type 0
IsCount x n =
    (negative : Bool) × (mantissa : ℕ) × (scale : ℕ) × (x ≡ finite negative mantissa scale)
    × (mantissa ≡ n * 2 ^ scale)
    × ((negative ≡ false) ⊎ (mantissa ≡ 0))

-- The value is a number, and the number is this integer.
abbrev pub CountOf : Option Json → ℕ → Type 0
CountOf given n = (x : Number) × (given ≡ some (num x)) × IsCount x n

-- The text that stands there, or else the other one.
abbrev pub TextOr : Option Json → String → String → Type 0
TextOr given fallback text =
    (given ≡ some (str text)) ⊎ (((s : String) → given ≢ some (str s)) × (text ≡ fallback))

abbrev pub is_natural : Number → Bool
is_natural x = is_integer x && not (below x 0)

power_pos : (k : ℕ) → 0 < 2 ^ k
power_pos k = one-le-pow k 2 (omega arith)

divided : (m p : ℕ) → eqb (m % p) 0 ≡ true → m ≡ m / p * p
divided m p h =
    let split = mod-add-div m p in
    let turned = mul_comm p (m / p) in ground (arith, h, split, turned)

pub is_natural-IsCount : (x : Number) → is_natural x ≡ true → IsCount x (natural x)
is_natural-IsCount (finite false m k) h =
    (false, m, k, refl, divided m (2 ^ k) (ground (arith, h)), inl refl)
is_natural-IsCount (finite true m k) h =
    (true, m, k, refl, divided m (2 ^ k) (ground (arith, h)), inr (ground (arith, h)))
is_natural-IsCount (infinite s) h = ground (arith, h)
is_natural-IsCount not_a_number h = ground (arith, h)

pub IsCount-is_natural :
    (x : Number) (n : ℕ) → IsCount x n → (is_natural x ≡ true) × (natural x ≡ n)
IsCount-is_natural x n (s, m, k, same, whole, sign) =
    subst (λ y. (is_natural y ≡ true) × (natural y ≡ n)) (sym same)
      (counted s sign, ap (λ a. a / 2 ^ k) whole ∙ mul-div_left n (power_pos k))
  where
    rest : m % 2 ^ k ≡ 0
    rest = ap (λ a. a % 2 ^ k) whole ∙ mul-mod_left n (2 ^ k)

    counted : (s : Bool) → (s ≡ false) ⊎ (m ≡ 0) → is_natural (finite s m k) ≡ true
    counted false e = ground (arith, rest)
    counted true (inr e) = ground (arith, rest, e)
    counted true (inl e) = cc

pub as_string-eq-some :
    (given : Option Json) (s : String) → as_string given ≡ some s → given ≡ some (str s)
as_string-eq-some none s h = cc
as_string-eq-some (some null) s h = cc
as_string-eq-some (some (bool b)) s h = cc
as_string-eq-some (some (num x)) s h = cc
as_string-eq-some (some (str t)) s h = ap (λ u. some (str u)) (some_inj h)
as_string-eq-some (some (arr vs)) s h = cc
as_string-eq-some (some (obj fs)) s h = cc

scaled : (n p : ℕ) → 1 ≤ n → p ≤ n * p
scaled zero p h = absurd (omega (arith, h))
scaled (suc j) p h = omega arith

positive :
    (s : Bool) (m k n : ℕ)
    → m ≡ n * 2 ^ k
    → (s ≡ false) ⊎ (m ≡ 0)
    → 1 ≤ n
    → below (finite s m k) 1 ≡ false
positive false m k n whole sign h = let enough = scaled n (2 ^ k) h in ground (arith, whole, enough)
positive true m k n whole (inr e) h =
    let enough = scaled n (2 ^ k) h in
    let some_power = power_pos k in absurd (omega (arith, whole, e, enough, some_power))
positive true m k n whole (inl e) h = cc

not_below_one : (x : Number) → below x 1 ≡ false → below x 0 ≡ false
not_below_one (finite true m k) h = ground (arith, h)
not_below_one (finite false m k) h = ground arith
not_below_one (infinite s) h = h
not_below_one not_a_number h = h

at_least_one : (x : Number) (n : ℕ) → below x 1 ≡ false → IsCount x n → 1 ≤ n
at_least_one x n h (s, m, k, same, whole, sign) =
    least s n (ap (λ y. below y 1) (sym same) ∙ h) whole
  where
    least : (s : Bool) (n : ℕ) → below (finite s m k) 1 ≡ false → m ≡ n * 2 ^ k → 1 ≤ n
    least s (suc j) h whole = omega arith
    least true zero h whole = ground (arith, h)
    least false zero h whole =
        let some_power = power_pos k in absurd (ground (arith, h, whole, some_power))

-- An integer from 1 on.
pub is_positive-IsCount :
    (x : Number)
    → (is_integer x && not (below x 1)) ≡ true
    → (1 ≤ natural x) × IsCount x (natural x)
is_positive-IsCount x h =
    let low : below x 1 ≡ false = ground (arith, h) in
    let count = is_natural-IsCount x (ground (arith, h, not_below_one x low)) in
    (at_least_one x (natural x) low count, count)

pub IsCount-is_positive :
    (x : Number) (n : ℕ) → IsCount x n → 1 ≤ n → (is_integer x && not (below x 1)) ≡ true
IsCount-is_positive x n (s, m, k, same, whole, sign) h =
    let (counted, same_count) = IsCount-is_natural x n (s, m, k, same, whole, sign) in
    let low : below x 1 ≡ false = ap (λ y. below y 1) same ∙ positive s m k n whole sign h in
    ground (arith, counted, low)

-- ===== src/Common/Lists.antt =====
-- Lists measured by native numbers, with the tests of the source's array methods.
use Prim.Native.Nat.{ℕ, zero, suc, ◌+◌, min}
use mathlib.Core.Path.{◌≡◌, refl, sym, ap, ◌∙◌}
use mathlib.Core.Logic.{◌↔◌, inl, inr}
use mathlib.Core.Bool.{Bool, true, false, ◌&&◌, ◌||◌}
use mathlib.Core.Option.{Option, none, some}
use mathlib.Core.List.{List, [], ◌∷◌, ◌++◌, Memᴰ}
use mathlib.Core.List.Memᴰ
use native.Mathlib.Omega.{arith}
use bighead.Common.Tests.{if◌then◌else◌, Bool-cases}

module _ {ℓ} {A : Type ℓ} where
  abbrev pub length : List A → ℕ
  length [] = 0
  length (x ∷ xs) = suc (length xs)

  abbrev pub get_elem? : List A → ℕ → Option A
  get_elem? [] i = none
  get_elem? (x ∷ xs) zero = some x
  get_elem? (x ∷ xs) (suc i) = get_elem? xs i

  abbrev pub take : ℕ → List A → List A
  take zero xs = []
  take (suc n) [] = []
  take (suc n) (x ∷ xs) = x ∷ take n xs

  abbrev pub drop : ℕ → List A → List A
  drop zero xs = xs
  drop (suc n) [] = []
  drop (suc n) (x ∷ xs) = drop n xs

  -- `Array.prototype.some` and `every`
  abbrev pub any : (A → Bool) → List A → Bool
  any p [] = false
  any p (x ∷ xs) = p x || any p xs

  abbrev pub all : (A → Bool) → List A → Bool
  all p [] = true
  all p (x ∷ xs) = p x && all p xs

  -- `Array.prototype.filter` and `find`
  abbrev pub filter : (A → Bool) → List A → List A
  filter p [] = []
  filter p (x ∷ xs) = let rest = filter p xs in if p x then x ∷ rest else rest

  abbrev pub find : (A → Bool) → List A → Option A
  find p [] = none
  find p (x ∷ xs) = let rest = find p xs in if p x then some x else rest

  pub length-append : (xs ys : List A) → length (xs ++ ys) ≡ length xs + length ys
  length-append [] ys = omega arith
  length-append (x ∷ xs) ys = omega (arith, length-append xs ys)

  pub length-take : (n : ℕ) (xs : List A) → length (take n xs) ≡ min n (length xs)
  length-take zero xs = omega arith
  length-take (suc n) [] = omega arith
  length-take (suc n) (x ∷ xs) = omega (arith, length-take n xs)

  pub any-append : (p : A → Bool) (xs ys : List A) → any p (xs ++ ys) ≡ (any p xs || any p ys)
  any-append p [] ys = refl
  any-append p (x ∷ xs) ys = ground (arith, any-append p xs ys)

module _ {ℓ κ} {A : Type ℓ} where
  abbrev pub All : (A → Type κ) → List A → Type κ
  All P [] = Unit
  All P (x ∷ xs) = P x × All P xs

  pub All-append : (P : A → Type κ) (xs ys : List A) → All P xs → All P ys → All P (xs ++ ys)
  All-append P [] ys h k = k
  All-append P (x ∷ xs) ys (p, h) k = (p, All-append P xs ys h k)

  pub All-filter : (P : A → Type κ) (p : A → Bool) (xs : List A) → All P xs → All P (filter p xs)
  All-filter P p [] h = tt
  All-filter P p (x ∷ xs) (q, h) = elim (Bool-cases (p x)) [
    | inl e ↦ rw e (q, All-filter P p xs h)
    | inr e ↦ rw e (All-filter P p xs h)
  ]

module _ {ℓ} {A : Type ℓ} where
  -- A Boolean test over a list, read as a statement about its members.
  pub any-iff-Memᴰ :
      (p : A → Bool) (xs : List A) → (any p xs ≡ true) ↔ ((x : A) × Memᴰ x xs × (p x ≡ true))
  any-iff-Memᴰ p [] = (λ h. cc, λ (x, m, e). elim m [ ])
  any-iff-Memᴰ p (x ∷ xs) = (
    λ h. elim (Bool-cases (p x)) [
      | inl e ↦ (x, Memᴰ.head refl, e)
      | inr e ↦ let (y, m, f) = (any-iff-Memᴰ p xs).0 (ground (arith, h, e)) in (y, Memᴰ.tail m, f)
    ],
    λ (y, m, e). elim (Memᴰ.cases_cons m) [
      | inl i ↦ let here = sym (ap p i) ∙ e in ground arith
      | inr i ↦ let rest = (any-iff-Memᴰ p xs).1 (y, i, e) in ground arith
    ],
  )

  pub none-iff-Memᴰ :
      (p : A → Bool) (xs : List A) → (any p xs ≡ false) ↔ ((x : A) → Memᴰ x xs → p x ≡ false)
  none-iff-Memᴰ p xs = (
    λ h x m. elim (Bool-cases (p x)) [
      | inl e ↦ let yes = (any-iff-Memᴰ p xs).1 (x, m, e) in cc
      | inr e ↦ e
    ],
    λ h. elim (Bool-cases (any p xs)) [
      | inl e ↦ let (x, m, f) = (any-iff-Memᴰ p xs).0 e in let no = h x m in cc
      | inr e ↦ e
    ],
  )

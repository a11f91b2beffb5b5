-- ===== src/Common/Sets.antt =====
-- A `Set` of texts: its members in some order, with the tests and the changes of the source.
use Prim.Native.Nat.{ℕ, suc, ◌≤◌, ◌<◌}
use Prim.Native.String.{String}
use mathlib.Core.Path.{◌≡◌, refl, sym, ap, ◌∙◌}
use mathlib.Core.Logic.{◌↔◌, inl, inr}
use mathlib.Core.Bool.{Bool, true, false, not, ◌||◌, ◌&&◌}
use mathlib.Core.List.{List, [], ◌∷◌, ◌++◌}
use native.Mathlib.Omega.{arith}
use text.Mathlib.Text.{◌==◌}
use text.Mathlib.TextEquality.{eq_iff}
use bighead.Common.Tests.{if◌then◌else◌, Bool-cases}
use bighead.Common.Lists.{length, any, filter}

abbrev pub has : List String → String → Bool
has names name = any (λ n. n == name) names

unfoldable pub set_add : String → List String → List String
set_add name names = if has names name then names else name ∷ names

unfoldable pub set_delete : String → List String → List String
set_delete name names = filter (λ n. not (n == name)) names

-- `[...new Set(names)]`: the first of each, in order.
unfoldable pub set_of : List String → List String
unfolding set_delete
set_of [] = []
set_of (name ∷ names) = name ∷ set_delete name (set_of names)

pub has-append : (xs ys : List String) (k : String) → has (xs ++ ys) k ≡ (has xs k || has ys k)
has-append [] ys k = refl
has-append (x ∷ xs) ys k = ground (arith, has-append xs ys k)

pub has-set_add :
    (x : String) (s : List String) (k : String) → has (set_add x s) k ≡ ((x == k) || has s k)
unfolding set_add
has-set_add x s k = ground (arith, eq_iff x k, lemma_at x k s)
  where
    lemma_at : (x k : String) (s : List String) → x ≡ k → has s x ≡ has s k
    lemma_at x k s e = ap (has s) e

pub has-set_delete :
    (x : String) (s : List String) (k : String) → has (set_delete x s) k ≡ (not (x == k) && has s k)
unfolding set_delete
has-set_delete x [] k = ground arith
has-set_delete x (y ∷ s) k =
    ground (arith, eq_iff x k, eq_iff y x, eq_iff y k, has-set_delete x s k)

pub delete_absent : (x : String) (s : List String) → has s x ≡ false → set_delete x s ≡ s
unfolding set_delete
delete_absent x [] h = refl
delete_absent x (y ∷ s) h = ground (arith, delete_absent x s)

again : (x : String) (s : List String) → has s x ≡ false → set_delete x (x ∷ s) ≡ s
unfolding set_delete
again x s h = ground (arith, eq_iff x x, delete_absent x s h)

-- A name that is put in anew and taken out leaves the set as it was.
pub set_delete-set_add :
    (x : String) (s : List String) → has s x ≡ false → set_delete x (set_add x s) ≡ s
unfolding set_add
set_delete-set_add x s h = rw h (again x s h)

pub has-set_of : (xs : List String) (k : String) → has (set_of xs) k ≡ has xs k
unfolding set_of
has-set_of [] k = refl
has-set_of (x ∷ xs) k = ground (arith, has-set_delete x (set_of xs) k, has-set_of xs k)

length-set_delete : (x : String) (s : List String) → length (set_delete x s) ≤ length s
unfolding set_delete
length-set_delete x [] = omega arith
length-set_delete x (y ∷ s) = ground (arith, length-set_delete x s)

delete_present :
    (x : String) (s : List String) → has s x ≡ true → length (set_delete x s) < length s
unfolding set_delete
delete_present x [] h = ground arith
delete_present x (y ∷ s) h = ground (arith, length-set_delete x s, delete_present x s)

pub length-set_of : (xs : List String) → length (set_of xs) ≤ length xs
unfolding set_of
length-set_of [] = omega arith
length-set_of (x ∷ xs) = omega (arith, length-set_of xs, length-set_delete x (set_of xs))

-- No name stands twice.
abbrev pub NoRepeats : List String → Type 0
NoRepeats [] = Unit
NoRepeats (x ∷ xs) = (has xs x ≡ false) × NoRepeats xs

pub length-set_of_iff : (xs : List String) → (length (set_of xs) ≡ length xs) ↔ NoRepeats xs
unfolding set_of
length-set_of_iff [] = (λ h. tt, λ h. refl)
length-set_of_iff (x ∷ xs) = (
  λ h. elim (Bool-cases (has (set_of xs) x)) [
    | inl e ↦ absurd (omega (arith, delete_present x (set_of xs) e, length-set_of xs))
    | inr e ↦ (
      sym (has-set_of xs x) ∙ e,
      (length-set_of_iff xs).0 (omega (arith, ap length (delete_absent x (set_of xs) e))),
    )
  ],
  λ (n, d). omega (
    arith,
    ap length (delete_absent x (set_of xs) (has-set_of xs x ∙ n)),
    (length-set_of_iff xs).1 d,
  ),
)

-- The members that another set has not.
unfoldable pub missing : List String → List String → ℕ
missing [] s = 0
missing (u ∷ us) s = let rest = missing us s in if has s u then rest else suc rest

pub missing-set_add : (us s : List String) (x : String) → missing us (set_add x s) ≤ missing us s
unfolding missing
missing-set_add [] s x = omega arith
missing-set_add (u ∷ us) s x = ground (arith, has-set_add x s u, missing-set_add us s x)

pub missing_less :
    (us s : List String) (x : String)
    → has us x ≡ true
    → has s x ≡ false
    → missing us (set_add x s) < missing us s
unfolding missing
missing_less [] s x m h = ground arith
missing_less (u ∷ us) s x m h =
    ground (
      arith,
      has-set_add x s u,
      eq_iff u x,
      eq_iff x u,
      missing-set_add us s x,
      missing_less us s x,
    )

pub missing-le-length : (us s : List String) → missing us s ≤ length us
unfolding missing
missing-le-length [] s = omega arith
missing-le-length (u ∷ us) s = ground (arith, missing-le-length us s)

pub missing_grows :
    (us s s' : List String)
    → ((k : String) → has s k ≡ true → has s' k ≡ true)
    → missing us s' ≤ missing us s
unfolding missing
missing_grows [] s s' g = omega arith
missing_grows (u ∷ us) s s' g = ground (arith, g u, missing_grows us s s' g)

-- The names of one list are in the other.
abbrev pub Within : List String → List String → Type 0
Within xs ys = (k : String) → has xs k ≡ true → has ys k ≡ true

without :
    (x : String) (xs ys : List String)
    → has xs x ≡ false
    → Within (x ∷ xs) ys
    → Within xs (set_delete x ys)
without x xs ys h sub k e =
    ground (arith, has-set_delete x ys k, sub k (ground (arith, e)), eq_iff x k, at_same)
  where
    at_same : x ≡ k → false ≡ true
    at_same i = sym h ∙ (ap (has xs) i ∙ e)

pub Within-length : (xs ys : List String) → NoRepeats xs → Within xs ys → length xs ≤ length ys
Within-length [] ys d sub = omega arith
Within-length (x ∷ xs) ys (h, d) sub = omega (
  arith,
  Within-length xs (set_delete x ys) d (without x xs ys h sub),
  delete_present x ys (sub x (ground (arith, eq_iff x x))),
)

-- A part of a list is as long as the list exactly if it has all of its names.
pub length_iff_Within :
    (xs ys : List String)
    → NoRepeats xs
    → NoRepeats ys
    → Within xs ys
    → (length xs ≡ length ys) ↔ Within ys xs
length_iff_Within xs ys d d' sub = (
  λ e k h. elim (Bool-cases (has xs k)) [
    | inl i ↦ i
    | inr n ↦ absurd (omega (arith, e, Within-length (k ∷ xs) ys (n, d) (added k h)))
  ],
  λ sub'. omega (arith, Within-length xs ys d sub, Within-length ys xs d' sub'),
)
  where
    added : (k : String) → has ys k ≡ true → Within (k ∷ xs) ys
    added k h j e = ground (arith, eq_iff k j, ap (has ys), sub j, e, h)

pub NoRepeats-set_add :
    (x : String) (s : List String) → has s x ≡ false → NoRepeats s → NoRepeats (set_add x s)
unfolding set_add
NoRepeats-set_add x s h d = rw h (h, d)

NoRepeats-set_delete : (x : String) (s : List String) → NoRepeats s → NoRepeats (set_delete x s)
unfolding set_delete
NoRepeats-set_delete x [] d = tt
NoRepeats-set_delete x (y ∷ s) (h, d) = elim (Bool-cases (y == x)) [
  | inl e ↦ rw e (NoRepeats-set_delete x s d)
  | inr e ↦ rw e (ground (arith, h, has-set_delete x s y), NoRepeats-set_delete x s d)
]

pub NoRepeats-set_of : (xs : List String) → NoRepeats (set_of xs)
unfolding set_of
NoRepeats-set_of [] = tt
NoRepeats-set_of (x ∷ xs) = (
  ground (arith, has-set_delete x (set_of xs) x, eq_iff x x),
  NoRepeats-set_delete x (set_of xs) (NoRepeats-set_of xs),
)

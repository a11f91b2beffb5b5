-- ===== src/Messages/Splicing.antt =====
-- Splicing out the duplicates by their indices, last first, leaves the messages that are none, and
-- reading them by their indices gives those that are.
use bighead.Common.{
  ℕ, suc, Bool, not, ◌≡◌, refl, ap, ◌∙◌, inl, inr, some, List, [], ◌∷◌, ◌++◌, arith, length,
  length-append, get_elem?, filter, Bool-cases,
}
use mathlib.Core.List.{append_assoc, reverse-cons, foldl, reverse}
use bighead.Messages.{
  RealtimeMessage, spread, is_duplicate, indices, splice, spread_found, spread_at, merge_at,
  reconcile_one,
}

get_elem?-middle {ℓ} :
    {A : Type ℓ} (before : List A) (x : A) (after : List A)
    → get_elem? (before ++ x ∷ after) (length before) ≡ some x
get_elem?-middle [] x after = refl
get_elem?-middle (y ∷ before) x after = get_elem?-middle before x after

splice-middle {ℓ} :
    {A : Type ℓ} (before : List A) (x : A) (after : List A)
    → splice (before ++ x ∷ after) (length before) ≡ before ++ after
unfolding splice
splice-middle [] x after = refl
splice-middle (y ∷ before) x after = rw (splice-middle before x after)

pub foldl-append {ℓ κ} :
    {A : Type ℓ} {B : Type κ} (f : B → A → B) (b : B) (xs ys : List A)
    → foldl f b (xs ++ ys) ≡ foldl f (foldl f b xs) ys
foldl-append f b [] ys = refl
foldl-append f b (x ∷ xs) ys = foldl-append f (f b x) xs ys

length-snoc {ℓ} : {A : Type ℓ} (xs : List A) (x : A) → length (xs ++ x ∷ []) ≡ suc (length xs)
length-snoc xs x = omega (arith, length-append xs (x ∷ []))

module _ {ℓ} {A : Type ℓ} (test : A → Bool) where
  splices :
      (before xs : List A)
      → foldl splice (before ++ xs) (reverse (indices test (length before) xs))
        ≡ before ++ filter (λ x. not (test x)) xs
  unfolding indices
  splices before [] = refl
  splices before (x ∷ xs) =
      let ih = splices (before ++ x ∷ []) xs in
      let ih' =
        rw
          (
            length-snoc before x,
            append_assoc before (x ∷ []) xs,
            append_assoc before (x ∷ []) (filter (λ y. not (test y)) xs),
          )
          at ih in
      elim (Bool-cases (test x)) [
        | inl yes_x ↦ rw (yes_x, reverse-cons, foldl-append) (rw ih' (splice-middle before x _))
        | inr no_x ↦ rw no_x ih'
      ]

  no_indices :
      (i : ℕ) (xs : List A)
      → indices test i xs ≡ []
      → (filter test xs ≡ []) × (filter (λ x. not (test x)) xs ≡ xs)
  unfolding indices
  no_indices i [] h = (refl, refl)
  no_indices i (x ∷ xs) h = ground (arith, no_indices (suc i) xs)

spread_at-middle :
    (before : List RealtimeMessage) (x : RealtimeMessage) (xs : List RealtimeMessage)
    (result : RealtimeMessage)
    → spread_at (before ++ x ∷ xs) result (length before) ≡ spread result x
spread_at-middle before x xs result = ap (spread_found result) (get_elem?-middle before x xs)

-- The fold over the indices reads the duplicates in order.
spreads :
    (test : RealtimeMessage → Bool) (result : RealtimeMessage) (before xs : List RealtimeMessage)
    → foldl (spread_at (before ++ xs)) result (indices test (length before) xs)
      ≡ foldl spread result (filter test xs)
unfolding indices
spreads test result before [] = refl
spreads test result before (x ∷ xs) =
    let ih = λ (r : RealtimeMessage).
      rw (length-snoc before x, append_assoc before (x ∷ []) xs) at
        (spreads test r (before ++ x ∷ []) xs) in
    elim (Bool-cases (test x)) [
      | inl yes_x ↦ rw yes_x (
          ap (λ r. foldl (spread_at (before ++ x ∷ xs)) r (indices test (suc (length before)) xs))
            (spread_at-middle before x xs result)
          ∙ ih (spread result x))
      | inr no_x ↦ rw no_x (ih result)
    ]

spread_self : (m : RealtimeMessage) → spread m m ≡ m
unfolding spread
spread_self m = ground arith

-- The body of the loop in one equation: the messages that are no duplicates stay in their order,
-- and one message follows, which takes each field from the new message, or else from the last
-- duplicate that has it.
pub reconcile_one_lem :
    (reconciled : List RealtimeMessage) (message : RealtimeMessage)
    → reconcile_one reconciled message
      ≡ filter (λ x. not (is_duplicate message x)) reconciled
        ++ spread (foldl spread message (filter (is_duplicate message) reconciled)) message ∷ []
unfolding reconcile_one
reconcile_one_lem reconciled message = go (indices (is_duplicate message) 0 reconciled) refl
  where
    go :
        (ds : List ℕ)
        → indices (is_duplicate message) 0 reconciled ≡ ds
        → merge_at reconciled message ds
          ≡ filter (λ x. not (is_duplicate message x)) reconciled
            ++ spread (foldl spread message (filter (is_duplicate message) reconciled)) message ∷ []
    go [] e =
        let (none_in, all_out) = no_indices (is_duplicate message) 0 reconciled e in
        rw (none_in, all_out, spread_self message)
    go (d ∷ ds) e =
        let cut = splices (is_duplicate message) [] reconciled in
        let read = spreads (is_duplicate message) message [] reconciled in
        rw (rw e at cut, rw e at read)

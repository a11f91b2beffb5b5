-- ===== src/Messages/Ordering.antt =====
-- The sort of the timeline: it keeps the messages, and orders them.
use bighead.Common.{
  String, Bool, true, false, ◌≡◌, ◌≢◌, ◌⊎◌, refl, inl, inr, List, [], ◌∷◌, arith, All, Bool-cases,
}
use mathlib.Core.List.{Memᴰ}
use bighead.Messages.{
  RealtimeMessage, insert, sort, Sign, below, level, above, not_positive, before_eq, sign_or,
  reconcile_realtime_messages,
}

module _ {ℓ} {A : Type ℓ} (le : A → A → Bool) where
  pub All-insert {κ} :
      (P : A → Type κ) (x : A) (ys : List A) → P x → All P ys → All P (insert le x ys)
  unfolding insert
  All-insert P x [] p h = (p, tt)
  All-insert P x (y ∷ ys) p (q, h) = elim (Bool-cases (le x y)) [
    | inl e ↦ rw e (p, (q, h))
    | inr e ↦ rw e (q, All-insert P x ys p h)
  ]

  pub All-sort {κ} : (P : A → Type κ) (xs : List A) → All P xs → All P (sort le xs)
  unfolding sort
  All-sort P [] h = tt
  All-sort P (x ∷ xs) (p, h) = All-insert P x (sort le xs) p (All-sort P xs h)

  mem-insert_self : (x : A) (ys : List A) → Memᴰ x (insert le x ys)
  unfolding insert
  mem-insert_self x [] = Memᴰ.head refl
  mem-insert_self x (y ∷ ys) = elim (Bool-cases (le x y)) [
    | inl e ↦ rw e (Memᴰ.head refl)
    | inr e ↦ rw e (Memᴰ.tail (mem-insert_self x ys))
  ]

  mem-insert_old : (x z : A) (ys : List A) → Memᴰ z ys → Memᴰ z (insert le x ys)
  unfolding insert
  mem-insert_old x z (y ∷ ys) h = elim (Bool-cases (le x y)) [
    | inl e ↦ rw e (Memᴰ.tail h)
    | inr e ↦ rw e (keep (mem-insert_old x z ys) h)
  ]
    where
      keep : (Memᴰ z ys → Memᴰ z (insert le x ys)) → Memᴰ z (y ∷ ys) → Memᴰ z (y ∷ insert le x ys)
      keep f (Memᴰ.head e) = Memᴰ.head e
      keep f (Memᴰ.tail k) = Memᴰ.tail (f k)
  mem-insert_old x z [] h = elim h [ ]

  pub mem-sort : (z : A) (xs : List A) → Memᴰ z xs → Memᴰ z (sort le xs)
  unfolding sort
  mem-sort z [] h = elim h [ ]
  mem-sort z (x ∷ xs) (Memᴰ.head e) = rw e (mem-insert_self x (sort le xs))
  mem-sort z (x ∷ xs) (Memᴰ.tail h) = mem-insert_old x z (sort le xs) (mem-sort z xs h)

  -- Each element comes before all that follow it.
  abbrev pub IsSorted : List A → Type 0
  IsSorted [] = Unit
  IsSorted (x ∷ xs) = All (λ y. le x y ≡ true) xs × IsSorted xs

  module _ (total : (x y : A) → le x y ≡ false → le y x ≡ true)
      (trans : (x y z : A) → le x y ≡ true → le y z ≡ true → le x z ≡ true) where
    raise-All :
        (x y : A) (zs : List A)
        → le x y ≡ true
        → All (λ z. le y z ≡ true) zs
        → All (λ z. le x z ≡ true) zs
    raise-All x y [] h k = tt
    raise-All x y (z ∷ zs) h (k, ks) = (trans x y z h k, raise-All x y zs h ks)

    insert-IsSorted : (x : A) (ys : List A) → IsSorted ys → IsSorted (insert le x ys)
    unfolding insert
    insert-IsSorted x [] h = (tt, tt)
    insert-IsSorted x (y ∷ ys) (h, hs) = elim (Bool-cases (le x y)) [
      | inl e ↦ rw e ((e, raise-All x y ys e h), (h, hs))
      | inr e ↦ rw e (All-insert (λ z. le y z ≡ true) x ys (total x y e) h, insert-IsSorted x ys hs)
    ]

    pub sort-IsSorted : (xs : List A) → IsSorted (sort le xs)
    unfolding sort
    sort-IsSorted [] = tt
    sort-IsSorted (x ∷ xs) = insert-IsSorted x (sort le xs) (sort-IsSorted xs)

abbrev pub opposite : Sign → Sign
opposite below = above
opposite level = level
opposite above = below

-- What `localeCompare` promises: the two orders of its arguments give opposite signs, and it is
-- transitive.
pub record IsOrder (locale_compare : String → String → Sign) : Type 0 where
  pub flips : (a b : String) → locale_compare b a ≡ opposite (locale_compare a b)
  pub joins :
      (a b c : String)
      → not_positive (locale_compare a b) ≡ true
      → not_positive (locale_compare b c) ≡ true
      → not_positive (locale_compare a c) ≡ true

module _ (locale_compare : String → String → Sign) where
  -- The first message is newer, or of the same moment with an id that does not come later.
  abbrev pub IsBefore : RealtimeMessage → RealtimeMessage → Type 0
  IsBefore m n =
      (locale_compare m.created_at n.created_at ≡ above)
      ⊎ ((locale_compare m.created_at n.created_at ≡ level) × (locale_compare m.id n.id ≢ above))

  -- Each message is before all that follow it.
  abbrev pub IsNewestFirst : List RealtimeMessage → Type 0
  IsNewestFirst [] = Unit
  IsNewestFirst (m ∷ ms) = All (IsBefore m) ms × IsNewestFirst ms

module _ (locale_compare : String → String → Sign) (order : IsOrder locale_compare) where
  abbrev le : RealtimeMessage → RealtimeMessage → Bool
  le = before_eq locale_compare

  total : (m n : RealtimeMessage) → le m n ≡ false → le n m ≡ true
  total m n h = ground (
    arith,
    order.flips m.created_at n.created_at,
    order.flips n.id m.id,
    order.flips m.id n.id,
    order.flips n.created_at m.created_at,
  )

  trans : (m n k : RealtimeMessage) → le m n ≡ true → le n k ≡ true → le m k ≡ true
  trans m n k h h' = ground (
    arith,
    order.joins k.created_at n.created_at m.created_at,
    order.joins m.created_at n.created_at k.created_at,
    order.joins n.created_at m.created_at k.created_at,
    order.joins m.created_at k.created_at n.created_at,
    order.joins n.created_at k.created_at m.created_at,
    order.flips m.created_at n.created_at,
    order.flips n.created_at k.created_at,
    order.flips m.created_at k.created_at,
    order.joins m.id n.id k.id,
  )

  signs :
      (created created_back id : Sign)
      → created_back ≡ opposite created
      → not_positive (sign_or created_back id) ≡ true
      → (created ≡ above) ⊎ ((created ≡ level) × (id ≢ above))
  signs above r id e h = inl refl
  signs level r id e h = inr (refl, λ k. absurd (ground (arith, e, h, k)))
  signs below r id e h = absurd (ground (arith, e, h))

  le-IsBefore : (m n : RealtimeMessage) → le m n ≡ true → IsBefore locale_compare m n
  le-IsBefore m n h =
      signs (locale_compare m.created_at n.created_at) (locale_compare n.created_at m.created_at)
        (locale_compare m.id n.id) (order.flips m.created_at n.created_at) h

  All-IsBefore :
      (m : RealtimeMessage) (ms : List RealtimeMessage)
      → All (λ n. le m n ≡ true) ms
      → All (IsBefore locale_compare m) ms
  All-IsBefore m [] h = tt
  All-IsBefore m (n ∷ ms) (h, hs) = (le-IsBefore m n h, All-IsBefore m ms hs)

  IsSorted-IsNewestFirst :
      (ms : List RealtimeMessage) → IsSorted le ms → IsNewestFirst locale_compare ms
  IsSorted-IsNewestFirst [] h = tt
  IsSorted-IsNewestFirst (m ∷ ms) (h, hs) = (All-IsBefore m ms h, IsSorted-IsNewestFirst ms hs)

  -- Each message of the result is newer than all that follow it, or of the same moment and not later
  -- by its id, as the platform compares texts.
  pub reconcile-IsSorted :
      (current incoming : List RealtimeMessage)
      → IsNewestFirst locale_compare (reconcile_realtime_messages locale_compare current incoming)
  unfolding reconcile_realtime_messages
  reconcile-IsSorted current incoming = IsSorted-IsNewestFirst _ (sort-IsSorted le total trans _)

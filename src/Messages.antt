-- ===== src/Messages.antt =====
-- apps/web/src/lib/message-reconciliation.ts: the timeline of a room, put together from what is
-- shown and what the server answers. Fields that may be absent are options, and an absent field
-- does not override one that is there, as in an object spread.
pub mod Splicing
pub mod Identity
pub mod Ordering
pub mod Latest
mod Tests
use bighead.Common.{
  ℕ, zero, suc, String, Bool, true, false, ◌&&◌, ◌||◌, Option, none, some, List, [], ◌∷◌, ◌++◌,
  foldl, reverse, get_elem?, ◌==◌, truthy, if◌then◌else◌,
}
use bighead.Json.{Json}

pub record RealtimeMessage : Type 0 where
  pub id : String
  pub room_id : String
  pub client_id : Option String
  pub author_user_id : Option String
  pub body : String
  pub metadata : Option Json
  pub edited_at : Option String
  pub deleted_at : Option String
  pub pending : Option Bool
  pub created_at : String

-- `{ ...a, ...b }`, for one field
abbrev pub override {ℓ} : {A : Type ℓ} → Option A → Option A → Option A
override a none = a
override a (some b) = some b

-- `{ ...a, ...b }`
unfoldable pub spread : RealtimeMessage → RealtimeMessage → RealtimeMessage
spread a b = record {
  id = b.id;
  room_id = b.room_id;
  client_id = override a.client_id b.client_id;
  author_user_id = override a.author_user_id b.author_user_id;
  body = b.body;
  metadata = override a.metadata b.metadata;
  edited_at = override a.edited_at b.edited_at;
  deleted_at = override a.deleted_at b.deleted_at;
  pending = override a.pending b.pending;
  created_at = b.created_at;
}

abbrev pub same_client : Option String → Option String → Bool
same_client (some a) (some b) = truthy a && (truthy b && a == b)
same_client _ _ = false

-- The test of `flatMap`.
unfoldable pub is_duplicate : RealtimeMessage → RealtimeMessage → Bool
is_duplicate message candidate =
    candidate.id == message.id || same_client candidate.client_id message.client_id

-- `reconciled.flatMap((candidate, index) => test(candidate) ? [index] : [])`, from an index on.
unfoldable pub indices {ℓ} : {A : Type ℓ} → (A → Bool) → ℕ → List A → List ℕ
indices test i [] = []
indices test i (x ∷ xs) = let rest = indices test (suc i) xs in if test x then i ∷ rest else rest

-- `list.splice(index, 1)`
unfoldable pub splice {ℓ} : {A : Type ℓ} → List A → ℕ → List A
splice [] i = []
splice (x ∷ xs) zero = xs
splice (x ∷ xs) (suc i) = x ∷ splice xs i

abbrev pub spread_found : RealtimeMessage → Option RealtimeMessage → RealtimeMessage
spread_found result none = result
spread_found result (some m) = spread result m

-- `{ ...result, ...reconciled[index] }`; the indices are in range.
abbrev pub spread_at : List RealtimeMessage → RealtimeMessage → ℕ → RealtimeMessage
spread_at reconciled result index = spread_found result (get_elem? reconciled index)

-- The body of the loop behind `duplicates`.
merge_at : List RealtimeMessage → RealtimeMessage → List ℕ → List RealtimeMessage
merge_at reconciled message [] = reconciled ++ message ∷ []
merge_at reconciled message (first ∷ more) =
    let duplicates = first ∷ more in
    let merged = foldl (spread_at reconciled) message duplicates in
    foldl splice reconciled (reverse duplicates) ++ spread merged message ∷ []

-- The body of the loop.
unfoldable pub reconcile_one : List RealtimeMessage → RealtimeMessage → List RealtimeMessage
unfolding indices splice merge_at
reconcile_one reconciled message =
    merge_at reconciled message (indices (is_duplicate message) 0 reconciled)

-- `Array.prototype.sort`, which is stable: `before_eq a b` says that the comparison of `a` with `b`
-- is not positive.
pub insert {ℓ} : {A : Type ℓ} → (A → A → Bool) → A → List A → List A
insert before_eq x [] = x ∷ []
insert before_eq x (y ∷ ys) =
    let rest = insert before_eq x ys in if before_eq x y then x ∷ y ∷ ys else y ∷ rest

unfoldable pub sort {ℓ} : {A : Type ℓ} → (A → A → Bool) → List A → List A
unfolding insert
sort before_eq [] = []
sort before_eq (x ∷ xs) = insert before_eq x (sort before_eq xs)

-- `left.localeCompare(right)`: negative, zero or positive.
pub data Sign : Type 0 where
  below level above : Sign

abbrev pub sign_or : Sign → Sign → Sign
sign_or level s = s
sign_or r s = r

abbrev not_positive : Sign → Bool
not_positive above = false
not_positive _ = true

module _ (locale_compare : String → String → Sign) where
  abbrev pub compare_messages : RealtimeMessage → RealtimeMessage → Sign
  compare_messages left right =
      sign_or (locale_compare right.created_at left.created_at) (locale_compare left.id right.id)

  abbrev pub before_eq : RealtimeMessage → RealtimeMessage → Bool
  before_eq left right = not_positive (compare_messages left right)

  -- The loop over `[...current, ...incoming]`, before it is sorted.
  unfoldable pub reconcile_realtime_messages :
      List RealtimeMessage → List RealtimeMessage → List RealtimeMessage
  reconcile_realtime_messages current incoming =
      sort before_eq (foldl reconcile_one [] (current ++ incoming))

-- ===== src/Messages/Latest.antt =====
-- The message that arrives last is shown as it arrived.
use bighead.Common.{String, ◌≡◌, refl, Option, none, some, List, [], ◌∷◌, ◌++◌, filter}
use mathlib.Core.List.{Memᴰ, append_assoc, foldl}
use mathlib.Core.List.Memᴰ
use bighead.Messages.{
  RealtimeMessage, override, spread, is_duplicate, Sign, before_eq, reconcile_one,
  reconcile_realtime_messages,
}
use bighead.Messages.Splicing.{reconcile_one_lem, foldl-append}
use bighead.Messages.Ordering.{mem-sort}

-- The message has every field that the other has, with the same value.
abbrev pub Shows : RealtimeMessage → RealtimeMessage → Type 0
Shows r m = spread r m ≡ r

override_twice {ℓ} : {A : Type ℓ} (a b : Option A) → override (override a b) b ≡ override a b
override_twice a none = refl
override_twice a (some b) = refl

spread-Shows : (a m : RealtimeMessage) → Shows (spread a m) m
unfolding spread
spread-Shows a m = cc (
  override_twice a.client_id m.client_id,
  override_twice a.author_user_id m.author_user_id,
  override_twice a.metadata m.metadata,
  override_twice a.edited_at m.edited_at,
  override_twice a.deleted_at m.deleted_at,
  override_twice a.pending m.pending,
)

-- The last message of those that arrive is in the result, with every field that it has.
pub reconcile-Shows :
    (locale_compare : String → String → Sign) (current incoming : List RealtimeMessage)
    (last : RealtimeMessage)
    → (r : RealtimeMessage) × Memᴰ r
        (reconcile_realtime_messages locale_compare current (incoming ++ last ∷ []))
      × Shows r last
unfolding reconcile_realtime_messages
reconcile-Shows locale_compare current incoming last =
    let before = foldl reconcile_one [] (current ++ incoming) in
    let duplicates = filter (is_duplicate last) before in
    let merged = spread (foldl spread last duplicates) last in
    (
      merged,
      mem-sort (before_eq locale_compare) merged _ (
          rw
            (
              ← append_assoc current incoming (last ∷ []),
              foldl-append reconcile_one [] (current ++ incoming) (last ∷ []),
              reconcile_one_lem before last,
            )
            (Memᴰ.append_right _ (Memᴰ.head refl))),
      spread-Shows (foldl spread last duplicates) last,
    )

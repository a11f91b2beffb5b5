-- ===== src/Messages/Tests.antt =====
-- A small timeline, and the theorems of the reconciliation at it.
use mathlib.Core.List.{Memᴰ, map}
use Prim.Native.String as Text
use bighead.Common.{
  ltb, if◌then◌else◌, ℕ, arith, String, ◌≡◌, refl, Option, none, some, List, [], ◌∷◌, ◌++◌, filter,
  not, foldl,
}
use bighead.Messages.{
  RealtimeMessage, Sign, below, level, above, is_duplicate, spread, reconcile_one,
  reconcile_realtime_messages, sort,
}
use bighead.Messages.Splicing.{reconcile_one_lem}
use bighead.Messages.Ordering.{IsNewestFirst, IsOrder, reconcile-IsSorted}
use bighead.Messages.Latest.{Shows, reconcile-Shows}

abbrev message : String → Option String → String → RealtimeMessage
message id client body = record {
  id = id;
  room_id = "r";
  client_id = client;
  author_user_id = none;
  body = body;
  metadata = none;
  edited_at = none;
  deleted_at = none;
  pending = none;
  created_at = "t";
}

-- An order by which all texts are level.
abbrev flat : String → String → Sign
flat a b = level

abbrev current : List RealtimeMessage
current = message "1" none "a" ∷ message "local" (some "c") "b" ∷ []

abbrev incoming : List RealtimeMessage
incoming = message "1" none "a2" ∷ []

abbrev last : RealtimeMessage
last = message "2" (some "c") "b2"

reconcile_runs :
    map (λ m. m.body) (reconcile_realtime_messages flat current (incoming ++ last ∷ []))
    ≡ "a2" ∷ "b2" ∷ []
unfolding reconcile_realtime_messages reconcile_one is_duplicate spread sort
reconcile_runs = refl

abbrev sign_of : ℕ → ℕ → Sign
sign_of m n = if ltb m n then below else if ltb n m then above else level

-- An order of texts by their sizes.
abbrev by_size : String → String → Sign
by_size a b = sign_of (Text.count a) (Text.count b)

by_size-IsOrder : IsOrder by_size
by_size-IsOrder = record { flips = λ a b. ground arith; joins = λ a b c h k. ground arith }

-- Messages of three moments, the oldest first.
abbrev dated : List RealtimeMessage
dated =
    record (message "1" none "a") { created_at = "t" }
    ∷ record (message "22" none "b") { created_at = "ttt" }
    ∷ record (message "3" none "c") { created_at = "tt" }
    ∷ record (message "4" none "d") { created_at = "ttt" }
    ∷ []

newest_first :
    map (λ m. m.body) (reconcile_realtime_messages by_size [] dated) ≡ "d" ∷ "b" ∷ "c" ∷ "a" ∷ []
unfolding reconcile_realtime_messages reconcile_one is_duplicate spread sort
newest_first = refl

reconcile-IsSorted_example : IsNewestFirst by_size (reconcile_realtime_messages by_size [] dated)
reconcile-IsSorted_example = reconcile-IsSorted by_size by_size-IsOrder [] dated

reconcile-Shows_example :
    (r : RealtimeMessage) × Memᴰ r
      (reconcile_realtime_messages flat current (incoming ++ last ∷ []))
    × Shows r last
reconcile-Shows_example = reconcile-Shows flat current incoming last

reconcile_one_lem_example :
    reconcile_one current last
    ≡ filter (λ x. not (is_duplicate last x)) current
      ++ spread (foldl spread last (filter (is_duplicate last) current)) last ∷ []
reconcile_one_lem_example = reconcile_one_lem current last

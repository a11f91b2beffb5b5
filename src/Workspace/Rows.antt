-- ===== src/Workspace/Rows.antt =====
-- apps/web/src/lib/workspace-service.ts: how the rows that the API answers become the entries and the
-- options of a workspace. The text of a number, the text of an array or an object, and `Number(…)`
-- are arguments.
use Prim.Native.String as Text
use bighead.Common.{
  ℕ, suc, String, Bool, true, false, ◌&&◌, Option, none, some, List, [], ◌∷◌, map, if◌then◌else◌,
  filter, take, truthy,
}
use bighead.Json.{Json, null, bool, num, str, arr, obj, end, get, items, of_list, or_else, as_text}
use bighead.Json.Numbers.{Number, of_ℕ}
use bighead.Gateway.{object}

-- The platform's conversions: `String(…)` of a number, and of an array or an object, `Number(…)`,
-- and `encodeURIComponent`.
pub record Conversions : Type 0 where
  pub digits : Number → String
  pub text_of : Json → String
  pub to_number : Json → Number
  pub encode : String → String

-- The word that stands for the rows of a list, as it is and in lower case.
pub record Label : Type 0 where
  pub name : String
  pub key : String

abbrev pub is_row : Json → Bool
is_row (arr vs) = true
is_row (obj fs) = true
is_row _ = false

-- `array(value)`
unfoldable pub rows_of : Option Json → List Json
rows_of (some (arr vs)) = filter is_row (items vs)
rows_of _ = []

abbrev either : Json → String → String → Option Json
either row a b = or_else (get row a) (get row b)

abbrev map_index : (ℕ → Json → Json) → ℕ → List Json → List Json
map_index view i [] = []
map_index view i (row ∷ rows) = view i row ∷ map_index view (suc i) rows

-- The fields of an object in an answer; `{}` for anything else.
abbrev metadata_of : Option Json → Json
metadata_of (some (obj fs)) = obj fs
metadata_of _ = obj end

abbrev number_field : Option Json → Option Json
number_field (some (num n)) = some (num n)
number_field _ = none

abbrev flag_field : Option Json → Option Json
flag_field (some (bool b)) = some (bool b)
flag_field _ = none

abbrev text_field : Option Json → Option Json
text_field (some (str s)) = some (str s)
text_field _ = none

-- A text that is not empty.
abbrev filled_field : Option Json → Option Json
filled_field (some (str s)) = if truthy s then some (str s) else none
filled_field _ = none

module _ (c : Conversions) where
  -- `scalar(value, fallback)`
  unfoldable pub scalar : Option Json → String → String
  scalar (some (str s)) fallback = s
  scalar (some (num n)) fallback = c.digits n
  scalar (some (bool true)) fallback = "true"
  scalar (some (bool false)) fallback = "false"
  scalar _ fallback = fallback

  -- `String(value)`
  unfoldable pub show : Option Json → String
  show none = "undefined"
  show (some (str s)) = s
  show (some (num n)) = c.digits n
  show (some (bool true)) = "true"
  show (some (bool false)) = "false"
  show (some null) = "null"
  show (some v) = c.text_of v

  abbrev numbered : Label → ℕ → String
  numbered label i = Text.◌++◌ label.name (Text.◌++◌ " " (c.digits (of_ℕ (suc i))))

  abbrev feed_view : Label → ℕ → Json → Json
  feed_view label i row = object (
      (
        "id",
        some (
            str (
              scalar (or_else (get row "id") (either row "recordId" "record_id"))
                (Text.◌++◌ label.key (Text.◌++◌ "-" (c.digits (of_ℕ (suc i))))))),
      )
      ∷ (
        "title",
        some (
            str (scalar (or_else (get row "title") (either row "name" "code")) (numbered label i))),
      )
      ∷ (
        "description",
        some (
            str (
              scalar (or_else (get row "description") (either row "objective" "status"))
                "Registro carregado do backend real")),
      )
      ∷ (
        "meta",
        some (str (scalar (or_else (get row "status") (either row "role" "riskLevel")) "API real")),
      )
      ∷ [])

  -- `feed(items, fallback)`
  unfoldable pub feed : List Json → Label → List Json
  unfolding scalar
  feed rows label = map_index (feed_view label) 0 (take 6 rows)

  abbrev option_view : Label → ℕ → Json → Json
  option_view label i row =
      let metadata = metadata_of (get row "metadata") in
      object (
        ("id", some (str (scalar (get row "id") "")))
        ∷ (
          "name",
          some (
              str (
                scalar (or_else (get row "title") (either row "name" "objective"))
                  (numbered label i))),
        )
        ∷ ("status", some (str (scalar (get row "status") "")))
        ∷ ("version", number_field (get row "version"))
        ∷ ("round", number_field (get row "round"))
        ∷ ("isPrivate", flag_field (get row "isPrivate"))
        ∷ ("unreadCount", number_field (get row "unreadCount"))
        ∷ ("updatedAt", text_field (either row "updatedAt" "updated_at"))
        ∷ ("riskLevel", filled_field (either row "riskLevel" "risk_level"))
        ∷ ("dueAt", filled_field (either row "dueAt" "due_at"))
        ∷ ("slaAt", filled_field (either row "slaAt" "sla_at"))
        ∷ (
          "assigneeId",
          filled_field (
              or_else (either row "assigneeId" "assignee_id")
                (either row "assignedTo" "assigned_to")),
        )
        ∷ (
          "nextAction",
          filled_field (
              or_else (either row "nextAction" "next_action")
                (either metadata "nextAction" "next_action")),
        )
        ∷ [])

  -- `toOptions(items, fallback)`
  unfoldable pub to_options : List Json → Label → List Json
  unfolding scalar
  to_options rows label =
      filter (λ o. truthy (as_text (get o "id"))) (map_index (option_view label) 0 rows)

  abbrev message_view : String → Json → Json
  message_view first_room_id row =
      let metadata = metadata_of (get row "metadata") in
      object (
        ("id", some (str (scalar (get row "id") "")))
        ∷ ("roomId", some (str (scalar (either row "roomId" "room_id") first_room_id)))
        ∷ ("clientId", text_field (either metadata "client_id" "clientId"))
        ∷ ("body", some (str (scalar (get row "body") "")))
        ∷ ("createdAt", some (str (scalar (either row "createdAt" "created_at") "")))
        ∷ [])

  -- `messageOptions`
  unfoldable pub message_options : List Json → String → List Json
  unfolding scalar
  message_options rows first_room_id =
      filter (λ m. truthy (as_text (get m "id")) && truthy (as_text (get m "createdAt")))
        (map (message_view first_room_id) rows)

  -- `typeof value === "number" ? value : Number(value ?? 0)`
  abbrev as_number : Option Json → Json
  as_number none = num (of_ℕ 0)
  as_number (some null) = num (of_ℕ 0)
  as_number (some (num n)) = num n
  as_number (some v) = num (c.to_number v)

  abbrev is_text : Json → Bool
  is_text (str s) = true
  is_text _ = false

  abbrev texts_of : Option Json → List Json
  texts_of (some (arr vs)) = filter is_text (items vs)
  texts_of _ = []

  abbrev is_true : Option Json → Bool
  is_true (some (bool b)) = b
  is_true _ = false

  abbrev drilldown_view : Json → Json → Json
  drilldown_view period row = object (
      ("card", some (str "total"))
      ∷ ("dimension", some (str (scalar (get row "dimension") "unknown")))
      ∷ ("value", some (as_number (get row "value")))
      ∷ ("recordIds", some (arr (of_list (texts_of (get row "recordIds")))))
      ∷ ("recordCount", some (as_number (get row "recordCount")))
      ∷ ("recordsTruncated", some (bool (is_true (get row "recordsTruncated"))))
      ∷ ("recordsEndpoint", some (str "/v1/analytics/summary/records"))
      ∷ ("periodFrom", some (str (scalar (get period "from") "")))
      ∷ ("periodTo", some (str (scalar (get period "to") "")))
      ∷ [])

  -- `analyticsDrilldowns`; an array has no `from` and no `to`.
  unfoldable pub analytics_drilldowns : Json → List Json
  unfolding rows_of scalar
  analytics_drilldowns analytics =
      map (drilldown_view (metadata_of (get analytics "period")))
        (rows_of (get analytics "drilldowns"))

-- ===== src/Realtime/Protocol.antt =====
-- apps/web/src/lib/realtime-protocol.ts: the events of the realtime stream, the check of what
-- arrives, the frame that is sent, and the two guards of the route.
pub mod Fields
pub mod Parsing
pub mod Frames
pub mod Uuids
use Prim.Native.Char.{code}
use Prim.Native.String as Text
use bighead.Common.{
  has, ◌>>=◌, ◌>>◌, ℕ, zero, suc, String, Bool, true, false, ◌&&◌, ◌||◌, not, Option, none, some,
  List, [], ◌∷◌, leb, eqb, ◌==◌, truthy?, or_empty, if◌then◌else◌, guard,
}
use bighead.Json.{Json, Items, null, bool, num, str, arr, obj, nil, cons, get, as_string}
use bighead.Json.Numbers.{Number, is_integer, below, natural}

-- `table` and `operation` hold the text that the source compares and joins. A version is an
-- integer that is not negative.
pub record RealtimeEvent : Type 0 where
  pub id : String
  pub table : String
  pub operation : String
  pub entity_id : String
  pub occurred_at : String
  pub version : Option ℕ

unfoldable pub is_hex : ℕ → Bool
is_hex c = (leb b'0' c && leb c b'9') || ((leb b'a' c && leb c b'f') || (leb b'A' c && leb c b'F'))

abbrev pub is_dash : ℕ → Bool
is_dash c = eqb c b'-'

-- A text that matches one class of characters after the other, from end to end.
unfoldable pub matches : List (ℕ → Bool) → String → Bool
matches [] String.[] = true
matches (p ∷ ps) (String.◌∷◌ c s) = p (code c) && matches ps s
matches _ _ = false

abbrev pub times : ℕ → (ℕ → Bool) → List (ℕ → Bool) → List (ℕ → Bool)
times zero p rest = rest
times (suc n) p rest = p ∷ times n p rest

-- `UUID`
abbrev pub uuid_pattern : List (ℕ → Bool)
uuid_pattern = times 8 is_hex (
    is_dash
    ∷ times 4 is_hex
        (is_dash ∷ times 4 is_hex (is_dash ∷ times 4 is_hex (is_dash ∷ times 12 is_hex []))))

unfoldable pub is_uuid : Option String → Bool
unfolding matches is_hex
is_uuid none = false
is_uuid (some value) = matches uuid_pattern value

abbrev pub tables : List String
tables = "messages" ∷ "tasks" ∷ "notifications" ∷ []

abbrev pub operations : List String
operations = "INSERT" ∷ "UPDATE" ∷ []

abbrev element : Json → String → String
element null text = ""
element v text = text

abbrev is_cross_site : Option String → Bool
is_cross_site none = false
is_cross_site (some s) = s == "cross-site"

-- `number_text` prints a number as `String` does: it is the run-time system's.
module _ (number_text : Number → String) where
  mutual
    -- `String(value)`
    pub string_of : Json → String
    string_of null = "null"
    string_of (bool true) = "true"
    string_of (bool false) = "false"
    string_of (num n) = number_text n
    string_of (str s) = s
    string_of (arr vs) = join vs
    string_of (obj fs) = "[object Object]"

    -- `Array.prototype.join`, which leaves `null` out
    pub join : Items → String
    join nil = ""
    join (cons v nil) = element v (string_of v)
    join (cons v vs) = Text.◌++◌ (element v (string_of v)) (Text.◌++◌ "," (join vs))

  unfoldable pub string_of? : Option Json → String
  unfolding string_of
  string_of? none = "undefined"
  string_of? (some v) = string_of v

-- The checks of the optional version; the outer `none` is a refusal.
pub version_of : Option Json → Option (Option ℕ)
version_of none = some none
version_of (some (num n)) =
    if is_integer n && not (below n 0) then some (some (natural n)) else none
version_of (some _) = none

-- `value && typeof value === "object"`
abbrev pub is_reference : Json → Bool
is_reference (arr vs) = true
is_reference (obj fs) = true
is_reference _ = false

-- `date_parses` says whether `Date.parse` understands a text.
module _ (number_text : Number → String) (date_parses : String → Bool) where
  unfoldable pub parse_workspace_realtime_event : Json → Option RealtimeEvent
  unfolding version_of
  parse_workspace_realtime_event item = do
    guard (is_reference item)
    id ← as_string (get item "id")
    let table = string_of? number_text (get item "table")
    let operation = string_of? number_text (get item "operation")
    guard (has tables table && has operations operation)
    entity_id ← as_string (get item "entityId")
    occurred_at ← as_string (get item "occurredAt")
    guard (date_parses occurred_at)
    version ← version_of (get item "version")
    some (record {
      id = id;
      table = table;
      operation = operation;
      entity_id = entity_id;
      occurred_at = occurred_at;
      version = version;
    })

-- `encodeSse`, given the text of `JSON.stringify(data)`
unfoldable pub encode_sse : String → String → Option String → String
encode_sse event body id =
    Text.◌++◌ (if truthy? id then Text.◌++◌ "id: " (Text.◌++◌ (or_empty id) "\n") else "")
      (Text.◌++◌ "event: " (Text.◌++◌ event (Text.◌++◌ "\ndata: " (Text.◌++◌ body "\n\n"))))

-- `origin_of` reads a URL and gives its origin, or `none` where `new URL` throws; a `none` of the
-- result is that error.
unfoldable pub is_same_site_event_source :
    (origin_of : String → Option String) → String → Option String → Option String → Option Bool
is_same_site_event_source origin_of request_url sec_fetch_site origin =
    if is_cross_site sec_fetch_site
    then some false
    else if not (truthy? origin)
    then some true
    else do
      theirs ← origin_of (or_empty origin)
      ours ← origin_of request_url
      some (theirs == ours)

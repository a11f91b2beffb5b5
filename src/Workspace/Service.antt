-- ===== src/Workspace/Service.antt =====
-- apps/web/src/lib/workspace-service.ts: the test of a workspace and the service over a transport.
pub mod Accepts
pub mod Delivered
pub mod Scope
pub mod Roles
use Prim.Native.String as Text
use bighead.Common.{
  ◌+◌, String, Bool, true, false, not, ◌&&◌, Option, none, some, List, [], ◌∷◌, ◌++◌, has,
}
use bighead.Json.{Json, null, num, str, arr, obj, get, items}
use bighead.Json.Numbers.{is_safe_integer, below}
use bighead.Workspace.Answers.{Result, ◌>>=◌, ◌>>◌, require, type_error, done, fails}

-- `object(value, label)`, `string(value, field)` and `strings(value, field)`
abbrev pub string : Option Json → String → Result String
string (some (str s)) field = done s
string _ field = fails (type_error (Text.◌++◌ "Invalid " field))

abbrev pub all_texts : List Json → Option (List String)
all_texts [] = some []
all_texts (v ∷ vs) = let rest = all_texts vs in one_more v rest
  where
    one_more : Json → Option (List String) → Option (List String)
    one_more (str s) (some ss) = some (s ∷ ss)
    one_more _ _ = none

abbrev pub given_texts : String → Option (List String) → Result (List String)
given_texts field (some ss) = done ss
given_texts field none = fails (type_error (Text.◌++◌ "Invalid " field))

abbrev pub strings : Option Json → String → Result (List String)
strings (some (arr vs)) field = given_texts field (all_texts (items vs))
strings _ field = fails (type_error (Text.◌++◌ "Invalid " field))

abbrev pub is_count : Option Json → Bool
is_count (some null) = true
is_count (some (num n)) = is_safe_integer n && not (below n 0)
is_count _ = false

-- `value && typeof value === "object"`
abbrev pub is_there : Option Json → Bool
is_there (some (arr vs)) = true
is_there (some (obj fs)) = true
is_there _ = false

abbrev pub is_array : Option Json → Bool
is_array (some (arr vs)) = true
is_array _ = false

abbrev pub is_record : Json → Bool
is_record (obj fs) = true
is_record _ = false

-- `normalizeWorkspaceSnapshot`
unfoldable pub normalize_workspace_snapshot : Json → Result Json
normalize_workspace_snapshot payload = do
  require (is_record payload) (type_error "Invalid workspace payload")
  organizations ← strings (get payload "organizations") "organizations"
  current ← string (get payload "currentOrganization") "currentOrganization"
  require (has organizations current) (type_error "Current organization is outside the workspace")
  require (is_count (get payload "notifications")) (type_error "Invalid notifications")
  strings (get payload "commandShortcuts") "commandShortcuts"
  require (is_there (get payload "areas") && is_array (get payload "screens"))
      (type_error "Invalid workspace catalog")
  done payload

-- `getWorkspaceData` of a service over a transport
unfoldable pub get_workspace_data : Result Json → Result Json
unfolding normalize_workspace_snapshot
get_workspace_data answer = answer >>= normalize_workspace_snapshot

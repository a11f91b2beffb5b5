-- ===== src/Workspace/Server.antt =====
-- apps/web/src/lib/workspace-service.ts: `createHttpWorkspaceTransport`;
-- apps/web/src/lib/server-workspace-service.ts: the choice of the transport, over the session that
-- Supabase reports, which is an argument.
pub mod Sessions
use Prim.Native.String as Text
use Prim.Native.Char.{code}
use bighead.Common.{
  ℕ, ◌+◌, String, Bool, true, false, ◌&&◌, Option, none, some, List, [], ◌∷◌, ◌++◌, eqb,
  if◌then◌else◌, or_empty, trim, truthy, truthy?,
}
use bighead.Json.{Json, Fields}
use bighead.Workspace.Context.{should_use_mock_workspace}
use bighead.Workspace.Rows.{Conversions}
use bighead.Workspace.Answers.{
  Problem, thrown, plain_error, Result, done, fails, ◌>>=◌, ◌>>◌, ApiCall, Answer, answered, broken,
  is_ok,
}
use bighead.Workspace.Transport.{get_workspace}
use bighead.Workspace.Service.{get_workspace_data}
use bighead.Workspace.Portal.{PortalPreview, portal_fixture, preview_json, normalize_portal_preview}

abbrev is_slash : ℕ → Bool
is_slash c = eqb c b'/'

abbrev ends_in_slash : String → Bool
ends_in_slash String.[] = false
ends_in_slash (String.◌∷◌ c String.[]) = is_slash (code c)
ends_in_slash (String.◌∷◌ c (String.◌∷◌ d s)) = ends_in_slash (String.◌∷◌ d s)

-- `path.replace(/^\/+/, "")` and `value.replace(/\/$/, "")`
unfoldable pub without_leading : String → String
without_leading String.[] = ""
without_leading (String.◌∷◌ c s) =
    let rest = without_leading s in if is_slash (code c) then rest else String.◌∷◌ c s

unfoldable pub without_trailing : String → String
without_trailing String.[] = ""
without_trailing (String.◌∷◌ c String.[]) = if is_slash (code c) then "" else String.◌∷◌ c ""
without_trailing (String.◌∷◌ c (String.◌∷◌ d s)) = String.◌∷◌ c (without_trailing (String.◌∷◌ d s))

pub record HttpRequest : Type 0 where
  pub url : String
  -- `x-tenant-id`
  pub tenant : Option String

abbrev json_of : (ℕ → String) → Answer → Result Json
json_of digits broken = fails thrown
json_of digits (answered status body) =
    if is_ok status
    then parsed body
    else fails
        (plain_error (Text.◌++◌ "Workspace API request failed (" (Text.◌++◌ (digits status) ")")))
  where
    parsed : Option Json → Result Json
    parsed none = fails thrown
    parsed (some v) = done v

-- `createHttpWorkspaceTransport`. `new URL(path, base)`, `fetch`, `encodeURIComponent` and the digits
-- of a number are arguments.
module _ (resolve : String → String → Option String) (fetch : HttpRequest → Answer)
    (encode : String → String) (digits : ℕ → String) (base_url : String) where
  abbrev base : String
  base = if ends_in_slash base_url then base_url else Text.◌++◌ base_url "/"

  abbrev fetched : Option String → Option String → Result Json
  fetched none tenant = fails thrown
  fetched (some url) tenant = json_of digits (fetch (record { url = url; tenant = tenant }))

  unfoldable pub http_request : String → Option String → Result Json
  unfolding without_leading
  http_request path tenant =
      fetched (resolve (without_leading path) base) (if truthy? tenant then tenant else none)

  unfoldable pub http_workspace : Option String → Result Json
  unfolding http_request
  http_workspace tenant = http_request "/workspace" tenant

  unfoldable pub http_portal : String → Option String → Result Json
  unfolding http_request
  http_portal token tenant = http_request (Text.◌++◌ "/portal/" (encode token)) tenant

-- What a server component does: it shows a result, or it redirects.
pub data Page (A : Type 0) : Type 0 where
  shows : Result A → Page A
  redirects : String → Page A

-- What the process and Supabase tell: the environment, whether there are claims, and the session's
-- token.
pub record Server : Type 0 where
  pub workspace_mode : Option String
  pub node_env : Option String
  pub api_url : Option String
  pub public_api_url : Option String
  pub has_claims : Bool
  pub access_token : Option String

-- `apiBaseUrl`
unfoldable pub api_base_url : Server → Result String
unfolding trim
api_base_url s =
    let own = trim (or_empty s.api_url) in
    let public_url = trim (or_empty s.public_api_url) in
    if truthy own
    then done own
    else if truthy public_url
    then done public_url
    else fails (plain_error "API_URL is required for the production workspace")

abbrev mock_forbidden : Problem
mock_forbidden = plain_error "Mock workspace mode is forbidden in production"

module _ (c : Conversions) (screens : List Json) (areas : Fields)
    (sooner : Problem → Problem → Problem) (api : String → ApiCall → Answer)
    (mock_snapshot : Json) where
  abbrev pub with_session : Server → Option String → Page Json
  with_session s context =
      if s.has_claims && truthy? s.access_token
      then shows (
          api_base_url s >>= λ url.
          get_workspace_data
            (get_workspace c screens areas sooner (api url) (or_empty s.access_token) context none))
      else redirects "/login"

  abbrev pub server_workspace : Server → Option String → Option Bool → Page Json
  server_workspace s context none = shows (fails mock_forbidden)
  server_workspace s context (some true) = shows (get_workspace_data (done mock_snapshot))
  server_workspace s context (some false) = with_session s context

  -- `getServerWorkspaceData`
  unfoldable pub get_server_workspace_data : Server → Option String → Page Json
  unfolding should_use_mock_workspace get_workspace_data get_workspace api_base_url
  get_server_workspace_data s context =
      server_workspace s context (should_use_mock_workspace s.workspace_mode s.node_env)

module _ (resolve : String → String → Option String) (fetch : HttpRequest → Answer)
    (encode : String → String) (digits : ℕ → String) where
  abbrev portal_preview : Server → String → Option String → Option Bool → Result PortalPreview
  portal_preview s token tenant none = fails mock_forbidden
  portal_preview s token tenant (some true) =
      normalize_portal_preview (preview_json (portal_fixture token))
  portal_preview s token tenant (some false) = api_base_url s >>= λ url.
      http_portal resolve fetch encode digits (Text.◌++◌ (without_trailing url) "/v1") token tenant
      >>= normalize_portal_preview
      >>= λ preview. done (record preview { token = token })

  -- `getPublicPortalPreview`
  unfoldable pub get_public_portal_preview : Server → String → Option String → Result PortalPreview
  unfolding should_use_mock_workspace api_base_url http_portal normalize_portal_preview preview_json
      portal_fixture without_trailing
  get_public_portal_preview s token tenant =
      portal_preview s token tenant (should_use_mock_workspace s.workspace_mode s.node_env)

-- ===== src/Gateway.antt =====
-- What the routes under apps/web/src/app/api share: the request, the guards, the call of the
-- upstream API (apps/web/src/lib/server-api-client.ts) and the answers. A route either responds or
-- asks the upstream, whose answer it turns into a response. The parser of URLs and
-- `encodeURIComponent` are arguments.
pub mod Ids
pub mod Mutation
pub mod TaskRoutes
pub mod Approvals
pub mod Agents
pub mod Rooms
pub mod Commercial
pub mod Search
pub mod ScreenRules
pub mod Guards
mod Tests
use bighead.Common.{
  ℕ, String, Bool, true, false, not, ◌&&◌, ◌||◌, ◌⊎◌, inl, inr, Option, none, some, List, [], ◌∷◌,
  leb, eqb, if◌then◌else◌, or_empty, trim, ◌==◌, truthy, truthy?,
}
use bighead.Json.{Json, null, num, str, obj, Fields, end, field}
use bighead.Json.Numbers.{Number, is_integer, below}
use bighead.Workspace.Context.{request_tenant}
use bighead.Realtime.Protocol.{matches, is_hex, is_dash, times}

pub record Request : Type 0 where
  -- `new URL(request.url).origin`
  pub own_origin : String
  pub origin : Option String
  pub idempotency_key : Option String
  pub tenant_cookie : Option String
  pub search_param : String → Option String
  -- `request.json()`; `null` when the body is no JSON
  pub body : Json

pub data Fault : Type 0 where
  -- a `BigHeadApiError`, any other `Error`, and a thrown value that is none
  api_error : (status : ℕ) (message : String) → Fault
  error : (message : String) → Fault
  thrown : Fault

pub record Call : Type 0 where
  pub path : String
  pub method : String
  pub organization_id : String
  pub idempotency : Option String
  pub payload : Option Json

pub record Reply : Type 0 where
  pub status : ℕ
  pub answer : Option Json
  pub no_store : Bool

pub data Outcome : Type 0 where
  responds : Reply → Outcome
  asks : Call → (Json ⊎ Fault → Reply) → Outcome

abbrev pub calls : Outcome → Option Call
calls (responds r) = none
calls (asks c k) = some c

-- What is responded when the upstream, if it is asked, gives this.
abbrev pub run : Json ⊎ Fault → Outcome → Reply
run upstream (responds r) = r
run upstream (asks c k) = k upstream

-- An object with the fields that are there; `undefined` is left out, as in `JSON.stringify`.
abbrev pub fields : List (String × Option Json) → Fields
fields [] = end
fields ((key, none) ∷ fs) = fields fs
fields ((key, some v) ∷ fs) = field key v (fields fs)

abbrev pub object : List (String × Option Json) → Json
object fs = obj (fields fs)

abbrev pub json : ℕ → Json → Reply
json status v = record { status = status; answer = some v; no_store = false }

abbrev pub fresh : Json → Reply
fresh v = record { status = 200; answer = some v; no_store = true }

abbrev pub detail : ℕ → String → Reply
detail status text = json status (object (("detail", some (str text)) ∷ []))

abbrev pub fault_status : Fault → ℕ
fault_status (api_error status message) = status
fault_status _ = 500

abbrev pub fault_message : Fault → Option String
fault_message (api_error status message) = some message
fault_message (error message) = some message
fault_message thrown = none

abbrev pub or_text : Option String → String → String
or_text none text = text
or_text (some s) text = s

-- `failure(error, fallback)`
unfoldable pub failure : String → Fault → Reply
failure fallback f = detail (fault_status f) (or_text (fault_message f) fallback)

-- An early return.
unfoldable pub require : Bool → Reply → Outcome → Outcome
require true r o = o
require false r o = responds r

unfoldable pub settle : (Json → Reply) → (Fault → Reply) → Json ⊎ Fault → Reply
settle done failed (inl v) = done v
settle done failed (inr f) = failed f

unfoldable pub tenant_id : Request → String
unfolding request_tenant
tenant_id request = or_empty (request_tenant request.tenant_cookie)

-- `trustedOrigin`; an `APP_URL` that is no URL is never trusted.
module _ (origin_of : String → Option String) (app_url : Option String) where
  abbrev pub app_origin : Option String
  app_origin =
      if truthy (trim (or_empty app_url)) then origin_of (trim (or_empty app_url)) else none

  abbrev pub same_as : Option String → String → Bool
  same_as none origin = false
  same_as (some o) origin = o == origin

  unfoldable pub trusted_origin : Request → Bool
  trusted_origin request =
      truthy? request.origin
      && ((request.own_origin == or_empty request.origin)
          || same_as app_origin (or_empty request.origin))

abbrev between : ℕ → ℕ → ℕ → Bool
between low high c = leb low c && leb c high

abbrev pub is_version : ℕ → Bool
is_version c = between b'1' b'8' c

abbrev pub is_variant : ℕ → Bool
is_variant c = between b'8' b'9' c || (eqb c b'a' || (eqb c b'b' || (eqb c b'A' || eqb c b'B')))

-- `uuidPattern`
unfoldable pub is_entity_id : String → Bool
unfolding matches is_hex
is_entity_id text =
    matches
      (times 8 is_hex (
        is_dash
        ∷ times 4 is_hex (
            is_dash
            ∷ is_version
            ∷ times 3 is_hex
                (is_dash ∷ is_variant ∷ times 3 is_hex (is_dash ∷ times 12 is_hex [])))))
      text

-- `Number.isInteger(value)` and not below a bound
unfoldable pub is_integer_from : ℕ → Option Json → Bool
is_integer_from low (some (num n)) = is_integer n && not (below n low)
is_integer_from low _ = false

-- `value || null` for a text
abbrev pub text_or_null : String → Option Json
text_or_null s = some (if truthy s then str s else null)

-- The platform: `encodeURIComponent`, `URLSearchParams.toString`, the origin of a URL, `Number`,
-- the ISO text of a date that parses, the deployment's `APP_URL` and its mode.
pub record Platform : Type 0 where
  pub encode : String → String
  pub form : List (String × String) → String
  pub url_origin : String → Option String
  pub to_number : Json → Number
  pub iso_of : String → Option String
  pub app_url : Option String
  -- `shouldUseMockWorkspace`; `none` is the error that it throws
  pub mock_mode : Option Bool

unfoldable pub is_trusted : Platform → Request → Bool
unfolding trusted_origin
is_trusted p request = trusted_origin p.url_origin p.app_url request

-- `NextResponse.json(await authenticatedApi(path, { organizationId }), no-store)`
unfoldable pub ask_get : String → String → String → Outcome
unfolding settle failure
ask_get path organization_id fallback =
    asks
      (record {
        path = path;
        method = "GET";
        organization_id = organization_id;
        idempotency = none;
        payload = none;
      })
      (settle fresh (failure fallback))

-- A call with a body.
unfoldable pub ask_with :
    (path method organization_id : String)
    → Option String
    → Json
    → (Json → Reply)
    → String
    → Outcome
unfolding settle failure
ask_with path method organization_id key payload done fallback =
    asks
      (record {
        path = path;
        method = method;
        organization_id = organization_id;
        idempotency = key;
        payload = some payload;
      })
      (settle done (failure fallback))

-- `searchParams.get(name)?.trim()`, or the empty text
abbrev pub param_of : Request → String → String
param_of request name = trim (or_empty (request.search_param name))

-- The parameters of the request that are named and not empty.
unfoldable pub kept : Request → List String → List (String × String)
kept request [] = []
kept request (name ∷ names) =
    let rest = kept request names in
    if truthy (param_of request name) then (name, param_of request name) ∷ rest else rest

-- ===== src/Realtime/Stream/Opening.antt =====
-- The guards of `GET`, in their order, and the delay after which the stream is closed.
use Prim.Native.String as Text
use bighead.Common.{
  ℕ, ◌*◌, ◌/◌, ◌+◌, ◌-◌, ◌≤◌, min, max, String, Bool, true, false, ◌&&◌, not, ◌≡◌, ◌↔◌, Option,
  none, some, arith, if◌then◌else◌, truthy?, or_empty, truthy,
}
use bighead.Workspace.Context.{should_use_mock_workspace, request_tenant}
use bighead.Realtime.Protocol.{is_uuid, is_same_site_event_source}

-- What the handler reads: the environment, the request, and the answers of the session service.
pub record Opening : Type 0 where
  pub workspace_mode : Option String
  pub node_env : Option String
  pub url : String
  pub sec_fetch_site : Option String
  pub origin : Option String
  pub cookie : Option String
  pub claims : Bool  -- claims were found, with no error
  pub access_token : Option String  -- none on an error, too
  pub member : String → Bool  -- this organization's row was found, with no error

pub data Answer : Type 0 where
  response : (status : ℕ) → Answer
  stream : (tenant access_token : String) → Answer
  raised : Answer

abbrev signed_in : Opening → String → Answer
signed_in o tenant =
    if not (o.claims && truthy? o.access_token)
    then response 401
    else if not (o.member tenant)
    then response 403
    else stream tenant (or_empty o.access_token)

abbrev with_tenant : Opening → Option String → Answer
with_tenant o none = response 400
with_tenant o (some tenant) = if is_uuid (some tenant) then signed_in o tenant else response 400

abbrev same_site : Opening → Option Bool → Answer
same_site o none = raised
same_site o (some false) = response 403
same_site o (some true) = with_tenant o (request_tenant o.cookie)

abbrev real_mode : (String → Option String) → Opening → Option Bool → Answer
real_mode origin_of o none = raised
real_mode origin_of o (some true) = response 404
real_mode origin_of o (some false) =
    same_site o (is_same_site_event_source origin_of o.url o.sec_fetch_site o.origin)

unfoldable pub open_stream : (origin_of : String → Option String) → Opening → Answer
open_stream origin_of o =
    real_mode origin_of o (should_use_mock_workspace o.workspace_mode o.node_env)

-- `Math.max(1_000, Math.min(15 * 60_000, expiresAt - Date.now() - 30_000))`; a negative rest is
-- below 1,000 as 0 is.
unfoldable pub reconnect_in : (expires_at now : ℕ) → ℕ
reconnect_in expires_at now = max 1000 (min 900000 (expires_at - now - 30000))

-- `reconnectIn` of a session: one that tells no end, in seconds, is taken to end in 300.
unfoldable pub reconnect_of : (expires_at : Option ℕ) (now : ℕ) → ℕ
unfolding reconnect_in
reconnect_of none now = reconnect_in ((now / 1000 + 300) * 1000) now
reconnect_of (some expires_at) now = reconnect_in (expires_at * 1000) now

-- `organization_id=eq.${tenantId}`
unfoldable pub change_filter : String → String
change_filter tenant = Text.◌++◌ "organization_id=eq." tenant

-- What the guards ask of a request, all together.
pub record IsAdmitted (origin_of : String → Option String) (o : Opening) (tenant token : String)
    : Type 0 where
  pub real : should_use_mock_workspace o.workspace_mode o.node_env ≡ some false
  pub near : is_same_site_event_source origin_of o.url o.sec_fetch_site o.origin ≡ some true
  pub named : request_tenant o.cookie ≡ some tenant
  pub uuid : is_uuid (some tenant) ≡ true
  pub claimed : o.claims ≡ true
  pub authorized : (truthy token ≡ true) × (or_empty o.access_token ≡ token)
  pub belongs : o.member tenant ≡ true

-- A stream is opened exactly for a request that passes every guard, for the tenant of its cookie
-- and with the token of its session.
pub open_stream_iff :
    (origin_of : String → Option String) (o : Opening) (tenant token : String)
    → (open_stream origin_of o ≡ stream tenant token) ↔ IsAdmitted origin_of o tenant token
unfolding open_stream
open_stream_iff origin_of o tenant token = ground arith

-- The stream is closed after a second at least and a quarter of an hour at most, and at least half
-- a minute before the session expires, where more than 31 seconds are left of it.
pub reconnect_in_bounds :
    (expires_at now : ℕ)
    → (1000 ≤ reconnect_in expires_at now)
      × (reconnect_in expires_at now ≤ 900000)
      × (now + 31000 ≤ expires_at → now + reconnect_in expires_at now + 30000 ≤ expires_at)
unfolding reconnect_in
reconnect_in_bounds expires_at now = omega arith

-- ===== src/Workspace/Context.antt =====
-- apps/web/src/lib/workspace-mode.ts and workspace-request-context.ts: the mode of the process and
-- the tenant of one request.
use bighead.Common.{
  String, Bool, true, false, Option, none, some, ◌==◌, trim, or_null, if◌then◌else◌,
}

abbrev pub is_value : Option String → String → Bool
is_value none value = false
is_value (some s) value = s == value

-- `shouldUseMockWorkspace`; `none` is the error that forbids the mock mode in production.
unfoldable pub should_use_mock_workspace : (workspace_mode node_env : Option String) → Option Bool
should_use_mock_workspace workspace_mode node_env =
    if is_value workspace_mode "mock"
    then (if is_value node_env "production" then none else some true)
    else some false

-- `tenantId` of `getWorkspaceRequestContext`: an empty cookie gives no tenant.
unfoldable pub request_tenant : (cookie : Option String) → Option String
request_tenant none = none
request_tenant (some value) = or_null (trim value)

-- ===== src/Actions/Orderly.antt =====
-- How the server actions use the API, and what they give when it fails.
use bighead.Common.{String, Bool, true, false, ◌≡◌, ◌≢◌, ◌⊎◌, none}
use bighead.Json.{Json}
use bighead.Gateway.{Call}
use bighead.Actions.{◌++ₜ◌, Action, Form, Host, text}
use bighead.Actions.Critical.{
  organization, switch_tenant, create_room, create_message, create_task, replace_task_dependencies,
  decide_approval,
}
use bighead.Actions.Uploads.{
  initiate_artifact, confirm_artifact, create_content_asset, schedule_experiment, decide_portal,
}

pub data Name : Type 0 where
  switching room message task dependency approval upload confirmation content experiment portal :
      Name

unfoldable pub act : Host → Form → Name → Action
unfolding switch_tenant create_room create_message create_task replace_task_dependencies
    decide_approval initiate_artifact confirm_artifact create_content_asset schedule_experiment
    decide_portal
act h form switching = switch_tenant h form
act h form room = create_room h form
act h form message = create_message h form
act h form task = create_task h form
act h form dependency = replace_task_dependencies h form
act h form approval = decide_approval h form
act h form upload = initiate_artifact h form
act h form confirmation = confirm_artifact h form
act h form content = create_content_asset h form
act h form experiment = schedule_experiment h form
act h form portal = decide_portal h form

abbrev pub is_authenticated : Name → Bool
is_authenticated portal = false
is_authenticated _ = true

-- The call's method, path and organization.
abbrev pub Is : (method path organization_id : String) → Call → Type 0
Is method path organization_id c =
    (c.method ≡ method) × (c.path ≡ path) × (c.organization_id ≡ organization_id)

module _ (h : Host) (form : Form) where
  abbrev named : String → String
  named name = text form name

  abbrev pub Decides : String → Call → Type 0
  Decides id = Is "POST" ("/v1/approvals/" ++ₜ h.encode id ++ₜ "/decision") (named "organizationId")

  -- The calls that each action may make, for the organization that the form names. The switch names
  -- it in the path, and the portal's decision names a token there.
  abbrev pub Permits : Name → Call → Type 0
  Permits switching =
      Is "POST" ("/v1/organizations/" ++ₜ h.encode (named "organizationId") ++ₜ "/switch") ""
  Permits room = Is "POST" "/v1/rooms" (named "organizationId")
  Permits message =
      Is "POST" ("/v1/rooms/" ++ₜ h.encode (named "roomId") ++ₜ "/messages")
        (named "organizationId")
  Permits task = Is "POST" "/v1/tasks" (named "organizationId")
  Permits dependency =
      Is "PATCH" ("/v1/tasks/" ++ₜ h.encode (named "taskId") ++ₜ "/dependencies")
        (named "organizationId")
  Permits approval = λ c.
      ((named "approvalId" ≢ "") × Decides (named "approvalId") c)
      ⊎ ((named "approvalId" ≡ "")
          × (Is "GET" "/v1/approvals" (named "organizationId") c ⊎ ((id : String) × Decides id c)))
  Permits upload = Is "POST" "/v1/artifacts/uploads" (named "organizationId")
  Permits confirmation =
      Is "POST" ("/v1/artifacts/" ++ₜ h.encode (named "artifactId") ++ₜ "/confirm")
        (named "organizationId")
  Permits content = Is "POST" "/v1/content/assets" (named "organizationId")
  Permits experiment = λ c.
      Is "PATCH" ("/v1/experiments/" ++ₜ h.encode (named "experimentId")) (named "organizationId") c
      ⊎ Is "POST" (("/v1/experiments/" ++ₜ h.encode (named "experimentId")) ++ₜ "/start")
          (named "organizationId") c
  Permits portal = Is "POST" ("/v1/portal/items/" ++ₜ h.encode (named "token") ++ₜ "/decision") ""

  abbrev list_approvals : Call
  list_approvals = record {
    path = "/v1/approvals";
    method = "GET";
    organization_id = organization h form;
    idempotency = none;
    payload = none;
  }

-- ===== src/Workspace/Tests.antt =====
-- The workspace service at fixed inputs.
use bighead.Common.{
  String, Bool, true, ◌≡◌, refl, ◌↔◌, ◌⊎◌, Option, none, some, List, [], ◌∷◌, if◌then◌else◌, ◌==◌,
  map_get,
}
use bighead.Json.{Json, null, str, arr, obj, end, field, of_list, get}
use bighead.Json.Numbers.{of_ℕ}
use bighead.Workspace.Rows.{Conversions, rows_of}
use bighead.Workspace.Answers.{Result, done, fails, type_error, ApiCall, Answer, answered}
use bighead.Workspace.Transport.{get_workspace}
use bighead.Workspace.Service.{get_workspace_data}
use bighead.Workspace.Service.Accepts.{in_workspace}
use bighead.Workspace.Service.Delivered.{get_workspace_data_lem}
use bighead.Workspace.Service.Scope.{get_workspace-scoped}
use bighead.Workspace.Service.Roles.{forgiven, get_workspace-forgiven}
use bighead.Workspace.Portal.{
  PortalPreview, valid, normalize_portal_preview, portal_fixture, preview_json,
}
use bighead.Workspace.Portal.States.{normalize_portal_preview_lem}
use bighead.Workspace.Server.{Server}
use bighead.Workspace.Server.Sessions.{
  ShowsMock, Refuses, ShowsOwn, SignsIn, get_server_workspace_data_lem,
}

abbrev conversions : Conversions
conversions = record {
  digits = λ n. "1";
  text_of = λ v. "";
  to_number = λ v. of_ℕ 0;
  encode = λ s. s;
}

abbrev acme : Json
acme = obj (field "id" (str "o1") (field "name" (str "Acme") end))

abbrev organizations : List Json → Json
organizations rows = obj (field "organizations" (arr (of_list rows)) end)

abbrev answers : List Json → List (String × Answer)
answers rows =
    ("/v1/organizations", answered 200 (some (organizations rows)))
    ∷ ("/v1/approvals", answered 403 none)
    ∷ []

abbrev or_empty_object : Option Answer → Answer
or_empty_object none = answered 200 (some (obj end))
or_empty_object (some a) = a

-- An API that forbids the approvals.
abbrev api : List Json → ApiCall → Answer
api rows k = or_empty_object (map_get k.path (answers rows))

abbrev is_o1 : Option String → Bool
is_o1 none = true
is_o1 (some id) = id == "o1"

-- As `api`, but it fails whatever is asked for another organization.
abbrev other_api : ApiCall → Answer
other_api k = if is_o1 k.organization_id then api (acme ∷ []) k else answered 500 none

abbrev fetch_workspace : (ApiCall → Answer) → Option String → Result Json
fetch_workspace upstream context =
    get_workspace conversions [] end (λ p q. p) upstream "jwt" context none

abbrev delivered : Result Json → Json
delivered (done v) = v
delivered (fails p) = null

outside :
    get_workspace_data (fetch_workspace (api []) (some "o1"))
    ≡ fails (type_error "Current organization is outside the workspace")
unfolding get_workspace_data get_workspace map_get
outside = refl

get_workspace_data_lem_example :
    get_workspace_data (fetch_workspace (api (acme ∷ [])) none)
    ≡ in_workspace
        (rows_of (get (organizations (acme ∷ [])) "organizations"))
        (delivered (fetch_workspace (api (acme ∷ [])) none))
unfolding get_workspace map_get
get_workspace_data_lem_example =
    get_workspace_data_lem conversions [] end (λ p q. p) (api (acme ∷ [])) "jwt" none none
      (organizations (acme ∷ [])) (delivered (fetch_workspace (api (acme ∷ [])) none)) refl refl

get_workspace-scoped_example :
    fetch_workspace (api (acme ∷ [])) (some "o1") ≡ fetch_workspace other_api (some "o1")
unfolding get_workspace
get_workspace-scoped_example =
    get_workspace-scoped conversions [] end (λ p q. p) "jwt" (some "o1") none (api (acme ∷ []))
      other_api (λ path. refl) (λ o h path. refl)

get_workspace-forgiven_example :
    fetch_workspace (api (acme ∷ [])) none ≡ fetch_workspace (forgiven (api (acme ∷ []))) none
get_workspace-forgiven_example =
    get_workspace-forgiven (api (acme ∷ [])) "jwt" conversions [] end (λ p q. p) none none

abbrev approval_link : Json
approval_link = obj (
    field "state" (str "pending") (
      field "item" (obj (field "title" (str "Post") (field "objective" (str "Launch") end)))
        (field "allowedActions" (arr (of_list (str "approve" ∷ []))) end)))

abbrev approval_preview : PortalPreview
approval_preview = record {
  token = "";
  state = valid;
  title = "Post";
  summary = "Launch";
  requested_by = "Equipe BigHead";
  due_label = "Prazo definido pela aprovacao";
  allowed_actions = "approve" ∷ [];
  guard_rails =
      "Link isolado do workspace interno" ∷ "Decisao idempotente e auditavel"
      ∷ "Token limitado a esta aprovacao" ∷ [];
  expected_round = of_ℕ 1;
}

fixture_round_trip :
    normalize_portal_preview (preview_json (portal_fixture "revoked"))
    ≡ done (portal_fixture "revoked")
unfolding normalize_portal_preview preview_json portal_fixture
fixture_round_trip = refl

normalize_portal_preview_lem_example : (approval_preview.state ≡ valid) ↔ (
    (get approval_link "state" ≡ some (str "pending"))
    ⊎ (get approval_link "state" ≡ some (str "valid")))
unfolding normalize_portal_preview
normalize_portal_preview_lem_example =
    normalize_portal_preview_lem approval_link approval_preview refl

abbrev server : Server
server = record {
  workspace_mode = none;
  node_env = some "production";
  api_url = some "https://api.example.com";
  public_api_url = none;
  has_claims = true;
  access_token = some "jwt";
}

abbrev IsShown : Server → Type 0
IsShown s =
    ShowsMock conversions [] end (λ p q. p) (λ url. api (acme ∷ [])) null s none
    ⊎ Refuses conversions [] end (λ p q. p) (λ url. api (acme ∷ [])) null s none
    ⊎ ShowsOwn conversions [] end (λ p q. p) (λ url. api (acme ∷ [])) null s none
    ⊎ SignsIn conversions [] end (λ p q. p) (λ url. api (acme ∷ [])) null s none

get_server_workspace_data_lem_example : IsShown server
get_server_workspace_data_lem_example =
    get_server_workspace_data_lem conversions [] end (λ p q. p) (λ url. api (acme ∷ [])) null server
      none

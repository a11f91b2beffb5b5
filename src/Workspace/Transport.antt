-- ===== src/Workspace/Transport.antt =====
-- apps/web/src/lib/workspace-service.ts: `createAuthenticatedWorkspaceTransport`. The API is an
-- argument, and so is which of two rejected promises comes first.
use Prim.Native.String as Text
use bighead.Common.{
  String, Bool, not, Option, none, some, List, [], ◌∷◌, if◌then◌else◌, any, or_empty, truthy,
}
use bighead.Json.{Json, Fields, get}
use bighead.Workspace.Rows.{Conversions, rows_of, scalar}
use bighead.Workspace.Answers.{
  Problem, Result, ◌>>=◌, ◌>>◌, require, ApiCall, Answer, checked, allowed, null_error, is_null,
  membership_error, plain_error, done, fails,
}
use bighead.Workspace.Snapshot.{either_text, field_of, head_row, Loaded, nothing_in, snapshot}

abbrev loaded : Json → Json → Json → Json → Json → Json → Json → Json → Json → Json → Loaded
loaded rooms tasks approvals agents documents leads experiments analytics audit notifications =
    record {
      rooms = rooms;
      tasks = tasks;
      approvals = approvals;
      agents = agents;
      documents = documents;
      leads = leads;
      experiments = experiments;
      analytics = analytics;
      audit = audit;
      notifications = notifications;
    }

-- `optionalForRole`, over the calls with the headers of the organization by their paths
unfoldable pub optional_for_role : (String → Result Json) → String → Json → Result Json
optional_for_role ask path forbidden = allowed forbidden (ask path)

module _ (sooner : Problem → Problem → Problem) where
  -- Two promises of `Promise.all`: what is given if both are kept, or the earlier rejection.
  infixl 5 ◌also◌
  abbrev pub ◌also◌ : {A B : Type 0} → Result (A → B) → Result A → Result B
  done f also done a = done (f a)
  done f also fails p = fails p
  fails p also done a = fails p
  fails p also fails q = fails (sooner p q)

  module _ (ask : String → Result Json) where
    unfoldable pub load : Result Loaded
    unfolding optional_for_role
    load =
        done loaded
        also ask "/v1/rooms"
        also ask "/v1/tasks"
        also optional_for_role ask "/v1/approvals" (nothing_in "items")
        also optional_for_role ask "/v1/agents" (nothing_in "items")
        also ask "/v1/knowledge/documents"
        also ask "/v1/crm/leads"
        also optional_for_role ask "/v1/experiments" (nothing_in "items")
        also optional_for_role ask "/v1/analytics/summary" (nothing_in "cards")
        also optional_for_role ask "/v1/audit/events" (nothing_in "events")
        also ask "/v1/notifications?filter=unread&limit=1"

module _ (api : ApiCall → Answer) (token : String) where
  -- `call(path, { headers })`
  unfoldable pub call : Option String → String → Result Json
  call organization_id path =
      checked path (api (record { path = path; token = token; organization_id = organization_id }))

  -- `getPortal`; no credentials are sent.
  unfoldable pub get_portal : (String → String) → String → Result Json
  get_portal encode item =
      let path = Text.◌++◌ "/v1/portal/items/" (encode item) in
      checked path (api (record { path = path; token = ""; organization_id = none }))

abbrev pub is_readable : Loaded → Bool
is_readable l = not (
    any is_null (
      l.rooms ∷ l.tasks ∷ l.approvals ∷ l.agents ∷ l.documents ∷ l.leads ∷ l.analytics ∷ l.audit
      ∷ []))

module _ (c : Conversions) where
  -- `firstRoomId`
  abbrev pub room_of : Loaded → String
  room_of l = scalar c (field_of (head_row (rows_of (get l.rooms "rooms"))) "id") ""

  abbrev pub messages_path : String → String
  messages_path room = Text.◌++◌ "/v1/rooms/" (Text.◌++◌ (c.encode room) "/messages")

  abbrev pub messages_of : (String → Result Json) → String → Result Json
  messages_of ask room =
      if truthy room then ask (messages_path room) else done (nothing_in "messages")

  -- The organization that the context or the options name, or the first one of the user.
  unfoldable pub organization_of : (context options : Option String) → List Json → String
  unfolding scalar
  organization_of context options rows = or_empty (
      either_text (either_text context options)
        (some (scalar c (field_of (head_row rows) "id") "")))

  module _ (screens : List Json) (areas : Fields) where
    unfoldable pub finished : List Json → String → Loaded → Json → Result Json
    unfolding snapshot rows_of scalar
    finished rows id l messages =
        require (not (any is_null (messages ∷ l.experiments ∷ l.notifications ∷ []))) null_error
        >> done (snapshot c screens areas rows id l (room_of l) messages)

    -- What follows `Promise.all`. An answer that is `null` makes the transport throw.
    unfoldable pub assemble : (String → Result Json) → List Json → String → Loaded → Result Json
    unfolding finished rows_of scalar
    assemble ask rows id l =
        require (is_readable l) null_error >> (messages_of ask (room_of l) >>= finished rows id l)

    module _ (sooner : Problem → Problem → Problem) where
      unfoldable pub in_organization : (String → Result Json) → List Json → String → Result Json
      unfolding load assemble
      in_organization ask rows id =
          require (truthy id) membership_error >> (load sooner ask >>= assemble ask rows id)

      module _ (api : ApiCall → Answer) (token : String) where
        unfoldable pub with_organizations : (context options : Option String) → Json → Result Json
        unfolding in_organization organization_of rows_of call
        with_organizations context options organizations =
            let rows = rows_of (get organizations "organizations") in
            let id = organization_of context options rows in
            require (not (is_null organizations)) null_error
            >> in_organization (call api token (some id)) rows id

        -- `getWorkspace`
        unfoldable pub get_workspace : (context options : Option String) → Result Json
        unfolding call with_organizations
        get_workspace context options =
            require (truthy token) (plain_error "Authenticated workspace requires an access token")
            >> (call api token none "/v1/organizations" >>= with_organizations context options)

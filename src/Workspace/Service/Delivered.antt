-- ===== src/Workspace/Service/Delivered.antt =====
-- What the service gives of what the transport has fetched.
use bighead.Common.{
  String, not, ◌≡◌, sym, ap, ◌∙◌, subst, Option, none, some, List, [], ◌∷◌, truthy, any,
}
use bighead.Json.{Json, Fields, get}
use bighead.Workspace.Rows.{Conversions, rows_of}
use bighead.Workspace.Answers.{
  done_inj, >>=-eq-done, require-eq-done, Problem, Result, done, ApiCall, Answer, ◌>>=◌, is_null,
  null_error, plain_error, membership_error,
}
use bighead.Workspace.Snapshot.{snapshot}
use bighead.Workspace.Transport.{
  assemble, finished, room_of, is_readable, in_organization, organization_of, with_organizations,
  load, call, get_workspace, messages_of,
}
use bighead.Workspace.Service.{get_workspace_data, normalize_workspace_snapshot}
use bighead.Workspace.Service.Accepts.{in_workspace, normalize-snapshot}

module _ (c : Conversions) (screens : List Json) (areas : Fields)
    (sooner : Problem → Problem → Problem) where
  -- The rest of the transport's work gives a snapshot of these rows, if it gives anything.
  in_organization-eq-done :
      (ask : String → Result Json) (rows : List Json) (id : String) (v : Json)
      → in_organization c screens areas sooner ask rows id ≡ done v
      → normalize_workspace_snapshot v ≡ in_workspace rows v
  unfolding in_organization assemble finished
  in_organization-eq-done ask rows id v h =
      let (_, h1) =
        require-eq-done (truthy id) membership_error
          (load sooner ask >>= assemble c screens areas ask rows id) h in
      let (l, _, h2) = >>=-eq-done (load sooner ask) (assemble c screens areas ask rows id) h1 in
      let room = room_of c l in
      let (_, h3) =
        require-eq-done (is_readable l) null_error
          (messages_of c ask room >>= finished c screens areas rows id l) h2 in
      let (messages, _, h4) =
        >>=-eq-done (messages_of c ask room) (finished c screens areas rows id l) h3 in
      let (_, h5) =
        require-eq-done (not (any is_null (messages ∷ l.experiments ∷ l.notifications ∷ [])))
          null_error (done (snapshot c screens areas rows id l room messages)) h4 in
      subst (λ x. normalize_workspace_snapshot x ≡ in_workspace rows x) (done_inj h5)
        (normalize-snapshot c screens areas rows id l room messages)

  -- If the transport delivers a workspace, the service gives that workspace, unless the API names no
  -- organization of the user: then it fails, because the current organization is outside.
  pub get_workspace_data_lem :
      (api : ApiCall → Answer) (token : String) (context options : Option String)
      (organizations v : Json)
      → call api token none "/v1/organizations" ≡ done organizations
      → get_workspace c screens areas sooner api token context options ≡ done v
      → get_workspace_data (get_workspace c screens areas sooner api token context options)
        ≡ in_workspace (rows_of (get organizations "organizations")) v
  unfolding get_workspace with_organizations get_workspace_data
  get_workspace_data_lem api token context options organizations v o h =
      let first = call api token none "/v1/organizations" in
      let next = with_organizations c screens areas sooner api token context options in
      let (_, h1) =
        require-eq-done (truthy token)
          (plain_error "Authenticated workspace requires an access token") (first >>= next) h in
      let (found, o', h2) = >>=-eq-done first next h1 in
      let rows = rows_of (get found "organizations") in
      let id = organization_of c context options rows in
      let ask = call api token (some id) in
      let (_, h3) =
        require-eq-done (not (is_null found)) null_error
          (in_organization c screens areas sooner ask rows id) h2 in
      let same : found ≡ organizations = done_inj (sym o' ∙ o) in
      ap get_workspace_data h
      ∙ (in_organization-eq-done ask rows id v h3
          ∙ ap (λ x. in_workspace (rows_of (get x "organizations")) v) same)

-- ===== src/Workspace/Service/Scope.antt =====
-- Which calls of the API the workspace depends on.
use bighead.Common.{String, not, ◌≡◌, ap, ◌∙◌, Option, none, some, List, truthy}
use bighead.Json.{Json, Fields, get}
use bighead.Workspace.Rows.{Conversions, rows_of}
use bighead.Workspace.Answers.{
  >>=-cong, Problem, done, ApiCall, Answer, require, ◌>>=◌, ◌>>◌, is_null, null_error, plain_error,
}
use bighead.Workspace.Transport.{
  in_organization, organization_of, with_organizations, call, get_workspace,
}

module _ (c : Conversions) (screens : List Json) (areas : Fields)
    (sooner : Problem → Problem → Problem) (token : String) (context options : Option String) where
  -- The organization that is chosen, by the list of the user's organizations.
  abbrev pub chosen_organization : Json → String
  chosen_organization organizations =
      organization_of c context options (rows_of (get organizations "organizations"))

  -- Two APIs that answer alike where no organization is named, and where the one that is chosen is
  -- named, give the same workspace: no other organization's data is asked for.
  pub get_workspace-scoped :
      (api api' : ApiCall → Answer)
      → ((path : String) → call api token none path ≡ call api' token none path)
      → ((organizations : Json)
          → call api token none "/v1/organizations" ≡ done organizations
          → (path : String)
          → call api token (some (chosen_organization organizations)) path
            ≡ call api' token (some (chosen_organization organizations)) path)
      → get_workspace c screens areas sooner api token context options
        ≡ get_workspace c screens areas sooner api' token context options
  unfolding get_workspace with_organizations
  get_workspace-scoped api api' plain scoped =
      ap
        (λ m.
          require (truthy token) (plain_error "Authenticated workspace requires an access token")
          >> m)
        (>>=-cong (call api token none "/v1/organizations")
            (with_organizations c screens areas sooner api token context options)
            (with_organizations c screens areas sooner api' token context options)
            (λ o h.
              ap
                (λ ask.
                  require (not (is_null o)) null_error
                  >> in_organization c screens areas sooner ask (rows_of (get o "organizations"))
                      (chosen_organization o))
                (λ i path. scoped o h path i))
          ∙ ap (λ m. m >>= with_organizations c screens areas sooner api' token context options)
              (plain "/v1/organizations"))

-- ===== src/Workspace/Server/Sessions.antt =====
-- When a server component has a workspace to show.
use bighead.Common.{
  ◌∙◌, eq_refl, arith, Bool-cases, String, Bool, true, false, ◌≡◌, refl, ap, ◌≢◌, ◌⊎◌, inl, inr,
  Option, none, some, List, eq_iff, truthy?,
}
use bighead.Json.{Json, Fields}
use bighead.Workspace.Context.{is_value, should_use_mock_workspace}
use bighead.Workspace.Rows.{Conversions}
use bighead.Workspace.Answers.{Problem, plain_error, fails, ◌>>=◌, done, ApiCall, Answer}
use bighead.Workspace.Server.{
  shows, redirects, Server, get_server_workspace_data, server_workspace, api_base_url, Page,
  with_session,
}
use bighead.Workspace.Service.{get_workspace_data}
use bighead.Workspace.Transport.{get_workspace}

is_value-eq-true : (o : Option String) (value : String) → is_value o value ≡ true → o ≡ some value
is_value-eq-true none value h = cc
is_value-eq-true (some s) value h = ap some ((eq_iff s value).0 h)

is_value-eq-false : (o : Option String) (value : String) → is_value o value ≡ false → o ≢ some value
is_value-eq-false o value h e =
    let same = ap (λ p. is_value p value) e in
    let found : is_value (some value) value ≡ true = eq_refl value in
    absurd (ground (arith, h, same, found))

-- There is no token, or it is the empty text.
no_token : (o : Option String) → truthy? o ≡ false → (o ≡ none) ⊎ (o ≡ some "")
no_token none h = inl refl
no_token (some String.[]) h = inr refl
no_token (some (String.◌∷◌ c s)) h = cc

a_token : (o : Option String) → truthy? o ≡ true → (t : String) × (o ≡ some t) × (t ≢ "")
a_token none h = cc
a_token (some t) h = (t, refl, λ e. let same = ap (λ s. truthy? (some s)) e in cc)

module _ (c : Conversions) (screens : List Json) (areas : Fields)
    (sooner : Problem → Problem → Problem) (api : String → ApiCall → Answer) (mock_snapshot : Json)
    (s : Server) (context : Option String) where
  abbrev page : Page Json
  page = get_server_workspace_data c screens areas sooner api mock_snapshot s context

  -- The mock workspace, outside production.
  abbrev pub ShowsMock : Type 0
  ShowsMock =
      (s.workspace_mode ≡ some "mock")
      × (s.node_env ≢ some "production")
      × (page ≡ shows (get_workspace_data (done mock_snapshot)))

  -- The refusal of the mock mode in production.
  abbrev pub Refuses : Type 0
  Refuses =
      (s.workspace_mode ≡ some "mock")
      × (s.node_env ≡ some "production")
      × (page ≡ shows (fails (plain_error "Mock workspace mode is forbidden in production")))

  -- What the API gives to a user with claims and a token.
  abbrev pub ShowsOwn : Type 0
  ShowsOwn =
      (s.workspace_mode ≢ some "mock")
      × (s.has_claims ≡ true)
      × (token : String) × (s.access_token ≡ some token)
      × (token ≢ "")
      × (page
          ≡ shows (
              api_base_url s >>= λ url.
              get_workspace_data
                (get_workspace c screens areas sooner (api url) token context none)))

  -- The sign-in, for want of claims or of a token.
  abbrev pub SignsIn : Type 0
  SignsIn =
      (s.workspace_mode ≢ some "mock")
      × ((s.has_claims ≡ false) ⊎ (s.access_token ≡ none) ⊎ (s.access_token ≡ some ""))
      × (page ≡ redirects "/login")

  page_of :
      (o : Option Bool)
      → should_use_mock_workspace s.workspace_mode s.node_env ≡ o
      → page ≡ server_workspace c screens areas sooner api mock_snapshot s context o
  unfolding get_server_workspace_data
  page_of o h = ap (server_workspace c screens areas sooner api mock_snapshot s context) h

  mock_page : is_value s.workspace_mode "mock" ≡ true → ShowsMock ⊎ Refuses
  unfolding should_use_mock_workspace
  mock_page h =
      let mode = is_value-eq-true s.workspace_mode "mock" h in
      elim (Bool-cases (is_value s.node_env "production")) [
        | inl e ↦
            inr (mode, is_value-eq-true s.node_env "production" e, page_of none (rw (h, e) refl))
        | inr e ↦ inl (
          mode,
          is_value-eq-false s.node_env "production" e,
          page_of (some true) (rw (h, e) refl),
        )
      ]

  own_page : is_value s.workspace_mode "mock" ≡ false → ShowsOwn ⊎ SignsIn
  unfolding should_use_mock_workspace
  own_page h =
      let mode = is_value-eq-false s.workspace_mode "mock" h in
      let same : page ≡ with_session c screens areas sooner api mock_snapshot s context =
        page_of (some false) (rw h refl) in
      elim (Bool-cases s.has_claims) [
        | inr e ↦ inr (mode, inl e, same ∙ rw e refl)
        | inl e ↦ elim (Bool-cases (truthy? s.access_token)) [
          | inr k ↦ inr (mode, inr (no_token s.access_token k), same ∙ rw (e, k) refl)
          | inl k ↦
              let (token, known, filled) = a_token s.access_token k in
              inl (mode, e, token, known, filled, same ∙ rw (e, k) (rw known refl))
        ]
      ]

  -- Of a page, one of four holds. In the mock mode outside production the mock workspace is shown,
  -- and in production the page fails because the mode is forbidden there. In any other mode a user
  -- with claims and a token that is not empty is shown what the API gives for it, and the page is
  -- sent to "/login" if there are no claims or no such token.
  pub get_server_workspace_data_lem : ShowsMock ⊎ Refuses ⊎ ShowsOwn ⊎ SignsIn
  get_server_workspace_data_lem = elim (Bool-cases (is_value s.workspace_mode "mock")) [
    | inl h ↦ elim (mock_page h) [ inl m ↦ inl m | inr m ↦ inr (inl m) ]
    | inr h ↦ inr (inr (own_page h))
  ]

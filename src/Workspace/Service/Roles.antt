-- ===== src/Workspace/Service/Roles.antt =====
-- What a member sees whom the API forbids some of the lists.
use Prim.Native.String as Text
use bighead.Common.{
  map_get, ℕ, String, Bool, true, false, not, ◌≡◌, refl, sym, ap, ◌∙◌, subst, Option, none, some,
  List, [], ◌∷◌, truthy, eqb, if◌then◌else◌, ◌==◌, Bool-cases, eq_iff, arith, inl, inr,
}
use text.Mathlib.Text.{starts_with}
use text.Mathlib.TextEquality.{starts_with_iff}
use text.Mathlib.TextLemmas.{prefix-append}
use bighead.Json.{Json, Fields, get}
use bighead.Workspace.Rows.{Conversions, rows_of}
use bighead.Workspace.Answers.{
  >>=-cong, Problem, Result, done, ApiCall, Answer, answered, broken, checked, allowed, require,
  ◌>>=◌, ◌>>◌, is_null, null_error, plain_error, membership_error,
}
use bighead.Workspace.Transport.{
  optional_for_role, load, assemble, in_organization, organization_of, with_organizations, call,
  get_workspace, messages_path, is_readable, room_of, finished,
}
use bighead.Workspace.Snapshot.{nothing_in}

-- What a role may not read, and the list that stands for it.
abbrev pub role_paths : List (String × String)
role_paths =
    ("/v1/approvals", "items")
    ∷ ("/v1/agents", "items")
    ∷ ("/v1/experiments", "items")
    ∷ ("/v1/analytics/summary", "cards")
    ∷ ("/v1/audit/events", "events")
    ∷ []

abbrev forgive : Option String → Answer → Answer
forgive (some key) (answered status body) =
    if eqb status 403 then answered 200 (some (nothing_in key)) else answered status body
forgive _ answer = answer

-- The API as it would answer if nobody were forbidden to read the five lists.
abbrev pub forgiven : (ApiCall → Answer) → ApiCall → Answer
forgiven api k = forgive (map_get k.path role_paths) (api k)

forgiven_one :
    (path key : String) (status : ℕ) (body : Option Json) (b : Bool)
    → eqb status 403 ≡ b
    → allowed
        (nothing_in key)
        (checked path (if b then answered 200 (some (nothing_in key)) else answered status body))
      ≡ allowed (nothing_in key) (checked path (answered status body))
forgiven_one path key status none true h =
    let e : status ≡ 403 = ground (arith, h) in
    subst (λ n. done (nothing_in key) ≡ allowed (nothing_in key) (checked path (answered n none)))
      (sym e) refl
forgiven_one path key status (some body) true h =
    let e : status ≡ 403 = ground (arith, h) in
    subst
      (λ n.
        done (nothing_in key) ≡ allowed (nothing_in key) (checked path (answered n (some body))))
      (sym e) refl
forgiven_one path key status body false h = refl

allowed-forgive :
    (path key : String) (answer : Answer)
    → allowed (nothing_in key) (checked path (forgive (some key) answer))
      ≡ allowed (nothing_in key) (checked path answer)
allowed-forgive path key broken = refl
allowed-forgive path key (answered status body) =
    forgiven_one path key status body (eqb status 403) refl

not_begun : (p t x : String) → starts_with p t ≡ false → (p == Text.◌++◌ t x) ≡ false
not_begun p t x h = elim (Bool-cases (p == Text.◌++◌ t x)) [
  | inl e ↦
      let begun = (starts_with_iff (Text.◌++◌ t x) t).1 (prefix-append t x) in
      let same = ap (λ s. starts_with s t) ((eq_iff p (Text.◌++◌ t x)).0 e) in cc
  | inr e ↦ e
]

module _ (c : Conversions) where
  not_forgiven : (room : String) → map_get (messages_path c room) role_paths ≡ none
  unfolding map_get
  not_forgiven room =
      let rest = Text.◌++◌ (c.encode room) "/messages" in
      rw (not_begun "/v1/approvals" "/v1/rooms/" rest refl) (
        rw (not_begun "/v1/agents" "/v1/rooms/" rest refl) (
          rw (not_begun "/v1/experiments" "/v1/rooms/" rest refl) (
            rw (not_begun "/v1/analytics/summary" "/v1/rooms/" rest refl)
              (rw (not_begun "/v1/audit/events" "/v1/rooms/" rest refl) refl))))

in_organization-same :
    (c : Conversions) (screens : List Json) (areas : Fields) (sooner : Problem → Problem → Problem)
    (ask ask' : String → Result Json)
    → load sooner ask ≡ load sooner ask'
    → ((room : String) → ask (messages_path c room) ≡ ask' (messages_path c room))
    → (rows : List Json) (id : String)
    → in_organization c screens areas sooner ask rows id
      ≡ in_organization c screens areas sooner ask' rows id
unfolding in_organization assemble
in_organization-same c screens areas sooner ask ask' same_load same_room rows id =
    let after = λ (room : String) (m : Result Json).
      if truthy room then m else done (nothing_in "messages") in
    ap (λ m. require (truthy id) membership_error >> m)
      (ap (λ m. m >>= assemble c screens areas ask rows id) same_load
        ∙ >>=-cong (load sooner ask') (assemble c screens areas ask rows id)
            (assemble c screens areas ask' rows id)
            (λ l h.
              ap
                (λ m.
                  require (is_readable l) null_error
                  >> (after (room_of c l) m >>= finished c screens areas rows id l))
                (same_room (room_of c l))))

module _ (api : ApiCall → Answer) (token : String) where
  excused :
      (id : Option String) (path key : String)
      → map_get path role_paths ≡ some key
      → optional_for_role (call (forgiven api) token id) path (nothing_in key)
        ≡ optional_for_role (call api token id) path (nothing_in key)
  unfolding optional_for_role call
  excused id path key h =
      let k : ApiCall = record { path = path; token = token; organization_id = id } in
      ap (λ o. allowed (nothing_in key) (checked path (forgive o (api k)))) h
      ∙ allowed-forgive path key (api k)

  asked :
      (id : Option String) (path : String)
      → map_get path role_paths ≡ none
      → call (forgiven api) token id path ≡ call api token id path
  unfolding call
  asked id path h =
      ap
        (λ o.
          checked path
            (forgive o (api (record { path = path; token = token; organization_id = id }))))
        h

  load-forgiven :
      (sooner : Problem → Problem → Problem) (id : Option String)
      → load sooner (call (forgiven api) token id) ≡ load sooner (call api token id)
  unfolding load map_get
  load-forgiven sooner id = rw (asked id "/v1/rooms" refl) (
      rw (asked id "/v1/tasks" refl) (
        rw (excused id "/v1/approvals" "items" refl) (
          rw (excused id "/v1/agents" "items" refl) (
            rw (asked id "/v1/knowledge/documents" refl) (
              rw (asked id "/v1/crm/leads" refl) (
                rw (excused id "/v1/experiments" "items" refl) (
                  rw (excused id "/v1/analytics/summary" "cards" refl) (
                    rw (excused id "/v1/audit/events" "events" refl)
                      (rw (asked id "/v1/notifications?filter=unread&limit=1" refl) refl)))))))))

  -- A member whom the API forbids (403) some of approvals, agents, experiments, analytics and audit
  -- gets the workspace that an API would give which answers those calls with empty lists.
  pub get_workspace-forgiven :
      (c : Conversions) (screens : List Json) (areas : Fields)
      (sooner : Problem → Problem → Problem) (context options : Option String)
      → get_workspace c screens areas sooner api token context options
        ≡ get_workspace c screens areas sooner (forgiven api) token context options
  unfolding get_workspace with_organizations map_get
  get_workspace-forgiven c screens areas sooner context options =
      let ask = λ (id : String). call api token (some id) in
      let ask' = λ (id : String). call (forgiven api) token (some id) in
      ap
        (λ m.
          require (truthy token) (plain_error "Authenticated workspace requires an access token")
          >> m)
        (>>=-cong (call api token none "/v1/organizations")
            (with_organizations c screens areas sooner api token context options)
            (with_organizations c screens areas sooner (forgiven api) token context options)
            (λ o h.
              let rows = rows_of (get o "organizations") in
              let id = organization_of c context options rows in
              ap (λ m. require (not (is_null o)) null_error >> m)
                (in_organization-same c screens areas sooner (ask id) (ask' id)
                  (sym (load-forgiven sooner (some id)))
                  (λ room. sym (asked (some id) (messages_path c room) (not_forgiven c room))) rows
                  id))
          ∙ ap
              (λ m.
                m
                >>= with_organizations c screens areas sooner (forgiven api) token context options)
              (sym (asked none "/v1/organizations" refl)))

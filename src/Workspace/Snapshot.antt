-- ===== src/Workspace/Snapshot.antt =====
-- apps/web/src/lib/workspace-service.ts: the workspace that the authenticated transport builds from
-- what it has fetched.
use bighead.Common.{
  take, String, Bool, false, not, ◌&&◌, Option, none, some, List, [], ◌∷◌, ◌++◌, map, if◌then◌else◌,
  length, find, ◌==◌,
}
use bighead.Json.{Json, null, num, str, arr, obj, Fields, get, of_list}
use bighead.Json.Numbers.{of_ℕ, is_safe_integer, below}
use bighead.Gateway.{object}
use bighead.Workspace.Rows.{
  Conversions, Label, rows_of, scalar, show, feed, to_options, message_options,
  analytics_drilldowns,
}

abbrev pub has_id : String → Option Json → Bool
has_id id (some (str s)) = s == id
has_id id _ = false

abbrev pub either_text : Option String → Option String → Option String
either_text none b = b
either_text (some a) b = some a

abbrev pub head_or : List String → String → String
head_or [] text = text
head_or (s ∷ ss) text = s

abbrev pub field_of : Option Json → String → Option Json
field_of none key = none
field_of (some row) key = get row key

abbrev pub head_row : List Json → Option Json
head_row [] = none
head_row (row ∷ rows) = some row

-- What `Promise.all` waits for.
pub record Loaded : Type 0 where
  pub rooms : Json
  pub tasks : Json
  pub approvals : Json
  pub agents : Json
  pub documents : Json
  pub leads : Json
  pub experiments : Json
  pub analytics : Json
  pub audit : Json
  pub notifications : Json

abbrev list : List Json → Option Json
list vs = some (arr (of_list vs))

abbrev text : String → Option Json
text s = some (str s)

abbrev pub nothing_in : String → Json
nothing_in key = object ((key, list []) ∷ [])

abbrev pub label : String → String → Label
label name key = record { name = name; key = key }

-- `notifications.unreadCount` if it counts, else `null`.
abbrev pub count_of : Option Json → Json
count_of (some (num n)) = if is_safe_integer n && not (below n 0) then num n else null
count_of _ = null

module _ (c : Conversions) where
  abbrev pub organization_names : List Json → List String
  organization_names rows = map (λ row. show c (get row "name")) rows

  -- `currentOrganization`
  unfoldable pub current_organization : List Json → String → String
  unfolding scalar
  current_organization rows id =
      scalar c (field_of (find (λ row. has_id id (get row "id")) rows) "name")
        (head_or (organization_names rows) id)

  abbrev card : String → List Json → String → Option Json → Json
  card title entries detail tone = object (
      ("title", text title)
      ∷ ("value", text (c.digits (of_ℕ (length entries))))
      ∷ ("detail", text detail)
      ∷ ("tone", tone)
      ∷ [])

  module _ (screens : List Json) (areas : Fields) where
    -- The object that `getWorkspace` returns.
    unfoldable pub snapshot : List Json → String → Loaded → String → Json → Json
    unfolding rows_of show feed to_options message_options analytics_drilldowns current_organization
    snapshot rows id l first_room_id messages =
        let room_feed = feed c (rows_of (get l.rooms "rooms")) (label "Sala" "sala") in
        let task_feed = feed c (rows_of (get l.tasks "items")) (label "Tarefa" "tarefa") in
        let governance_feed =
          feed c (rows_of (get l.approvals "items")) (label "Aprovacao" "aprovacao") in
        object (
          ("organizations", list (map (λ s. str s) (organization_names rows)))
          ∷ ("currentOrganization", text (current_organization rows id))
          ∷ ("currentOrganizationId", text id)
          ∷ ("organizationOptions", list (to_options c rows (label "Organizacao" "organizacao")))
          ∷ (
            "roomOptions",
            list (to_options c (rows_of (get l.rooms "rooms")) (label "Sala" "sala")),
          )
          ∷ (
            "messageOptions",
            list (message_options c (rows_of (get messages "messages")) first_room_id),
          )
          ∷ (
            "taskOptions",
            list (to_options c (rows_of (get l.tasks "items")) (label "Tarefa" "tarefa")),
          )
          ∷ (
            "approvalOptions",
            list (to_options c (rows_of (get l.approvals "items")) (label "Aprovacao" "aprovacao")),
          )
          ∷ (
            "experimentOptions",
            list (
                to_options c (rows_of (get l.experiments "items"))
                  (label "Experimento" "experimento")),
          )
          ∷ ("notifications", some (count_of (get l.notifications "unreadCount")))
          ∷ (
            "commandShortcuts",
            list (str "Criar tarefa" ∷ str "Abrir sala" ∷ str "Revisar aprovacoes" ∷ []),
          )
          ∷ (
            "summaryCards",
            list (
                card "Salas visiveis" room_feed "FastAPI + RLS" (text "accent")
                ∷ card "Tarefas visiveis" task_feed "PostgreSQL local" none
                ∷ card "Aprovacoes" governance_feed "Tenant atual" none
                ∷ []),
          )
          ∷ ("inboxItems", list (take 6 (task_feed ++ governance_feed)))
          ∷ ("accessMoments", list (feed c rows (label "Organizacao" "organizacao")))
          ∷ ("roomMoments", list room_feed)
          ∷ ("taskMoments", list task_feed)
          ∷ ("governanceMoments", list governance_feed)
          ∷ (
            "automationMoments",
            list (feed c (rows_of (get l.agents "items")) (label "Agente" "agente")),
          )
          ∷ (
            "knowledgeMoments",
            list (feed c (rows_of (get l.documents "documents")) (label "Documento" "documento")),
          )
          ∷ (
            "commercialMoments",
            list (feed c (rows_of (get l.leads "items")) (label "Lead" "lead")),
          )
          ∷ (
            "analyticsMoments",
            list (feed c (rows_of (get l.analytics "cards")) (label "Metrica" "metrica")),
          )
          ∷ ("analyticsDrilldowns", list (analytics_drilldowns c l.analytics))
          ∷ (
            "adminMoments",
            list (feed c (rows_of (get l.audit "events")) (label "Auditoria" "auditoria")),
          )
          ∷ ("screens", list screens)
          ∷ ("areas", some (obj areas))
          ∷ [])

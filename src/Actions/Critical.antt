-- ===== src/Actions/Critical.antt =====
-- apps/web/src/app/actions/critical-mutations.ts: the eleven actions.
use bighead.Common.{
  String, Bool, true, false, Option, none, some, List, [], ◌∷◌, map, if◌then◌else◌, or_empty,
  filter, ◌==◌, truthy,
}
use bighead.Json.{Json, null, bool, num, str, arr, get, items, of_list}
use bighead.Json.Numbers.{of_ℕ}
use bighead.Gateway.{error, object, text_or_null}
use bighead.Gateway.Mutation.{MutationResult}
use bighead.Actions.{
  ◌++ₜ◌, Effect, revalidates, selects, Action, gives, Form, Host, text, mutation_result_from_error,
  succeeded, refused, ask, post, patch, or_text, member,
}

abbrev pub is_null : Json → Bool
is_null null = true
is_null _ = false

abbrev pub is_missing : Option Json → Bool
is_missing none = true
is_missing (some v) = is_null v

abbrev texts : List String → Option Json
texts ss = some (arr (of_list (map (λ s. str s) ss)))

abbrev pub same_text : Option Json → String → Bool
same_text (some (str s)) t = s == t
same_text _ t = false

-- The first pending item of a page, and whether the search comes to an item that has no members.
pub data Search : Type 0 where
  absent unreadable : Search
  pending : Json → Search

abbrev pub pending_in : List Json → Search
pending_in [] = absent
pending_in (v ∷ vs) =
    let rest = pending_in vs in
    if is_null v
    then unreadable
    else if same_text (get v "status") "pending"
    then pending v
    else rest

abbrev pub pending_of : Option Json → Search
pending_of (some (arr vs)) = pending_in (items vs)
pending_of _ = unreadable

module _ (h : Host) (form : Form) where
  -- A `TypeError` that the `catch` makes the result, after these effects.
  abbrev pub broken : List Effect → Action
  broken effects = gives (mutation_result_from_error (error h.type_error)) effects

  abbrev pub organization : String
  organization = text form "organizationId"

  abbrev pub key : Option String
  key = some (or_text (text form "idempotencyKey") h.random_uuid)

  -- What `shouldUseMockWorkspace` decides.
  abbrev pub unless_mock : Option Bool → MutationResult → Action → Action
  unless_mock none r a =
      gives (mutation_result_from_error (error "Mock workspace mode is forbidden in production")) []
  unless_mock (some true) r a = gives r []
  unless_mock (some false) r a = a

  unfoldable pub switch_tenant : Action
  unfolding text ask mutation_result_from_error
  switch_tenant =
      ask true
        (record {
          path = "/v1/organizations/" ++ₜ h.encode organization ++ₜ "/switch";
          method = "POST";
          organization_id = "";
          idempotency = none;
          payload = none;
        })
        (λ switched.
          if is_null switched
          then broken []
          else if same_text (get switched "organizationId") organization
          then gives (succeeded 200 "Contexto da organizacao alterado com seguranca." none)
              (selects organization ∷ revalidates "/" ∷ [])
          else gives (refused 403 "Organizacao indisponivel para esta conta.") [])

  unfoldable pub create_room : Action
  unfolding text ask mutation_result_from_error
  create_room =
      ask true
        (post "/v1/rooms" organization none (
          ("name", some (str (text form "name")))
          ∷ ("description", text_or_null (text form "description"))
          ∷ ("isPrivate", some (bool (or_empty (form.value "isPrivate") == "on")))
          ∷ []))
        (λ room.
          if is_null room
          then broken (revalidates "/operacao/salas" ∷ [])
          else gives
              (succeeded 201 ("Sala " ++ₜ h.show (get room "name") ++ₜ " criada.")
                (some (object (("roomId", get room "id") ∷ []))))
              (revalidates "/operacao/salas" ∷ []))

  unfoldable pub create_message : Action
  unfolding text ask mutation_result_from_error
  create_message =
      let room_id = text form "roomId" in
      let delivered = λ (id : Option Json).
        succeeded 201 "Mensagem entregue e reconciliada."
          (some (object (("messageId", id) ∷ ("roomId", some (str room_id)) ∷ []))) in
      unless_mock h.mock
        (delivered (some (str ("mock-" ++ₜ or_text (text form "clientId") "message"))))
        (ask true
          (post ("/v1/rooms/" ++ₜ h.encode room_id ++ₜ "/messages") organization none (
            ("body", some (str (text form "body")))
            ∷ ("clientId", some (str (or_text (text form "clientId") h.random_uuid)))
            ∷ []))
          (λ message.
            if is_null message
            then broken (revalidates "/colaboracao/sala" ∷ [])
            else gives (delivered (get message "id")) (revalidates "/colaboracao/sala" ∷ [])))

  abbrev dependencies : Option Json
  dependencies = texts (filter truthy (form.values "dependencies"))

  unfoldable pub create_task : Action
  unfolding text ask mutation_result_from_error
  create_task =
      unless_mock h.mock
        (succeeded 201 ("Tarefa " ++ₜ or_text (text form "title") (text form "goal") ++ₜ " criada.")
          (some
            (object (("taskId", some (str "mock-task")) ∷ ("version", some (num (of_ℕ 1))) ∷ []))))
        (ask true
          (post "/v1/tasks" organization key (
            ("goal", some (str (text form "goal")))
            ∷ ("title", text_or_null (text form "title"))
            ∷ ("risk", some (str (or_text (text form "risk") "low")))
            ∷ ("assigneeId", text_or_null (text form "assigneeId"))
            ∷ ("roomId", text_or_null (text form "roomId"))
            ∷ ("sourceMessageId", text_or_null (text form "sourceMessageId"))
            ∷ ("dependencies", dependencies)
            ∷ []))
          (λ response.
            let task = get response "task" in
            if is_missing task
            then broken (revalidates "/operacao/tarefas" ∷ [])
            else gives
                (succeeded 201 ("Tarefa " ++ₜ h.show (member task "title") ++ₜ " criada.") (
                  some (
                    object
                      (("taskId", member task "id") ∷ ("version", member task "version") ∷ []))))
                (revalidates "/operacao/tarefas" ∷ [])))

  unfoldable pub replace_task_dependencies : Action
  unfolding text ask mutation_result_from_error
  replace_task_dependencies =
      ask true
        (patch ("/v1/tasks/" ++ₜ h.encode (text form "taskId") ++ₜ "/dependencies") organization (
          ("dependencies", dependencies)
          ∷ ("expectedVersion", some (num (h.to_number (text form "expectedVersion"))))
          ∷ []))
        (λ task.
          if is_null task
          then broken (revalidates "/operacao/tarefa-detalhe" ∷ [])
          else gives
              (succeeded 200 "Dependencias atualizadas."
                (some (object (("taskId", get task "id") ∷ ("version", get task "version") ∷ []))))
              (revalidates "/operacao/tarefa-detalhe" ∷ []))

  unfoldable pub decide : String → Option Json → Action
  unfolding text ask mutation_result_from_error
  decide approval_id expected_round =
      ask true
        (post ("/v1/approvals/" ++ₜ h.encode approval_id ++ₜ "/decision") organization none (
          ("decision", some (str (text form "decision")))
          ∷ ("comment", text_or_null (text form "comment"))
          ∷ ("expectedRound", expected_round)
          ∷ []))
        (λ answer.
          gives (succeeded 200 "Decisao registrada de forma auditavel." none)
            (revalidates "/governanca/aprovacao-detalhe" ∷ []))

  abbrev pub decide_pending : Search → Action
  decide_pending absent = gives (refused 409 "Nao ha aprovacao pendente para decidir.") []
  decide_pending unreadable = broken []
  decide_pending (pending item) = decide (h.show (get item "id")) (get item "round")

  unfoldable pub decide_approval : Action
  unfolding text ask mutation_result_from_error decide
  decide_approval =
      let approval_id = text form "approvalId" in
      unless_mock h.mock
        (succeeded 200 ("Decisao " ++ₜ text form "decision" ++ₜ " registrada de forma auditavel.")
          none)
        (if truthy approval_id
          then decide approval_id
              (some (num (h.to_number (or_text (text form "expectedRound") "1"))))
          else ask true
              (record {
                path = "/v1/approvals";
                method = "GET";
                organization_id = organization;
                idempotency = none;
                payload = none;
              })
              (λ page. decide_pending (pending_of (get page "items"))))

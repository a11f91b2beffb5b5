-- ===== src/Gateway/TaskRoutes.antt =====
-- apps/web/src/app/api/tasks/route.ts and tasks/[taskId]/route.ts.
use Prim.Native.String as Text
use bighead.Tasks.{is_task_status}
use bighead.Common.{
  String, not, ◌&&◌, ◌||◌, Option, some, List, [], ◌∷◌, leb, or_empty, trim, utf16_length, truthy,
}
use bighead.Json.{Json, str, arr, nil, get, as_text, trimmed, items, of_list}
use bighead.Gateway.{
  Platform, Request, Outcome, object, json, detail, require, tenant_id, is_trusted, is_entity_id,
  text_or_null, ask_get, ask_with, param_of, kept,
}

abbrev strings : List Json → List Json
strings [] = []
strings (str s ∷ vs) = str s ∷ strings vs
strings (v ∷ vs) = strings vs

-- `Array.isArray(value) ? value.filter((item) => typeof item === "string") : []`
abbrev strings_of : Option Json → Json
strings_of (some (arr vs)) = arr (of_list (strings (items vs)))
strings_of _ = arr nil

abbrev or_low : Option Json → Json
or_low (some (str s)) = str s
or_low _ = str "low"

module _ (p : Platform) where
  unfoldable pub get_tasks : Request → Outcome
  unfolding require tenant_id is_task_status kept ask_get
  get_tasks request =
      let status = param_of request "status" in
      require (truthy (tenant_id request)) (detail 400 "Nenhuma organizacao ativa.") (
        require (not (truthy status) || is_task_status (some status))
          (detail 422 "Filtro de estado invalido.")
          (ask_get
            (Text.◌++◌ "/v1/tasks?" (
              p.form (
                ("limit", "100")
                ∷ kept request
                    ("status" ∷ "ownerId" ∷ "assigneeId" ∷ "risk" ∷ "slaStatus" ∷ "roomId" ∷ []))))
            (tenant_id request) "Operacao nao concluida."))

  unfoldable pub post_task : Request → Outcome
  unfolding require tenant_id is_trusted ask_with utf16_length
  post_task request =
      let key = trim (or_empty request.idempotency_key) in
      let goal = trimmed (get request.body "goal") in
      require (is_trusted p request) (detail 403 "Origem nao autorizada.") (
        require (truthy (tenant_id request)) (detail 400 "Nenhuma organizacao ativa.") (
          require (truthy key && leb (utf16_length key) 200) (detail 422 "Chave de envio invalida.")
            (require (truthy goal && leb (utf16_length goal) 10000)
              (detail 422 "Informe um objetivo valido.")
              (ask_with "/v1/tasks" "POST" (tenant_id request) (some key)
                (object (
                  ("goal", some (str goal))
                  ∷ ("title", text_or_null (trimmed (get request.body "title")))
                  ∷ ("risk", some (or_low (get request.body "risk")))
                  ∷ ("assigneeId", text_or_null (trimmed (get request.body "assigneeId")))
                  ∷ ("roomId", text_or_null (as_text (get request.body "roomId")))
                  ∷ ("sourceMessageId", text_or_null (as_text (get request.body "sourceMessageId")))
                  ∷ ("slaAt", text_or_null (as_text (get request.body "slaAt")))
                  ∷ ("dependencies", some (strings_of (get request.body "dependencies")))
                  ∷ []))
                (json 201) "Operacao nao concluida."))))

  unfoldable pub get_task : Request → String → Outcome
  unfolding require tenant_id is_entity_id ask_get
  get_task request task_id =
      require (truthy (tenant_id request)) (detail 400 "Nenhuma organizacao ativa.") (
        require (is_entity_id task_id) (detail 422 "Tarefa invalida.") (
          ask_get (Text.◌++◌ "/v1/tasks/" (p.encode task_id)) (tenant_id request)
            "Falha ao carregar tarefa."))

-- ===== src/Gateway/Mutation.antt =====
-- apps/web/src/lib/mutation-result.ts, apps/web/src/lib/transition-task-client.ts and
-- apps/web/src/app/api/tasks/[taskId]/transition/route.ts: the step of a task, from the page to the
-- upstream API and back.
use Prim.Native.String as Text
pub mod Requests
pub mod Answers
use bighead.Common.{
  ℕ, ◌+◌, String, Bool, true, false, not, ◌&&◌, Option, none, some, [], ◌∷◌, ◌++◌, ltb, leb, eqb,
  if◌then◌else◌, or_empty, utf16_length, ◌==◌, truthy, truthy?,
}
use bighead.Json.{Json, null, bool, num, str, get, trimmed, is_object}
use bighead.Json.Numbers.{of_ℕ}
use bighead.Tasks.{is_task_status}
use bighead.Gateway.{
  Request, Reply, Outcome, asks, object, json, fault_status, fault_message, require, settle,
  tenant_id, trusted_origin, is_entity_id, is_integer_from, text_or_null,
}

pub record MutationResult : Type 0 where
  pub ok : Bool
  pub message : String
  pub status : ℕ
  pub data_of : Option Json

abbrev failure_message : ℕ → Option String → String
failure_message status detail =
    if eqb status 401
    then "Sua sessao expirou. Entre novamente."
    else if eqb status 403
    then "Voce nao tem permissao para esta operacao."
    else if eqb status 409
    then "O registro mudou ou esta operacao ja foi aplicada. Recarregue e tente novamente."
    else if leb 500 status
    then "Servico indisponivel. Tente novamente sem repetir a operacao."
    else if truthy? detail
    then or_empty detail
    else "Operacao invalida."

unfoldable pub mutation_failure : ℕ → Option String → MutationResult
mutation_failure status detail = record {
  ok = false;
  message = failure_message status detail;
  status = status;
  data_of = none;
}

-- `response(result)`
unfoldable pub response : MutationResult → Reply
response result = json result.status (
    object (
      ("ok", some (bool result.ok))
      ∷ ("status", some (num (of_ℕ result.status)))
      ∷ ("message", some (str result.message))
      ∷ ("data", result.data_of)
      ∷ []))

-- `reason !== null && reason !== undefined && (typeof reason !== "string" || reason.length > 4_000)`
unfoldable pub is_bad_reason : Option Json → Bool
unfolding utf16_length
is_bad_reason none = false
is_bad_reason (some null) = false
is_bad_reason (some (str s)) = ltb 4000 (utf16_length s)
is_bad_reason _ = true

abbrev reason_or_null : Option Json → Option Json
reason_or_null (some (str s)) = text_or_null s
reason_or_null _ = some null

-- What the template makes of a JSON value is `show`. A result without a task makes the handler
-- throw, and its `catch` answers 500.
unfoldable pub moved : (show : Option Json → String) → Option Json → MutationResult
unfolding mutation_failure
moved show none = mutation_failure 500 none
moved show (some null) = mutation_failure 500 none
moved show (some task) = record {
  ok = true;
  status = 200;
  message = Text.◌++◌ "Tarefa movida para " (Text.◌++◌ (show (get task "status")) ".");
  data_of = some (
      object (
        ("taskId", get task "id")
        ∷ ("version", get task "version")
        ∷ ("status", get task "status")
        ∷ []));
}

module _ (encode : String → String) (show : Option Json → String)
    (origin_of : String → Option String) (app_url : Option String) where
  unfoldable pub post_transition : Request → String → Outcome
  unfolding mutation_failure response is_bad_reason moved require settle tenant_id trusted_origin
      is_entity_id is_integer_from is_task_status
  post_transition request task_id =
      let organization_id = tenant_id request in
      let target_state = trimmed (get request.body "targetState") in
      let expected_version = get request.body "expectedVersion" in
      let reason = get request.body "reason" in
      require (trusted_origin origin_of app_url request) (response (mutation_failure 403 none)) (
        require (truthy organization_id)
          (response (mutation_failure 400 (some "Tenant ativo obrigatorio.")))
          (require (is_entity_id task_id)
            (response (mutation_failure 422 (some "Tarefa invalida.")))
            (require
              (is_task_status (some target_state)
                && (not (target_state == "new") && is_integer_from 1 expected_version))
              (response (mutation_failure 422 (some "Transicao ou versao invalida.")))
              (require (not (is_bad_reason reason))
                (response (mutation_failure 422 (some "Motivo invalido.")))
                (asks
                  (record {
                    path = Text.◌++◌ "/v1/tasks/" (Text.◌++◌ (encode task_id) "/transition");
                    method = "POST";
                    organization_id = organization_id;
                    idempotency = none;
                    payload = some (
                        object (
                          ("targetState", some (str target_state))
                          ∷ ("expectedVersion", expected_version)
                          ∷ ("reason", reason_or_null reason)
                          ∷ []));
                  })
                  (settle (λ result. response (moved show (get result "task")))
                    (λ f. response (mutation_failure (fault_status f) (fault_message f)))))))))

abbrev or_null_json : Option Json → Json
or_null_json none = null
or_null_json (some v) = v

abbrev is_ok : Option Json → Bool
is_ok (some (bool b)) = true
is_ok _ = false

abbrev is_status : Option Json → Bool
is_status (some (num n)) = true
is_status _ = false

abbrev is_message : Option Json → Bool
is_message (some (str s)) = true
is_message _ = false

-- `isMutationResult`
unfoldable pub is_mutation_result : Json → Bool
is_mutation_result value =
    is_object value
    && (is_ok (get value "ok")
        && (is_status (get value "status") && is_message (get value "message")))

-- The answer as `transitionTask` reads it: the body if it is a result, else a failure of its own.
unfoldable pub read_result : Reply → Json
unfolding is_mutation_result response mutation_failure
read_result reply =
    let value = or_null_json reply.answer in
    if is_mutation_result value
    then value
    else or_null_json
        (response (mutation_failure reply.status (some "Resposta invalida da API."))).answer

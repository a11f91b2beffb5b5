-- ===== src/Gateway/Mutation/Answers.antt =====
-- When the step of a task is asked of the upstream, and what every answer of the route is.
use Prim.Native.String as Text
use bighead.Common.{
  String, Bool, true, false, not, ◌&&◌, ◌≡◌, refl, ◌⊎◌, inl, inr, Option, none, some, [], ◌∷◌,
  subst, ◌==◌, truthy,
}
use bighead.Json.{Json, num, str, get, trimmed}
use bighead.Json.Numbers.{of_ℕ}
use bighead.Tasks.{is_task_status}
use bighead.Gateway.{
  run, Request, Fault, Call, Reply, Outcome, asks, object, fault_status, fault_message, require,
  settle, tenant_id, trusted_origin, is_entity_id, is_integer_from,
}
use bighead.Gateway.Mutation.{
  MutationResult, mutation_failure, response, is_bad_reason, moved, post_transition,
  is_mutation_result, read_result, reason_or_null,
}

-- The call that moves a task.
abbrev pub move_call : (encode : String → String) → Request → String → Call
move_call encode request task_id = record {
  path = Text.◌++◌ "/v1/tasks/" (Text.◌++◌ (encode task_id) "/transition");
  method = "POST";
  organization_id = tenant_id request;
  idempotency = none;
  payload = some (
      object (
        ("targetState", some (str (trimmed (get request.body "targetState"))))
        ∷ ("expectedVersion", get request.body "expectedVersion")
        ∷ ("reason", reason_or_null (get request.body "reason"))
        ∷ []));
}

-- The page takes the answer for a result as it stands, and its status is that of the answer.
abbrev pub IsRead : Reply → Type 0
IsRead r =
    (r.answer ≡ some (read_result r)) × (get (read_result r) "status" ≡ some (num (of_ℕ r.status)))

IsRead-response : (m : MutationResult) → IsRead (response m)
unfolding response read_result is_mutation_result
IsRead-response m = (refl, refl)

module _ (encode : String → String) (show : Option Json → String)
    (origin_of : String → Option String) (app_url : Option String) where
  abbrev IsResponse : Reply → Type 0
  IsResponse r = (m : MutationResult) × (response m ≡ r)

  require-IsResponse :
      (u : Json ⊎ Fault) (b : Bool) (m : MutationResult) (o : Outcome)
      → IsResponse (run u o)
      → IsResponse (run u (require b (response m) o))
  unfolding require
  require-IsResponse u true m o h = h
  require-IsResponse u false m o h = (m, refl)

  settled :
      (u : Json ⊎ Fault)
      → IsResponse (
          settle
            (λ result. response (moved show (get result "task")))
            (λ f. response (mutation_failure (fault_status f) (fault_message f)))
            u)
  unfolding settle
  settled (inl v) = (moved show (get v "task"), refl)
  settled (inr f) = (mutation_failure (fault_status f) (fault_message f), refl)

  gates_run :
      (u : Json ⊎ Fault) (a b c p e : Bool) (m1 m2 m3 m4 m5 : MutationResult) (o : Outcome)
      → IsResponse (run u o)
      → IsResponse (
          run u (
            require a (response m1) (
              require b
                (response m2)
                (require c (response m3) (require p (response m4) (require e (response m5) o))))))
  gates_run u a b c p e m1 m2 m3 m4 m5 o h =
      let o5 = require e (response m5) o in
      let o4 = require p (response m4) o5 in
      let o3 = require c (response m3) o4 in
      let o2 = require b (response m2) o3 in
      require-IsResponse u a m1 o2 (
        require-IsResponse u b m2 o3 (
          require-IsResponse u c m3 o4
            (require-IsResponse u p m4 o5 (require-IsResponse u e m5 o h))))

  answered :
      (request : Request) (task_id : String) (u : Json ⊎ Fault)
      → IsResponse (run u (post_transition encode show origin_of app_url request task_id))
  unfolding post_transition
  answered request task_id u =
      gates_run u (trusted_origin origin_of app_url request) (truthy (tenant_id request))
        (is_entity_id task_id)
        (is_task_status (some (trimmed (get request.body "targetState")))
          && (not (trimmed (get request.body "targetState") == "new")
              && is_integer_from 1 (get request.body "expectedVersion")))
        (not (is_bad_reason (get request.body "reason"))) (mutation_failure 403 none)
        (mutation_failure 400 (some "Tenant ativo obrigatorio."))
        (mutation_failure 422 (some "Tarefa invalida."))
        (mutation_failure 422 (some "Transicao ou versao invalida."))
        (mutation_failure 422 (some "Motivo invalido."))
        (asks (move_call encode request task_id) (
          settle (λ result. response (moved show (get result "task")))
            (λ f. response (mutation_failure (fault_status f) (fault_message f)))))
        (settled u)

  -- Whatever the request is and whatever the upstream gives, the page takes the answer of the route
  -- for a result as it stands, and the status in it is that of the answer.
  pub post_transition-IsRead :
      (request : Request) (task_id : String) (u : Json ⊎ Fault)
      → IsRead (run u (post_transition encode show origin_of app_url request task_id))
  post_transition-IsRead request task_id u =
      let (m, e) = answered request task_id u in subst IsRead e (IsRead-response m)

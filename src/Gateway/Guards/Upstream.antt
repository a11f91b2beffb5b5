-- ===== src/Gateway/Guards/Upstream.antt =====
-- What holds of every route: which requests reach the upstream, and as whom.
use bighead.Common.{
  ℕ, String, Bool, true, false, not, ◌&&◌, ◌||◌, ◌≡◌, refl, sym, ap, ◌∙◌, ◌⊎◌, inr, Option, none,
  some, leb, any, some_inj, or_empty, trim, utf16_length, ◌==◌, truthy,
}
use bighead.Json.{Json, get, as_text, trimmed}
use bighead.Json.Numbers.{Number, is_integer, below}
use bighead.Gateway.{
  Platform, Request, Fault, api_error, error, thrown, Call, Reply, Outcome, asks, calls, run,
  failure, fault_status, require, settle, tenant_id, is_trusted, is_entity_id, is_integer_from,
  ask_get, ask_with,
}
use bighead.Gateway.TaskRoutes.{get_tasks, post_task, get_task}
use bighead.Gateway.Approvals.{decisions, get_approvals, get_approval, get_decisions, post_decision}
use bighead.Gateway.Agents.{trimmed?, get_agents, post_agent, get_agent, patch_agent, delete_agent}
use bighead.Gateway.Rooms.{get_rooms, post_room, get_files, get_members, get_messages, post_message}
use bighead.Gateway.Commercial.{
  get_leads, get_lead, get_pipeline, post_follow_up, post_stage, stages, is_date, is_amount,
  is_probability, number_or_null,
}
use bighead.Gateway.Search.{post_search, get_records}
use bighead.Gateway.Mutation.{response, mutation_failure, post_transition, is_bad_reason}
use bighead.Gateway.ScreenRules.{unless_mock, post_screen_rule}
use bighead.Tasks.{is_task_status}
use bighead.Gateway.Guards.{
  list_leads, show_pipeline, search, show_records, command_screen, show_lead, follow_up, set_stage,
  Route, list_tasks, create_task, list_approvals, list_agents, create_agent, list_rooms,
  create_room, show_task, move_task, show_approval, show_decisions, decide, show_agent,
  change_agent, archive_agent, show_files, show_members, show_messages, send_message, checks_origin,
  serve,
}

-- What is asked of the upstream is asked for this organization, and only under both conditions.
record Asks (organization_id : String) (a b : Bool) (o : Outcome) : Type 0 where
  pub sent :
      (c : Call)
      → calls o ≡ some c
      → (c.organization_id ≡ organization_id) × (a ≡ true) × (b ≡ true)
  pub fails : (c : Call) (f : Fault) → calls o ≡ some c → (run (inr f) o).status ≡ fault_status f

module _ {org : String} where
  once :
      (call : Call) (k : Json ⊎ Fault → Reply)
      → call.organization_id ≡ org
      → ((f : Fault) → (k (inr f)).status ≡ fault_status f)
      → Asks org true true (asks call k)
  once call k e d = record {
    fails = λ c f h. d f;
    sent = λ c h. (ap (λ x. x.organization_id) (sym (some_inj h)) ∙ e, refl, refl);
  }

  under :
      {a b : Bool} (g : Bool) (r : Reply) {o : Outcome}
      → Asks org a b o
      → Asks org a b (require g r o)
  unfolding require
  under true r h = h
  under false r h = record { sent = λ c e. cc; fails = λ c f e. cc }

  of_tenant :
      {b : Bool} (a : Bool) (r : Reply) {o : Outcome}
      → Asks org true b o
      → Asks org a b (require a r o)
  unfolding require
  of_tenant true r h = h
  of_tenant false r h = record { sent = λ c e. cc; fails = λ c f e. cc }

  of_tenant_and :
      {b : Bool} (a d : Bool) (r : Reply) {o : Outcome}
      → Asks org true b o
      → Asks org a b (require (a && d) r o)
  unfolding require
  of_tenant_and true true r h = h
  of_tenant_and true false r h = record { sent = λ c e. cc; fails = λ c f e. cc }
  of_tenant_and false d r h = record { sent = λ c e. cc; fails = λ c f e. cc }

  of_origin :
      {a : Bool} (b : Bool) (r : Reply) {o : Outcome}
      → Asks org a true o
      → Asks org a b (require b r o)
  unfolding require
  of_origin true r h = h
  of_origin false r h = record { sent = λ c e. cc; fails = λ c f e. cc }

  reads : (path fallback : String) → Asks org true true (ask_get path org fallback)
  unfolding ask_get settle failure
  reads path fallback = once _ _ refl (λ f. refl)

  writes :
      (path method : String) (key : Option String) (v : Json) (k : Json → Reply) (fallback : String)
      → Asks org true true (ask_with path method org key v k fallback)
  unfolding ask_with settle failure
  writes path method key v k fallback = once _ _ refl (λ f. refl)

unmocked :
    {org : String} {a b : Bool} (mock : Option Bool) {o : Outcome}
    → Asks org a b o
    → Asks org a b (unless_mock mock o)
unmocked none h = record { sent = λ c e. cc; fails = λ c f e. cc }
unmocked (some true) h = record { sent = λ c e. cc; fails = λ c f e. cc }
unmocked (some false) h = h

module _ (p : Platform) (number_of : Option String → Number) (digits : Number → String)
    (show : Option Json → String) (type_error : String) where
  asked :
      (r : Route) (request : Request)
      → Asks
          (tenant_id request)
          (truthy (tenant_id request))
          (not (checks_origin r) || is_trusted p request)
          (serve p number_of digits show type_error r request)
  unfolding serve post_screen_rule get_leads get_lead get_pipeline post_follow_up post_stage
      post_search get_records get_tasks post_task get_task get_approvals get_approval get_decisions
      post_decision get_agents post_agent get_agent patch_agent delete_agent get_rooms post_room
      get_files get_members get_messages post_message post_transition is_trusted settle failure
      response mutation_failure
  asked list_leads request = of_tenant _ _ (reads _ _)
  asked show_pipeline request = of_tenant _ _ (reads _ _)
  asked (show_lead id) request = of_tenant _ _ (under _ _ (reads _ _))
  asked search request = of_tenant _ _ (under _ _ (once _ _ refl (λ f. refl)))
  asked show_records request = of_tenant_and _ _ _ (once _ _ refl (λ f. refl))
  asked (follow_up id) request = of_origin _ _ (
      of_tenant _ _ (
        under
          (is_entity_id id
            && (truthy (trim (or_empty request.idempotency_key))
                && leb (utf16_length (trim (or_empty request.idempotency_key))) 200))
          _
          (under
            ((truthy (trimmed (get request.body "action"))
                && leb (utf16_length (trimmed (get request.body "action"))) 2000)
              && (is_date (p.iso_of (as_text (get request.body "dueAt")))
                  && leb (utf16_length (trimmed (get request.body "notes"))) 10000))
            _ (writes _ _ _ _ _ _))))
  asked (set_stage id) request = of_origin _ _ (
      of_tenant _ _ (
        under (is_entity_id id) _ (
          under
            (any (λ s. s == as_text (get request.body "targetStage")) stages
              && (is_amount (number_or_null p.to_number (get request.body "amount"))
                  && is_probability (number_or_null p.to_number (get request.body "probability"))))
            _ (writes _ _ _ _ _ _))))
  asked command_screen request =
      under _ _ (unmocked p.mock_mode (of_tenant _ _ (once _ _ refl (λ f. refl))))
  asked list_tasks request = of_tenant _ _ (under _ _ (reads _ _))
  asked list_approvals request = of_tenant _ _ (reads _ _)
  asked list_agents request = of_tenant _ _ (reads _ _)
  asked list_rooms request = of_tenant _ _ (reads _ _)
  asked (show_task id) request = of_tenant _ _ (under _ _ (reads _ _))
  asked (show_approval id) request = of_tenant _ _ (under _ _ (reads _ _))
  asked (show_decisions id) request = of_tenant _ _ (under _ _ (reads _ _))
  asked (show_agent id) request = of_tenant _ _ (under _ _ (reads _ _))
  asked (show_files id) request = of_tenant_and _ _ _ (reads _ _)
  asked (show_members id) request = of_tenant_and _ _ _ (reads _ _)
  asked (show_messages id) request = of_tenant_and _ _ _ (once _ _ refl (λ f. refl))
  asked create_room request = of_tenant _ _ (under _ _ (writes _ _ _ _ _ _))
  asked (send_message id) request = of_tenant_and _ _ _ (under _ _ (writes _ _ _ _ _ _))
  asked create_task request = of_origin _ _ (
      of_tenant _ _ (
        under
          (truthy (trim (or_empty request.idempotency_key))
            && leb (utf16_length (trim (or_empty request.idempotency_key))) 200)
          _
          (under
            (truthy (trimmed (get request.body "goal"))
              && leb (utf16_length (trimmed (get request.body "goal"))) 10000)
            _ (writes _ _ _ _ _ _))))
  asked create_agent request = of_origin _ _ (of_tenant _ _ (under _ _ (writes _ _ _ _ _ _)))
  asked (decide id) request = of_origin _ _ (
      of_tenant _ _ (
        under (is_entity_id id) _ (
          under
            (any (λ d. d == as_text (get request.body "decision")) decisions
              && (is_integer_from 1 (get request.body "expectedRound")
                  && leb (utf16_length (trimmed (get request.body "comment"))) 10000))
            _ (writes _ _ _ _ _ _))))
  asked (change_agent id) request = of_origin _ _ (
      of_tenant _ _ (
        under (is_entity_id id) _ (
          under (is_integer_from 0 (get request.body "expectedVersion")) _ (
            under (elim (trimmed? (get request.body "prompt")) [ none ↦ true | some s ↦ truthy s ])
              _ (writes _ _ _ _ _ _)))))
  asked (archive_agent id) request = of_origin _ _ (
      of_tenant _ _ (
        under (is_entity_id id) _ (
          under
            (is_integer (number_of (request.search_param "expectedVersion"))
              && not (below (number_of (request.search_param "expectedVersion")) 1))
            _ (once _ _ refl (λ f. refl)))))
  asked (move_task id) request = of_origin _ _ (
      of_tenant _ _ (
        under (is_entity_id id) _ (
          under
            (is_task_status (some (trimmed (get request.body "targetState")))
              && (not (trimmed (get request.body "targetState") == "new")
                  && is_integer_from 1 (get request.body "expectedVersion")))
            _
            (under (not (is_bad_reason (get request.body "reason"))) _
              (once _ _ refl (λ f. refl))))))

  -- Whatever the route and the request, the upstream is asked only for the tenant of the request,
  -- only if there is one, and, on the routes that change tasks, approvals, agents, leads or
  -- opportunities, only if the
  -- origin of the request is trusted.
  pub serve-IsGuarded :
      (r : Route) (request : Request) (c : Call)
      → calls (serve p number_of digits show type_error r request) ≡ some c
      → (c.organization_id ≡ tenant_id request)
        × (truthy (tenant_id request) ≡ true)
        × ((not (checks_origin r) || is_trusted p request) ≡ true)
  serve-IsGuarded r request c = (asked r request).sent c

  -- When the upstream fails a request, every route answers with the status of the upstream's error,
  -- and with 500 for any other error and for a thrown value that is none.
  pub serve-fails :
      (r : Route) (request : Request) (c : Call) (status : ℕ) (message : String)
      → calls (serve p number_of digits show type_error r request) ≡ some c
      → let answers : Fault → ℕ =
          λ f. (run (inr f) (serve p number_of digits show type_error r request)).status in
        (answers (api_error status message) ≡ status)
        × (answers (error message) ≡ 500)
        × (answers thrown ≡ 500)
  serve-fails r request c status message h =
      let fails : (f : Fault) → _ ≡ fault_status f = λ f. (asked r request).fails c f h in
      (fails (api_error status message), fails (error message), fails thrown)

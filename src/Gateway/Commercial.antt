-- ===== src/Gateway/Commercial.antt =====
-- apps/web/src/app/api/commercial/: leads, their follow-ups, the pipeline, and the stage of an
-- opportunity.
use Prim.Native.String as Text
use bighead.Common.{
  String, Bool, true, false, not, ◌&&◌, Option, none, some, List, [], ◌∷◌, leb, if◌then◌else◌, any,
  or_empty, trim, utf16_length, ◌==◌, truthy,
}
use bighead.Json.{Json, null, num, str, obj, end, get, as_text, trimmed}
use bighead.Json.Numbers.{Number, below, above, is_finite}
use bighead.Gateway.{
  Platform, Request, Outcome, object, json, detail, require, tenant_id, is_trusted, is_entity_id,
  text_or_null, ask_get, ask_with, kept,
}

abbrev pub stages : List String
stages = "discovery" ∷ "qualification" ∷ "proposal" ∷ "negotiation" ∷ "won" ∷ "lost" ∷ []

abbrev is_empty : Json → Bool
is_empty (str s) = not (truthy s)
is_empty _ = false

abbrev pub is_date : Option String → Bool
is_date none = false
is_date (some s) = true

module _ (to_number : Json → Number) where
  -- `value === "" || value == null ? null : Number(value)`
  abbrev pub number_or_null : Option Json → Option Number
  number_or_null none = none
  number_or_null (some null) = none
  number_or_null (some v) = if is_empty v then none else some (to_number v)

-- The truth value of `amount === null || (Number.isFinite(amount) && amount > 0)`
abbrev pub is_amount : Option Number → Bool
is_amount none = true
is_amount (some n) = is_finite n && above n 0

abbrev pub is_probability : Option Number → Bool
is_probability none = true
is_probability (some n) = is_finite n && (not (below n 0) && not (above n 100))

abbrev number_json : Option Number → Json
number_json none = null
number_json (some n) = num n

module _ (p : Platform) where
  unfoldable pub get_leads : Request → Outcome
  unfolding require tenant_id kept ask_get
  get_leads request =
      require (truthy (tenant_id request)) (detail 400 "Nenhuma organizacao ativa.") (
        ask_get
          (Text.◌++◌ "/v1/crm/leads?"
            (p.form (("limit", "100") ∷ kept request ("stage" ∷ "ownerId" ∷ []))))
          (tenant_id request) "Nao foi possivel carregar os leads.")

  unfoldable pub get_lead : Request → String → Outcome
  unfolding require tenant_id is_entity_id ask_get
  get_lead request lead_id =
      require (truthy (tenant_id request)) (detail 400 "Nenhuma organizacao ativa.") (
        require (is_entity_id lead_id) (detail 422 "Lead invalido.") (
          ask_get (Text.◌++◌ "/v1/crm/leads/" (p.encode lead_id)) (tenant_id request)
            "Nao foi possivel carregar o lead."))

  unfoldable pub get_pipeline : Request → Outcome
  unfolding require tenant_id ask_get
  get_pipeline request =
      require (truthy (tenant_id request)) (detail 400 "Nenhuma organizacao ativa.")
        (ask_get "/v1/crm/pipeline" (tenant_id request) "Nao foi possivel carregar o pipeline.")

  unfoldable pub post_follow_up : Request → String → Outcome
  unfolding require tenant_id is_trusted is_entity_id ask_with utf16_length
  post_follow_up request lead_id =
      let key = trim (or_empty request.idempotency_key) in
      let action = trimmed (get request.body "action") in
      let due = p.iso_of (as_text (get request.body "dueAt")) in
      let notes = trimmed (get request.body "notes") in
      require (is_trusted p request) (detail 403 "Origem nao autorizada.") (
        require (truthy (tenant_id request)) (detail 400 "Nenhuma organizacao ativa.") (
          require (is_entity_id lead_id && (truthy key && leb (utf16_length key) 200))
            (detail 422 "Envio invalido.")
            (require
              ((truthy action && leb (utf16_length action) 2000)
                && (is_date due && leb (utf16_length notes) 10000))
              (detail 422 "Informe acao e prazo validos.")
              (ask_with (Text.◌++◌ "/v1/crm/leads/" (Text.◌++◌ (p.encode lead_id) "/follow-ups"))
                "POST" (tenant_id request) (some key)
                (object (
                  ("action", some (str action))
                  ∷ ("dueAt", some (str (or_empty due)))
                  ∷ ("notes", text_or_null notes)
                  ∷ []))
                (json 201) "Nao foi possivel criar o follow-up."))))

  unfoldable pub post_stage : Request → String → Outcome
  unfolding require tenant_id is_trusted is_entity_id ask_with
  post_stage request opportunity_id =
      let target_stage = as_text (get request.body "targetStage") in
      let amount = number_or_null p.to_number (get request.body "amount") in
      let probability = number_or_null p.to_number (get request.body "probability") in
      require (is_trusted p request) (detail 403 "Origem nao autorizada.") (
        require (truthy (tenant_id request)) (detail 400 "Nenhuma organizacao ativa.") (
          require (is_entity_id opportunity_id) (detail 422 "Oportunidade invalida.") (
            require
              (any (λ s. s == target_stage) stages
                && (is_amount amount && is_probability probability))
              (detail 422 "Etapa ou previsao invalida.")
              (ask_with
                (Text.◌++◌ "/v1/crm/opportunities/" (Text.◌++◌ (p.encode opportunity_id) "/stage"))
                "POST" (tenant_id request) none
                (object (
                  ("targetStage", some (str target_stage))
                  ∷ ("amount", some (number_json amount))
                  ∷ ("probability", some (number_json probability))
                  ∷ (
                    "expectedCloseDate",
                    text_or_null (as_text (get request.body "expectedCloseDate")),
                  )
                  ∷ ("lossReason", text_or_null (trimmed (get request.body "lossReason")))
                  ∷ ("requiredFields", some (obj end))
                  ∷ ("forecast", some (obj end))
                  ∷ []))
                (json 200) "Nao foi possivel mover a oportunidade."))))

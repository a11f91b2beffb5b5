-- ===== src/Gateway/Approvals.antt =====
-- apps/web/src/app/api/approvals/: the queue, one approval, its decisions, and a decision.
use Prim.Native.String as Text
use bighead.Common.{String, ◌&&◌, none, some, List, [], ◌∷◌, leb, any, utf16_length, ◌==◌, truthy}
use bighead.Json.{str, get, as_text, trimmed}
use bighead.Gateway.{
  Platform, Request, Outcome, object, json, detail, require, tenant_id, is_trusted, is_entity_id,
  is_integer_from, text_or_null, ask_get, ask_with,
}

abbrev pub decisions : List String
decisions = "approved" ∷ "changes_requested" ∷ "rejected" ∷ []

module _ (p : Platform) where
  unfoldable pub get_approvals : Request → Outcome
  unfolding require tenant_id ask_get
  get_approvals request =
      require (truthy (tenant_id request)) (detail 400 "Nenhuma organizacao ativa.")
        (ask_get "/v1/approvals?queue=all" (tenant_id request) "Falha ao carregar aprovacoes.")

  unfoldable pub get_approval : Request → String → Outcome
  unfolding require tenant_id is_entity_id ask_get
  get_approval request approval_id =
      require (truthy (tenant_id request)) (detail 400 "Nenhuma organizacao ativa.") (
        require (is_entity_id approval_id) (detail 422 "Aprovacao invalida.") (
          ask_get (Text.◌++◌ "/v1/approvals/" (p.encode approval_id)) (tenant_id request)
            "Falha ao carregar aprovacao."))

  unfoldable pub get_decisions : Request → String → Outcome
  unfolding require tenant_id is_entity_id ask_get
  get_decisions request approval_id =
      require (truthy (tenant_id request)) (detail 400 "Nenhuma organizacao ativa.") (
        require (is_entity_id approval_id) (detail 422 "Aprovacao invalida.") (
          ask_get (Text.◌++◌ "/v1/approvals/" (Text.◌++◌ (p.encode approval_id) "/decisions"))
            (tenant_id request) "Falha ao carregar historico."))

  unfoldable pub post_decision : Request → String → Outcome
  unfolding require tenant_id is_trusted is_entity_id is_integer_from ask_with utf16_length
  post_decision request approval_id =
      let decision = as_text (get request.body "decision") in
      let expected_round = get request.body "expectedRound" in
      let comment = trimmed (get request.body "comment") in
      require (is_trusted p request) (detail 403 "Origem nao autorizada.") (
        require (truthy (tenant_id request)) (detail 400 "Nenhuma organizacao ativa.") (
          require (is_entity_id approval_id) (detail 422 "Aprovacao invalida.") (
            require
              (any (λ d. d == decision) decisions
                && (is_integer_from 1 expected_round && leb (utf16_length comment) 10000))
              (detail 422 "Decisao invalida.")
              (ask_with (Text.◌++◌ "/v1/approvals/" (Text.◌++◌ (p.encode approval_id) "/decision"))
                "POST" (tenant_id request) none
                (object (
                  ("decision", some (str decision))
                  ∷ ("expectedRound", expected_round)
                  ∷ ("comment", text_or_null comment)
                  ∷ []))
                (json 200) "Decisao nao registrada."))))

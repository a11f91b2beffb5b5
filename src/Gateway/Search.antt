-- ===== src/Gateway/Search.antt =====
-- apps/web/src/app/api/search/global/route.ts and analytics/summary/records/route.ts.
use Prim.Native.String as Text
use bighead.Common.{
  String, not, ◌&&◌, Option, none, some, List, [], ◌∷◌, leb, eqb, if◌then◌else◌, length, any,
  or_empty, utf16_length, ◌==◌, truthy,
}
use bighead.Json.{Json, num, str, arr, get, trimmed, items, of_list}
use bighead.Json.Numbers.{of_ℕ}
use bighead.Gateway.{
  or_text, Platform, Request, Fault, Outcome, asks, object, json, fresh, detail, failure,
  fault_status, fault_message, require, settle, tenant_id,
}

abbrev allowed_scopes : List String
allowed_scopes = "rooms" ∷ "messages" ∷ "tasks" ∷ []

abbrev pub scopes_in : List Json → List Json
scopes_in [] = []
scopes_in (str s ∷ vs) =
    let rest = scopes_in vs in if any (λ a. a == s) allowed_scopes then str s ∷ rest else rest
scopes_in (v ∷ vs) = scopes_in vs

abbrev pub scopes_of : Option Json → List Json
scopes_of (some (arr vs)) = scopes_in (items vs)
scopes_of _ = []

abbrev search_detail : Fault → String
search_detail f =
    if eqb (fault_status f) 403
    then "Voce nao tem acesso a estes resultados."
    else or_text (fault_message f) "Nao foi possivel concluir a busca."

-- The parameters that are there and not empty.
unfoldable pub given : Request → List String → List (String × String)
given request [] = []
given request (name ∷ names) =
    let rest = given request names in
    let value = or_empty (request.search_param name) in
    if truthy value then (name, value) ∷ rest else rest

module _ (p : Platform) where
  unfoldable pub post_search : Request → Outcome
  unfolding require tenant_id settle utf16_length
  post_search request =
      let query = trimmed (get request.body "query") in
      let scopes = scopes_of (get request.body "scopes") in
      require (truthy (tenant_id request)) (detail 400 "Nenhuma organizacao ativa.") (
        require
          (leb 2 (utf16_length query)
            && (leb (utf16_length query) 200 && not (eqb (length scopes) 0)))
          (detail 422 "Informe ao menos dois caracteres e uma categoria.")
          (asks
            (record {
              path = "/v1/search/global";
              method = "POST";
              organization_id = tenant_id request;
              idempotency = none;
              payload = some (
                  object (
                    ("query", some (str query))
                    ∷ ("scopes", some (arr (of_list scopes)))
                    ∷ ("limit", some (num (of_ℕ 24)))
                    ∷ []));
            })
            (settle fresh (λ f. detail (fault_status f) (search_detail f)))))

  unfoldable pub get_records : Request → Outcome
  unfolding require tenant_id settle failure given
  get_records request =
      let dimension = or_empty (request.search_param "dimension") in
      require (truthy (tenant_id request) && truthy dimension)
        (detail 400 "tenant ativo e dimension sao obrigatorios")
        (asks
          (record {
            path = Text.◌++◌ "/v1/analytics/summary/records?" (
                p.form (
                  ("dimension", dimension)
                  ∷ ("limit", or_text (request.search_param "limit") "100")
                  ∷ given request ("from" ∷ "to" ∷ "cursor" ∷ [])));
            method = "GET";
            organization_id = tenant_id request;
            idempotency = none;
            payload = none;
          })
          (settle (json 200) (failure "Falha ao carregar registros")))

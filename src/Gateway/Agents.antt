-- ===== src/Gateway/Agents.antt =====
-- apps/web/src/app/api/agents/: the agents and one of them. `Number(text)`, and the text of a
-- number in a template, are arguments.
use Prim.Native.Char.{code}
use Prim.Native.String as Text
use bighead.Common.{
  ℕ, String, Bool, true, false, not, ◌&&◌, ◌||◌, Option, none, some, [], ◌∷◌, leb, eqb, trim,
  utf16_length, truthy,
}
use bighead.Json.{Json, null, bool, str, arr, obj, nil, end, get, as_text, trimmed}
use bighead.Json.Numbers.{Number, is_integer, below}
use bighead.Gateway.{
  Platform, Request, Outcome, asks, object, json, detail, failure, require, settle, tenant_id,
  is_trusted, is_entity_id, is_integer_from, text_or_null, ask_get, ask_with,
}

-- `/^[a-z0-9]+(?:-[a-z0-9]+)*$/`: whether a dash may come next is what was read last.
abbrev is_word : ℕ → Bool
is_word c = (leb b'a' c && leb c b'z') || (leb b'0' c && leb c b'9')

unfoldable pub is_slug_from : Bool → String → Bool
is_slug_from after_word String.[] = after_word
is_slug_from after_word (String.◌∷◌ c s) =
    let rest = is_slug_from (is_word (code c)) s in
    (is_word (code c) || (after_word && eqb (code c) b'-')) && rest

-- `value && typeof value === "object" && !Array.isArray(value) ? value : {}`
abbrev object_of : Option Json → Json
object_of (some (obj fs)) = obj fs
object_of _ = obj end

abbrev array_of : Option Json → Json
array_of (some (arr vs)) = arr vs
array_of _ = arr nil

abbrev string_or : Option Json → Json → Json
string_or (some (str s)) v = str s
string_or _ v = v

abbrev bool_or_null : Option Json → Json
bool_or_null (some (bool b)) = bool b
bool_or_null _ = null

-- `typeof body?.prompt === "string" ? body.prompt.trim() : undefined`
abbrev pub trimmed? : Option Json → Option String
trimmed? (some (str s)) = some (trim s)
trimmed? _ = none

abbrev prompt_field : Option String → Option Json
prompt_field none = none
prompt_field (some s) = some (str s)

module _ (p : Platform) (number_of : Option String → Number) (digits : Number → String) where
  unfoldable pub get_agents : Request → Outcome
  unfolding require tenant_id ask_get
  get_agents request =
      require (truthy (tenant_id request)) (detail 400 "Nenhuma organizacao ativa.")
        (ask_get "/v1/agents" (tenant_id request) "Nao foi possivel carregar os agentes.")

  unfoldable pub post_agent : Request → Outcome
  unfolding require tenant_id is_trusted ask_with utf16_length is_slug_from
  post_agent request =
      let name = trimmed (get request.body "name") in
      let slug = trimmed (get request.body "slug") in
      let prompt = trimmed (get request.body "prompt") in
      require (is_trusted p request) (detail 403 "Origem nao autorizada.") (
        require (truthy (tenant_id request)) (detail 400 "Nenhuma organizacao ativa.") (
          require
            (truthy name
              && (leb (utf16_length name) 160
                  && (leb (utf16_length slug) 160 && (is_slug_from false slug && truthy prompt))))
            (detail 422 "Nome, slug e prompt validos sao obrigatorios.")
            (ask_with "/v1/agents" "POST" (tenant_id request) none
              (object (
                ("name", some (str name))
                ∷ ("slug", some (str slug))
                ∷ ("description", text_or_null (trimmed (get request.body "description")))
                ∷ ("riskLevel", some (string_or (get request.body "riskLevel") (str "low")))
                ∷ ("prompt", some (str prompt))
                ∷ ("modelId", text_or_null (as_text (get request.body "modelId")))
                ∷ ("limits", some (object_of (get request.body "limits")))
                ∷ ("skillIds", some (array_of (get request.body "skillIds")))
                ∷ []))
              (json 201) "Nao foi possivel criar o agente.")))

  unfoldable pub get_agent : Request → String → Outcome
  unfolding require tenant_id is_entity_id ask_get
  get_agent request agent_id =
      require (truthy (tenant_id request)) (detail 400 "Nenhuma organizacao ativa.") (
        require (is_entity_id agent_id) (detail 422 "Agente invalido.") (
          ask_get (Text.◌++◌ "/v1/agents/" (p.encode agent_id)) (tenant_id request)
            "Nao foi possivel carregar o agente."))

  unfoldable pub patch_agent : Request → String → Outcome
  unfolding require tenant_id is_trusted is_entity_id is_integer_from ask_with
  patch_agent request agent_id =
      let prompt = trimmed? (get request.body "prompt") in
      require (is_trusted p request) (detail 403 "Origem nao autorizada.") (
        require (truthy (tenant_id request)) (detail 400 "Nenhuma organizacao ativa.") (
          require (is_entity_id agent_id) (detail 422 "Agente invalido.") (
            require (is_integer_from 0 (get request.body "expectedVersion"))
              (detail 422 "Versao esperada invalida.")
              (require (elim prompt [ none ↦ true | some s ↦ truthy s ])
                (detail 422 "Prompt invalido.")
                (ask_with (Text.◌++◌ "/v1/agents/" (p.encode agent_id)) "PATCH" (tenant_id request)
                  none
                  (object (
                    ("name", text_or_null (trimmed (get request.body "name")))
                    ∷ ("description", text_or_null (trimmed (get request.body "description")))
                    ∷ ("riskLevel", some (string_or (get request.body "riskLevel") null))
                    ∷ ("isEnabled", some (bool_or_null (get request.body "isEnabled")))
                    ∷ ("prompt", prompt_field prompt)
                    ∷ ("modelId", text_or_null (as_text (get request.body "modelId")))
                    ∷ ("limits", some (object_of (get request.body "limits")))
                    ∷ ("skillIds", some (array_of (get request.body "skillIds")))
                    ∷ ("expectedVersion", get request.body "expectedVersion")
                    ∷ []))
                  (json 200) "Nao foi possivel atualizar o agente.")))))

  unfoldable pub delete_agent : Request → String → Outcome
  unfolding require tenant_id is_trusted is_entity_id settle failure
  delete_agent request agent_id =
      let expected_version = number_of (request.search_param "expectedVersion") in
      require (is_trusted p request) (detail 403 "Origem nao autorizada.") (
        require (truthy (tenant_id request)) (detail 400 "Nenhuma organizacao ativa.") (
          require (is_entity_id agent_id) (detail 422 "Agente invalido.") (
            require (is_integer expected_version && not (below expected_version 1))
              (detail 422 "Versao esperada invalida.")
              (asks
                (record {
                  path = Text.◌++◌ "/v1/agents/" (
                      Text.◌++◌ (p.encode agent_id)
                        (Text.◌++◌ "?expectedVersion=" (digits expected_version)));
                  method = "DELETE";
                  organization_id = tenant_id request;
                  idempotency = none;
                  payload = none;
                })
                (settle (λ v. record { status = 204; answer = none; no_store = false })
                  (failure "Nao foi possivel arquivar o agente."))))))

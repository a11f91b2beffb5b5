-- ===== src/Actions/Uploads.antt =====
-- apps/web/src/app/actions/critical-mutations.ts: the actions on artifacts, content, experiments and
-- portal items.
use bighead.Common.{
  String, true, false, not, ◌||◌, Option, none, some, [], ◌∷◌, if◌then◌else◌, truthy,
}
use bighead.Json.{Json, null, str, num, get, or_else, of_list, arr}
use bighead.Gateway.{object, text_or_null}
use bighead.Gateway.Mutation.{MutationResult}
use bighead.Actions.{
  ◌++ₜ◌, revalidates, Action, gives, Form, Host, text, mutation_result_from_error, succeeded,
  refused, ask, post, patch, or_text, holds, member, list_or_nil,
}
use bighead.Actions.Critical.{is_null, same_text, broken, organization, key, unless_mock}

abbrev upload_fields : Json → Option Json
upload_fields initiated = some (
    object (
      ("artifactId", get initiated "artifactId")
      ∷ ("uploadUrl", get initiated "uploadUrl")
      ∷ ("requiredHeaders", get initiated "requiredHeaders")
      ∷ []))

abbrev or_null_json : Option Json → Json
or_null_json none = null
or_null_json (some v) = v

-- `response.asset ? { data: … } : {}`
abbrev asset_data : Option Json → Option Json
asset_data asset = if holds asset then some (object (("assetId", member asset "id") ∷ [])) else none

module _ (h : Host) (form : Form) where
  unfoldable pub initiate_artifact : Action
  unfolding text ask mutation_result_from_error
  initiate_artifact =
      ask true
        (post "/v1/artifacts/uploads" (organization h form) none (
          ("filename", some (str (text form "filename")))
          ∷ ("mimeType", some (str (or_text (text form "mimeType") "application/octet-stream")))
          ∷ ("sizeBytes", some (num (h.to_number (text form "sizeBytes"))))
          ∷ ("checksumSha256", some (str (text form "checksumSha256")))
          ∷ []))
        (λ initiated.
          if is_null initiated
          then broken h form []
          else gives (succeeded 201 "Upload assinado iniciado." (upload_fields initiated)) [])

  unfoldable pub confirm_artifact : Action
  unfolding text ask mutation_result_from_error
  confirm_artifact =
      let artifact_id = text form "artifactId" in
      ask true
        (post ("/v1/artifacts/" ++ₜ h.encode artifact_id ++ₜ "/confirm") (organization h form) none
          (("checksumSha256", some (str (text form "checksumSha256"))) ∷ []))
        (λ confirmed.
          if is_null confirmed
          then broken h form (revalidates "/colaboracao/arquivos" ∷ [])
          else gives
              (succeeded 202
                ("Upload confirmado; quarentena "
                  ++ₜ h.show (get confirmed "quarantineStatus")
                  ++ₜ ".")
                (some (object (("artifactId", some (str artifact_id)) ∷ []))))
              (revalidates "/colaboracao/arquivos" ∷ []))

  unfoldable pub create_content_asset : Action
  unfolding text ask mutation_result_from_error
  create_content_asset =
      ask true
        (post "/v1/content/assets" (organization h form) (key h form) (
          ("brief", some (str (text form "brief")))
          ∷ ("title", text_or_null (text form "title"))
          ∷ ("channels", some (arr (of_list (str (or_text (text form "channel") "email") ∷ []))))
          ∷ ("variants", some (arr (of_list [])))
          ∷ []))
        (λ response.
          let replayed = holds (get response "replayed") in
          if is_null response
          then broken h form (revalidates "/comercial/conteudo" ∷ [])
          else gives
              (succeeded (if replayed then 200 else 201)
                (if replayed
                  then "Conteudo recuperado sem duplicacao."
                  else "Conteudo criado e versionado.")
                (asset_data (get response "asset")))
              (revalidates "/comercial/conteudo" ∷ []))

  abbrev running : Json → Json → MutationResult
  running id fields =
      succeeded 200
        "Experimento configurado e iniciado; hipotese e variantes agora estao bloqueadas."
        (some (
          object (
            ("experimentId", some id)
            ∷ ("status", some (str "running"))
            ∷ ("immutableFields", some fields)
            ∷ [])))

  abbrev started_result : Json → Json → MutationResult
  started_result id started =
      let result = running id (list_or_nil (get started "immutableFields")) in
      if holds (get started "replayed")
      then record result { message = "Experimento ja estava em execucao; estado reconciliado." }
      else result

  abbrev experiment_path : String
  experiment_path = "/v1/experiments/" ++ₜ h.encode (text form "experimentId")

  unfoldable pub start_experiment : Json → Action
  unfolding text ask mutation_result_from_error
  start_experiment configured_at =
      ask true
        (post (experiment_path ++ₜ "/start") (organization h form) none
          (("expectedUpdatedAt", some configured_at) ∷ []))
        (λ started.
          if is_null started
          then broken h form []
          else if same_text (member (get started "experiment") "status") "running"
          then gives (started_result (str (text form "experimentId")) started)
              (revalidates "/aprendizado/experimento-detalhe" ∷ [])
          else gives (refused 502 "A API nao confirmou o inicio do experimento.") [])

  unfoldable pub schedule_experiment : Action
  unfolding text ask mutation_result_from_error start_experiment
  schedule_experiment =
      let id = text form "experimentId" in
      let updated_at = text form "expectedUpdatedAt" in
      unless_mock h form h.mock
        (running (str id) (arr (of_list (str "hypothesis" ∷ str "variants" ∷ []))))
        (if not (truthy id) || not (truthy updated_at)
          then gives (refused 409 "Nenhum experimento draft esta disponivel para configuracao.") []
          else ask true
              (patch experiment_path (organization h form) (
                ("hypothesis", some (str (text form "hypothesis")))
                ∷ (
                  "window",
                  some (
                      object (
                        ("start", some (str h.window_start))
                        ∷ ("end", some (str h.window_end))
                        ∷ [])),
                )
                ∷ ("expectedUpdatedAt", some (str updated_at))
                ∷ []))
              (λ configured.
                let experiment = get configured "experiment" in
                let at = or_else (member experiment "updatedAt") (member experiment "updated_at") in
                if is_null configured
                then broken h form []
                else if holds at
                then start_experiment (or_null_json at)
                else gives (refused 502 "A API nao retornou a versao configurada do experimento.")
                    []))

  unfoldable pub decide_portal : Action
  unfolding text ask mutation_result_from_error
  decide_portal =
      unless_mock h form h.mock
        (succeeded 200 ("Resposta " ++ₜ text form "decision" ++ₜ " registrada e auditada.") none)
        (ask false
          (post ("/v1/portal/items/" ++ₜ h.encode (text form "token") ++ₜ "/decision") ""
            (key h form)
            (("decision", some (str (text form "decision")))
              ∷ ("comment", text_or_null (text form "comment"))
              ∷ (
                "expectedRound",
                some (num (h.to_number (or_text (text form "expectedRound") "1"))),
              )
              ∷ []))
          (λ answer. gives (succeeded 200 "Resposta externa registrada e auditada." none) []))

-- ===== src/Gateway/Rooms.antt =====
-- apps/web/src/app/api/rooms/: the rooms, and the files, members and messages of one. The text of
-- a number is an argument, and so is what a `TypeError` says.
use Prim.Native.String as Text
use bighead.Common.{
  String, Bool, true, false, ◌&&◌, Option, none, some, [], ◌∷◌, map, leb, if◌then◌else◌, any,
  utf16_length, truthy,
}
use bighead.Json.{Json, null, bool, num, str, arr, obj, end, get, trimmed, items, of_list, or_else}
use bighead.Json.Numbers.{Number}
use bighead.Gateway.{
  Platform, Request, Fault, Reply, Outcome, asks, object, json, detail, failure, require, settle,
  tenant_id, text_or_null, ask_get, ask_with,
}

module _ (digits : Number → String) where
  -- `scalar(value, fallback)`
  abbrev scalar : Option Json → String → String
  scalar (some (str s)) fallback = s
  scalar (some (num n)) fallback = digits n
  scalar _ fallback = fallback

  abbrev string_field : Option Json → Option Json
  string_field (some (str s)) = some (str s)
  string_field _ = none

  abbrev metadata_of : Option Json → Json
  metadata_of (some (obj fs)) = obj fs
  metadata_of _ = obj end

  -- `message.a ?? message.b`
  abbrev either : Json → String → String → Option Json
  either message a b = or_else (get message a) (get message b)

  unfoldable pub message_view : Json → String → Json
  message_view message room_id =
      let metadata = metadata_of (get message "metadata") in
      object (
        ("id", some (str (scalar (get message "id") "")))
        ∷ ("roomId", some (str (scalar (either message "roomId" "room_id") room_id)))
        ∷ ("clientId", string_field (either metadata "client_id" "clientId"))
        ∷ ("authorUserId", string_field (either message "authorUserId" "author_user_id"))
        ∷ ("body", some (str (scalar (get message "body") "")))
        ∷ ("metadata", some metadata)
        ∷ ("editedAt", string_field (either message "editedAt" "edited_at"))
        ∷ ("deletedAt", string_field (either message "deletedAt" "deleted_at"))
        ∷ ("createdAt", some (str (scalar (either message "createdAt" "created_at") "")))
        ∷ [])

abbrev or_null_json : Option Json → Json
or_null_json none = null
or_null_json (some v) = v

abbrev is_null : Json → Bool
is_null null = true
is_null _ = false

abbrev is_true : Option Json → Json
is_true (some (bool b)) = bool b
is_true _ = bool false

module _ (p : Platform) (digits : Number → String) (type_error : String) where
  unfoldable pub get_rooms : Request → Outcome
  unfolding require tenant_id ask_get
  get_rooms request =
      require (truthy (tenant_id request)) (detail 400 "Nenhuma organizacao ativa.")
        (ask_get "/v1/rooms?limit=100" (tenant_id request) "Nao foi possivel carregar as salas.")

  unfoldable pub post_room : Request → Outcome
  unfolding require tenant_id ask_with utf16_length
  post_room request =
      let name = trimmed (get request.body "name") in
      require (truthy (tenant_id request)) (detail 400 "Nenhuma organizacao ativa.") (
        require (truthy name && leb (utf16_length name) 160)
          (detail 422 "Informe um nome valido para a sala.")
          (ask_with "/v1/rooms" "POST" (tenant_id request) none
            (object (
              ("name", some (str name))
              ∷ ("description", text_or_null (trimmed (get request.body "description")))
              ∷ ("isPrivate", some (is_true (get request.body "isPrivate")))
              ∷ []))
            (json 201) "Nao foi possivel carregar as salas."))

  unfoldable pub get_files : Request → String → Outcome
  unfolding require tenant_id ask_get
  get_files request room_id =
      require (truthy (tenant_id request) && truthy room_id) (detail 400 "Sala indisponivel.") (
        ask_get (Text.◌++◌ "/v1/rooms/" (Text.◌++◌ (p.encode room_id) "/files?limit=50"))
          (tenant_id request) "Nao foi possivel carregar os arquivos.")

  unfoldable pub get_members : Request → String → Outcome
  unfolding require tenant_id ask_get
  get_members request room_id =
      require (truthy (tenant_id request) && truthy room_id)
        (detail 400 "Tenant ativo e sala sao obrigatorios.")
        (ask_get (Text.◌++◌ "/v1/rooms/" (Text.◌++◌ (p.encode room_id) "/members"))
          (tenant_id request) "Falha ao carregar membros.")

  -- The page of messages; a page without a list of messages, or with a message that is `null`, makes
  -- the handler throw.
  unfoldable pub page_view : Json → String → Option Json → Reply
  unfolding message_view failure
  page_view page room_id (some (arr messages)) =
      if any is_null (items messages)
      then failure "Falha ao carregar mensagens" (Fault.error type_error)
      else json 200 (
          object (
            (
              "messages",
              some (arr (of_list (map (λ m. message_view digits m room_id) (items messages)))),
            )
            ∷ ("roomContext", some (or_null_json (get page "roomContext")))
            ∷ ("nextCursor", some (or_null_json (get page "nextCursor")))
            ∷ []))
  page_view page room_id _ = failure "Falha ao carregar mensagens" (Fault.error type_error)

  unfoldable pub get_messages : Request → String → Outcome
  unfolding require tenant_id settle failure page_view
  get_messages request room_id =
      require (truthy (tenant_id request) && truthy room_id)
        (detail 400 "tenant ativo e sala sao obrigatorios")
        (asks
          (record {
            path = Text.◌++◌ "/v1/rooms/" (Text.◌++◌ (p.encode room_id) "/messages");
            method = "GET";
            organization_id = tenant_id request;
            idempotency = none;
            payload = none;
          })
          (settle (λ page. page_view page room_id (get page "messages"))
            (failure "Falha ao carregar mensagens")))

  unfoldable pub post_message : Request → String → Outcome
  unfolding require tenant_id ask_with utf16_length message_view failure
  post_message request room_id =
      let body = trimmed (get request.body "body") in
      let client_id = trimmed (get request.body "clientId") in
      require (truthy (tenant_id request) && truthy room_id) (detail 400 "Sala indisponivel.") (
        require
          ((truthy body && leb (utf16_length body) 100000)
            && (truthy client_id && leb (utf16_length client_id) 120))
          (detail 422 "Mensagem invalida.")
          (ask_with (Text.◌++◌ "/v1/rooms/" (Text.◌++◌ (p.encode room_id) "/messages")) "POST"
            (tenant_id request) none
            (object (("body", some (str body)) ∷ ("clientId", some (str client_id)) ∷ []))
            (λ message.
              if is_null message
              then failure "Nao foi possivel enviar a mensagem." (Fault.error type_error)
              else json 201 (message_view digits message room_id))
            "Nao foi possivel enviar a mensagem."))

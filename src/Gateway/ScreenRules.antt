-- ===== src/Gateway/ScreenRules.antt =====
-- apps/web/src/app/api/screen-rules/route.ts: the commands of the screens.
use Prim.Native.Char.{code}
use bighead.Common.{
  ℕ, String, Bool, true, false, ◌&&◌, Option, none, some, [], ◌∷◌, leb, eqb, truthy,
}
use bighead.Json.{Json, str, get, is_object}
use bighead.Gateway.{
  Platform, Request, Fault, Reply, Outcome, responds, asks, object, json, fault_status,
  fault_message, or_text, require, settle, tenant_id,
}

abbrev is_digit : ℕ → Bool
is_digit c = leb b'0' c && leb c b'9'

-- `/^T\d{2}$/`
abbrev is_code : Option Json → Bool
is_code (some (str (String.◌∷◌ t (String.◌∷◌ c (String.◌∷◌ d String.[]))))) =
    eqb (code t) b'T' && (is_digit (code c) && is_digit (code d))
is_code _ = false

abbrev is_operation : Option Json → Bool
is_operation (some (str s)) = truthy s
is_operation _ = false

abbrev is_payload : Option Json → Bool
is_payload (some v) = is_object v
is_payload none = false

-- `commandFrom`
unfoldable pub is_command : Json → Bool
is_command body =
    is_object body
    && (is_code (get body "code")
        && (is_operation (get body "operation") && is_payload (get body "payload")))

abbrev pub says : ℕ → String → Reply
says status text = json status (object (("message", some (str text)) ∷ []))

abbrev pub refuse : Fault → Reply
refuse f = says (fault_status f) (or_text (fault_message f) "Operacao indisponivel.")

-- Outside production the mock accepts every command; in production it throws, which Next.js answers
-- with 500.
abbrev pub unless_mock : Option Bool → Outcome → Outcome
unless_mock none o = responds (record { status = 500; answer = none; no_store = false })
unless_mock (some true) o = responds (says 200 "Operacao aceita pela fronteira mock.")
unless_mock (some false) o = o

unfoldable pub post_screen_rule : Platform → Request → Outcome
unfolding is_command require settle tenant_id
post_screen_rule p request = require (is_command request.body) (says 422 "Comando invalido.") (
    unless_mock p.mock_mode (
      require (truthy (tenant_id request)) (says 400 "Nenhuma organizacao ativa.") (
        asks
          (record {
            path = "/v1/screen-rules";
            method = "POST";
            organization_id = tenant_id request;
            idempotency = none;
            payload = some request.body;
          })
          (settle (json 200) refuse))))

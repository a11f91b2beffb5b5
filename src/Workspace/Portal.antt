-- ===== src/Workspace/Portal.antt =====
-- apps/web/src/lib/workspace-service.ts: the preview of a delivery behind a public link, and its
-- fixture.
pub mod States
use Prim.Native.String as Text
use bighead.Common.{
  String, Bool, false, ◌||◌, Option, none, some, List, [], ◌∷◌, if◌then◌else◌, ◌==◌, map,
}
use bighead.Json.{Json, num, str, arr, get, as_text, of_list}
use bighead.Gateway.{object}
use bighead.Json.Numbers.{Number, of_ℕ}
use bighead.Workspace.Answers.{type_error, Result, done, fails, ◌>>=◌, ◌>>◌, require}
use bighead.Workspace.Service.{string, strings, is_record}

pub data PortalState : Type 0 where
  valid expired revoked used : PortalState

pub record PortalPreview : Type 0 where
  pub token : String
  pub state : PortalState
  pub title : String
  pub summary : String
  pub requested_by : String
  pub due_label : String
  pub allowed_actions : List String
  pub guard_rails : List String
  pub expected_round : Number

-- `portalFixture`
unfoldable pub portal_fixture : String → PortalPreview
portal_fixture token = record {
  token = token;
  state =
      (if token == "expired"
        then expired
        else if token == "used"
        then used
        else if token == "revoked"
        then revoked
        else valid);
  title = "Revisao externa de entrega";
  summary =
      "Experiencia isolada para visualizar a entrega compartilhada, comentar e registrar uma decisao no escopo do link.";
  requested_by = "Camila Moura";
  due_label = "Prazo de resposta: hoje, 18:00";
  allowed_actions =
      "Visualizar artefato e diff principal" ∷ "Adicionar comentarios externos auditaveis"
      ∷ "Aprovar, rejeitar ou solicitar alteracoes" ∷ [];
  guard_rails =
      "Token opaco e escopado ao item compartilhado"
      ∷ "Sem shell interno, membros, analytics ou busca global"
      ∷ "Sem revelar recursos fora do tenant ou da entrega" ∷ [];
  expected_round = of_ℕ 1;
}

-- The four states of a preview, and the API's states, which come to one of these.
unfoldable pub portal_state : String → Option PortalState
portal_state raw =
    if raw == "pending"
    then some valid
    else if raw == "approved" || (raw == "changes_requested" || raw == "rejected")
    then some used
    else if raw == "valid"
    then some valid
    else if raw == "expired"
    then some expired
    else if raw == "revoked"
    then some revoked
    else if raw == "used"
    then some used
    else none

abbrev pub some_state : Option PortalState → Result PortalState
some_state none = fails (type_error "Invalid portal state")
some_state (some s) = done s

abbrev round_of : Option Json → Number
round_of (some (num n)) = n
round_of _ = of_ℕ 1

abbrev due_of : Option Json → String
due_of (some (str at)) = Text.◌++◌ "Expira em " at
due_of _ = "Prazo definido pela aprovacao"

abbrev pub has_item : Option Json → Bool
has_item (some v) = is_record v
has_item none = false

abbrev item_of : Option Json → Json
item_of (some v) = v
item_of none = Json.null

-- The answer for an approval.
unfoldable pub from_item : Json → Json → PortalState → Result PortalPreview
from_item value item state = do
  actions ← strings (get value "allowedActions") "allowedActions"
  title ← string (get item "title") "item.title"
  summary ← string (get item "objective") "item.objective"
  done (record {
    token = as_text (get value "token");
    state = state;
    title = title;
    summary = summary;
    requested_by = "Equipe BigHead";
    due_label = due_of (get item "expiresAt");
    allowed_actions = actions;
    guard_rails =
        "Link isolado do workspace interno" ∷ "Decisao idempotente e auditavel"
        ∷ "Token limitado a esta aprovacao" ∷ [];
    expected_round = round_of (get item "round");
  })

-- An answer that has the fields of a preview.
unfoldable pub from_fields : Json → PortalState → Result PortalPreview
from_fields value state = do
  token ← string (get value "token") "token"
  title ← string (get value "title") "title"
  summary ← string (get value "summary") "summary"
  requested_by ← string (get value "requestedBy") "requestedBy"
  due_label ← string (get value "dueLabel") "dueLabel"
  allowed_actions ← strings (get value "allowedActions") "allowedActions"
  guard_rails ← strings (get value "guardRails") "guardRails"
  done (record {
    token = token;
    state = state;
    title = title;
    summary = summary;
    requested_by = requested_by;
    due_label = due_label;
    allowed_actions = allowed_actions;
    guard_rails = guard_rails;
    expected_round = round_of (get value "expectedRound");
  })

unfoldable pub preview_in : Json → PortalState → Result PortalPreview
unfolding from_item from_fields
preview_in value state =
    if has_item (get value "item")
    then from_item value (item_of (get value "item")) state
    else from_fields value state

-- `normalizePortalPreview`
unfoldable pub normalize_portal_preview : Json → Result PortalPreview
unfolding portal_state preview_in
normalize_portal_preview payload =
    require (is_record payload) (type_error "Invalid portal payload")
    >> (string (get payload "state") "state" >>= λ raw.
        some_state (portal_state raw) >>= preview_in payload)

abbrev state_name : PortalState → String
state_name valid = "valid"
state_name expired = "expired"
state_name revoked = "revoked"
state_name used = "used"

abbrev texts : List String → Option Json
texts ss = some (arr (of_list (map (λ s. str s) ss)))

-- A preview as the value that a transport hands on.
unfoldable pub preview_json : PortalPreview → Json
preview_json p = object (
    ("token", some (str p.token))
    ∷ ("state", some (str (state_name p.state)))
    ∷ ("title", some (str p.title))
    ∷ ("summary", some (str p.summary))
    ∷ ("requestedBy", some (str p.requested_by))
    ∷ ("dueLabel", some (str p.due_label))
    ∷ ("allowedActions", texts p.allowed_actions)
    ∷ ("guardRails", texts p.guard_rails)
    ∷ ("expectedRound", some (num p.expected_round))
    ∷ [])

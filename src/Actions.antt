-- ===== src/Actions.antt =====
-- apps/web/src/app/actions/critical-mutations.ts and mutation-error.ts: the server actions. An action
-- gives a result with its effects, or calls the API and goes on with the answer. The texts of values,
-- `encodeURIComponent`, `Number`, the clock, random UUIDs and the text of a `TypeError` are arguments.
pub mod Critical
pub mod Uploads
pub mod Order
pub mod Orderly
mod Tests
use Prim.Native.String as Text
use bighead.Common.{
  ℕ, ◌+◌, String, Bool, true, false, not, ◌⊎◌, inl, inr, Option, none, some, List, [], ◌∷◌,
  if◌then◌else◌, or_empty, trim, truthy,
}
use bighead.Json.{Json, null, bool, num, str, arr, get, of_list}
use bighead.Json.Numbers.{Number, is_zero_or_nan}
use bighead.Settings.Supabase.{begins, anywhere}
use bighead.Gateway.{Fault, api_error, Call, object, fault_message}
use bighead.Gateway.Mutation.{MutationResult, mutation_failure}

infixr 66 ◌++ₜ◌
abbrev pub ◌++ₜ◌ : String → String → String
a ++ₜ b = Text.◌++◌ a b

pub data Effect : Type 0 where
  -- `revalidatePath`, and the cookie of the organization
  revalidates selects : String → Effect

pub data Action : Type 0 where
  gives : MutationResult → List Effect → Action
  -- `authenticatedApi` or, without credentials, `publicApi`
  asks : (authenticated : Bool) → Call → (Json ⊎ Fault → Action) → Action

pub record Form : Type 0 where
  -- The value of a field if it is a text, and the texts of all fields of a name.
  pub value : String → Option String
  pub values : String → List String

pub record Host : Type 0 where
  -- `shouldUseMockWorkspace`; `none` is the error that it throws
  pub mock : Option Bool
  pub encode : String → String
  pub to_number : String → Number
  pub show : Option Json → String
  pub random_uuid : String
  -- the start and the end of an experiment's window
  pub window_start : String
  pub window_end : String
  pub type_error : String

-- `text(form, name)`
unfoldable pub text : Form → String → String
text form name = trim (or_empty (form.value name))

-- `/dependency cycle/i.test(message)`
unfoldable pub is_about_cycle : String → Bool
unfolding anywhere begins
is_about_cycle message = anywhere (begins "dependency cycle") message

abbrev cycle_result : ℕ → MutationResult
cycle_result status = record {
  ok = false;
  status = status;
  message = "Corrija as dependencias destacadas antes de salvar.";
  data_of = some (
      object (
        (
          "fieldErrors",
          some (object (("dependencies", some (str "Dependencia circular detectada.")) ∷ [])),
        )
        ∷ []));
}

-- `mutationResultFromError`
unfoldable pub mutation_result_from_error : Fault → MutationResult
unfolding is_about_cycle mutation_failure
mutation_result_from_error (api_error status message) =
    if is_about_cycle message then cycle_result status else mutation_failure status (some message)
mutation_result_from_error f = mutation_failure 500 (fault_message f)

abbrev pub failed : Fault → Action
failed f = gives (mutation_result_from_error f) []

abbrev pub succeeded : ℕ → String → Option Json → MutationResult
succeeded status message data_of = record {
  ok = true;
  status = status;
  message = message;
  data_of = data_of;
}

abbrev pub refused : ℕ → String → MutationResult
refused status message = record { ok = false; status = status; message = message; data_of = none }

-- A call in a `try` whose `catch` makes the fault the result.
unfoldable pub ask : Bool → Call → (Json → Action) → Action
unfolding mutation_result_from_error
ask authenticated call k =
    asks authenticated call (λ answer. elim answer [ inl v ↦ k v | inr f ↦ failed f ])

abbrev pub post : String → String → Option String → List (String × Option Json) → Call
post path organization_id key payload = record {
  path = path;
  method = "POST";
  organization_id = organization_id;
  idempotency = key;
  payload = some (object payload);
}

abbrev pub patch : String → String → List (String × Option Json) → Call
patch path organization_id payload = record {
  path = path;
  method = "PATCH";
  organization_id = organization_id;
  idempotency = none;
  payload = some (object payload);
}

abbrev pub or_text : String → String → String
or_text a b = if truthy a then a else b

-- The truth value of a member.
abbrev pub holds : Option Json → Bool
holds none = false
holds (some null) = false
holds (some (bool b)) = b
holds (some (num n)) = not (is_zero_or_nan n)
holds (some (str s)) = truthy s
holds (some v) = true

-- `value?.key`
abbrev pub member : Option Json → String → Option Json
member none key = none
member (some v) key = get v key

abbrev pub list_or_nil : Option Json → Json
list_or_nil none = arr (of_list [])
list_or_nil (some null) = arr (of_list [])
list_or_nil (some v) = v

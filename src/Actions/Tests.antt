-- ===== src/Actions/Tests.antt =====
-- The server actions at fixed inputs.
use bighead.Common.{
  String, Bool, false, ◌≡◌, refl, ◌⊎◌, inr, Option, some, List, [], ◌∷◌, trim, map_get,
}
use bighead.Json.{Json}
use bighead.Json.Numbers.{of_ℕ}
use bighead.Gateway.{Fault, api_error}
use bighead.Actions.{Action, gives, asks, Form, Host, mutation_result_from_error}
use bighead.Actions.Orderly.{message, act}

abbrev host : Option Bool → Host
host mock = record {
  mock = mock;
  encode = λ s. s;
  to_number = λ s. of_ℕ 1;
  show = λ v. "x";
  random_uuid = "8f14e45f";
  window_start = "2026-01-01T00:00:00.000Z";
  window_end = "2026-01-15T00:00:00.000Z";
  type_error = "Cannot read properties of null";
}

abbrev fields : List (String × String)
fields =
    ("organizationId", " o1 ") ∷ ("decision", "approve") ∷ ("body", "Ola") ∷ ("roomId", "r1") ∷ []

abbrev form : Form
form = record { value = λ name. map_get name fields; values = λ name. [] }

abbrev answer_with : (Json ⊎ Fault) → Action → Action
answer_with a (gives r effects) = gives r effects
answer_with a (asks authenticated c k) = k a

forbidden_message :
    answer_with (inr (api_error 403 "Proibido")) (act (host (some false)) form message)
    ≡ gives (mutation_result_from_error (api_error 403 "Proibido")) []
unfolding act map_get trim
forbidden_message = refl

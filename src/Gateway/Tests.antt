-- ===== src/Gateway/Tests.antt =====
-- The routes at concrete requests.
use bighead.Common.{
  String, true, false, not, ◌||◌, ◌≡◌, refl, inr, Option, none, some, [], ◌∷◌, trim, truthy, ℕ,
}
use bighead.Json.{Json, null, num, str, as_text}
use bighead.Json.Numbers.{of_ℕ}
use bighead.Gateway.{
  api_error, Platform, Request, Call, calls, run, object, tenant_id, is_trusted, Fault, error,
  thrown,
}
use bighead.Gateway.Mutation.{post_transition}
use bighead.Gateway.Mutation.Answers.{post_transition-IsRead, IsRead}
use bighead.Gateway.Agents.{is_slug_from}
use bighead.Gateway.Guards.{decide, serve, checks_origin}
use bighead.Gateway.Guards.Upstream.{serve-IsGuarded, serve-fails}

abbrev task : String
task = "11111111-1111-4111-8111-111111111111"

abbrev request : Request
request = record {
  own_origin = "https://bighead.example";
  origin = some "https://bighead.example";
  idempotency_key = none;
  tenant_cookie = some " t1 ";
  search_param = λ name. none;
  body = object (
      ("targetState", some (str "triaged"))
      ∷ ("expectedVersion", some (num (of_ℕ 3)))
      ∷ ("decision", some (str "approved"))
      ∷ ("expectedRound", some (num (of_ℕ 1)))
      ∷ []);
}

abbrev platform : Platform
platform = record {
  encode = λ s. s;
  form = λ fs. "";
  url_origin = λ s. none;
  to_number = λ v. of_ℕ 0;
  iso_of = λ s. none;
  app_url = none;
  mock_mode = some false;
}

abbrev show : Option Json → String
show v = as_text v

a_slug : is_slug_from false "vendas-2" ≡ true
unfolding is_slug_from
a_slug = refl

no_slug : is_slug_from false "vendas--2" ≡ false
unfolding is_slug_from
no_slug = refl

post_transition-IsRead_example : IsRead (
    run
      (inr (api_error 409 "version"))
      (post_transition (λ s. s) show (λ s. none) none request task))
post_transition-IsRead_example =
    post_transition-IsRead (λ s. s) show (λ s. none) none request task
      (inr (api_error 409 "version"))

abbrev decision_call : Call
decision_call = record {
  path = "/v1/approvals/11111111-1111-4111-8111-111111111111/decision";
  method = "POST";
  organization_id = "t1";
  idempotency = none;
  payload = some (
      object (
        ("decision", some (str "approved"))
        ∷ ("expectedRound", some (num (of_ℕ 1)))
        ∷ ("comment", some null)
        ∷ []));
}

decision_is_sent :
    calls (serve platform (λ o. of_ℕ 0) (λ n. "0") show "" (decide task) request)
    ≡ some decision_call
unfolding serve trim
decision_is_sent = refl

serve-IsGuarded_example :
    ("t1" ≡ tenant_id request)
    × (truthy (tenant_id request) ≡ true)
    × ((not (checks_origin (decide task)) || is_trusted platform request) ≡ true)
serve-IsGuarded_example =
    serve-IsGuarded platform (λ o. of_ℕ 0) (λ n. "0") show "" (decide task) request decision_call
      decision_is_sent

abbrev answers : Fault → ℕ
answers f =
    (run (inr f) (serve platform (λ o. of_ℕ 0) (λ n. "0") show "" (decide task) request)).status

serve-fails_example :
    (answers (api_error 409 "round") ≡ 409)
    × (answers (error "round") ≡ 500)
    × (answers thrown ≡ 500)
serve-fails_example =
    serve-fails platform (λ o. of_ℕ 0) (λ n. "0") show "" (decide task) request decision_call 409
      "round" decision_is_sent

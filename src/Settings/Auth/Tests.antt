-- ===== src/Settings/Auth/Tests.antt =====
-- The addresses of the sign-in at fixed values.
use bighead.Common.{String, true, ◌≡◌, refl, Option, none, some, [], ◌∷◌, if◌then◌else◌, ◌==◌}
use bighead.Settings.Auth.{Url, AuthEnvironment, AuthConfig}
use bighead.Settings.Auth.Destinations.{safe_internal_redirect, auth_callback}

abbrev url : String → String → Url
url pathname query = record {
  href = "https://app.example";
  origin = "https://app.example";
  protocol = "https:";
  hostname = "app.example";
  pathname = pathname;
  query = query;
  hash = "";
}

abbrev evil : Url
evil = record {
  href = "https://evil.example/";
  origin = "https://evil.example";
  protocol = "https:";
  hostname = "evil.example";
  pathname = "/";
  query = "";
  hash = "";
}

abbrev parse : String → Option Url
parse value = some (url "" "")

-- As the standard of URLs has it at these values.
abbrev resolve : String → String → Option Url
resolve value base =
    if value == "//evil.example"
    then some evil
    else if value == "/.//evil.example"
    then some (url "//evil.example" "")
    else some (url value "")

abbrev environment : AuthEnvironment
environment = record {
  base = record {
    app_env = some "production";
    node_env = some "production";
    allow_insecure_local_production = none;
    supabase_server_url = none;
    next_public_supabase_url = none;
    publishable_key = none;
  };
  app_url = some "https://app.example";
  site_url = some "https://app.example";
  redirect_urls = some " https://app.example/auth/callback ";
  smtp_configured = some "true";
}

abbrev parse_any : String → Option Url
parse_any value = some (record (url "" "") { href = value })

abbrev config : AuthConfig
config = record {
  app_url = "https://app.example";
  site_url = "https://app.example";
  redirect_urls = "https://app.example/auth/callback" ∷ [];
  smtp_configured = true;
}

stays_inside :
    safe_internal_redirect parse resolve
      (some "/operacao/salas")
      "https://app.example"
      "/operacao/home"
    ≡ "/operacao/salas"
unfolding safe_internal_redirect
stays_inside = refl

outside_is_refused :
    safe_internal_redirect parse resolve
      (some "//evil.example")
      "https://app.example"
      "/operacao/home"
    ≡ "/operacao/home"
unfolding safe_internal_redirect
outside_is_refused = refl

-- The path of an address of the application may begin with two slashes; the callback resolves it
-- once more, and then the two slashes name a host.
leads_outside :
    auth_callback parse resolve "https://app.example" (some "c1") (some "/.//evil.example") true
    ≡ some "https://evil.example/"
unfolding auth_callback
leads_outside = refl

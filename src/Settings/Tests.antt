-- ===== src/Settings/Tests.antt =====
-- The settings at concrete values.
use bighead.Common.{String, true, false, ◌≡◌, refl, Option, none, some}
use bighead.Json.{str, obj, field, end}
use bighead.Settings.Supabase.{Environment, ParsedUrl, is_local_hostname, is_unsafe_public_key}
use bighead.Settings.Theme.{VisualPreferences, Dataset, radar_dark, compact, full}

abbrev deployment : Environment
deployment = record {
  app_env = some "production";
  node_env = some "production";
  allow_insecure_local_production = none;
  supabase_server_url = none;
  next_public_supabase_url = some " https://db.bighead.example ";
  publishable_key = some "sb_publishable_1";
}

abbrev parse_url : String → Option ParsedUrl
parse_url s = some (record { protocol = "https:"; hostname = "db.bighead.example" })

-- The host of a URL with an IPv6 address stands in brackets, and is not taken for local.
bracketed_loopback : is_local_hostname "[::1]" ≡ false
bracketed_loopback = refl

a_secret_key : is_unsafe_public_key (λ s. none) "SB_secret_1" ≡ true
unfolding is_unsafe_public_key
a_secret_key = refl

an_admin_token :
    is_unsafe_public_key (λ s. some (obj (field "role" (str "service_role") end))) "a.b_c-.d" ≡ true
unfolding is_unsafe_public_key
an_admin_token = refl

abbrev chosen_look : VisualPreferences
chosen_look = record { theme = radar_dark; density = compact; motion = full }

abbrev blank : Dataset
blank = record { theme = none; density = some "compact"; motion = none }

-- ===== src/Settings/Auth.antt =====
-- apps/web/src/lib/supabase/auth-config.ts and cookie-options.ts: the addresses of the sign-in, the
-- place that a sign-in leads to, and the cookies of a session. The parser of URLs is an argument.
pub mod Production
pub mod Destinations
pub mod Places
mod Tests
use Prim.Native.Char.{Char, code}
use Prim.Native.String as Text
use bighead.Common.{
  ◌+◌, ◌-◌, String, Bool, true, false, not, ◌&&◌, ◌||◌, ◌⊎◌, inl, inr, Option, none, some, List, [],
  ◌∷◌, ◌++◌, map, filter, eqb, if◌then◌else◌, or_empty, trim, ◌==◌, truthy, truthy?, has,
}
use bighead.Workspace.Context.{is_value}
use bighead.Workspace.Server.{without_trailing}
use bighead.Settings.Supabase.{Environment, is_production_environment, is_local_hostname}

-- What the parser of URLs gives.
pub record Url : Type 0 where
  pub href : String
  pub origin : String
  pub protocol : String
  pub hostname : String
  pub pathname : String
  pub query : String
  pub hash : String

pub record AuthEnvironment : Type 0 where
  pub base : Environment
  pub app_url : Option String
  pub site_url : Option String
  pub redirect_urls : Option String
  pub smtp_configured : Option String

pub record AuthConfig : Type 0 where
  pub app_url : String
  pub site_url : String
  pub redirect_urls : List String
  pub smtp_configured : Bool

-- A computation that may throw an error with this message.
infixl 5 ◌>>=◌
abbrev pub ◌>>=◌ : {A B : Type 0} → String ⊎ A → (A → String ⊎ B) → String ⊎ B
inr a >>= k = k a
inl e >>= k = inl e

infixl 5 ◌>>◌
abbrev pub ◌>>◌ : {A B : Type 0} → String ⊎ A → String ⊎ B → String ⊎ B
m >> k = m >>= λ _. k

abbrev pub require : Bool → String → String ⊎ Unit {0}
require true e = inr tt
require false e = inl e

-- `a ?? b`
abbrev otherwise : Option String → Option String → Option String
otherwise none b = b
otherwise (some a) b = some a

abbrev add_char : Char → List String → List String
add_char c [] = []
add_char c (w ∷ ws) = String.◌∷◌ c w ∷ ws

-- `value.split(",")`
unfoldable pub split_commas : String → List String
split_commas String.[] = "" ∷ []
split_commas (String.◌∷◌ c s) =
    let rest = split_commas s in if eqb (code c) b',' then "" ∷ rest else add_char c rest

module _ (parse : String → Option Url) where
  abbrev pub parsed : String → Option Url → String ⊎ Url
  parsed message none = inl message
  parsed message (some url) = inr url

  -- `new URL(value)` outside a `try`
  abbrev pub url_of : String → String ⊎ Url
  url_of value = parsed "Invalid URL" (parse value)

  -- `normalizeUrl`
  unfoldable pub normalize_url : Option String → String → String ⊎ String
  unfolding trim without_trailing
  normalize_url value name = do
    require (truthy (trim (or_empty value))) (Text.◌++◌ name " is required")
    url ←
        parsed (Text.◌++◌ name " must contain valid absolute URLs") (parse (trim (or_empty value)))
    inr (without_trailing url.href)

  unfoldable pub normalize_all : List String → String ⊎ List String
  unfolding normalize_url
  normalize_all [] = inr []
  normalize_all (value ∷ values) = do
    url ← normalize_url (some value) "SUPABASE_AUTH_REDIRECT_URLS"
    urls ← normalize_all values
    inr (url ∷ urls)

  -- `assertProductionUrl`
  unfoldable pub assert_production_url : String → String → String ⊎ Unit {0}
  assert_production_url value name = do
    url ← url_of value
    require (url.protocol == "https:" && not (is_local_hostname url.hostname))
        (Text.◌++◌ name " must be a non-local HTTPS URL in production")

  abbrev pub callback_of : String → String
  callback_of app_url = Text.◌++◌ app_url "/auth/callback"

  -- What production demands of a configuration.
  unfoldable pub assert_production : AuthConfig → String ⊎ Unit {0}
  unfolding assert_production_url
  assert_production c = do
    assert_production_url c.app_url "APP_URL"
    assert_production_url c.site_url "SUPABASE_AUTH_SITE_URL"
    app ← url_of c.app_url
    site ← url_of c.site_url
    require (app.origin == site.origin)
        "SUPABASE_AUTH_SITE_URL must use the same origin as APP_URL in production"
    require (has c.redirect_urls (callback_of c.app_url))
        (Text.◌++◌ "SUPABASE_AUTH_REDIRECT_URLS must include " (callback_of c.app_url))
    require c.smtp_configured "SUPABASE_AUTH_SMTP_CONFIGURED=true is required in production"

  abbrev pub default : Bool → String → Option String
  default production value = if production then none else some value

  unfoldable pub read_config : Bool → AuthEnvironment → String ⊎ AuthConfig
  unfolding normalize_all normalize_url split_commas trim
  read_config production e = do
    app_url ←
        normalize_url (otherwise e.app_url (default production "http://localhost:3000")) "APP_URL"
    site_url ←
        normalize_url (otherwise e.site_url (default production app_url)) "SUPABASE_AUTH_SITE_URL"
    redirect_urls ← normalize_all (
        filter truthy (
          map trim (
            split_commas
              (or_empty (otherwise e.redirect_urls (default production (callback_of app_url)))))))
    inr (record {
      app_url = app_url;
      site_url = site_url;
      redirect_urls = redirect_urls;
      smtp_configured = is_value e.smtp_configured "true";
    })

  abbrev pub checked : Bool → AuthConfig → String ⊎ AuthConfig
  checked production c = (if production then assert_production c else inr tt) >> inr c

  -- `readSupabaseAuthRuntimeConfig`
  unfoldable pub read_supabase_auth_runtime_config : AuthEnvironment → String ⊎ AuthConfig
  unfolding is_production_environment read_config assert_production
  read_supabase_auth_runtime_config e = do
    production ← is_production_environment e.base
    c ← read_config production e
    checked production c

  -- `requiresSecureCookie` of an environment, and of `authCookieOptions` what may vary.
  abbrev is_https : Option Url → Bool
  is_https none = true
  is_https (some url) = url.protocol == "https:"

  unfoldable pub requires_secure_cookie : (app_url app_env node_env : Option String) → Bool
  requires_secure_cookie app_url app_env node_env =
      if truthy? app_url
      then is_https (parse (or_empty app_url))
      else is_value app_env "production"
        || (is_value app_env "staging" || is_value node_env "production")

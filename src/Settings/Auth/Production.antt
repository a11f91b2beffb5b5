-- ===== src/Settings/Auth/Production.antt =====
-- What the addresses of the sign-in are in production.
use Prim.Native.String as Text
use bighead.Common.{◌≢◌, String, true, ◌≡◌, ◌⊎◌, inr, Option, some, has}
use bighead.Settings.Auth.{Url, AuthConfig}

abbrev right : {A : Type 0} → A → String ⊎ A
right a = inr a

module _ (parse : String → Option Url) where
  -- An address over HTTPS whose host is no name of the machine itself.
  abbrev pub IsRemote : String → Type 0
  IsRemote value =
      (url : Url) × (parse value ≡ some url)
      × (url.protocol ≡ "https:")
      × (url.hostname ≢ "localhost")
      × (url.hostname ≢ "127.0.0.1")
      × (url.hostname ≢ "::1")

  abbrev pub SameOrigin : String → String → Type 0
  SameOrigin a b =
      (u : Url) × (v : Url) × (parse a ≡ some u) × (parse b ≡ some v) × (u.origin ≡ v.origin)

  -- A configuration that production accepts.
  pub record IsSafe (c : AuthConfig) : Type 0 where
    app : IsRemote c.app_url
    site : IsRemote c.site_url
    one_origin : SameOrigin c.app_url c.site_url
    callback : has c.redirect_urls (Text.◌++◌ c.app_url "/auth/callback") ≡ true
    smtp : c.smtp_configured ≡ true

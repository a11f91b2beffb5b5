-- ===== src/Settings/Auth/Destinations.antt =====
-- apps/web/src/lib/supabase/auth-config.ts: `safeInternalRedirect`;
-- apps/web/src/app/auth/callback/route.ts and apps/web/src/app/auth/signout/route.ts. The parser of
-- URLs, with and without a base, and Supabase's answers are arguments.
use Prim.Native.Char.{code}
use Prim.Native.String as Text
use bighead.Common.{
  ℕ, String, Bool, true, false, not, ◌&&◌, ◌||◌, Option, none, some, leb, eqb, if◌then◌else◌,
  or_empty, ◌==◌, truthy, truthy?,
}
use text.Mathlib.Text.{starts_with}
use bighead.Settings.Auth.{Url}

unfoldable pub has_control_character : String → Bool
has_control_character String.[] = false
has_control_character (String.◌∷◌ c s) =
    (leb (code c) 31 || eqb (code c) 127) || has_control_character s

abbrev pub is_hex : ℕ → Bool
is_hex c = (leb b'0' c && leb c b'9') || ((leb b'a' c && leb c b'f') || (leb b'A' c && leb c b'F'))

-- `%(?:0[0-9a-f]|1[0-9a-f]|7f)` at the start of a text, without regard to case
abbrev pub begins_escape : String → Bool
begins_escape (String.◌∷◌ p (String.◌∷◌ c (String.◌∷◌ d s))) =
    eqb (code p) b'%'
    && (((eqb (code c) b'0' || eqb (code c) b'1') && is_hex (code d))
        || (eqb (code c) b'7' && (eqb (code d) b'f' || eqb (code d) b'F')))
begins_escape _ = false

unfoldable pub has_escaped_control : String → Bool
has_escaped_control String.[] = false
has_escaped_control (String.◌∷◌ c s) = begins_escape (String.◌∷◌ c s) || has_escaped_control s

unfoldable pub has_backslash : String → Bool
has_backslash String.[] = false
has_backslash (String.◌∷◌ c s) = eqb (code c) 92 || has_backslash s

-- What `pathname`, `search` and `hash` of a URL make together.
abbrev pub place_of : Url → String
place_of url = Text.◌++◌ url.pathname (Text.◌++◌ url.query url.hash)

abbrev pub is_inside : Url → Url → String → Bool
is_inside base resolved value =
    (resolved.origin == base.origin)
    && (starts_with value "/" && (not (starts_with value "//") && not (has_backslash value)))

abbrev pub is_plain : String → Bool
is_plain value =
    truthy value && (not (has_control_character value) && not (has_escaped_control value))

module _ (parse : String → Option Url) (resolve : String → String → Option Url) where
  abbrev pub inside_or : String → String → Option Url → Option Url → String
  inside_or value fallback (some base) (some resolved) =
      if is_inside base resolved value then place_of resolved else fallback
  inside_or value fallback _ _ = fallback

  -- `safeInternalRedirect`
  unfoldable pub safe_internal_redirect : Option String → String → String → String
  unfolding has_control_character has_escaped_control has_backslash
  safe_internal_redirect value app_url fallback =
      let given = or_empty value in
      if is_plain given
      then inside_or given fallback (parse app_url) (resolve given app_url)
      else fallback

  -- The sign-in's callback: where it leads, after the session has been exchanged for the code.
  unfoldable pub auth_callback :
      String → (code next : Option String) → (exchanged : Bool) → Option String
  unfolding safe_internal_redirect
  auth_callback app_url sign_in_code next exchanged =
      let destination = safe_internal_redirect next app_url "/operacao/home" in
      if not (truthy? sign_in_code) || not exchanged
      then some (Text.◌++◌ app_url "/login?error=invalid_callback")
      else href_of (resolve destination app_url)
    where
      href_of : Option Url → Option String
      href_of none = none
      href_of (some url) = some url.href

-- The sign-out: whether the session is ended on this browser alone, and where the user is sent.
unfoldable pub sign_out : (revoked : Bool) → Bool × String
sign_out true = (false, "/login?status=signed_out")
sign_out false = (true, "/login?status=sign_out_incomplete")

-- ===== src/Settings/Supabase.antt =====
-- apps/web/src/lib/supabase/config.ts: the public configuration of Supabase. The parser of URLs and
-- the decoding of a token's payload (`atob` and `JSON.parse`) are arguments.
pub mod Production
use Prim.Native.Char.{Char, code}
use Prim.Native.String as Text
use bighead.Common.{
  ◌%◌, ℕ, zero, suc, ◌+◌, ◌-◌, ◌<◌, String, Bool, true, false, not, ◌&&◌, ◌||◌, ◌⊎◌, inl, inr,
  Option, none, some, List, [], ◌∷◌, ◌++◌, leb, eqb, if◌then◌else◌, or_empty, trim, utf16_length,
  ◌==◌, truthy, truthy?,
}
use bighead.Json.{Json, str, get}
use bighead.Workspace.Context.{is_value}

pub record Environment : Type 0 where
  pub app_env : Option String
  pub node_env : Option String
  pub allow_insecure_local_production : Option String
  pub supabase_server_url : Option String
  pub next_public_supabase_url : Option String
  pub publishable_key : Option String

pub record ParsedUrl : Type 0 where
  pub protocol : String
  pub hostname : String

-- `a ?? b`
abbrev otherwise : Option String → Option String → Option String
otherwise none b = b
otherwise (some a) b = some a

-- `NODE_ENV=production` with `APP_ENV=test` and the explicit permission.
abbrev insecure_local_production : Environment → Bool
insecure_local_production e =
    is_value e.node_env "production"
    && (is_value e.app_env "test" && is_value e.allow_insecure_local_production "true")

-- The left side is the message of the error that is thrown.
unfoldable pub is_production_environment : Environment → String ⊎ Bool
is_production_environment e =
    if is_value e.app_env "production" && not (is_value e.node_env "production")
    then inl "APP_ENV=production requires NODE_ENV=production"
    else if is_value e.node_env "production"
        && (truthy? e.app_env
            && (not (is_value e.app_env "production" || is_value e.app_env "staging")
                && not (insecure_local_production e)))
    then inl "NODE_ENV=production requires APP_ENV=staging or production"
    else inr (is_value e.node_env "production" && not (insecure_local_production e))

abbrev pub is_local_hostname : String → Bool
is_local_hostname hostname =
    hostname == "localhost" || (hostname == "127.0.0.1" || hostname == "::1")

-- A letter without its case, as under the flag `i`.
abbrev lower : ℕ → ℕ
lower c = if leb b'A' c && leb c b'Z' then c + 32 else c

unfoldable pub begins : (pattern text : String) → Bool
begins String.[] s = true
begins (String.◌∷◌ p ps) String.[] = false
begins (String.◌∷◌ p ps) (String.◌∷◌ c s) = eqb (code p) (lower (code c)) && begins ps s

unfoldable pub holds_code : ℕ → String → Bool
holds_code k String.[] = false
holds_code k (String.◌∷◌ c s) = eqb (code c) k || holds_code k s

-- `<[^>]+>` at the start of a text
unfoldable pub begins_tag : String → Bool
unfolding holds_code
begins_tag (String.◌∷◌ c (String.◌∷◌ d s)) =
    eqb (code c) b'<' && (not (eqb (code d) b'>') && holds_code b'>' s)
begins_tag _ = false

unfoldable pub anywhere : (String → Bool) → String → Bool
anywhere test String.[] = test ""
anywhere test (String.◌∷◌ c s) = test (String.◌∷◌ c s) || anywhere test s

-- `/placeholder|optional_until|replace_me|changeme|<[^>]+>|^sb_secret_/i`
unfoldable pub is_placeholder : String → Bool
unfolding begins begins_tag anywhere
is_placeholder value =
    anywhere
      (λ s.
        begins "placeholder" s
        || (begins "optional_until" s
            || (begins "replace_me" s || (begins "changeme" s || begins_tag s))))
      value
    || begins "sb_secret_" value

abbrev add_char : Char → List String → List String
add_char c [] = []
add_char c (w ∷ ws) = String.◌∷◌ c w ∷ ws

-- `value.split(".")`
unfoldable pub split_dots : String → List String
split_dots String.[] = "" ∷ []
split_dots (String.◌∷◌ c s) =
    let rest = split_dots s in if eqb (code c) b'.' then "" ∷ rest else add_char c rest

-- `.replace(/-/g, "+").replace(/_/g, "/")`
unfoldable pub to_base64 : String → String
to_base64 String.[] = ""
to_base64 (String.◌∷◌ c s) =
    let rest = to_base64 s in
    if eqb (code c) b'-'
    then Text.◌++◌ "+" rest
    else if eqb (code c) b'_'
    then Text.◌++◌ "/" rest
    else String.◌∷◌ c rest

abbrev padding : ℕ → String
padding zero = ""
padding (suc zero) = "==="
padding (suc (suc zero)) = "=="
padding n = "="

-- `payload.padEnd(Math.ceil(payload.length / 4) * 4, "=")`
unfoldable pub padded : String → String
unfolding utf16_length
padded payload = Text.◌++◌ payload (padding (utf16_length payload % 4))

abbrev pub is_admin_role : Option Json → Bool
is_admin_role (some (str role)) = role == "service_role" || role == "supabase_admin"
is_admin_role _ = false

abbrev pub role_of : Option Json → Option Json
role_of none = none
role_of (some decoded) = get decoded "role"

module _ (decode : String → Option Json) where
  abbrev pub is_admin_token : List String → Bool
  is_admin_token (header ∷ payload ∷ signature ∷ []) =
      is_admin_role (role_of (decode (padded (to_base64 payload))))
  is_admin_token _ = false

  unfoldable pub is_unsafe_public_key : String → Bool
  unfolding is_placeholder split_dots padded to_base64
  is_unsafe_public_key value = is_placeholder value || is_admin_token (split_dots value)

abbrev pub url_of : Option Environment → Environment → Option String
url_of none process = otherwise process.supabase_server_url process.next_public_supabase_url
url_of (some e) process = otherwise e.supabase_server_url (
    otherwise e.next_public_supabase_url
      (otherwise process.supabase_server_url process.next_public_supabase_url))

abbrev pub key_of : Option Environment → Environment → Option String
key_of none process = process.publishable_key
key_of (some e) process = otherwise e.publishable_key process.publishable_key

abbrev pub chosen : Option Environment → Environment → Environment
chosen none process = process
chosen (some e) process = e

abbrev pub required : String
required =
    "SUPABASE_SERVER_URL/NEXT_PUBLIC_SUPABASE_URL and NEXT_PUBLIC_SUPABASE_PUBLISHABLE_KEY are required"

module _ (parse_url : String → Option ParsedUrl) (decode : String → Option Json) where
  abbrev pub for_production :
      (url key : String) → ParsedUrl → String ⊎ Bool → String ⊎ (String × String)
  for_production url key parsed (inl message) = inl message
  for_production url key parsed (inr false) = inr (url, key)
  for_production url key parsed (inr true) =
      if not (parsed.protocol == "https:") || is_local_hostname parsed.hostname
      then inl "NEXT_PUBLIC_SUPABASE_URL must be a non-local HTTPS URL in production"
      else if is_unsafe_public_key decode key
      then inl
          "NEXT_PUBLIC_SUPABASE_PUBLISHABLE_KEY must be a public anon/publishable key in production"
      else inr (url, key)

  abbrev pub with_url :
      (url key : String) → Option ParsedUrl → String ⊎ Bool → String ⊎ (String × String)
  with_url url key none production = inl "NEXT_PUBLIC_SUPABASE_URL must be a valid absolute URL"
  with_url url key (some parsed) production = for_production url key parsed production

  unfoldable pub get_supabase_public_config :
      Option Environment → Environment → String ⊎ (String × String)
  unfolding is_production_environment is_unsafe_public_key trim
  get_supabase_public_config environment process =
      let url = trim (or_empty (url_of environment process)) in
      let key = trim (or_empty (key_of environment process)) in
      if truthy url && truthy key
      then with_url url key (parse_url url) (is_production_environment (chosen environment process))
      else inl required

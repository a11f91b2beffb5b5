-- ===== src/Settings/Supabase/Production.antt =====
-- What the configuration of a production deployment is.
use Prim.Native.String.{◌++◌}
use bighead.Common.{ap, ◌≢◌, [], ◌∷◌, String, Bool, true, false, ◌||◌, ◌≡◌, refl, Option, some}
use bighead.Json.{Json, str}
use bighead.Settings.Supabase.{
  ParsedUrl, is_local_hostname, begins, begins_tag, split_dots, to_base64, padded, role_of,
}

pub is_local_hostname-eq-false :
    (host : String)
    → is_local_hostname host ≡ false
    → (host ≢ "localhost") × (host ≢ "127.0.0.1") × (host ≢ "::1")
is_local_hostname-eq-false host h = (
  λ e. absurd (local "localhost" refl e),
  λ e. absurd (local "127.0.0.1" refl e),
  λ e. absurd (local "::1" refl e),
)
  where
    local : (name : String) → is_local_hostname name ≡ true → host ≡ name → ⊥
    local name l e = let same = ap is_local_hostname e in cc

-- A text at some place of which a placeholder's word stands.
abbrev is_word : String → Bool
is_word s =
    begins "placeholder" s
    || (begins "optional_until" s
        || (begins "replace_me" s || (begins "changeme" s || begins_tag s)))

module _ (parse_url : String → Option ParsedUrl) (decode : String → Option Json) where
  -- The key is a token of three parts, and its payload decodes to a value with this role.
  abbrev pub IsRole : (header payload signature key role : String) → Type 0
  IsRole header payload signature key role =
      (split_dots key ≡ header ∷ payload ∷ signature ∷ [])
      × (role_of (decode (padded (to_base64 payload))) ≡ some (str role))

  -- What a production deployment may run with: an address that parses, with https and on a host
  -- that is no name of the machine itself, and a key that does not hold a placeholder's words, does
  -- not begin as a secret key does and is no token of an administrator.
  pub record IsPublic (url key : String) : Type 0 where
    pub parsed : ParsedUrl
    pub parses : parse_url url ≡ some parsed
    pub secure : parsed.protocol ≡ "https:"
    pub remote :
        (parsed.hostname ≢ "localhost")
        × (parsed.hostname ≢ "127.0.0.1")
        × (parsed.hostname ≢ "::1")
    pub filled_in :
        (before after : String)
        → (key ≢ before ++ ("placeholder" ++ after))
          × (key ≢ before ++ ("optional_until" ++ after))
          × (key ≢ before ++ ("replace_me" ++ after))
          × (key ≢ before ++ ("changeme" ++ after))
    pub not_secret : (after : String) → key ≢ "sb_secret_" ++ after
    pub not_admin :
        (header payload signature : String)
        → ¬ IsRole header payload signature key "service_role"
          × ¬ IsRole header payload signature key "supabase_admin"

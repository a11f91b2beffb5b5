-- ===== src/Settings/Auth/Places.antt =====
-- Where a sign-in leads, apart from the code that tests the texts.
use Prim.Native.Char.{Char, code}
use Prim.Native.String.{◌++◌}
use bighead.Common.{◌+◌, ◌*◌, ◌≤◌, ℕ, String, ◌≡◌, ◌≢◌, ◌⊎◌, Option, some}
use bighead.Realtime.Protocol.Uuids.{EachCode}
use bighead.Settings.Auth.{Url}

-- A character's number that is no control character's and no backslash's.
abbrev pub IsGraphic : ℕ → Type 0
IsGraphic c = (32 ≤ c) × (c ≢ 127) × (c ≢ 92)

-- The value of a hexadecimal digit.
abbrev pub IsDigit : ℕ → ℕ → Type 0
IsDigit c x = ((c ≡ 48 + x) × (x ≤ 9)) ⊎ ((10 ≤ x) × (x ≤ 15) × ((c ≡ 87 + x) ⊎ (c ≡ 55 + x)))

-- Two digits that stand for a control character after a percent sign.
abbrev pub IsControlEscape : ℕ → ℕ → Type 0
IsControlEscape c d =
    (x : ℕ) × (y : ℕ) × IsDigit c x × IsDigit d y × ((16 * x + y ≤ 31) ⊎ (16 * x + y ≡ 127))

module _ (parse : String → Option Url) (resolve : String → String → Option Url) where
  -- A place of the application itself, reached from a path that is written plainly.
  pub record Inside (value app_url place : String) : Type 0 where
    pub base : Url
    pub resolved : Url
    pub parses : parse app_url ≡ some base
    pub resolves : resolve value app_url ≡ some resolved
    pub same_origin : resolved.origin ≡ base.origin
    pub one_slash :
        ((rest : String) × (value ≡ "/" ++ rest)) × ((rest : String) → value ≢ "//" ++ rest)
    pub plain : EachCode IsGraphic value
    pub unescaped :
        (before after : String) (c d : Char)
        → IsControlEscape (code c) (code d)
        → value ≢ before ++ ("%" ++ String.◌∷◌ c (String.◌∷◌ d after))
    pub here : place ≡ resolved.pathname ++ (resolved.query ++ resolved.hash)

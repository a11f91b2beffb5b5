-- ===== src/Realtime/Protocol/Uuids.antt =====
-- What a UUID may hold: nothing that has a meaning in a filter or a URL.
use Prim.Native.Char.{code}
use bighead.Common.{
  ℕ, ◌≤◌, String, Bool, true, ◌≡◌, refl, ◌⊎◌, some, List, [], ◌∷◌, arith, length, All, utf16_length,
  and-eq-true,
}
use bighead.Realtime.Protocol.{is_hex, is_dash, matches, uuid_pattern, is_uuid}

-- A hexadecimal digit of either case, or a dash.
abbrev pub IsPlain : ℕ → Type 0
IsPlain c =
    ((b'0' ≤ c) × (c ≤ b'9')) ⊎ ((b'a' ≤ c) × (c ≤ b'f')) ⊎ ((b'A' ≤ c) × (c ≤ b'F')) ⊎ (c ≡ b'-')

abbrev pub EachCode : (ℕ → Type 0) → String → Type 0
EachCode P String.[] = Unit
EachCode P (String.◌∷◌ c s) = P (code c) × EachCode P s

abbrev Sound : (ℕ → Bool) → Type 0
Sound p = (c : ℕ) → p c ≡ true → IsPlain c

matches-EachCode :
    (ps : List (ℕ → Bool)) (s : String)
    → All Sound ps
    → matches ps s ≡ true
    → (utf16_length s ≡ length ps) × EachCode IsPlain s
unfolding matches utf16_length
matches-EachCode [] String.[] sound h = (refl, tt)
matches-EachCode [] (String.◌∷◌ c s) sound h = cc
matches-EachCode (p ∷ ps) String.[] sound h = cc
matches-EachCode (p ∷ ps) (String.◌∷◌ c s) (q, sound) h =
    let (here, later) = and-eq-true _ _ h in
    let plain = q (code c) here in
    let (size, rest) = matches-EachCode ps s sound later in (ground arith, (plain, rest))

is_hex-Sound : Sound is_hex
unfolding is_hex
is_hex-Sound c h = ground arith

is_dash-Sound : Sound is_dash
is_dash-Sound c h = ground arith

uuid_pattern-Sound : All Sound uuid_pattern
uuid_pattern-Sound = assumption (is_hex-Sound, is_dash-Sound)

-- A text that passes for a UUID has 36 code units, each a hexadecimal digit or a dash: it can
-- carry none of the characters by which a filter or a path is taken apart.
pub is_uuid-IsPlain :
    (value : String)
    → is_uuid (some value) ≡ true
    → (utf16_length value ≡ 36) × EachCode IsPlain value
unfolding is_uuid
is_uuid-IsPlain value h = matches-EachCode uuid_pattern value uuid_pattern-Sound h

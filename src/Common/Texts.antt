-- ===== src/Common/Texts.antt =====
-- The string methods of JavaScript that the source uses, over native texts.
use Prim.Native.Nat.{ℕ, ◌+◌}
use Prim.Native.Char.{code}
use Prim.Native.String.{String}
use mathlib.Core.Path.{◌≡◌, refl}
use mathlib.Core.Bool.{Bool, true, false, ◌&&◌, ◌||◌}
use mathlib.Core.Option.{Option, none, some}
use text.Mathlib.Text.{◌==◌}
use bighead.Common.Tests.{leb, eqb, if◌then◌else◌}

-- The truth value of a string: only the empty text is false.
abbrev pub truthy : String → Bool
truthy String.[] = false
truthy (String.◌∷◌ c s) = true

-- `value ?? ""`
abbrev pub or_empty : Option String → String
or_empty none = ""
or_empty (some s) = s

-- The truth value of a `string | null | undefined`.
abbrev pub truthy? : Option String → Bool
truthy? o = truthy (or_empty o)

-- `value || null` for a string
abbrev pub or_null : String → Option String
or_null s = if truthy s then some s else none

-- The white space and line terminators that `String.prototype.trim` removes.
pub is_space : ℕ → Bool
is_space c =
    (leb 9 c && leb c 13)
    || (eqb c 32
        || (eqb c 160
            || (eqb c 0x1680
                || ((leb 0x2000 c && leb c 0x200a)
                    || (eqb c 0x2028
                        || (eqb c 0x2029
                            || (eqb c 0x202f
                                || (eqb c 0x205f || (eqb c 0x3000 || eqb c 0xfeff)))))))))

pub trim_start : String → String
trim_start String.[] = ""
trim_start (String.◌∷◌ c s) =
    let rest = trim_start s in if is_space (code c) then rest else String.◌∷◌ c s

pub trim_end : String → String
trim_end String.[] = ""
trim_end (String.◌∷◌ c s) =
    let rest = trim_end s in if is_space (code c) && rest == "" then "" else String.◌∷◌ c rest

-- `String.prototype.trim`
unfoldable pub trim : String → String
unfolding trim_start trim_end is_space
trim s = trim_end (trim_start s)

-- The length of a text in UTF-16 code units.
unfoldable pub utf16_length : String → ℕ
utf16_length String.[] = 0
utf16_length (String.◌∷◌ c s) = (if leb 0x10000 (code c) then 2 else 1) + utf16_length s

trim_runs : trim " \t a b\n" ≡ "a b"
unfolding trim
trim_runs = refl

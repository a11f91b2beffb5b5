-- ===== src/Json.antt =====
-- The values that `JSON.parse` returns, with the run-time tests (`typeof`, `Array.isArray`,
-- `Number.isInteger`, `String(…)`) that the source applies to them.
pub mod Numbers
pub mod Counts
use bighead.Common.{
  String, Bool, true, false, Option, none, some, List, [], ◌∷◌, ◌==◌, trim, if◌then◌else◌,
}
use Numbers.{Number}

mutual
  pub data Json : Type 0 where
    null : Json
    bool : Bool → Json
    num : Number → Json
    str : String → Json
    arr : Items → Json
    obj : Fields → Json

  pub data Items : Type 0 where
    nil : Items
    cons : Json → Items → Items

  pub data Fields : Type 0 where
    end : Fields
    field : String → Json → Fields → Fields

abbrev pub items : Items → List Json
items nil = []
items (cons v vs) = v ∷ items vs

abbrev pub of_list : List Json → Items
of_list [] = nil
of_list (v ∷ vs) = cons v (of_list vs)

abbrev pub lookup : String → Fields → Option Json
lookup key end = none
lookup key (field k v fs) = let rest = lookup key fs in if k == key then some v else rest

-- `value.key`, or `value?.key` on `null`; `none` is `undefined`. The keys that the source reads
-- are none of those that arrays and texts have.
abbrev pub get : Json → String → Option Json
get (obj fs) key = lookup key fs
get _ key = none

abbrev pub is_object : Json → Bool
is_object (obj fs) = true
is_object _ = false

-- `typeof value === "string" ? value : undefined`
abbrev pub as_string : Option Json → Option String
as_string (some (str s)) = some s
as_string _ = none

-- `typeof value === "string" ? value.trim() : ""`
abbrev pub trimmed : Option Json → String
trimmed (some (str s)) = trim s
trimmed _ = ""

abbrev pub as_text : Option Json → String
as_text (some (str s)) = s
as_text _ = ""

-- `a ?? b`
abbrev pub or_else : Option Json → Option Json → Option Json
or_else none b = b
or_else (some null) b = b
or_else (some v) b = some v

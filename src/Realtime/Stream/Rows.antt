-- ===== src/Realtime/Stream/Rows.antt =====
-- What the server takes from a row, apart from the code that tests it.
use bighead.Common.{
  ℕ, String, Bool, true, false, ◌≡◌, refl, ap, sym, ◌∙◌, ◌⊎◌, inl, inr, Option, none, some,
  Option-cases, subst, if◌then◌else◌,
}
use bighead.Json.{Json, null, bool, num, str, arr, obj, as_string}
use bighead.Json.Numbers.{Number, natural}
use bighead.Json.Counts.{
  TextOr, CountOf, is_natural, is_natural-IsCount, IsCount-is_natural, as_string-eq-some,
}
use bighead.Realtime.Stream.{or_text, row_version}

-- The version of a row is the natural number that stands there, and there is none otherwise.
abbrev pub RowVersion : Option Json → Option ℕ → Type 0
RowVersion given version =
    ((n : ℕ) × (version ≡ some n) × CountOf given n)
    ⊎ (((n : ℕ) → ¬ CountOf given n) × (version ≡ none))

pub or_text-TextOr :
    (given : Option Json) (fallback text : String)
    → TextOr given fallback text
    → or_text (as_string given) fallback ≡ text
or_text-TextOr given fallback text (inl e) = ap (λ o. or_text (as_string o) fallback) e
or_text-TextOr given fallback text (inr (other, e)) = elim (Option-cases (as_string given)) [
  | inl h ↦ ap (λ o. or_text o fallback) h ∙ sym e
  | inr (t, h) ↦ absurd (other t (as_string-eq-some given t h))
]

pub row_version-RowVersion :
    (given : Option Json) (version : Option ℕ)
    → RowVersion given version
    → row_version given ≡ version
row_version-RowVersion given version (inl (n, e, (x, same, count))) =
    let (c, counted) = IsCount-is_natural x n count in
    subst (λ g. row_version g ≡ version) (sym same) (rw c (ap some counted ∙ sym e))
row_version-RowVersion (some (num x)) version (inr (never, e)) =
    uncounted x (is_natural x) refl
      (λ c. absurd (never (natural x) (x, refl, is_natural-IsCount x c)))
    ∙ sym e
  where
    uncounted :
        (x : Number) (b : Bool)
        → is_natural x ≡ b
        → (is_natural x ≡ true → ⊥)
        → (if b then some (natural x) else none) ≡ none
    uncounted x true c h = absurd (h c)
    uncounted x false c h = refl
row_version-RowVersion none version (inr (never, e)) = sym e
row_version-RowVersion (some null) version (inr (never, e)) = sym e
row_version-RowVersion (some (bool b)) version (inr (never, e)) = sym e
row_version-RowVersion (some (str s)) version (inr (never, e)) = sym e
row_version-RowVersion (some (arr vs)) version (inr (never, e)) = sym e
row_version-RowVersion (some (obj fs)) version (inr (never, e)) = sym e

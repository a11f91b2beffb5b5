-- ===== src/Gateway/Mutation/Requests.antt =====
-- Which requests ask for a step of a task, apart from the code that tests them.
use bighead.Common.{
  ℕ, ◌≤◌, String, Bool, true, false, ◌≡◌, ◌≢◌, refl, sym, ap, ◌∙◌, ◌↔◌, ◌⊎◌, inl, inr, Option, none,
  some, arith, subst, ◌||◌, and-eq-true, ◌==◌, eq_iff, eq_refl, trim, truthy, or_empty, truthy?,
  utf16_length, Option-cases, Bool-cases, if◌then◌else◌,
}
use bighead.Json.{Json, null, bool, num, str, arr, obj}
use bighead.Json.Counts.{CountOf, is_positive-IsCount, IsCount-is_positive}
use bighead.Json.Numbers.{natural}
use bighead.Tasks.{TaskStatus, status_name, is_inherited, is_task_status}
use bighead.Tasks.Status.{is_task_status_iff}
use bighead.Gateway.{Request, trusted_origin, is_integer_from, same_as}
use bighead.Gateway.Mutation.{is_bad_reason}

-- The request names an origin: its own, or that of the deployment's address.
abbrev pub IsFromOwn : (String → Option String) → Option String → Request → Type 0
IsFromOwn origin_of app_url request =
    (origin : String) × (request.origin ≡ some origin)
    × (origin ≢ "")
    × ((request.own_origin ≡ origin)
        ⊎ ((trim (or_empty app_url) ≢ "") × (origin_of (trim (or_empty app_url)) ≡ some origin)))

-- The value is a reason of at most 4000 code units, or none.
abbrev pub IsReason : Option Json → Type 0
IsReason given =
    (given ≡ none)
    ⊎ (given ≡ some null)
    ⊎ ((s : String) × (given ≡ some (str s)) × (utf16_length s ≤ 4000))

-- The text is a state's name, or that of a member that every object inherits, and is not "new".
abbrev pub IsTarget : String → Type 0
IsTarget text =
    (text ≢ "new") × (((t : TaskStatus) × (status_name t ≡ text)) ⊎ (is_inherited text ≡ true))

-- The value is an integer from 1 on.
abbrev pub IsPositive : Option Json → Type 0
IsPositive given = (n : ℕ) × (1 ≤ n) × CountOf given n

truthy-filled : (s : String) → truthy s ≡ true → s ≢ ""
truthy-filled s h e = let same = ap truthy e in cc

pub truthy_iff : (s : String) → (truthy s ≡ true) ↔ (s ≢ "")
truthy_iff s = (truthy-filled s, filled s)
  where
    filled : (s : String) → s ≢ "" → truthy s ≡ true
    filled String.[] h = absurd (h refl)
    filled (String.◌∷◌ c s) h = refl

pub is_bad_reason_iff : (given : Option Json) → (is_bad_reason given ≡ false) ↔ IsReason given
unfolding is_bad_reason
is_bad_reason_iff given = (λ h. good given h, back given)
  where
    good : (given : Option Json) → is_bad_reason given ≡ false → IsReason given
    good none h = inl refl
    good (some null) h = inr (inl refl)
    good (some (str s)) h = inr (inr (s, refl, ground (arith, h)))
    good (some (bool b)) h = cc
    good (some (num x)) h = cc
    good (some (arr vs)) h = cc
    good (some (obj fs)) h = cc

    back : (given : Option Json) → IsReason given → is_bad_reason given ≡ false
    back given (inl e) = ap is_bad_reason e
    back given (inr (inl e)) = ap is_bad_reason e
    back given (inr (inr (s, e, short))) = ap is_bad_reason e ∙ ground (arith, short)

pub is_integer_from_iff :
    (given : Option Json) → (is_integer_from 1 given ≡ true) ↔ IsPositive given
unfolding is_integer_from
is_integer_from_iff given = (λ h. positive given h, back given)
  where
    positive : (given : Option Json) → is_integer_from 1 given ≡ true → IsPositive given
    positive (some (num x)) h =
        let (low, count) = is_positive-IsCount x h in (natural x, low, (x, refl, count))
    positive none h = cc
    positive (some null) h = cc
    positive (some (bool b)) h = cc
    positive (some (str s)) h = cc
    positive (some (arr vs)) h = cc
    positive (some (obj fs)) h = cc

    back : (given : Option Json) → IsPositive given → is_integer_from 1 given ≡ true
    back given (n, low, (x, e, count)) =
        ap (is_integer_from 1) e ∙ IsCount-is_positive x n count low

pub moves_to_iff :
    (text : String)
    → ((is_task_status (some text) ≡ true) × ((text == "new") ≡ false)) ↔ IsTarget text
moves_to_iff text = (
  λ h. (
    λ e. let same = ap (λ s. s == "new") e in let found = eq_refl "new" in cc,
    (is_task_status_iff text).0 h.0,
  ),
  λ h. ((is_task_status_iff text).1 h.1, other (text == "new") refl h.0),
)
  where
    other : (b : Bool) → (text == "new") ≡ b → text ≢ "new" → (text == "new") ≡ false
    other true e h = absurd (h ((eq_iff text "new").0 e))
    other false e h = e

module _ (origin_of : String → Option String) (app_url : Option String) where
  abbrev address : String
  address = trim (or_empty app_url)

  same_as-eq-true :
      (known : Option String) (origin : String)
      → same_as origin_of app_url known origin ≡ true
      → known ≡ some origin
  same_as-eq-true none origin h = cc
  same_as-eq-true (some o) origin h = ap some ((eq_iff o origin).0 h)

  deployed :
      (b : Bool) (origin : String)
      → truthy address ≡ b
      → same_as origin_of app_url (if b then origin_of address else none) origin ≡ true
      → (address ≢ "") × (origin_of address ≡ some origin)
  deployed true origin e h = (truthy-filled address e, same_as-eq-true (origin_of address) origin h)
  deployed false origin e h = cc

  trusted_origin-IsFromOwn :
      (request : Request)
      → trusted_origin origin_of app_url request ≡ true
      → IsFromOwn origin_of app_url request
  unfolding trusted_origin
  trusted_origin-IsFromOwn request h = elim (Option-cases request.origin) [
    | inl e ↦ let empty = ap truthy? e in absurd (ground (arith, h, empty))
    | inr (origin, e) ↦
        let text : or_empty request.origin ≡ origin = ap or_empty e in
        let (filled, one) = and-eq-true _ _ h in
        (
          origin,
          e,
          truthy-filled origin (ap truthy (sym text) ∙ filled),
          elim (Bool-cases (request.own_origin == origin)) [
            | inl own ↦ inl ((eq_iff request.own_origin origin).0 own)
            | inr other ↦ inr (
                deployed (truthy address) origin refl (
                  either _ _
                    (subst
                      (λ o.
                        ((request.own_origin == o)
                          || same_as origin_of app_url
                              (if truthy address then origin_of address else none) o)
                        ≡ true)
                      text one)
                    other))
          ],
        )
  ]
    where
      either : (a b : Bool) → (a || b) ≡ true → a ≡ false → b ≡ true
      either a b h k = ground (arith, h, k)

  IsFromOwn-trusted_origin :
      (request : Request)
      → IsFromOwn origin_of app_url request
      → trusted_origin origin_of app_url request ≡ true
  unfolding trusted_origin
  IsFromOwn-trusted_origin request (origin, e, filled, own) =
      rw e (rw ((truthy_iff origin).1 filled) (known own))
    where
      known :
          (request.own_origin ≡ origin) ⊎ ((address ≢ "") × (origin_of address ≡ some origin))
          → ((request.own_origin == origin)
              || same_as origin_of app_url
                  (if truthy address then origin_of address else none)
                  origin)
            ≡ true
      known (inl o) = rw o (rw (eq_refl origin) refl)
      known (inr (there, o)) =
          rw ((truthy_iff address).1 there) (rw o (rw (eq_refl origin) (ground arith)))

  pub trusted_origin_iff :
      (request : Request)
      → (trusted_origin origin_of app_url request ≡ true) ↔ IsFromOwn origin_of app_url request
  trusted_origin_iff request = (trusted_origin-IsFromOwn request, IsFromOwn-trusted_origin request)

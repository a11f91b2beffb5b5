-- ===== src/Workspace/Answers.antt =====
-- apps/web/src/lib/workspace-service.ts: the errors, and what an answer of the API or a rejected
-- promise comes to. What the API answers to a call is an argument.
use bighead.Common.{
  ◌/◌, ℕ, String, Bool, true, false, ◌≡◌, refl, Option, none, some, eqb, if◌then◌else◌,
}
use bighead.Json.{Json, null}

pub data Problem : Type 0 where
  -- `WorkspaceHttpError`, `WorkspaceMembershipError`, a `TypeError`, another `Error`, and what
  -- `fetch` or the parser of JSON throws
  http_error : (status : ℕ) (path : String) → Problem
  membership_error thrown : Problem
  type_error plain_error : (message : String) → Problem

pub data Result (A : Type 0) : Type 0 where
  done : A → Result A
  fails : Problem → Result A

infixl 5 ◌>>=◌
abbrev pub ◌>>=◌ : {A B : Type 0} → Result A → (A → Result B) → Result B
done a >>= k = k a
fails p >>= k = fails p

infixl 5 ◌>>◌
abbrev pub ◌>>◌ : {A B : Type 0} → Result A → Result B → Result B
m >> k = m >>= λ _. k

abbrev pub require : Bool → Problem → Result (Unit {0})
require true p = done tt
require false p = fails p

pub done_inj : {A : Type 0} {a b : A} → done a ≡ done b → a ≡ b
done_inj h = cc

pub >>=-eq-done :
    {A B : Type 0} (m : Result A) (k : A → Result B) {b : B}
    → (m >>= k) ≡ done b
    → (a : A) × (m ≡ done a) × (k a ≡ done b)
>>=-eq-done (done a) k h = (a, refl, h)
>>=-eq-done (fails p) k h = cc

pub require-eq-done :
    {B : Type 0} (b : Bool) (p : Problem) (m : Result B) {v : B}
    → (require b p >> m) ≡ done v
    → (b ≡ true) × (m ≡ done v)
require-eq-done true p m h = (refl, h)
require-eq-done false p m h = cc

pub >>=-cong :
    {A B : Type 0} (m : Result A) (k k' : A → Result B)
    → ((a : A) → m ≡ done a → k a ≡ k' a)
    → (m >>= k) ≡ (m >>= k')
>>=-cong (done a) k k' h = h a refl
>>=-cong (fails p) k k' h = refl

pub record ApiCall : Type 0 where
  pub path : String
  pub token : String
  pub organization_id : Option String

-- A response, with its status and what is parsed of its body, or a `fetch` that throws.
pub data Answer : Type 0 where
  answered : (status : ℕ) (body : Option Json) → Answer
  broken : Answer

abbrev pub is_ok : ℕ → Bool
is_ok status = eqb (status / 100) 2

abbrev pub checked : String → Answer → Result Json
checked path broken = fails thrown
checked path (answered status none) =
    fails (if is_ok status then thrown else http_error status path)
checked path (answered status (some body)) =
    if is_ok status then done body else fails (http_error status path)

-- `optionalForRole`
abbrev pub allowed : Json → Result Json → Result Json
allowed forbidden (fails (http_error status path)) =
    if eqb status 403 then done forbidden else fails (http_error status path)
allowed forbidden r = r

abbrev pub null_error : Problem
null_error = type_error "Cannot read properties of null"

abbrev pub is_null : Json → Bool
is_null null = true
is_null _ = false

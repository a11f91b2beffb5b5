-- ===== src/Actions/Order.antt =====
-- What an orderly action of the server is, and the steps that keep one orderly.
use bighead.Common.{
  ℕ, ◌≤◌, String, Bool, true, false, ◌≡◌, refl, ◌⊎◌, inl, inr, Option, none, some, List, [], ◌∷◌,
  if◌then◌else◌, any,
}
use bighead.Json.{Json}
use bighead.Gateway.{Fault, Call}
use bighead.Gateway.Mutation.{MutationResult, mutation_failure}
use bighead.Actions.{
  Effect, revalidates, selects, Action, gives, asks, Form, Host, mutation_result_from_error,
  succeeded, refused, ask,
}
use bighead.Actions.Critical.{broken, unless_mock}

abbrev pub is_selection : Effect → Bool
is_selection (selects id) = true
is_selection (revalidates path) = false

-- Every call is made with or without credentials as is told and is one of those that are permitted,
-- a fault ends the action with its own result and no effect, and a success has a status of success.
pub data IsOrderly (who : Bool) (Permits : Call → Type 0) : Action → Type 1 where
  given :
      {r : MutationResult} {effects : List Effect}
      → (r.ok ≡ true → (200 ≤ r.status) × (r.status ≤ 202))
      → (any is_selection effects ≡ true → r.ok ≡ true)
      → IsOrderly who Permits (gives r effects)
  asked :
      {c : Call} {k : Json ⊎ Fault → Action}
      → Permits c
      → ((f : Fault) → k (inr f) ≡ gives (mutation_result_from_error f) [])
      → ((v : Json) → IsOrderly who Permits (k (inl v)))
      → IsOrderly who Permits (asks who c k)

pub weaken :
    {who : Bool} {P Q : Call → Type 0} {a : Action}
    → ((c : Call) → P c → Q c)
    → IsOrderly who P a
    → IsOrderly who Q a
weaken f (given succeeds changes) = given succeeds changes
weaken f (asked permitted fails goes_on) = asked (f _ permitted) fails (λ v. weaken f (goes_on v))

module _ {who : Bool} {Permits : Call → Type 0} where
  pub asking :
      (c : Call) (k : Json → Action)
      → Permits c
      → ((v : Json) → IsOrderly who Permits (k v))
      → IsOrderly who Permits (ask who c k)
  unfolding ask
  asking c k e h = asked e (λ f. refl) h

  pub either :
      (b : Bool) {x y : Action}
      → IsOrderly who Permits x
      → IsOrderly who Permits y
      → IsOrderly who Permits (if b then x else y)
  either true p q = p
  either false p q = q

  pub either_of :
      (b : Bool) {x y : Action}
      → (b ≡ true → IsOrderly who Permits x)
      → (b ≡ false → IsOrderly who Permits y)
      → IsOrderly who Permits (if b then x else y)
  either_of true p q = p refl
  either_of false p q = q refl

  pub either_result :
      (b : Bool) {r r' : MutationResult} {effects : List Effect}
      → IsOrderly who Permits (gives r effects)
      → IsOrderly who Permits (gives r' effects)
      → IsOrderly who Permits (gives (if b then r else r') effects)
  either_result true p q = p
  either_result false p q = q

  pub breaking :
      (h : Host) (form : Form) (path : String)
      → IsOrderly who Permits (broken h form (revalidates path ∷ []))
  unfolding mutation_result_from_error mutation_failure
  breaking h form path = given (λ e. cc) (λ e. cc)

  pub breaks : (h : Host) (form : Form) → IsOrderly who Permits (broken h form [])
  unfolding mutation_result_from_error mutation_failure
  breaks h form = given (λ e. cc) (λ e. cc)

  pub fine :
      (status : ℕ) (says : String) (v : Option Json) (effects : List Effect)
      → 200 ≤ status
      → status ≤ 202
      → IsOrderly who Permits (gives (succeeded status says v) effects)
  fine status says v effects low high = given (λ e. (low, high)) (λ e. refl)

  pub refusing :
      (status : ℕ) (says : String) → IsOrderly who Permits (gives (refused status says) [])
  refusing status says = given (λ e. cc) (λ e. cc)

  pub mocked :
      (h : Host) (form : Form) (mock : Option Bool) (status : ℕ) (says : String) (v : Option Json)
      {a : Action}
      → 200 ≤ status
      → status ≤ 202
      → IsOrderly who Permits a
      → IsOrderly who Permits (unless_mock h form mock (succeeded status says v) a)
  unfolding mutation_result_from_error mutation_failure
  mocked h form none status says v low high o = given (λ e. cc) (λ e. cc)
  mocked h form (some true) status says v low high o = fine status says v [] low high
  mocked h form (some false) status says v low high o = o

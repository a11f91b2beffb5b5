-- ===== src/Tasks.antt =====
-- apps/web/src/lib/task-transitions.ts: the states of a task and the steps between them.
pub mod Status
pub mod Lifecycle
mod Tests
use bighead.Common.{
  String, Bool, true, false, ◌&&◌, ◌||◌, Option, none, some, List, [], ◌∷◌, ◌==◌, truthy, any,
  if◌then◌else◌,
}

pub data TaskStatus : Type 0 where
  new triaged in_progress waiting_tool waiting_human ready_for_review approved done failed
        canceled :
      TaskStatus

abbrev pub transitions : TaskStatus → List TaskStatus
transitions new = triaged ∷ canceled ∷ []
transitions triaged = in_progress ∷ waiting_human ∷ canceled ∷ []
transitions in_progress = waiting_tool ∷ waiting_human ∷ ready_for_review ∷ failed ∷ canceled ∷ []
transitions waiting_tool = in_progress ∷ failed ∷ canceled ∷ []
transitions waiting_human = in_progress ∷ ready_for_review ∷ canceled ∷ []
transitions ready_for_review = approved ∷ in_progress ∷ canceled ∷ []
transitions approved = done ∷ in_progress ∷ []
transitions failed = in_progress ∷ canceled ∷ []
transitions done = []
transitions canceled = []

-- A state is its name in the source.
abbrev pub status_name : TaskStatus → String
status_name new = "new"
status_name triaged = "triaged"
status_name in_progress = "in_progress"
status_name waiting_tool = "waiting_tool"
status_name waiting_human = "waiting_human"
status_name ready_for_review = "ready_for_review"
status_name approved = "approved"
status_name done = "done"
status_name failed = "failed"
status_name canceled = "canceled"

-- The keys of the table, in its order.
abbrev pub statuses : List TaskStatus
statuses =
    new ∷ triaged ∷ in_progress ∷ waiting_tool ∷ waiting_human ∷ ready_for_review ∷ approved
    ∷ failed ∷ done ∷ canceled ∷ []

abbrev pub key_of : List TaskStatus → String → Option TaskStatus
key_of [] value = none
key_of (t ∷ ts) value =
    let rest = key_of ts value in if status_name t == value then some t else rest

unfoldable pub status_of : String → Option TaskStatus
status_of value = key_of statuses value

-- The table is an object literal, so `in` also finds the members of `Object.prototype`.
abbrev pub inherited_names : List String
inherited_names =
    "constructor" ∷ "__defineGetter__" ∷ "__defineSetter__" ∷ "hasOwnProperty" ∷ "__lookupGetter__"
    ∷ "__lookupSetter__" ∷ "isPrototypeOf" ∷ "propertyIsEnumerable" ∷ "toString" ∷ "valueOf"
    ∷ "__proto__" ∷ "toLocaleString" ∷ []

unfoldable pub is_inherited : String → Bool
is_inherited value = any (λ n. n == value) inherited_names

abbrev pub is_some {ℓ} : {A : Type ℓ} → Option A → Bool
is_some none = false
is_some (some a) = true

unfoldable pub is_task_status : Option String → Bool
unfolding status_of is_inherited
is_task_status none = false
is_task_status (some value) = truthy value && (is_some (status_of value) || is_inherited value)

-- `allowedTaskTransitions`; `none` is a value that is no list.
unfoldable pub allowed_task_transitions : Option String → Option (List TaskStatus)
unfolding is_task_status status_of is_inherited
allowed_task_transitions none = some []
allowed_task_transitions (some value) = elim (status_of value) [
  | some t ↦ some (transitions t)
  | none ↦ if is_task_status (some value) then none else some []
]

-- ===== src/Tasks/Status.antt =====
-- What passes for the name of a state.
use bighead.Tasks.{
  status_of, TaskStatus, new, triaged, in_progress, waiting_tool, waiting_human, ready_for_review,
  approved, done, failed, canceled, status_name, statuses, key_of, is_inherited, is_some,
  is_task_status,
}
use bighead.Common.{
  String, true, ◌≡◌, refl, sym, ap, ◌∙◌, ◌↔◌, ◌⊎◌, inl, inr, Option, none, some, List, [], ◌∷◌,
  arith, if◌then◌else◌, some_inj, subst, ◌==◌, eq_iff, truthy, Bool-cases,
}

key_of-some :
    (ts : List TaskStatus) (value : String) (t : TaskStatus)
    → key_of ts value ≡ some t
    → status_name t ≡ value
key_of-some [] value t h = cc
key_of-some (u ∷ ts) value t h = elim (Bool-cases (status_name u == value)) [
  | inl e ↦
      subst (λ v. status_name v ≡ value)
        (some_inj (sym (ap (λ b. if b then some u else key_of ts value) e) ∙ h))
        ((eq_iff (status_name u) value).0 e)
  | inr e ↦ key_of-some ts value t (sym (ap (λ b. if b then some u else key_of ts value) e) ∙ h)
]

status_of-status_name : (t : TaskStatus) → status_of (status_name t) ≡ some t
unfolding status_of
status_of-status_name new = refl
status_of-status_name triaged = refl
status_of-status_name in_progress = refl
status_of-status_name waiting_tool = refl
status_of-status_name waiting_human = refl
status_of-status_name ready_for_review = refl
status_of-status_name approved = refl
status_of-status_name done = refl
status_of-status_name failed = refl
status_of-status_name canceled = refl

truthy-status_name : (t : TaskStatus) → truthy (status_name t) ≡ true
truthy-status_name new = refl
truthy-status_name triaged = refl
truthy-status_name in_progress = refl
truthy-status_name waiting_tool = refl
truthy-status_name waiting_human = refl
truthy-status_name ready_for_review = refl
truthy-status_name approved = refl
truthy-status_name done = refl
truthy-status_name failed = refl
truthy-status_name canceled = refl

truthy-inherited : (value : String) → is_inherited value ≡ true → truthy value ≡ true
unfolding is_inherited
truthy-inherited String.[] h = h
truthy-inherited (String.◌∷◌ c value) h = refl

passes : (t : TaskStatus) → is_task_status (some (status_name t)) ≡ true
unfolding is_task_status
passes t = rw (status_of-status_name t) (rw (truthy-status_name t) refl)

named :
    (value : String) (o : Option TaskStatus)
    → status_of value ≡ o
    → is_some o ≡ true
    → (t : TaskStatus) × (status_name t ≡ value)
unfolding status_of
named value none e h = cc
named value (some t) e h = (t, key_of-some statuses value t e)

-- A text passes for a state exactly when it is the name of one or of a member that every object
-- inherits.
pub is_task_status_iff :
    (value : String)
    → (is_task_status (some value) ≡ true)
      ↔ (((t : TaskStatus) × (status_name t ≡ value)) ⊎ (is_inherited value ≡ true))
unfolding is_task_status
is_task_status_iff value = (
  λ h. elim (Bool-cases (is_some (status_of value))) [
    | inl e ↦ inl (named value (status_of value) refl e)
    | inr e ↦ inr (ground (arith, e, h))
  ],
  λ h. elim h [
    | inl n ↦ let (t, e) = n in subst (λ v. is_task_status (some v) ≡ true) e (passes t)
    | inr i ↦ ground (arith, i, truthy-inherited value i)
  ],
)

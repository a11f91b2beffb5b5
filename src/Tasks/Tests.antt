-- ===== src/Tasks/Tests.antt =====
-- The states of a task at concrete histories.
use bighead.Common.{true, ◌≡◌, refl, ◌↔◌, ◌⊎◌, ◌≢◌, some, eq_iff, ap}
use mathlib.Core.Bool.{false≢true}
use bighead.Tasks.{
  TaskStatus, new, triaged, in_progress, ready_for_review, approved, done, failed, canceled,
  status_name, is_inherited, is_task_status,
}
use bighead.Tasks.Status.{is_task_status_iff}
use bighead.Tasks.Lifecycle.{History, still, moves, visits, done_is_reviewed, reaches_done_iff}

-- A name that every object inherits passes for a state.
constructor_passes : is_task_status (some "constructor") ≡ true
unfolding is_task_status
constructor_passes = refl

is_task_status_iff_example :
    (is_task_status (some "triaged") ≡ true)
    ↔ (((t : TaskStatus) × (status_name t ≡ "triaged")) ⊎ (is_inherited "triaged" ≡ true))
is_task_status_iff_example = is_task_status_iff "triaged"

abbrev short_history : History new done
short_history = moves triaged refl (
    moves in_progress refl
      (moves ready_for_review refl (moves approved refl (moves done refl still))))

new_is_not_done : new ≢ done
new_is_not_done e = false≢true ((eq_iff "new" "done").1 (ap status_name e))

new_is_not_approved : new ≢ approved
new_is_not_approved e = false≢true ((eq_iff "new" "approved").1 (ap status_name e))

done_is_reviewed_example :
    (visits approved short_history ≡ true) × (visits ready_for_review short_history ≡ true)
done_is_reviewed_example = done_is_reviewed short_history new_is_not_done new_is_not_approved

reaches_done_iff_example : History failed done ↔ (failed ≢ canceled)
reaches_done_iff_example = reaches_done_iff failed

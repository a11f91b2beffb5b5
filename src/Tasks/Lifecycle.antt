-- ===== src/Tasks/Lifecycle.antt =====
-- Where the steps of a task lead.
use bighead.Tasks.{
  TaskStatus, new, triaged, in_progress, waiting_tool, waiting_human, ready_for_review, approved,
  done, failed, canceled, status_name, transitions,
}
use mathlib.Core.Bool.{false≢true}
use bighead.Common.{
  Bool, true, ◌||◌, ◌≡◌, refl, ap, ◌≢◌, ◌↔◌, ◌⊎◌, inl, inr, List, [], ◌∷◌, arith, any, subst, ◌==◌,
  eq_iff,
}

-- One step, as the table allows it.
abbrev pub allows : TaskStatus → TaskStatus → Bool
allows t u = any (λ v. status_name v == status_name u) (transitions t)

-- A history of a task: steps of the table, one after the other.
pub data History : TaskStatus → TaskStatus → Type 0 where
  still : {t : TaskStatus} → History t t
  moves : {t v : TaskStatus} (u : TaskStatus) → allows t u ≡ true → History u v → History t v

-- The states that a history visits, the first and the last included.
abbrev pub visited : {t v : TaskStatus} → History t v → List TaskStatus
visited {t} still = t ∷ []
visited {t} (moves u a h) = t ∷ visited h

abbrev pub visits : TaskStatus → {t v : TaskStatus} → History t v → Bool
visits s h = any (λ u. status_name u == status_name s) (visited h)

before_done : (t : TaskStatus) → allows t done ≡ true → t ≡ approved
before_done new h = cc
before_done triaged h = cc
before_done in_progress h = cc
before_done waiting_tool h = cc
before_done waiting_human h = cc
before_done ready_for_review h = cc
before_done approved h = refl
before_done done h = cc
before_done failed h = cc
before_done canceled h = cc

before_approved : (t : TaskStatus) → allows t approved ≡ true → t ≡ ready_for_review
before_approved new h = cc
before_approved triaged h = cc
before_approved in_progress h = cc
before_approved waiting_tool h = cc
before_approved waiting_human h = cc
before_approved ready_for_review h = refl
before_approved approved h = cc
before_approved done h = cc
before_approved failed h = cc
before_approved canceled h = cc

at_start : (t s : TaskStatus) → t ≡ s → (status_name t == status_name s) ≡ true
at_start t s e = (eq_iff (status_name t) (status_name s)).1 (ap status_name e)

or_left : {a : Bool} (b : Bool) → a ≡ true → (a || b) ≡ true
or_left {a} b h = ground (arith, h)

or_right : (a : Bool) {b : Bool} → b ≡ true → (a || b) ≡ true
or_right a {b} h = ground (arith, h)

abbrev Checked : {t v : TaskStatus} → History t v → Type 0
Checked {t} h =
    (t ≡ done)
    ⊎ ((visits approved h ≡ true) × ((t ≡ approved) ⊎ (visits ready_for_review h ≡ true)))

done-Checked : {t v : TaskStatus} (h : History t v) → v ≡ done → Checked h
done-Checked still e = inl e
done-Checked {t} (moves u a h) e = elim (done-Checked h e) [
  | inl d ↦ inr (
    or_left (visits approved h)
        (at_start t approved (before_done t (subst (λ w. allows t w ≡ true) d a))),
    inl (before_done t (subst (λ w. allows t w ≡ true) d a)),
  )
  | inr p ↦ inr (
    or_right (status_name t == "approved") p.0,
    inr (elim (p.1) [
      | inl q ↦
          or_left (visits ready_for_review h)
            (at_start t ready_for_review (before_approved t (subst (λ w. allows t w ≡ true) q a)))
      | inr r ↦ or_right (status_name t == "ready_for_review") r
    ]),
  )
]

-- A task that is done and that was at first neither done nor approved has been through review and
-- approval, whatever its history.
pub done_is_reviewed :
    {t : TaskStatus} (h : History t done)
    → t ≢ done
    → t ≢ approved
    → (visits approved h ≡ true) × (visits ready_for_review h ≡ true)
done_is_reviewed h d a = elim (done-Checked h refl) [
  | inl e ↦ elim (d e) [ ]
  | inr p ↦ (p.0, elim (p.1) [ inl e ↦ elim (a e) [ ] | inr r ↦ r ])
]

leaves : (t u : TaskStatus) {v : TaskStatus} → t ≡ canceled → allows t u ≡ true → v ≡ canceled
leaves t u e a = elim (false≢true (subst (λ w. allows w u ≡ true) e a)) [ ]

not_canceled : done ≢ canceled
not_canceled e = false≢true ((eq_iff "done" "canceled").1 (ap status_name e))

stays_canceled : {t v : TaskStatus} → History t v → t ≡ canceled → v ≡ canceled
stays_canceled still e = e
stays_canceled {t} (moves u a h) e = leaves t u e a

from_approved : History approved done
from_approved = moves done refl still

from_review : History ready_for_review done
from_review = moves approved refl from_approved

from_progress : History in_progress done
from_progress = moves ready_for_review refl from_review

reaches : (t : TaskStatus) → t ≢ canceled → History t done
reaches new h = moves triaged refl (moves in_progress refl from_progress)
reaches triaged h = moves in_progress refl from_progress
reaches in_progress h = from_progress
reaches waiting_tool h = moves in_progress refl from_progress
reaches waiting_human h = moves ready_for_review refl from_review
reaches ready_for_review h = from_review
reaches approved h = from_approved
reaches done h = still
reaches failed h = moves in_progress refl from_progress
reaches canceled h = elim (h refl) [ ]

-- A task can still be done exactly when it is not canceled.
pub reaches_done_iff : (t : TaskStatus) → History t done ↔ (t ≢ canceled)
reaches_done_iff t = (λ h e. elim (not_canceled (stays_canceled h e)) [ ], reaches t)

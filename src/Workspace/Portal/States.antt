-- ===== src/Workspace/Portal/States.antt =====
-- Which deliveries the portal shows as open.
use bighead.Common.{
  String, Bool, true, false, ◌||◌, ◌≡◌, refl, sym, ap, ◌∙◌, ◌↔◌, ◌⊎◌, inl, inr, Option, none, some,
  if◌then◌else◌, subst, some_inj, ◌==◌, eq_iff, Bool-cases,
}
use bighead.Json.{Json, str, get}
use bighead.Workspace.Answers.{
  done_inj, >>=-eq-done, Result, done, fails, ◌>>=◌, type_error, require,
}
use bighead.Workspace.Service.{string, strings, is_record}
use bighead.Workspace.Portal.{
  PortalState, valid, expired, revoked, used, PortalPreview, portal_state, some_state, has_item,
  item_of, from_item, from_fields, preview_in, normalize_portal_preview,
}

-- All previews that a result can be have this state.
abbrev Keeps : PortalState → Result PortalPreview → Type 0
Keeps s r = (p : PortalPreview) → r ≡ done p → p.state ≡ s

>>=-Keeps :
    {A : Type 0} (s : PortalState) (m : Result A) (k : A → Result PortalPreview)
    → ((a : A) → Keeps s (k a))
    → Keeps s (m >>= k)
>>=-Keeps s (done a) k h p e = h a p e
>>=-Keeps s (fails q) k h p e = cc

made : (s : PortalState) (q : PortalPreview) → q.state ≡ s → Keeps s (done q)
made s q e p h = let same : q ≡ p = done_inj h in sym (ap (λ x. x.state) same) ∙ e

from_item-Keeps : (value item : Json) (s : PortalState) → Keeps s (from_item value item s)
unfolding from_item
from_item-Keeps value item s =
    >>=-Keeps s (strings (get value "allowedActions") "allowedActions") _ (λ actions.
      >>=-Keeps s (string (get item "title") "item.title") _ (λ title.
        >>=-Keeps s (string (get item "objective") "item.objective") _ (λ summary. made s _ refl)))

from_fields-Keeps : (value : Json) (s : PortalState) → Keeps s (from_fields value s)
unfolding from_fields
from_fields-Keeps value s = >>=-Keeps s (string (get value "token") "token") _ (λ token.
    >>=-Keeps s (string (get value "title") "title") _ (λ title.
      >>=-Keeps s (string (get value "summary") "summary") _ (λ summary.
        >>=-Keeps s (string (get value "requestedBy") "requestedBy") _ (λ by.
          >>=-Keeps s (string (get value "dueLabel") "dueLabel") _ (λ due.
            >>=-Keeps s (strings (get value "allowedActions") "allowedActions") _ (λ actions.
              >>=-Keeps s (strings (get value "guardRails") "guardRails") _
                (λ rails. made s _ refl)))))))

preview_in-Keeps : (value : Json) (s : PortalState) → Keeps s (preview_in value s)
unfolding preview_in
preview_in-Keeps value s = elim (Bool-cases (has_item (get value "item"))) [
  | inl e ↦ rw e (from_item-Keeps value (item_of (get value "item")) s)
  | inr e ↦ rw e (from_fields-Keeps value s)
]

string-eq-done :
    (o : Option Json) (field raw : String) → string o field ≡ done raw → o ≡ some (str raw)
string-eq-done none field raw h = cc
string-eq-done (some Json.null) field raw h = cc
string-eq-done (some (Json.bool b)) field raw h = cc
string-eq-done (some (Json.num n)) field raw h = cc
string-eq-done (some (str s)) field raw h = cc
string-eq-done (some (Json.arr vs)) field raw h = cc
string-eq-done (some (Json.obj fs)) field raw h = cc

some_state-eq-done : (o : Option PortalState) (s : PortalState) → some_state o ≡ done s → o ≡ some s
some_state-eq-done none s h = cc
some_state-eq-done (some t) s h = cc

-- What a preview's state comes from.
raw_state :
    (payload : Json) (p : PortalPreview)
    → normalize_portal_preview payload ≡ done p
    → (raw : String) × (get payload "state" ≡ some (str raw)) × (portal_state raw ≡ some p.state)
unfolding normalize_portal_preview
raw_state payload p h =
    let (_, _, h1) =
      >>=-eq-done (require (is_record payload) (type_error "Invalid portal payload")) _ h in
    let (raw, named, h2) = >>=-eq-done (string (get payload "state") "state") _ h1 in
    let (state, known, h3) = >>=-eq-done (some_state (portal_state raw)) (preview_in payload) h2 in
    (
      raw,
      string-eq-done (get payload "state") "state" raw named,
      some_state-eq-done (portal_state raw) state known
          ∙ ap some (sym (preview_in-Keeps payload state p h3)),
    )

-- The tests of a state's name, of which two lead to the open state.
tests :
    (a b c d e f : Bool)
    → (if a
        then some valid
        else if b
        then some used
        else if c
        then some valid
        else if d
        then some expired
        else if e
        then some revoked
        else if f
        then some used
        else none)
      ≡ some valid
    → (a ≡ true) ⊎ (c ≡ true)
tests true b c d e f h = inl refl
tests false true c d e f h = cc
tests false false true d e f h = inr refl
tests false false false true e f h = cc
tests false false false false true f h = cc
tests false false false false false true h = cc
tests false false false false false false h = cc

valid_iff : (raw : String) → (portal_state raw ≡ some valid) ↔ ((raw ≡ "pending") ⊎ (raw ≡ "valid"))
unfolding portal_state
valid_iff raw = (
  λ h.
      elim (tests (raw == "pending")
        (raw == "approved" || (raw == "changes_requested" || raw == "rejected")) (raw == "valid")
        (raw == "expired") (raw == "revoked") (raw == "used") h) [
          | inl e ↦ inl ((eq_iff raw "pending").0 e)
          | inr e ↦ inr ((eq_iff raw "valid").0 e)
        ],
  λ h. elim h [
    | inl e ↦ subst (λ r. portal_state r ≡ some valid) (sym e) refl
    | inr e ↦ subst (λ r. portal_state r ≡ some valid) (sym e) refl
  ],
)

-- A delivery is shown as open to a decision exactly if the API calls it pending or valid: not if it
-- is decided, expired or revoked, and whatever the other fields of the answer are.
pub normalize_portal_preview_lem :
    (payload : Json) (p : PortalPreview)
    → normalize_portal_preview payload ≡ done p
    → (p.state ≡ valid)
      ↔ ((get payload "state" ≡ some (str "pending")) ⊎ (get payload "state" ≡ some (str "valid")))
normalize_portal_preview_lem payload p h =
    let (raw, named, known) = raw_state payload p h in
    (
      λ e. elim ((valid_iff raw).0 (known ∙ ap some e)) [
        | inl i ↦ inl (named ∙ ap (λ r. some (str r)) i)
        | inr i ↦ inr (named ∙ ap (λ r. some (str r)) i)
      ],
      λ open_state. some_inj (
          sym known
          ∙ (valid_iff raw).1 (elim open_state [
            | inl i ↦ inl (str_inj (sym named ∙ i))
            | inr i ↦ inr (str_inj (sym named ∙ i))
          ])),
    )
  where
    str_inj : {a b : String} → some (str a) ≡ some (str b) → a ≡ b
    str_inj h = cc

-- ===== src/Workspace/Service/Accepts.antt =====
-- `normalizeWorkspaceSnapshot`, applied to what the authenticated transport builds.
use bighead.Common.{
  String, Bool, true, false, not, ◌&&◌, ◌≡◌, refl, sym, ap, ◌∙◌, Option, none, some, List, [], ◌∷◌,
  map, if◌then◌else◌, find, has, eq_iff, arith, Bool-cases, some_inj, subst, ◌⊎◌, inl, inr,
}
use bighead.Json.{Json, null, bool, num, str, arr, obj, Fields, items, of_list, get}
use bighead.Json.Numbers.{below, is_safe_integer}
use bighead.Workspace.Rows.{Conversions, scalar, show}
use bighead.Workspace.Answers.{type_error, Result, done, fails}
use bighead.Workspace.Snapshot.{
  Loaded, snapshot, current_organization, organization_names, count_of, has_id, field_of, head_or,
}
use bighead.Workspace.Service.{
  normalize_workspace_snapshot, all_texts, given_texts, strings, is_count, is_record, is_there,
  is_array,
}

all_texts-of_list : (ss : List String) → all_texts (items (of_list (map (λ s. str s) ss))) ≡ some ss
all_texts-of_list [] = refl
all_texts-of_list (s ∷ ss) = rw (all_texts-of_list ss) refl

count_of-IsCount : (o : Option Json) → is_count (some (count_of o)) ≡ true
count_of-IsCount none = refl
count_of-IsCount (some null) = refl
count_of-IsCount (some (bool b)) = refl
count_of-IsCount (some (str s)) = refl
count_of-IsCount (some (arr vs)) = refl
count_of-IsCount (some (obj fs)) = refl
count_of-IsCount (some (num n)) = elim (Bool-cases (is_safe_integer n && not (below n 0))) [
  | inl e ↦ rw e e
  | inr e ↦ rw e refl
]

strings-of_list :
    (ss : List String) (field : String)
    → strings (some (arr (of_list (map (λ s. str s) ss)))) field ≡ done ss
strings-of_list ss field = ap (given_texts field) (all_texts-of_list ss)

abbrev shortcuts : List String
shortcuts = "Criar tarefa" ∷ "Abrir sala" ∷ "Revisar aprovacoes" ∷ []

-- The test of a value with all the fields comes down to the test of the current organization.
normalized :
    (v : Json) (names : List String) (current : String) (keys : List String) (b : Bool)
    → is_record v ≡ true
    → get v "organizations" ≡ some (arr (of_list (map (λ s. str s) names)))
    → get v "currentOrganization" ≡ some (str current)
    → is_count (get v "notifications") ≡ true
    → get v "commandShortcuts" ≡ some (arr (of_list (map (λ s. str s) keys)))
    → (is_there (get v "areas") && is_array (get v "screens")) ≡ true
    → has names current ≡ b
    → normalize_workspace_snapshot v
      ≡ (if b then done v else fails (type_error "Current organization is outside the workspace"))
unfolding normalize_workspace_snapshot
normalized v names current keys true r o t n s k h = rw r (
    rw o (
      rw (strings-of_list names "organizations")
        (rw t (rw h (rw n (rw s (rw (strings-of_list keys "commandShortcuts") (rw k refl))))))))
normalized v names current keys false r o t n s k h =
    rw r (rw o (rw (strings-of_list names "organizations") (rw t (rw h refl))))

module _ (c : Conversions) where
  first_name :
      (row : Json) (rows : List Json) (id : String)
      → has (organization_names c (row ∷ rows)) (head_or (organization_names c (row ∷ rows)) id)
        ≡ true
  first_name row rows id =
      ground (arith, eq_iff (show c (get row "name")) (show c (get row "name")))

  -- A name that a row has is the text of it, or the first name stands for it.
  scalar-show :
      (name : Option Json) (text : String)
      → (scalar c name text ≡ show c name) ⊎ (scalar c name text ≡ text)
  unfolding scalar show
  scalar-show none text = inr refl
  scalar-show (some (str s)) text = inl refl
  scalar-show (some (num n)) text = inl refl
  scalar-show (some (bool true)) text = inl refl
  scalar-show (some (bool false)) text = inl refl
  scalar-show (some null) text = inr refl
  scalar-show (some (arr vs)) text = inr refl
  scalar-show (some (obj fs)) text = inr refl

  found_name :
      (rows : List Json) (id : String) (row : Json)
      → find (λ r. has_id id (get r "id")) rows ≡ some row
      → has (organization_names c rows) (show c (get row "name")) ≡ true
  found_name [] id row h = cc
  found_name (r ∷ rows) id row h = elim (Bool-cases (has_id id (get r "id"))) [
    | inl e ↦
        let same : r ≡ row =
          some_inj
            (sym (ap (λ b. if b then some r else find (λ r. has_id id (get r "id")) rows) e) ∙ h) in
        ground (
          arith,
          eq_iff (show c (get r "name")) (show c (get row "name")),
          ap (λ x. show c (get x "name")) same,
        )
    | inr e ↦
        let more =
          found_name rows id row
            (sym (ap (λ b. if b then some r else find (λ r. has_id id (get r "id")) rows) e) ∙ h) in
        ground arith
  ]

  -- With a row the current organization is one of the names, without one it is none.
  pub current_known :
      (row : Json) (rows : List Json) (id : String)
      → has (organization_names c (row ∷ rows)) (current_organization c (row ∷ rows) id) ≡ true
  unfolding current_organization scalar
  current_known row rows id = known (find (λ r. has_id id (get r "id")) (row ∷ rows)) refl
    where
      names : List String
      names = organization_names c (row ∷ rows)

      known :
          (o : Option Json)
          → find (λ r. has_id id (get r "id")) (row ∷ rows) ≡ o
          → has names (scalar c (field_of o "name") (head_or names id)) ≡ true
      known none h = first_name row rows id
      known (some r) h = elim (scalar-show (get r "name") (head_or names id)) [
        | inl e ↦ subst (λ x. has names x ≡ true) (sym e) (found_name (row ∷ rows) id r h)
        | inr e ↦ subst (λ x. has names x ≡ true) (sym e) (first_name row rows id)
      ]

-- The answer of the service for what the transport has built from these rows.
abbrev pub in_workspace : List Json → Json → Result Json
in_workspace [] v = fails (type_error "Current organization is outside the workspace")
in_workspace (row ∷ rows) v = done v

pub normalize-snapshot :
    (c : Conversions) (screens : List Json) (areas : Fields) (rows : List Json) (id : String)
    (l : Loaded) (room : String) (messages : Json)
    → normalize_workspace_snapshot (snapshot c screens areas rows id l room messages)
      ≡ in_workspace rows (snapshot c screens areas rows id l room messages)
unfolding snapshot
normalize-snapshot c screens areas [] id l room messages =
    normalized (snapshot c screens areas [] id l room messages) [] (current_organization c [] id)
      shortcuts false refl refl refl (count_of-IsCount (get l.notifications "unreadCount")) refl
      refl refl
normalize-snapshot c screens areas (row ∷ rows) id l room messages =
    normalized (snapshot c screens areas (row ∷ rows) id l room messages)
      (organization_names c (row ∷ rows)) (current_organization c (row ∷ rows) id) shortcuts true
      refl refl refl (count_of-IsCount (get l.notifications "unreadCount")) refl refl
      (current_known c row rows id)

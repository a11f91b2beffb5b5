-- ===== src/Workflow/Fits.antt =====
-- The errors of the loop over the edges of `validateWorkflow`.
use mathlib.Core.List.{Memᴰ}
use bighead.Common.{
  String, false, ◌≡◌, refl, sym, ap, ◌∙◌, ◌≢◌, ◌↔◌, inl, inr, Option, none, some, List, [], ◌∷◌,
  ◌++◌, All, has, NoRepeats, some_inj, ◌==◌, eq_iff, map_get, Bool-cases,
}
use bighead.Workflow.{
  WorkflowNode, WorkflowEdge, EdgeCheck, ids_of, map_of, by_id, is_some, check_ends, check_edges,
  missing_node, mismatch, checked_edges,
}
use bighead.Workflow.Tables.{has-of_member}
use bighead.Workflow.Links.{is_some-by_id, id-by_id}

repeated :
    (ns : List WorkflowNode) (n x : WorkflowNode)
    → n.id ≡ x.id
    → has (ids_of ns) n.id ≡ false
    → Memᴰ x ns
    → ⊥
repeated ns n x e h m =
    let yes = has-of_member ns x m in
    let no : has (ids_of ns) x.id ≡ false = ap (has (ids_of ns)) (sym e) ∙ h in cc

-- Of nodes whose ids differ, one is known by its id.
only_one :
    (ns : List WorkflowNode)
    → NoRepeats (ids_of ns)
    → (x y : WorkflowNode) → Memᴰ x ns
    → Memᴰ y ns
    → x.id ≡ y.id
    → x ≡ y
only_one [] d x y m m' same = elim m [ ]
only_one (n ∷ ns) d x y (Memᴰ.head e) (Memᴰ.head f) same = e ∙ sym f
only_one (n ∷ ns) d x y (Memᴰ.head e) (Memᴰ.tail m) same =
    absurd (repeated ns n y (ap (λ z. z.id) (sym e) ∙ same) d.0 m)
only_one (n ∷ ns) d x y (Memᴰ.tail m) (Memᴰ.head e) same =
    absurd (repeated ns n x (ap (λ z. z.id) (sym e) ∙ sym same) d.0 m)
only_one (n ∷ ns) (h, d) x y (Memᴰ.tail m) (Memᴰ.tail m') same = only_one ns d x y m m' same

known :
    (nodes : List WorkflowNode)
    → NoRepeats (ids_of nodes)
    → (x : WorkflowNode) (k : String) → Memᴰ x nodes
    → x.id ≡ k
    → map_get k (by_id nodes) ≡ some x
known nodes d x k m e = here (map_get k (by_id nodes)) refl
  where
    here : (o : Option WorkflowNode) → map_get k (by_id nodes) ≡ o → o ≡ some x
    here none h =
        let no = sym (is_some-by_id nodes k) ∙ ap is_some h in
        let yes = ap (has (ids_of nodes)) (sym e) ∙ has-of_member nodes x m in cc
    here (some y) h =
        let (same, m') = id-by_id nodes k y h in ap some (only_one nodes d y x m' m (same ∙ sym e))

pub append-eq-nil : (xs ys : List String) → (xs ++ ys) ≡ [] → (xs ≡ []) × (ys ≡ [])
append-eq-nil [] ys h = (refl, h)
append-eq-nil (x ∷ xs) ys h = cc

append-neq-nil : (xs : List String) (x : String) → (xs ++ x ∷ []) ≢ []
append-neq-nil [] x h = cc
append-neq-nil (y ∷ xs) x h = cc

append_nil : (xs : List String) → xs ≡ [] → (xs ++ []) ≡ []
append_nil xs h = rw h refl

module _ (nodes : List WorkflowNode) where
  -- The ends of an edge, as the table has them, are nodes, and the second takes what the first gives.
  abbrev Agree : WorkflowEdge → Type 0
  Agree e =
      (s : WorkflowNode) × (t : WorkflowNode) × (map_get e.source (by_id nodes) ≡ some s)
      × (map_get e.target (by_id nodes) ≡ some t)
      × (s.output ≡ t.input)

  check_ends_errors :
      (c : EdgeCheck) (e : WorkflowEdge) (s t : Option WorkflowNode)
      → map_get e.source (by_id nodes) ≡ s
      → map_get e.target (by_id nodes) ≡ t
      → ((check_ends s t c).errors ≡ []) ↔ ((c.errors ≡ []) × Agree e)
  unfolding check_ends
  check_ends_errors c e (some s) (some t) hs ht = elim (Bool-cases (s.output == t.input)) [
    | inl same ↦ rw same (
      λ h. ((append-eq-nil c.errors [] h).0, (s, t, hs, ht, (eq_iff s.output t.input).0 same)),
      λ (h, a). append_nil c.errors h,
    )
    | inr other ↦ rw other (
      λ h. absurd (append-neq-nil c.errors (mismatch s t) h),
      λ (h, (s', t', hs', ht', same)).
          let es : s ≡ s' = some_inj (sym hs ∙ hs') in
          let et : t ≡ t' = some_inj (sym ht ∙ ht') in
          absurd (cong_absurd s t s' t' es et same other),
    )
  ]
    where
      cong_absurd :
          (s t s' t' : WorkflowNode)
          → s ≡ s'
          → t ≡ t'
          → s'.output ≡ t'.input
          → (s.output == t.input) ≡ false
          → ⊥
      cong_absurd s t s' t' es et same other =
          let both : s.output ≡ t.input =
            ap (λ x. x.output) es ∙ (same ∙ sym (ap (λ x. x.input) et)) in
          let yes = (eq_iff s.output t.input).1 both in cc
  check_ends_errors c e none t hs ht = (
    λ h. absurd (append-neq-nil c.errors missing_node h),
    λ (h, (s, t, hs', ht', same)). absurd (none_some s (sym hs ∙ hs')),
  )
    where
      none_some : (s : WorkflowNode) → none ≡ some s → ⊥
      none_some s h = cc
  check_ends_errors c e (some s) none hs ht = (
    λ h. absurd (append-neq-nil c.errors missing_node h),
    λ (h, (s, t, hs', ht', same)). absurd (none_some t (sym ht ∙ ht')),
  )
    where
      none_some : (s : WorkflowNode) → none ≡ some s → ⊥
      none_some s h = cc

  check_errors :
      (c : EdgeCheck) (es : List WorkflowEdge)
      → ((check_edges (by_id nodes) c es).errors ≡ []) ↔ ((c.errors ≡ []) × All Agree es)
  unfolding check_edges
  check_errors c [] = (λ h. (h, tt), λ h. h.0)
  check_errors c (e ∷ es) =
      let s = map_get e.source (by_id nodes) in
      let t = map_get e.target (by_id nodes) in
      let one = check_ends_errors c e s t refl refl in
      let more = check_errors (check_ends s t c) es in
      (
        λ h. let (now, rest) = more.0 h in let (before, fits) = one.0 now in (before, (fits, rest)),
        λ (before, (fits, rest)). more.1 (one.1 (before, fits), rest),
      )

  -- The ends of an edge are nodes, and the second takes what the first gives.
  abbrev pub Fits : WorkflowEdge → Type 0
  Fits e =
      (s : WorkflowNode) × (t : WorkflowNode) × Memᴰ s nodes
      × Memᴰ t nodes
      × (s.id ≡ e.source)
      × (t.id ≡ e.target)
      × (s.output ≡ t.input)

  Agree-Fits : (es : List WorkflowEdge) → All Agree es → All Fits es
  Agree-Fits [] h = tt
  Agree-Fits (e ∷ es) ((s, t, hs, ht, same), h) =
      let (is, ms) = id-by_id nodes e.source s hs in
      let (it, mt) = id-by_id nodes e.target t ht in ((s, t, ms, mt, is, it, same), Agree-Fits es h)

  Fits-Agree : NoRepeats (ids_of nodes) → (es : List WorkflowEdge) → All Fits es → All Agree es
  Fits-Agree d [] h = tt
  Fits-Agree d (e ∷ es) ((s, t, ms, mt, is, it, same), h) = (
    (s, t, known nodes d s e.source ms is, known nodes d t e.target mt it, same),
    Fits-Agree d es h,
  )

  pub checked_edges-Fits :
      NoRepeats (ids_of nodes)
      → (edges : List WorkflowEdge) → ((checked_edges nodes edges).errors ≡ []) ↔ All Fits edges
  unfolding checked_edges
  checked_edges-Fits d edges =
      let all =
        check_errors (record { adjacency = map_of (λ n. []) [] nodes; errors = [] }) edges in
      (λ h. Agree-Fits edges (all.0 h).1, λ h. all.1 (refl, Fits-Agree d edges h))

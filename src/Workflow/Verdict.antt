-- ===== src/Workflow/Verdict.antt =====
-- What the whole check says of a workflow.
use bighead.Common.{
  String, true, false, not, ◌≡◌, refl, sym, ap, ◌∙◌, ◌≢◌, ◌↔◌, ◌⊎◌, inl, inr, some, List, [], ◌∷◌,
  ◌++◌, arith, eqb, length, any, All, set_of, length-set_of_iff, NoRepeats, trim, some_inj, ◌==◌,
  eq_iff, truthy, Bool-cases,
}
use bighead.Common.{Memᴰ, any-iff-Memᴰ, none-iff-Memᴰ, NoRepeats-set_of}
use bighead.Workflow.{
  WorkflowNode, WorkflowEdge, ids_of, is_blank, is_entry, is_exit, checked_edges, cycle_errors,
  connected_errors, found_errors, validate_workflow,
}
use bighead.Workflow.Fits.{Fits, checked_edges-Fits, append-eq-nil}
use bighead.Workflow.Joined.{
  HasCycle, cycle_errors_decides, IsConnected, connected_errors_decides, length-ids_of,
  error_if-eq-nil, eqb_iff,
}

-- An id and two schemas that are not only white space.
abbrev pub IsFilled : WorkflowNode → Type 0
IsFilled n = (trim n.id ≢ "") × (trim n.input ≢ "") × (trim n.output ≢ "")

-- A workflow that can be published.
pub record IsWorkflow (nodes : List WorkflowNode) (edges : List WorkflowEdge) : Type 0 where
  filled : (n : WorkflowNode) → Memᴰ n nodes → IsFilled n
  distinct : NoRepeats (ids_of nodes)
  typed : All (Fits nodes) edges
  acyclic : HasCycle nodes edges → ⊥
  entry : (n : WorkflowNode) × Memᴰ n nodes × ((e : WorkflowEdge) → Memᴰ e edges → e.target ≢ n.id)
  exit : (n : WorkflowNode) × Memᴰ n nodes × ((e : WorkflowEdge) → Memᴰ e edges → e.source ≢ n.id)
  connected : IsConnected nodes edges

truthy_iff : (s : String) → (truthy s ≡ true) ↔ (s ≢ "")
truthy_iff String.[] = (λ h e. cc, λ h. absurd (h refl))
truthy_iff (String.◌∷◌ c s) = (λ h e. cc, λ h. refl)

is_blank_iff : (n : WorkflowNode) → (is_blank n ≡ false) ↔ IsFilled n
is_blank_iff n =
    let a = truthy_iff (trim n.id) in
    let b = truthy_iff (trim n.input) in
    let c = truthy_iff (trim n.output) in
    (
      λ h. (a.0 (ground (arith, h)), b.0 (ground (arith, h)), c.0 (ground (arith, h))),
      λ (i, j, k). let x = a.1 i in let y = b.1 j in let z = c.1 k in ground arith,
    )

-- A node at which no edge of a list has this end.
free_iff :
    (nodes : List WorkflowNode) (edges : List WorkflowEdge) (end : WorkflowEdge → String)
    → (not (any (λ n. not (any (λ e. end e == n.id) edges)) nodes) ≡ false)
      ↔ ((n : WorkflowNode) × Memᴰ n nodes × ((e : WorkflowEdge) → Memᴰ e edges → end e ≢ n.id))
free_iff nodes edges end =
    let some_node =
      any-iff-Memᴰ (λ (n : WorkflowNode). not (any (λ e. end e == n.id) edges)) nodes in
    (
      λ h.
          let (n, m, free) = some_node.0 (ground (arith, h)) in
          let no_edge =
            (none-iff-Memᴰ (λ (e : WorkflowEdge). end e == n.id) edges).0 (ground (arith, free)) in
          (n, m, λ e k same. let yes = (eq_iff (end e) n.id).1 same in let no = no_edge e k in cc),
      λ (n, m, free).
          let no_edge =
            (none-iff-Memᴰ (λ (e : WorkflowEdge). end e == n.id) edges).1
              (λ e k. not_same (end e) n.id (free e k)) in
          let yes = some_node.1 (n, m, ap not no_edge) in ap not yes,
    )
  where
    not_same : (a b : String) → a ≢ b → (a == b) ≡ false
    not_same a b h = elim (Bool-cases (a == b)) [
      | inl e ↦ absurd (h ((eq_iff a b).0 e))
      | inr e ↦ e
    ]

set_of-eq-nil : (xs : List String) → (set_of xs ≡ []) ↔ (xs ≡ [])
unfolding set_of
set_of-eq-nil [] = (λ h. refl, λ h. refl)
set_of-eq-nil (x ∷ xs) = (λ h. cc, λ h. cc)

append_nils : (xs ys : List String) → xs ≡ [] → ys ≡ [] → (xs ++ ys) ≡ []
append_nils xs ys h k = rw h k

validated :
    (nodes : List WorkflowNode) (edges : List WorkflowEdge) (cs es : List String)
    → cycle_errors nodes edges ≡ some cs
    → connected_errors nodes edges ≡ some es
    → validate_workflow nodes edges ≡ some (set_of (found_errors nodes edges cs es))
unfolding validate_workflow
validated nodes edges cs es h k = rw h (rw k refl)

-- The check of every list of nodes and every list of edges ends: with one more than the number of
-- nodes as fuel neither search runs out of it, and no error stands twice in the answer.
pub validate_workflow-Total :
    (nodes : List WorkflowNode) (edges : List WorkflowEdge)
    → (errors : List String) × (validate_workflow nodes edges ≡ some errors) × NoRepeats errors
validate_workflow-Total nodes edges =
    let (cs, cyclic) = cycles_some (cycle_errors_decides nodes edges) in
    let (es, joined, _) = connected_errors_decides nodes edges in
    let found = found_errors nodes edges cs es in
    (set_of found, validated nodes edges cs es cyclic joined, NoRepeats-set_of found)
  where
    cycles_some :
        {yes no : Type 0}
        → ((cycle_errors nodes edges ≡ some ("Ciclo indevido detectado." ∷ [])) × yes)
          ⊎ ((cycle_errors nodes edges ≡ some []) × no)
        → (cs : List String) × (cycle_errors nodes edges ≡ some cs)
    cycles_some (inl (e, _)) = (_, e)
    cycles_some (inr (e, _)) = (_, e)

-- The search from every node reports a cycle exactly if the edges between nodes of the workflow
-- have a walk of one step or more from some id back to it.
pub cycle_errors_iff :
    (nodes : List WorkflowNode) (edges : List WorkflowEdge)
    → (cycle_errors nodes edges ≡ some ("Ciclo indevido detectado." ∷ [])) ↔ HasCycle nodes edges
cycle_errors_iff nodes edges = elim (cycle_errors_decides nodes edges) [
  | inl (e, walk) ↦ (λ h. walk, λ w. e)
  | inr (e, free) ↦ (λ h. absurd (differ (sym e ∙ h)), λ w. absurd (free w))
]
  where
    differ : {x : String} → some [] ≡ some (x ∷ []) → ⊥
    differ h = cc

module _ (nodes : List WorkflowNode) (edges : List WorkflowEdge) where
  Clean : List String → List String → Type 0
  Clean cs es =
      (any is_blank nodes ≡ false)
      × (length (set_of (ids_of nodes)) ≡ length nodes)
      × ((checked_edges nodes edges).errors ≡ [])
      × (cs ≡ [])
      × (not (any (is_entry edges) nodes) ≡ false)
      × (not (any (is_exit edges) nodes) ≡ false)
      × (es ≡ [])

  found_errors-eq-nil : (cs es : List String) → (found_errors nodes edges cs es ≡ []) ↔ Clean cs es
  unfolding Clean
  found_errors-eq-nil cs es =
      let blank = error_if-eq-nil (any is_blank nodes) "Node possui id ou schema vazio." in
      let size = eqb_iff (length (set_of (ids_of nodes))) (length nodes) in
      let twice =
        error_if-eq-nil (not (eqb (length (set_of (ids_of nodes))) (length nodes)))
          "Node duplicado detectado." in
      let entry = error_if-eq-nil (not (any (is_entry edges) nodes)) "Grafo sem entrada." in
      let exit = error_if-eq-nil (not (any (is_exit edges) nodes)) "Grafo sem saida." in
      (
        λ h.
            let (a, h1) = append-eq-nil _ _ h in
            let (b, h2) = append-eq-nil _ _ h1 in
            let (c, h3) = append-eq-nil _ _ h2 in
            let (d, h4) = append-eq-nil _ _ h3 in
            let (e, h5) = append-eq-nil _ _ h4 in
            let (f, g) = append-eq-nil _ _ h5 in
            (blank.0 a, size.0 (twice.0 b), c, d, entry.0 e, exit.0 f, g),
        λ (a, b, c, d, e, f, g). append_nils _ _ (blank.1 a) (
            append_nils _ _ (twice.1 (size.1 b)) (
              append_nils _ _ c
                (append_nils _ _ d (append_nils _ _ (entry.1 e) (append_nils _ _ (exit.1 f) g))))),
      )

  Clean-IsWorkflow :
      (cs es : List String)
      → (cs ≡ [] → HasCycle nodes edges → ⊥)
      → (NoRepeats (ids_of nodes) → (es ≡ []) ↔ IsConnected nodes edges)
      → Clean cs es
      → IsWorkflow nodes edges
  unfolding Clean
  Clean-IsWorkflow cs es free joined (blank, size, edge_errors, no_cycle, entry, exit, no_parts) =
      let distinct = (length-set_of_iff (ids_of nodes)).0 (size ∙ sym (length-ids_of nodes)) in
      record {
        filled = λ n m. (is_blank_iff n).0 ((none-iff-Memᴰ is_blank nodes).0 blank n m);
        distinct = distinct;
        typed = (checked_edges-Fits nodes distinct edges).0 edge_errors;
        acyclic = free no_cycle;
        entry = (free_iff nodes edges (λ e. e.target)).0 entry;
        exit = (free_iff nodes edges (λ e. e.source)).0 exit;
        connected = (joined distinct).0 no_parts;
      }

  IsWorkflow-Clean :
      (cs es : List String)
      → ((HasCycle nodes edges → ⊥) → cs ≡ [])
      → (NoRepeats (ids_of nodes) → (es ≡ []) ↔ IsConnected nodes edges)
      → IsWorkflow nodes edges
      → Clean cs es
  unfolding Clean
  IsWorkflow-Clean cs es free joined w = (
    (none-iff-Memᴰ is_blank nodes).1 (λ n m. (is_blank_iff n).1 (w.filled n m)),
    (length-set_of_iff (ids_of nodes)).1 w.distinct ∙ length-ids_of nodes,
    (checked_edges-Fits nodes w.distinct edges).1 w.typed,
    free w.acyclic,
    (free_iff nodes edges (λ e. e.target)).1 w.entry,
    (free_iff nodes edges (λ e. e.source)).1 w.exit,
    (joined w.distinct).1 w.connected,
  )

  -- The errors of the search for a cycle, with what their absence means.
  cycles :
      (cs : List String) × (cycle_errors nodes edges ≡ some cs)
      × (cs ≡ [] → HasCycle nodes edges → ⊥)
      × ((HasCycle nodes edges → ⊥) → cs ≡ [])
  cycles = elim (cycle_errors_decides nodes edges) [
    | inl (e, walk) ↦ ("Ciclo indevido detectado." ∷ [], e, λ h w. cc, λ free. absurd (free walk))
    | inr (e, free) ↦ ([], e, λ h w. free w, λ f. refl)
  ]

-- The check finds no error exactly if the lists are a workflow: no id or schema is blank, no id
-- stands twice, every edge goes from a node to a node that takes what the first one gives, no walk
-- along the edges comes back, some node has no edge to it, some node has no edge from it, and every
-- node is connected to the first one by edges taken in either direction.
pub validate_workflow-accepts :
    (nodes : List WorkflowNode) (edges : List WorkflowEdge)
    → (validate_workflow nodes edges ≡ some []) ↔ IsWorkflow nodes edges
validate_workflow-accepts nodes edges =
    let (cs, cyclic, free, none_found) = cycles nodes edges in
    let (es, joined, connected) = connected_errors_decides nodes edges in
    let found = found_errors nodes edges cs es in
    let answer = validated nodes edges cs es cyclic joined in
    let clean = found_errors-eq-nil nodes edges cs es in
    (
      λ h.
          Clean-IsWorkflow nodes edges cs es free connected
            (clean.0 ((set_of-eq-nil found).0 (some_inj (sym answer ∙ h)))),
      λ w.
          answer
          ∙ ap some (
              (set_of-eq-nil found).1
                (clean.1 (IsWorkflow-Clean nodes edges cs es none_found connected w))),
    )

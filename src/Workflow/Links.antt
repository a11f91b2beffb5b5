-- ===== src/Workflow/Links.antt =====
-- The neighbours that the searches of `validateWorkflow` follow, and the edges of the workflow.
use mathlib.Core.List.{Memᴰ}
use bighead.Common.{
  String, Bool, true, false, ◌&&◌, ◌||◌, ◌≡◌, refl, sym, ap, ◌∙◌, inl, inr, Option, none, some,
  List, [], ◌∷◌, arith, if◌then◌else◌, any, has, ◌==◌, map_get,
}
use bighead.Workflow.{
  WorkflowNode, WorkflowEdge, EdgeCheck, ids_of, by_id, neighbours, push, is_some, check_ends,
  check_edges, undirect,
}
use bighead.Workflow.Tables.{is_some-map_of, found, is_some-push, has-push}

-- An edge between two nodes leads from one id to another.
abbrev pub leads : List String → String → String → WorkflowEdge → Bool
leads ids v w e = (has ids e.source && has ids e.target) && (e.source == v && e.target == w)

abbrev pub links : List WorkflowNode → List WorkflowEdge → String → String → Bool
links nodes edges v w = any (leads (ids_of nodes) v w) edges

-- An edge, taken in either direction.
abbrev pub joins : List WorkflowNode → List WorkflowEdge → String → String → Bool
joins nodes edges v w = any (λ e. leads (ids_of nodes) v w e || leads (ids_of nodes) w v e) edges

or_false : (b : Bool) → (b || false) ≡ b
or_false b = ground arith

or_assoc : (a b c : Bool) → ((a || b) || c) ≡ (a || (b || c))
or_assoc a b c = ground arith

pub is_some-by_id :
    (nodes : List WorkflowNode) (k : String)
    → is_some (map_get k (by_id nodes)) ≡ has (ids_of nodes) k
unfolding by_id map_get
is_some-by_id nodes k = is_some-map_of (λ n. n) [] nodes k ∙ or_false (has (ids_of nodes) k)

pub id-by_id :
    (nodes : List WorkflowNode) (k : String) (x : WorkflowNode)
    → map_get k (by_id nodes) ≡ some x
    → (x.id ≡ k) × Memᴰ x nodes
unfolding by_id map_get
id-by_id nodes k x h = elim (found [] nodes k x h) [ inl p ↦ p | inr e ↦ cc ]

module _ (nodes : List WorkflowNode) where
  -- The keys of a table are the ids of the nodes.
  abbrev pub Keyed : List (String × List String) → Type 0
  Keyed m = (k : String) → is_some (map_get k m) ≡ has (ids_of nodes) k

  check_one :
      (c : EdgeCheck) (e : WorkflowEdge) (s t : Option WorkflowNode)
      → map_get e.source (by_id nodes) ≡ s
      → map_get e.target (by_id nodes) ≡ t
      → Keyed c.adjacency
      → Keyed (check_ends s t c).adjacency
        × ((v w : String)
            → has (neighbours (check_ends s t c).adjacency v) w
              ≡ (has (neighbours c.adjacency v) w || leads (ids_of nodes) v w e))
  unfolding check_ends
  check_one c e (some s) (some t) hs ht keyed =
      let (is, ms) = id-by_id nodes e.source s hs in
      let (it, mt) = id-by_id nodes e.target t ht in
      let hs' = sym (is_some-by_id nodes e.source) ∙ ap is_some hs in
      let ht' = sym (is_some-by_id nodes e.target) ∙ ap is_some ht in
      (
        λ k. is_some-push s.id t.id k c.adjacency ∙ keyed k,
        λ v w. ground (arith, has-push s.id t.id v w c.adjacency, keyed s.id, is, it, hs', ht'),
      )
  check_one c e none t hs ht keyed =
      (keyed, λ v w. ground (arith, sym (is_some-by_id nodes e.source) ∙ ap is_some hs))
  check_one c e (some s) none hs ht keyed =
      (keyed, λ v w. ground (arith, sym (is_some-by_id nodes e.target) ∙ ap is_some ht))

  pub check_links :
      (c : EdgeCheck) (es : List WorkflowEdge)
      → Keyed c.adjacency
      → (v w : String)
      → has (neighbours (check_edges (by_id nodes) c es).adjacency v) w
        ≡ (has (neighbours c.adjacency v) w || any (leads (ids_of nodes) v w) es)
  unfolding check_edges
  check_links c [] keyed v w = ground arith
  check_links c (e ∷ es) keyed v w =
      let s = map_get e.source (by_id nodes) in
      let t = map_get e.target (by_id nodes) in
      let (keyed', one) = check_one c e s t refl refl keyed in
      check_links (check_ends s t c) es keyed' v w ∙ ground (arith, one v w)

  undirect_one :
      (m : List (String × List String)) (e : WorkflowEdge) (b : Bool)
      → b ≡ (has (ids_of nodes) e.source && has (ids_of nodes) e.target)
      → Keyed m
      → Keyed (if b then push e.target e.source (push e.source e.target m) else m)
        × ((v w : String)
            → has
                (neighbours (if b then push e.target e.source (push e.source e.target m) else m) v)
                w
              ≡ (has (neighbours m v) w
                  || (leads (ids_of nodes) v w e || leads (ids_of nodes) w v e)))
  undirect_one m e true h keyed =
      let m' = push e.source e.target m in
      let keyed' = λ (k : String). is_some-push e.source e.target k m ∙ keyed k in
      (
        λ k. is_some-push e.target e.source k m' ∙ keyed' k,
        λ v w. ground (
          arith,
          h,
          keyed' e.target,
          keyed e.source,
          has-push e.target e.source v w m',
          has-push e.source e.target v w m,
        ),
      )
  undirect_one m e false h keyed = (keyed, λ v w. ground (arith, h))

  both_known :
      (e : WorkflowEdge)
      → (is_some (map_get e.source (by_id nodes)) && is_some (map_get e.target (by_id nodes)))
        ≡ (has (ids_of nodes) e.source && has (ids_of nodes) e.target)
  both_known e = rw (is_some-by_id nodes e.source) (rw (is_some-by_id nodes e.target) refl)

  pub undirect_links :
      (m : List (String × List String)) (es : List WorkflowEdge)
      → Keyed m
      → (v w : String)
      → has (neighbours (undirect (by_id nodes) m es) v) w ≡ (
          has (neighbours m v) w
          || any (λ e. leads (ids_of nodes) v w e || leads (ids_of nodes) w v e) es)
  unfolding undirect
  undirect_links m [] keyed v w = ground arith
  undirect_links m (e ∷ es) keyed v w =
      let b =
        is_some (map_get e.source (by_id nodes)) && is_some (map_get e.target (by_id nodes)) in
      let (keyed', one) = undirect_one m e b (both_known e) keyed in
      undirect_links (if b then push e.target e.source (push e.source e.target m) else m) es keyed'
        v w
      ∙ ap (λ x. x || any (λ e. leads (ids_of nodes) v w e || leads (ids_of nodes) w v e) es)
          (one v w)
      ∙ or_assoc (has (neighbours m v) w) (leads (ids_of nodes) v w e || leads (ids_of nodes) w v e)
          (any (λ e. leads (ids_of nodes) v w e || leads (ids_of nodes) w v e) es)

-- ===== src/Workflow/Joined.antt =====
-- The two searches, run on the maps that the check builds from a workflow.
use bighead.Common.{
  ℕ, suc, ◌<◌, String, Bool, true, false, not, ◌||◌, ◌≡◌, refl, sym, ap, ◌∙◌, ◌↔◌, ◌⊎◌, inl, inr,
  some, List, [], ◌∷◌, arith, eqb, length, any, has, NoRepeats, eq_iff, map_get, Bool-cases,
}
use bighead.Common.{Memᴰ, length_iff_Within, ◌>>=◌}
use bighead.Workflow.{
  WorkflowNode, WorkflowEdge, ids_of, map_of, by_id, neighbours, undirect, cycle_error, error_if,
  checked_edges, cycle_errors, connected_errors,
}
use bighead.Workflow.Tables.{has-of_member, all_ids, is_some-map_of, neighbours-map_of}
use bighead.Workflow.Links.{links, joins, leads, Keyed, check_links, undirect_links}
use bighead.Workflow.Cycles.{Walk, edge, further, link}
use bighead.Workflow.Cycles.Decides.{some_visit_decides}
use bighead.Workflow.Connection.{Reach, here, step, beside}
use bighead.Workflow.Connection.Reached.{connected_to}

module _ (a b : String → String → Bool) (same : (v w : String) → a v w ≡ b v w) where
  carry-Walk : (v w : String) → Walk a v w → Walk b v w
  carry-Walk v w (edge l) = edge (sym (same v w) ∙ l)
  carry-Walk v w (further {w = u} p l) = further (carry-Walk v u p) (sym (same u w) ∙ l)

  carry-Reach : (v w : String) → Reach a v w → Reach b v w
  carry-Reach v w here = here
  carry-Reach v w (step {w = u} p l) = step (carry-Reach v u p) (sym (same u w) ∙ l)

pub length-ids_of : (nodes : List WorkflowNode) → length (ids_of nodes) ≡ length nodes
length-ids_of [] = refl
length-ids_of (n ∷ ns) = omega (arith, length-ids_of ns)

enough : (nodes : List WorkflowNode) → length (ids_of nodes) < suc (length nodes)
enough nodes = omega (arith, length-ids_of nodes)

leads_known :
    (ids : List String) (v w : String) (e : WorkflowEdge)
    → leads ids v w e ≡ true
    → (has ids v ≡ true) × (has ids w ≡ true)
leads_known ids v w e h = (
  ground (arith, h, eq_iff e.source v, ap (has ids)),
  ground (arith, h, eq_iff e.target w, ap (has ids)),
)

links_known :
    (ids : List String) (edges : List WorkflowEdge) (v w : String)
    → any (leads ids v w) edges ≡ true
    → has ids w ≡ true
links_known ids [] v w h = cc
links_known ids (e ∷ es) v w h = elim (Bool-cases (leads ids v w e)) [
  | inl i ↦ (leads_known ids v w e i).1
  | inr i ↦ links_known ids es v w (ground arith)
]

joins_known :
    (ids : List String) (edges : List WorkflowEdge) (v w : String)
    → any (λ e. leads ids v w e || leads ids w v e) edges ≡ true
    → has ids w ≡ true
joins_known ids [] v w h = cc
joins_known ids (e ∷ es) v w h = elim (Bool-cases (leads ids v w e)) [
  | inl i ↦ (leads_known ids v w e i).1
  | inr i ↦ elim (Bool-cases (leads ids w v e)) [
    | inl j ↦ (leads_known ids w v e j).0
    | inr j ↦ joins_known ids es v w (ground arith)
  ]
]

module _ (nodes : List WorkflowNode) where
  empty_Keyed : Keyed nodes (map_of (λ n. []) [] nodes)
  unfolding map_get
  empty_Keyed k = is_some-map_of (λ n. []) [] nodes k ∙ ground arith

  empty_neighbours : (k : String) → neighbours (map_of (λ n. []) [] nodes) k ≡ []
  unfolding neighbours
  empty_neighbours = neighbours-map_of [] nodes (λ k. refl)

  adjacency_links :
      (edges : List WorkflowEdge) (v w : String)
      → has (neighbours (checked_edges nodes edges).adjacency v) w ≡ links nodes edges v w
  unfolding checked_edges
  adjacency_links edges v w =
      check_links nodes (record { adjacency = map_of (λ n. []) [] nodes; errors = [] }) edges
        empty_Keyed v w
      ∙ ap (λ ks. has ks w || links nodes edges v w) (empty_neighbours v)

  undirected_joins :
      (edges : List WorkflowEdge) (v w : String)
      → has (neighbours (undirect (by_id nodes) (map_of (λ n. []) [] nodes) edges) v) w
        ≡ joins nodes edges v w
  undirected_joins edges v w =
      undirect_links nodes (map_of (λ n. []) [] nodes) edges empty_Keyed v w
      ∙ ap (λ ks. has ks w || joins nodes edges v w) (empty_neighbours v)

  abbrev pub HasCycle : List WorkflowEdge → Type 0
  HasCycle edges = (v : String) × Walk (links nodes edges) v v

  -- The error for a cycle is reported, or there is no cycle.
  pub cycle_errors_decides :
      (edges : List WorkflowEdge)
      → ((cycle_errors nodes edges ≡ some ("Ciclo indevido detectado." ∷ [])) × HasCycle edges)
        ⊎ ((cycle_errors nodes edges ≡ some []) × (HasCycle edges → ⊥))
  unfolding cycle_errors
  cycle_errors_decides edges =
      let next = neighbours (checked_edges nodes edges).adjacency in
      let same = adjacency_links edges in
      elim (some_visit_decides next (ids_of nodes)
        (λ v w l. links_known (ids_of nodes) edges v w (sym (same v w) ∙ l)) (suc (length nodes))
        (enough nodes)) [
          | inl (e, (v, p)) ↦
              inl (ap cycle_error e, (v, carry-Walk (link next) (links nodes edges) same v v p))
          | inr (m, e, free) ↦ inr (
            ap cycle_error e,
            λ (v, p).
                free v (carry-Walk (links nodes edges) (link next) (λ a b. sym (same a b)) v v p),
          )
        ]

pub error_if-eq-nil : (b : Bool) (t : String) → (error_if b t ≡ []) ↔ (b ≡ false)
error_if-eq-nil true t = (λ h. cc, λ h. cc)
error_if-eq-nil false t = (λ h. refl, λ h. refl)

pub eqb_iff : (a b : ℕ) → (not (eqb a b) ≡ false) ↔ (a ≡ b)
eqb_iff a b = (λ h. ground (arith, h), λ h. ground (arith, h))

-- Every node is connected to the first one.
abbrev pub IsConnected : List WorkflowNode → List WorkflowEdge → Type 0
IsConnected [] edges = Unit
IsConnected (n ∷ ns) edges =
    (x : WorkflowNode) → Memᴰ x (n ∷ ns) → Reach (joins (n ∷ ns) edges) n.id x.id

-- The search for the connected nodes returns, with an error unless it has found all nodes.
pub connected_errors_decides :
    (nodes : List WorkflowNode) (edges : List WorkflowEdge)
    → (es : List String) × (connected_errors nodes edges ≡ some es)
      × (NoRepeats (ids_of nodes) → (es ≡ []) ↔ IsConnected nodes edges)
unfolding connected_errors
connected_errors_decides [] edges = ([], refl, λ d. (λ h. tt, λ h. refl))
connected_errors_decides (n ∷ ns) edges =
    let nodes = n ∷ ns in
    let ids = ids_of nodes in
    let around = neighbours (undirect (by_id nodes) (map_of (λ n. []) [] nodes) edges) in
    let same = undirected_joins nodes edges in
    let (s, h, single, within, reached) =
      connected_to around ids (λ v w l. joins_known ids edges v w (sym (same v w) ∙ l)) n.id
        (suc (length nodes)) (ground (arith, eq_iff n.id n.id)) (enough nodes) in
    let text : String = "Grafo possui componente desconectado." in
    let error = error_if-eq-nil (not (eqb (length s) (length nodes))) text in
    let size = eqb_iff (length s) (length nodes) in
    (
      error_if (not (eqb (length s) (length nodes))) text,
      ap (λ o. o >>= λ c. some (error_if (not (eqb (length c) (length nodes))) text)) h,
      λ d.
          let whole = length_iff_Within s ids single d within in
          (
            λ e x m. carry-Reach (beside around) (joins nodes edges) same n.id x.id (
                (reached x.id).0 (
                  whole.0 (size.0 (error.0 e) ∙ sym (length-ids_of nodes)) x.id
                    (has-of_member nodes x m))),
            λ c. error.1 (
                size.1 (
                  whole.1 (
                    all_ids (λ k. has s k ≡ true) nodes
                      (λ x m. (reached x.id).1 (
                        carry-Reach (joins nodes edges) (beside around) (λ a b. sym (same a b)) n.id
                          x.id (c x m))))
                  ∙ length-ids_of nodes)),
          ),
    )

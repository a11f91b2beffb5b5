-- ===== src/Workflow.antt =====
-- apps/web/src/lib/sprint2-domain-rules.ts: the check of a workflow before it is published. The
-- searches go along lists of neighbours and take fuel, one more than the number of nodes.
pub mod Cycles
pub mod Tables
pub mod Links
pub mod Fits
pub mod Connection
pub mod Joined
pub mod Verdict
mod Tests
use Prim.Native.String as Text
use bighead.Common.{
  ◌>>=◌, ◌>>◌, ℕ, zero, suc, ◌+◌, ◌-◌, String, Bool, true, false, not, ◌&&◌, ◌||◌, Option, none,
  some, List, [], ◌∷◌, ◌++◌, map, eqb, if◌then◌else◌, length, any, set_add, set_delete, has, set_of,
  trim, ◌==◌, truthy, map_get, map_set,
}

pub record WorkflowNode : Type 0 where
  pub id : String
  pub input : String
  pub output : String

pub record WorkflowEdge : Type 0 where
  pub source : String
  pub target : String

infixr 66 ◌++ₜ◌
abbrev ◌++ₜ◌ : String → String → String
a ++ₜ b = Text.◌++◌ a b

-- The sets `visiting` and `visited`.
pub record Marks : Type 0 where
  pub visiting : List String
  pub visited : List String

-- A search returns true, or returns false and leaves the marks.
pub data Outcome : Type 0 where
  cycle out_of_fuel : Outcome
  clear : Marks → Outcome

abbrev pub proceed : Outcome → (Marks → Outcome) → Outcome
proceed (clear m) k = k m
proceed cycle k = cycle
proceed out_of_fuel k = out_of_fuel

-- `ids.some(visit)`
unfoldable pub some_visit : (Marks → String → Outcome) → Marks → List String → Outcome
some_visit visit m [] = clear m
some_visit visit m (id ∷ ids) = proceed (visit m id) (λ m'. some_visit visit m' ids)

unfoldable pub enter : String → Marks → Marks
enter id m = record m { visiting = set_add id m.visiting }

unfoldable pub leave : String → Marks → Marks
leave id m = record { visiting = set_delete id m.visiting; visited = set_add id m.visited }

module _ (next : String → List String) where
  unfoldable pub visit : ℕ → Marks → String → Outcome
  unfolding some_visit enter leave
  visit zero m id = out_of_fuel
  visit (suc fuel) m id =
      let deeper =
        proceed (some_visit (visit fuel) (enter id m) (next id)) (λ m'. clear (leave id m')) in
      if has m.visiting id then cycle else if has m.visited id then clear m else deeper

abbrev pub unmarked : Marks
unmarked = record { visiting = []; visited = [] }

abbrev pub ids_of : List WorkflowNode → List String
ids_of nodes = map (λ n. n.id) nodes

-- `new Map(nodes.map((node) => [node.id, value(node)]))`: of two nodes with one id the last counts.
unfoldable pub map_of {ℓ} :
    {V : Type ℓ} → (WorkflowNode → V) → List (String × V) → List WorkflowNode → List (String × V)
unfolding map_set
map_of value m [] = m
map_of value m (n ∷ ns) = map_of value (map_set n.id (value n) m) ns

unfoldable pub by_id : List WorkflowNode → List (String × WorkflowNode)
unfolding map_of
by_id nodes = map_of (λ n. n) [] nodes

abbrev or_nil : Option (List String) → List String
or_nil none = []
or_nil (some ids) = ids

abbrev push_at :
    String
    → String
    → List (String × List String)
    → Option (List String)
    → List (String × List String)
push_at key value m none = m
push_at key value m (some values) = map_set key (values ++ value ∷ []) m

abbrev pub is_some {ℓ} : {A : Type ℓ} → Option A → Bool
is_some none = false
is_some (some a) = true

-- `map.get(key) ?? []`
unfoldable pub neighbours : List (String × List String) → String → List String
unfolding map_get
neighbours m key = or_nil (map_get key m)

-- `map.get(key)?.push(value)`
unfoldable pub push : String → String → List (String × List String) → List (String × List String)
unfolding map_get map_set
push key value m = push_at key value m (map_get key m)

-- The state of the loop over the edges.
pub record EdgeCheck : Type 0 where
  pub adjacency : List (String × List String)
  pub errors : List String

abbrev pub missing_node : String
missing_node = "Aresta referencia node inexistente."

abbrev pub mismatch : WorkflowNode → WorkflowNode → String
mismatch s t =
    "Schema incompativel: " ++ₜ s.id ++ₜ " (" ++ₜ s.output ++ₜ ") -> " ++ₜ t.id ++ₜ " (" ++ₜ t.input
    ++ₜ ")."

unfoldable pub check_ends : Option WorkflowNode → Option WorkflowNode → EdgeCheck → EdgeCheck
unfolding push
check_ends (some s) (some t) c = record {
  adjacency = push s.id t.id c.adjacency;
  errors = c.errors ++ (if s.output == t.input then [] else mismatch s t ∷ []);
}
check_ends _ _ c = record c { errors = c.errors ++ missing_node ∷ [] }

unfoldable pub check_edges :
    List (String × WorkflowNode) → EdgeCheck → List WorkflowEdge → EdgeCheck
unfolding check_ends map_get
check_edges nodes c [] = c
check_edges nodes c (e ∷ es) =
    check_edges nodes (check_ends (map_get e.source nodes) (map_get e.target nodes) c) es

-- The loop that fills `undirected`.
unfoldable pub undirect :
    List (String × WorkflowNode)
    → List (String × List String)
    → List WorkflowEdge
    → List (String × List String)
unfolding push map_get
undirect nodes m [] = m
undirect nodes m (e ∷ es) =
    undirect nodes
      (if is_some (map_get e.source nodes) && is_some (map_get e.target nodes)
        then push e.target e.source (push e.source e.target m)
        else m)
      es

-- `ids.forEach(visitConnected)`
unfoldable pub each :
    (String → List String → Option (List String)) → List String → List String → Option (List String)
each visit connected [] = some connected
each visit connected (id ∷ ids) = visit id connected >>= λ connected'. each visit connected' ids

module _ (around : String → List String) where
  unfoldable pub visit_connected : ℕ → String → List String → Option (List String)
  unfolding each set_add
  visit_connected zero id connected = none
  visit_connected (suc fuel) id connected =
      let deeper = each (visit_connected fuel) (set_add id connected) (around id) in
      if has connected id then some connected else deeper

abbrev error_if : Bool → String → List String
error_if true text = text ∷ []
error_if false text = []

abbrev cycle_error : Outcome → Option (List String)
cycle_error cycle = some ("Ciclo indevido detectado." ∷ [])
cycle_error (clear m) = some []
cycle_error out_of_fuel = none

abbrev pub is_blank : WorkflowNode → Bool
is_blank n =
    not (truthy (trim n.id)) || (not (truthy (trim n.input)) || not (truthy (trim n.output)))

abbrev pub is_entry : List WorkflowEdge → WorkflowNode → Bool
is_entry edges n = not (any (λ e. e.target == n.id) edges)

abbrev pub is_exit : List WorkflowEdge → WorkflowNode → Bool
is_exit edges n = not (any (λ e. e.source == n.id) edges)

unfoldable pub checked_edges : List WorkflowNode → List WorkflowEdge → EdgeCheck
unfolding check_edges map_of by_id
checked_edges nodes edges =
    check_edges (by_id nodes) (record { adjacency = map_of (λ n. []) [] nodes; errors = [] }) edges

unfoldable pub cycle_errors : List WorkflowNode → List WorkflowEdge → Option (List String)
unfolding checked_edges neighbours visit
cycle_errors nodes edges = cycle_error (
    some_visit (visit (neighbours (checked_edges nodes edges).adjacency) (suc (length nodes)))
      unmarked (ids_of nodes))

unfoldable pub connected_errors : List WorkflowNode → List WorkflowEdge → Option (List String)
unfolding undirect neighbours visit_connected by_id map_of
connected_errors [] edges = some []
connected_errors (n ∷ ns) edges = do
  connected ←
      visit_connected (neighbours (undirect (by_id (n ∷ ns)) (map_of (λ n. []) [] (n ∷ ns)) edges))
        (suc (length (n ∷ ns))) n.id []
  some (
      error_if (not (eqb (length connected) (length (n ∷ ns))))
        "Grafo possui componente desconectado.")

-- The errors in the order in which they are found.
abbrev pub found_errors :
    List WorkflowNode → List WorkflowEdge → List String → List String → List String
found_errors nodes edges cycles connections =
    error_if (any is_blank nodes) "Node possui id ou schema vazio."
    ++ (error_if (not (eqb (length (set_of (ids_of nodes))) (length nodes)))
          "Node duplicado detectado."
        ++ ((checked_edges nodes edges).errors
            ++ (cycles
                ++ (error_if (not (any (is_entry edges) nodes)) "Grafo sem entrada."
                    ++ (error_if (not (any (is_exit edges) nodes)) "Grafo sem saida."
                        ++ connections)))))

-- `validateWorkflow`; `none` if a search runs out of fuel.
unfoldable pub validate_workflow : List WorkflowNode → List WorkflowEdge → Option (List String)
unfolding set_of trim cycle_errors connected_errors
validate_workflow nodes edges = do
  cycles ← cycle_errors nodes edges
  connections ← connected_errors nodes edges
  some (set_of (found_errors nodes edges cycles connections))

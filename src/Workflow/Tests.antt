-- ===== src/Workflow/Tests.antt =====
-- The check of a workflow at fixed inputs.
use bighead.Common.{String, ◌≡◌, refl, ◌↔◌, some, List, [], ◌∷◌, NoRepeats}
use bighead.Workflow.{WorkflowNode, WorkflowEdge, validate_workflow, cycle_errors}
use bighead.Workflow.Joined.{HasCycle}
use bighead.Workflow.Verdict.{
  IsWorkflow, validate_workflow-Total, cycle_errors_iff, validate_workflow-accepts,
}

abbrev node : String → String → String → WorkflowNode
node id input output = record { id = id; input = input; output = output }

abbrev arrow : String → String → WorkflowEdge
arrow source target = record { source = source; target = target }

abbrev three_nodes : List WorkflowNode
three_nodes = node "a" "lead" "text" ∷ node "b" "text" "score" ∷ node "c" "score" "mail" ∷ []

abbrev line : List WorkflowEdge
line = arrow "a" "b" ∷ arrow "b" "c" ∷ []

-- Two nodes that lead to each other, and one beside them.
abbrev round : List WorkflowEdge
round = arrow "b" "c" ∷ arrow "c" "b" ∷ []

accepted : validate_workflow three_nodes line ≡ some []
unfolding validate_workflow
accepted = refl

refused :
    validate_workflow three_nodes round
    ≡ some (
        "Schema incompativel: c (mail) -> b (text)." ∷ "Ciclo indevido detectado."
        ∷ "Grafo possui componente desconectado." ∷ [])
unfolding validate_workflow
refused = refl

validate_workflow-Total_example :
    (errors : List String) × (validate_workflow three_nodes round ≡ some errors) × NoRepeats errors
validate_workflow-Total_example = validate_workflow-Total three_nodes round

cycle_errors_iff_example :
    (cycle_errors three_nodes round ≡ some ("Ciclo indevido detectado." ∷ []))
    ↔ HasCycle three_nodes round
cycle_errors_iff_example = cycle_errors_iff three_nodes round

validate_workflow-accepts_example :
    (validate_workflow three_nodes line ≡ some []) ↔ IsWorkflow three_nodes line
validate_workflow-accepts_example = validate_workflow-accepts three_nodes line

-- ===== src/LangGraphAgent/Graph.antt =====
-- The compiled graph of `LangGraphAgent`, `run` and `run_stream`. langgraph stops a graph after
-- `recursion_limit` steps, which is 25 where it is not set: `none` stands for the error it then raises.
use iot_ops_agent.Prelude.{
  ℕ, zero, suc, String, Option, none, some, List, [], ◌∷◌, ◌++◌, if◌then◌else◌,
}
use iot_ops_agent.Prelude.Result.{Result, ok, err}
use iot_ops_agent.MongoProxy.Documents.{Value, null}
use iot_ops_agent.LangGraphAgent.{
  Answer, Services, State, Step, initial_state, validate_request_node, select_tool_node,
  authorize_tool_node,
}
use iot_ops_agent.LangGraphAgent.Nodes.{
  Outcome, run_tool_node, validate_evidence_node, generate_answer_node, deny_request_node,
}

pub data Node : Type 0 where
  validate_request select_tool authorize_tool run_tool validate_evidence generate_answer
        deny_request finish :
      Node

unfoldable pub perform : Services → Node → State → Outcome
perform e validate_request s = (none, validate_request_node s)
perform e select_tool s = (none, select_tool_node e.rules s)
perform e authorize_tool s = (none, authorize_tool_node e.rules s)
perform e run_tool s = run_tool_node e s
perform e validate_evidence s = (none, validate_evidence_node s)
perform e generate_answer s = generate_answer_node e s
perform e deny_request s = (none, deny_request_node s)
perform e finish s = (none, s)

abbrev pub route_after_policy : State → Node → Node
route_after_policy s allowed = if s.policy_allowed then allowed else deny_request

-- The edge out of a node, in the state that the node left.
unfoldable pub next : Node → State → Node
next validate_request s = route_after_policy s select_tool
next select_tool s = authorize_tool
next authorize_tool s = route_after_policy s run_tool
next run_tool s = validate_evidence
next validate_evidence s = route_after_policy s generate_answer
next generate_answer s = finish
next deny_request s = finish
next finish s = finish

abbrev pub continue : (State → Option Outcome) → Outcome → Option Outcome
continue rest (none, s) = rest s
continue rest (some m, s) = some (some m, s)

unfoldable pub invoke : Services → (limit : ℕ) → Node → State → Option Outcome
invoke e limit finish s = some (none, s)
invoke e zero validate_request s = none
invoke e zero select_tool s = none
invoke e zero authorize_tool s = none
invoke e zero run_tool s = none
invoke e zero validate_evidence s = none
invoke e zero generate_answer s = none
invoke e zero deny_request s = none
invoke e (suc n) node s = continue (λ s'. invoke e n (next node s') s') (perform e node s)

abbrev pub recursion_limit : ℕ
recursion_limit = 25

unfoldable pub run : Services → (user_input data_source : String) → Option Outcome
run e user_input data_source =
    invoke e recursion_limit validate_request (initial_state user_input data_source)

-- The events that `run_stream` yields; a step's texts are those of the step.
pub data Event : Type 0 where
  thought : (iteration : ℕ) → (action : String) → Event
  observation : Step → Event
  answer_observation : (token_usage : Value) → Event
  final : (final_answer : String) → (token_usage : Value) → Event

abbrev pub last_step : List Step → List Event
last_step [] = []
last_step (step ∷ []) = thought step.iteration step.action ∷ observation step ∷ []
last_step (step ∷ next ∷ steps) = last_step (next ∷ steps)

pub record Streamed : Type 0 where
  pub events : List Event
  pub raised : Option String
  pub state : State

abbrev pub after : List Event → Streamed → Streamed
after events r = record r { events = events ++ r.events }

abbrev stream_answer : Result String Answer → State → Streamed
stream_answer (err m) s = record {
  events = thought 6 "generate_answer" ∷ [];
  raised = some m;
  state = s;
}
stream_answer (ok a) s = record {
  events =
      thought 6 "generate_answer"
      ∷ answer_observation a.token_usage
      ∷ final a.content a.token_usage
      ∷ [];
  raised = none;
  state = s;
}

abbrev pub denied : State → Streamed
denied s =
    let s' = deny_request_node s in
    record { events = final s'.final_answer null ∷ []; raised = none; state = s' }

abbrev pub after_node : (State → Streamed) → Outcome → Streamed
after_node rest (some m, s) = record { events = []; raised = some m; state = s }
after_node rest (none, s) =
    let r = rest s in after (last_step s.steps) (if s.policy_allowed then r else denied s)

-- `for node in (…)` and what follows the loop.
unfoldable pub stream_nodes : Services → List Node → State → Streamed
stream_nodes e [] s = stream_answer (e.invoke s.user_input s.tool_output) s
stream_nodes e (node ∷ nodes) s = after_node (stream_nodes e nodes) (perform e node s)

unfoldable pub run_stream : Services → (user_input data_source : String) → Streamed
run_stream e user_input data_source =
    stream_nodes e
      (validate_request ∷ select_tool ∷ authorize_tool ∷ run_tool ∷ validate_evidence ∷ [])
      (initial_state user_input data_source)

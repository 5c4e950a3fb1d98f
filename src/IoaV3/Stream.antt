-- ===== src/IoaV3/Stream.antt =====
-- `run_stream` of agents/ioa_v3_agent.py, which turns what a node raises into a last answer.
use iot_ops_agent.Prelude.{suc, String, none, some, List, [], ◌∷◌, ◌++◌, length, if◌then◌else◌}
use iot_ops_agent.MongoProxy.Documents.{null}
use iot_ops_agent.LangGraphAgent.{action_step}
use iot_ops_agent.LangGraphAgent.Graph.{Event, final, last_step}
use iot_ops_agent.IoaV3.{
  Request, State, Services, Outcome, initial_state, validate_request_node, select_workflow_node,
  authorize_workflow_node, call_n8n_workflow_node, apply_kpi_rules_node, generate_answer_node,
  deny_request_node,
}

-- The nodes before the answer.
pub data Node : Type 0 where
  validate_request select_workflow authorize_workflow call_n8n_workflow apply_kpi_rules : Node

unfoldable pub perform : Services → Node → State → Outcome
perform e validate_request s = (none, validate_request_node s)
perform e select_workflow s = (none, select_workflow_node e s)
perform e authorize_workflow s = (none, authorize_workflow_node e.planner.tools s)
perform e call_n8n_workflow s = call_n8n_workflow_node e s
perform e apply_kpi_rules s = (none, apply_kpi_rules_node e s)

pub record Streamed : Type 0 where
  pub events : List Event
  pub state : State

abbrev pub after : List Event → Streamed → Streamed
after events r = record r { events = events ++ r.events }

abbrev pub runtime_error : (node_id : String) → State → State
runtime_error node_id s = record s {
  steps = s.steps ++ action_step (suc (length s.steps)) node_id "runtime_error" ∷ [];
}

-- A run that stops with an answer of its own.
abbrev pub stopped : (node_id final_answer : String) → State → Streamed
stopped node_id final_answer s =
    let s' = runtime_error node_id s in
    record { events = last_step s'.steps ++ final final_answer null ∷ []; state = s' }

abbrev node_name : Node → String
node_name validate_request = "validate_request_node"
node_name select_workflow = "select_workflow_node"
node_name authorize_workflow = "authorize_workflow_node"
node_name call_n8n_workflow = "call_n8n_workflow_node"
node_name apply_kpi_rules = "apply_kpi_rules_node"

abbrev workflow_failed : String
workflow_failed =
    "IOA v3 could not complete the operational workflow. Please verify N8N_V3_WEBHOOK_URL and GRAFANA_DASHBOARD_CLIENT_URL, then try again."

abbrev answer_failed : String
answer_failed =
    "IOA v3 collected workflow evidence, but final answer generation failed. Please check the configured LLM runtime."

abbrev pub denied : State → Streamed
denied s =
    let s' = deny_request_node s in record { events = final s'.final_answer null ∷ []; state = s' }

abbrev pub after_node : Node → (State → Streamed) → Outcome → Streamed
after_node node rest (some m, s) = stopped (node_name node) workflow_failed s
after_node node rest (none, s) =
    let r = rest s in after (last_step s.steps) (if s.policy_allowed then r else denied s)

abbrev pub stream_answer : Outcome → Streamed
stream_answer (some m, s) = stopped "generate_answer" answer_failed s
stream_answer (none, s) = record {
  events = last_step s.steps ++ final s.final_answer s.token_usage ∷ [];
  state = s;
}

-- `for node in (…)` and what follows the loop.
unfoldable pub stream_nodes : Services → List Node → State → Streamed
stream_nodes e [] s = stream_answer (generate_answer_node e s)
stream_nodes e (node ∷ nodes) s = after_node node (stream_nodes e nodes) (perform e node s)

unfoldable pub run_stream : Services → Request → Streamed
run_stream e request =
    stream_nodes e
      (validate_request ∷ select_workflow ∷ authorize_workflow ∷ call_n8n_workflow ∷ apply_kpi_rules
        ∷ [])
      (initial_state request)

-- ===== src/LangGraphAgent.antt =====
-- The workflow of agents/langgraph_agent.py: its nodes, the compiled graph, and the streamed run. A
-- node may raise, and then leaves the state with the calls that it made. The services that the tools
-- read and the language model are parameters; `random` ids are left out.
pub mod Registry
pub mod Intents
pub mod Nodes
pub mod Graph
pub mod Runs
pub mod Executable
pub mod Ends
pub mod Authorization
pub mod Streams
use iot_ops_agent.Prelude.{
  ℕ, zero, suc, ◌+◌, String, Bool, true, false, not, ◌&&◌, ◌||◌, Option, none, some, List, [], ◌∷◌,
  ◌++◌, length, leb, ltb, ◌==◌, string_eq, if◌then◌else◌, is_some,
}
use iot_ops_agent.Prelude.Text.{is_empty, strip}
use iot_ops_agent.Prelude.Text.Words.{text_length}
use iot_ops_agent.Prelude.Result.{Result, ok, err}
use iot_ops_agent.MongoProxy.Documents.{Value, null, text, document, end, field}
use iot_ops_agent.Evidence.{sanitize_evidence}
use iot_ops_agent.LangGraphAgent.Registry.{
  ToolSpec, get_tool, TextRules, extract_device_id, extract_company_device_identifier,
  IntentDecision, classify_intent,
}

-- The reads that tools make of services/company_data_service.py and storage/telemetry_store.py.
pub data Call : Type 0 where
  scan_company_payload_threshold : (threshold : String) → Call
  get_company_provisional_alert_context : Call
  get_company_telemetry_coverage_context : Call
  get_company_rule_readiness_context : Call
  get_company_disconnected_context : Call
  get_company_inventory_context : Call
  get_company_device_context : (identifier : String) → Call
  get_company_agent_context : Call
  get_latest_status : (device_id : Option String) → Call
  get_device_telemetry_history : (device_id : Option String) → Call
  get_all_latest_devices : Call

pub record Answer : Type 0 where
  pub content : String
  pub token_usage : Value

-- `None` is `null`. The model is asked with the user's request and the evidence.
pub record Services : Type 0 where
  pub rules : TextRules
  pub answer : Call → Result String Value
  pub invoke : (user_input : String) → (tool_output : Value) → Result String Answer

-- Of a step's output, the policy decision is kept; its other texts follow from the node.
pub record Step : Type 0 where
  pub iteration : ℕ
  pub node_id : String
  pub action : String
  pub decision : Option (Bool × String)

-- `calls`, which the source does not keep, are the reads made so far.
pub record State : Type 0 where
  pub user_input : String
  pub data_source : String
  pub intent : String
  pub intent_confidence : ℕ
  pub intent_reason : String
  pub selected_tool : String
  pub tool_output : Value
  pub final_answer : String
  pub steps : List Step
  pub policy_allowed : Bool
  pub policy_reason : String
  pub execution_count : ℕ
  pub max_tool_executions : ℕ
  pub token_usage : Value
  pub calls : List Call

unfoldable pub initial_state : (user_input data_source : String) → State
initial_state user_input data_source = record {
  user_input = user_input;
  data_source = data_source;
  intent = "";
  intent_confidence = 0;
  intent_reason = "";
  selected_tool = "";
  tool_output = null;
  final_answer = "";
  steps = [];
  policy_allowed = true;
  policy_reason = "";
  execution_count = 0;
  max_tool_executions = 1;
  token_usage = null;
  calls = [];
}

abbrev pub append_step : State → Step → List Step
append_step s step = s.steps ++ step ∷ []

abbrev pub policy_step : ℕ → (node_id : String) → Bool × String → Step
policy_step n node_id d = record {
  iteration = n;
  node_id = node_id;
  action = node_id;
  decision = some d;
}

abbrev pub action_step : ℕ → (node_id action : String) → Step
action_step n node_id action = record {
  iteration = n;
  node_id = node_id;
  action = action;
  decision = none;
}

-- The state after a policy decision at a node.
abbrev pub decided : ℕ → (node_id : String) → Bool × String → State → State
decided n node_id d s = record s {
  policy_allowed = d.0;
  policy_reason = d.1;
  steps = append_step s (policy_step n node_id d);
}

abbrev pub max_user_input_chars : ℕ
max_user_input_chars = 2000

unfoldable pub request_policy : (user_input data_source : String) → Bool × String
request_policy user_input data_source =
    if is_empty (strip user_input)
    then (false, "empty_request")
    else if ltb max_user_input_chars (text_length user_input)
    then (false, "request_too_large")
    else if not (data_source == "simulator" || data_source == "company")
    then (false, "invalid_data_source")
    else (true, "request_validated")

unfoldable pub validate_request_node : State → State
validate_request_node s = decided 1 "validate_request" (request_policy s.user_input s.data_source) s

abbrev pub selected : IntentDecision → State → State
selected d s = record s {
  intent = d.intent;
  intent_confidence = d.confidence;
  intent_reason = d.reason;
  selected_tool = d.tool_name;
  steps = append_step s (action_step 2 "select_tool" d.tool_name);
}

unfoldable pub select_tool_node : TextRules → State → State
select_tool_node rules s = selected (classify_intent rules s.user_input s.data_source) s

unfoldable pub tool_policy : TextRules → State → Option ToolSpec → Bool × String
tool_policy rules s none = (false, "unknown_tool")
tool_policy rules s (some tool_spec) =
    if not (tool_spec.data_source == s.data_source)
    then (false, "tool_source_mismatch")
    else if not (is_empty s.intent) && not (s.intent == tool_spec.intent)
    then (false, "intent_tool_mismatch")
    else if leb s.max_tool_executions s.execution_count
    then (false, "tool_execution_budget_exhausted")
    else if tool_spec.requires_device_id && not (is_some (extract_device_id s.user_input))
    then (false, "missing_device_identifier")
    else if tool_spec.requires_company_device_id
        && is_empty (extract_company_device_identifier rules s.user_input)
    then (false, "missing_company_device_identifier")
    else (true, "tool_authorized")

unfoldable pub authorize_tool_node : TextRules → State → State
authorize_tool_node rules s =
    decided 3 "authorize_tool" (tool_policy rules s (get_tool s.selected_tool)) s

-- What a tool does: a read, or an answer without one; `none` where it is not executable.
pub data Execution : Type 0 where
  reads : Call → Execution
  answers : Value → Execution
  not_executable : Execution

abbrev no_threshold : Value
no_threshold = document (
    field "source" (text "company_mongodb") (
      field "rules_status" (text "not_configured")
        (field "error" (text "No numeric threshold was detected in the request.") end)))

abbrev scan : Option String → Execution
scan none = answers no_threshold
scan (some threshold) = reads (scan_company_payload_threshold threshold)

unfoldable pub execution_of : TextRules → (selected_tool user_input : String) → Execution
execution_of rules selected_tool user_input =
    if selected_tool == "scan_company_threshold"
    then scan (rules.last_number user_input)
    else if selected_tool == "get_company_provisional_alerts"
    then reads get_company_provisional_alert_context
    else if selected_tool == "get_company_telemetry_coverage"
    then reads get_company_telemetry_coverage_context
    else if selected_tool == "get_company_rule_readiness"
    then reads get_company_rule_readiness_context
    else if selected_tool == "get_company_disconnected_devices"
    then reads get_company_disconnected_context
    else if selected_tool == "get_company_inventory"
    then reads get_company_inventory_context
    else if selected_tool == "get_company_device"
    then reads (get_company_device_context (extract_company_device_identifier rules user_input))
    else if selected_tool == "get_company_fleet_summary"
    then reads get_company_agent_context
    else if selected_tool == "get_device_status"
    then reads (get_latest_status (extract_device_id user_input))
    else if selected_tool == "get_device_history"
    then reads (get_device_telemetry_history (extract_device_id user_input))
    else if selected_tool == "get_fleet_status"
    then reads get_all_latest_devices
    else not_executable

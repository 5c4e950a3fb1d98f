-- ===== src/IoaV3.antt =====
-- The agent of agents/ioa_v3_agent.py: its state and the nodes of its graph. The services that a
-- workflow reads, the KPI rules of config/grafana_kpi_rules.json, the resolution of a request
-- against the conversation and the text of the answer are parameters.
pub mod Catalog
pub mod Execution
pub mod Outputs
pub mod Planner
pub mod Stream
pub mod Authorization
pub mod Runs
pub mod Finals
pub mod Logs
use Prim.Native.String
use iot_ops_agent.Prelude.{
  ℕ, zero, suc, ◌+◌, String, Bool, true, false, not, ◌&&◌, ◌||◌, Option, none, some, List, [], ◌∷◌,
  ◌++◌, map, length, select, take, leb, ltb, ◌==◌, string_eq, if◌then◌else◌, is_some,
}
use iot_ops_agent.Prelude.Text.{is_empty, strip}
use iot_ops_agent.Prelude.Text.Words.{text_length}
use iot_ops_agent.Prelude.Result.{Result, ok, err}
use iot_ops_agent.MongoProxy.Documents.{Value, null, text, Fields}
use iot_ops_agent.LangGraphAgent.{Answer, Step, policy_step, action_step}
use iot_ops_agent.IoaV3.Catalog.{GrafanaTool, Params, Workflow, get_or, authorize_single_workflow}
use iot_ops_agent.IoaV3.Execution.{Call, execution_of}
use iot_ops_agent.IoaV3.Outputs.{ToolOutput, Executed, performed}
use iot_ops_agent.IoaV3.Planner.Parameters.{PlannerRules}
use iot_ops_agent.IoaV3.Planner.Runbooks.{max_workflow_executions}
use iot_ops_agent.IoaV3.Planner.{Plan, plan_workflows}

-- What a user asks. `source_resolution` is a dict; the conversation is the list of its messages.
pub record Request : Type 0 where
  pub user_input : String
  pub selected_source : String
  pub source_resolution : Params
  pub conversation_context : List Value

-- `tool_output`, which follows from `tool_outputs`, is left out; `calls`, which the source does not
-- keep, are the calls made so far.
pub record State : Type 0 where
  pub request : Request
  pub workflow_user_input : String
  pub selected_tool : String
  pub selected_params : Params
  pub selected_workflows : List Workflow
  pub tool_outputs : List ToolOutput
  pub final_answer : String
  pub steps : List Step
  pub policy_allowed : Bool
  pub policy_reason : String
  pub execution_count : ℕ
  pub max_tool_executions : ℕ
  pub token_usage : Value
  pub calls : List Call

pub record Services : Type 0 where
  pub planner : PlannerRules
  pub resolve_contextual_user_input : String → List Value → String
  pub answer : Call → Result String Fields
  pub kpi_rules : (tool_name : String) → List Value
  pub generate : State → Result String Answer

unfoldable pub initial_state : Request → State
initial_state request = record {
  request = request;
  workflow_user_input = request.user_input;
  selected_tool = "";
  selected_params = [];
  selected_workflows = [];
  tool_outputs = [];
  final_answer = "";
  steps = [];
  policy_allowed = true;
  policy_reason = "";
  execution_count = 0;
  max_tool_executions = max_workflow_executions;
  token_usage = null;
  calls = [];
}

abbrev pub max_user_input_chars : ℕ
max_user_input_chars = 2000

unfoldable pub request_is_valid : String → Bool
request_is_valid user_input =
    let stripped = strip user_input in
    not (is_empty stripped) && leb (text_length stripped) max_user_input_chars

unfoldable pub validate_request_node : State → State
validate_request_node s =
    let allowed = request_is_valid s.request.user_input in
    let reason = if allowed then "request_validated" else "invalid_request" in
    record s {
      policy_allowed = allowed;
      policy_reason = reason;
      steps = s.steps ++ policy_step 1 "validate_request" (allowed, reason) ∷ [];
    }

abbrev first_tool : List Workflow → (otherwise : String) → String
first_tool [] otherwise = otherwise
first_tool (w ∷ workflows) otherwise = w.tool

abbrev first_params : List Workflow → (otherwise : Params) → Params
first_params [] otherwise = otherwise
first_params (w ∷ workflows) otherwise = w.params

unfoldable pub select_workflow_node : Services → State → State
select_workflow_node e s =
    let resolved =
      e.resolve_contextual_user_input s.request.user_input s.request.conversation_context in
    let plan = plan_workflows e.planner resolved in
    record s {
      selected_tool = first_tool plan.0 "";
      selected_params = first_params plan.0 [];
      selected_workflows = plan.0;
      workflow_user_input = resolved;
      token_usage = plan.1;
      steps = s.steps ++ action_step 2 "select_workflow" "plan_workflows" ∷ [];
    }

abbrev pub selected_source_of : Request → Value
selected_source_of request =
    get_or "selected_source" (text request.selected_source) request.source_resolution

abbrev pub active_source_of : Request → Value
active_source_of request = get_or "active_source" null request.source_resolution

-- The workflows within the budget that are authorised one by one.
unfoldable pub authorized_workflows : List GrafanaTool → State → List Workflow
authorized_workflows tools s =
    let selected_source = selected_source_of s.request in
    let active_source = active_source_of s.request in
    select (λ w. (authorize_single_workflow tools selected_source active_source w).0)
      (take s.max_tool_executions s.selected_workflows)

abbrev is_none_left : List Workflow → Bool
is_none_left [] = true
is_none_left (w ∷ workflows) = false

unfoldable pub workflow_policy : State → (authorized : List Workflow) → Bool × String
workflow_policy s authorized =
    let allowed =
      not (is_none_left s.selected_workflows) && ltb s.execution_count s.max_tool_executions in
    if is_none_left authorized
    then (false, "no_authorized_workflows")
    else if ltb s.max_tool_executions (length s.selected_workflows)
    then (allowed, "workflow_authorized_with_budget_truncation")
    else (allowed, if allowed then "workflow_authorized" else "workflow_denied")

unfoldable pub authorize_workflow_node : List GrafanaTool → State → State
authorize_workflow_node tools s =
    let authorized = authorized_workflows tools s in
    let policy = workflow_policy s authorized in
    record s {
      policy_allowed = policy.0;
      policy_reason = policy.1;
      selected_tool = first_tool authorized s.selected_tool;
      selected_params = first_params authorized s.selected_params;
      selected_workflows = authorized;
      steps = s.steps ++ policy_step 3 "authorize_workflow" policy ∷ [];
    }

-- What is raised ends the loop; the calls made until then are kept.
abbrev pub collected :
    Executed
    → List Call × Result String (List ToolOutput)
    → List Call × Result String (List ToolOutput)
collected (calls, err m) rest = (calls, err m)
collected (calls, ok output) (more, err m) = (calls ++ more, err m)
collected (calls, ok output) (more, ok outputs) = (calls ++ more, ok (output ∷ outputs))

abbrev pub execute_workflow : Services → (user_input : String) → Workflow → Executed
execute_workflow e user_input w =
    performed e.planner.texts user_input e.answer w (execution_of e.planner.tools e.planner.texts w)

unfoldable pub execute_workflows :
    Services → (user_input : String) → List Workflow → List Call × Result String (List ToolOutput)
execute_workflows e user_input [] = ([], ok [])
execute_workflows e user_input (w ∷ workflows) =
    collected (execute_workflow e user_input w) (execute_workflows e user_input workflows)

-- What a node raised, and the state that it left.
abbrev pub Outcome : Type 0
Outcome = Option String × State

abbrev pub called : State → List Call × Result String (List ToolOutput) → Outcome
called s (calls, err m) = (some m, record s { calls = s.calls ++ calls })
called s (calls, ok outputs) = (
  none,
  record s {
    calls = s.calls ++ calls;
    tool_outputs = outputs;
    execution_count = s.execution_count + length outputs;
    steps = s.steps ++ action_step 4 "call_n8n_workflow" "run_approved_workflows" ∷ [];
  },
)

unfoldable pub call_n8n_workflow_node : Services → State → Outcome
call_n8n_workflow_node e s =
    called s (execute_workflows e s.request.user_input s.selected_workflows)

unfoldable pub apply_kpi_rules_node : Services → State → State
apply_kpi_rules_node e s = record s {
  tool_outputs =
      map (λ (o : ToolOutput). record o { kpi_rules = e.kpi_rules o.tool }) s.tool_outputs;
  steps = s.steps ++ action_step 5 "apply_kpi_rules" "apply_kpi_rules" ∷ [];
}

abbrev pub answered : Result String Answer → State → Outcome
answered (err m) s = (some m, s)
answered (ok a) s = (
  none,
  record s {
    final_answer = a.content;
    token_usage = a.token_usage;
    steps = s.steps ++ action_step 6 "generate_answer" "generate_answer" ∷ [];
  },
)

unfoldable pub generate_answer_node : Services → State → Outcome
generate_answer_node e s = answered (e.generate s) s

abbrev pub denial_reason : State → String
denial_reason s = if is_empty s.policy_reason then "request_denied" else s.policy_reason

unfoldable pub deny_request_node : State → State
deny_request_node s =
    let reason = denial_reason s in
    record s {
      final_answer =
          String.◌++◌ "Request denied by IOA v3 workflow policy. Reason: " (String.◌++◌ reason ".");
      token_usage = null;
      steps =
          s.steps
          ++ (record {
            iteration = suc (length s.steps);
            node_id = "deny_request";
            action = "deny_request";
            decision = some (false, reason);
          })
            ∷ [];
    }

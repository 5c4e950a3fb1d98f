-- ===== src/IoaV3/Planner.antt =====
-- `plan_workflows` of agents/ioa_v3_agent.py: what the language model proposes is filtered, and the
-- runbooks add their workflows. The model's reply, Python's `str` and `float`, and what the keyword
-- and regular expression tables of the source find in a request are parameters.
pub mod Parameters
pub mod Runbooks
pub mod Bounds
pub mod Keys
pub mod Allowances
pub mod Acceptance
use iot_ops_agent.Prelude.{
  ℕ, zero, suc, ◌*◌, String, Bool, true, false, not, ◌&&◌, ◌||◌, Option, none, some, List, [], ◌∷◌,
  ltb, leb, take, map, length, min, ◌==◌, string_eq, if◌then◌else◌,
}
use iot_ops_agent.Prelude.Int.{ℤ, pos, negsuc}
use iot_ops_agent.Prelude.Text.{is_empty, strip}
use iot_ops_agent.Prelude.Text.Words.{holds_any}
use iot_ops_agent.MongoProxy.Documents.{
  Value, null, flag, number, text, array, document, Items, nil, item, Fields, end, field,
}
use iot_ops_agent.IoaV3.Catalog.{GrafanaTool, ToolSpec, Params, Workflow, contains, get_tool_spec}
use iot_ops_agent.IoaV3.Execution.{truthy, str_of, text_of, onem2m_tools}
use iot_ops_agent.IoaV3.Outputs.{get_field}
use iot_ops_agent.IoaV3.Planner.Parameters.{
  PlannerRules, filter_tool_params, enrich_workflow_params,
}
use iot_ops_agent.IoaV3.Planner.Runbooks.{
  max_workflow_executions, workflow, ensure_runbook_required_workflows,
  ensure_device_drilldown_workflow, ensure_infrastructure_overview_workflows,
  ensure_k8s_resource_log_workflows,
}

-- A confidence counts parts of a hundredth, `scale` of them to one.
abbrev coerce_confidence : (scale : ℕ) → Option ℤ → ℕ
coerce_confidence scale none = 0
coerce_confidence scale (some (pos n)) = min n (100 * scale)
coerce_confidence scale (some (negsuc n)) = 0

abbrev min_semantic_confidence : (scale : ℕ) → ℕ
min_semantic_confidence scale = 55 * scale

abbrev rabbitmq_tools : List String
rabbitmq_tools =
    "grafana_queue_backlog" ∷ "query_rabbitmq_queue_detail" ∷ "grafana_queue_trend"
    ∷ "grafana_throughput" ∷ "grafana_k8s_resources" ∷ "grafana_logs" ∷ []

abbrev found : Option String → Bool
found none = false
found (some device_id) = not (is_empty device_id)

unfoldable pub prompt_domain : PlannerRules → String → String
prompt_domain p user_input =
    let request = p.texts.lower user_input in
    if holds_any request (
      "rabbitmq" ∷ "queue." ∷ "amq.gen-" ∷ "queue " ∷ "queues" ∷ "consumer" ∷ "consumers"
      ∷ "backlog" ∷ "throughput" ∷ [])
    then "rabbitmq"
    else if holds_any request (
          "onem2m" ∷ "device_id" ∷ "identity" ∷ "cnt_command" ∷ "cnt_telemetry" ∷ "uri_mapper"
          ∷ "uri mapper" ∷ "subscription" ∷ "content instance" ∷ [])
        || found (p.extract_device_identifier user_input)
    then "onem2m"
    else if holds_any request ("k8s" ∷ "kubernetes" ∷ "pod" ∷ "namespace" ∷ [])
    then "kubernetes"
    else if holds_any request ("emqx" ∷ "mqtt" ∷ "broker" ∷ [])
    then "emqx"
    else "general"

unfoldable pub is_workflow_compatible_with_prompt :
    PlannerRules → (tool_name user_input : String) → Bool
is_workflow_compatible_with_prompt p tool_name user_input =
    let domain = prompt_domain p user_input in
    if domain == "rabbitmq"
    then contains rabbitmq_tools tool_name
    else not (contains onem2m_tools tool_name) || (domain == "onem2m" || domain == "general")

abbrev pub fields_of : Value → Fields
fields_of (document fs) = fs
fields_of null = end
fields_of (flag b) = end
fields_of (number n) = end
fields_of (text s) = end
fields_of (array xs) = end

abbrev items_of : Value → Items
items_of (array xs) = xs
items_of null = nil
items_of (flag b) = nil
items_of (number n) = nil
items_of (text s) = nil
items_of (document fs) = nil

abbrev pub named_allowed : Option ToolSpec → List String
named_allowed none = []
named_allowed (some t) = t.allowed_params

abbrev pub is_known : Option ToolSpec → Bool
is_known none = false
is_known (some t) = true

abbrev reason_of : PlannerRules → Value → String
reason_of p v = if truthy v then str_of p.texts v else "semantic_planner"

-- Whether an item of the reply that names a tool is taken; `seen` are the tools taken so far.
unfoldable pub is_accepted :
    PlannerRules
    → (user_input : String) → (seen : List String) → (tool_name : String) → Fields
    → Bool
is_accepted p user_input seen tool_name fs =
    let confidence = coerce_confidence p.scale (p.confidence (get_field "confidence" fs)) in
    not (contains seen tool_name)
    && (is_known (get_tool_spec p.tools tool_name)
        && (is_workflow_compatible_with_prompt p tool_name user_input
            && not (ltb confidence (min_semantic_confidence p.scale))))

-- The workflow of an item that is taken.
abbrev pub planned : PlannerRules → (user_input tool_name : String) → Fields → Workflow
planned p user_input tool_name fs =
    let allowed = named_allowed (get_tool_spec p.tools tool_name) in
    let params = filter_tool_params p (fields_of (get_field "params" fs)) allowed user_input in
    record {
      tool = tool_name;
      params = enrich_workflow_params p tool_name params user_input;
      reason = reason_of p (get_field "reason" fs);
      confidence = coerce_confidence p.scale (p.confidence (get_field "confidence" fs));
      planner = "semantic_llm";
    }

abbrev pub accepted :
    PlannerRules → (user_input : String) → (seen : List String) → Fields → Option Workflow
accepted p user_input seen fs =
    let tool_name = strip (text_of p.texts (get_field "tool" fs)) in
    if is_accepted p user_input seen tool_name fs
    then some (planned p user_input tool_name fs)
    else none

abbrev pub accepted_item :
    PlannerRules → (user_input : String) → (seen : List String) → Value → Option Workflow
accepted_item p user_input seen (document fs) = accepted p user_input seen fs
accepted_item p user_input seen null = none
accepted_item p user_input seen (flag b) = none
accepted_item p user_input seen (number n) = none
accepted_item p user_input seen (text s) = none
accepted_item p user_input seen (array xs) = none

-- A workflow that is taken goes before the ones that follow its tool.
abbrev pub taken_or :
    Option Workflow → (skipped : List Workflow) → (rest : String → List Workflow) → List Workflow
taken_or none skipped rest = skipped
taken_or (some w) skipped rest = w ∷ rest w.tool

-- The loop over the first `left` items.
unfoldable pub normalized :
    PlannerRules → (user_input : String) → (left : ℕ) → (seen : List String) → Items → List Workflow
normalized p user_input zero seen items = []
normalized p user_input (suc n) seen nil = []
normalized p user_input (suc n) seen (item v items) =
    let skipped = normalized p user_input n seen items in
    taken_or (accepted_item p user_input seen v) skipped
      (λ tool. normalized p user_input n (tool ∷ seen) items)

-- The workflows that runbooks require are put in.
unfoldable pub ensure_workflows :
    PlannerRules → (user_input : String) → List Workflow → List Workflow
ensure_workflows p user_input workflows =
    let runbook = ensure_runbook_required_workflows p user_input workflows in
    let drilldown = ensure_device_drilldown_workflow p user_input runbook in
    let overview = ensure_infrastructure_overview_workflows p user_input drilldown in
    ensure_k8s_resource_log_workflows p user_input overview

unfoldable pub normalize_planner_workflows :
    PlannerRules → Value → (user_input : String) → List Workflow
normalize_planner_workflows p (document fs) user_input =
    let workflows = items_of (get_field "workflows" fs) in
    ensure_workflows p user_input (normalized p user_input max_workflow_executions [] workflows)
normalize_planner_workflows p null user_input = []
normalize_planner_workflows p (flag b) user_input = []
normalize_planner_workflows p (number n) user_input = []
normalize_planner_workflows p (text s) user_input = []
normalize_planner_workflows p (array xs) user_input = []

abbrev pub extra_workflow : PlannerRules → String × String → Workflow
extra_workflow p (tool, reason) = workflow p tool [] reason 68 "deterministic_taxonomy"

abbrev pub primary_workflow : PlannerRules → String × Params × String → Workflow
primary_workflow p (tool, params, reason) =
    workflow p tool params reason 72 "deterministic_taxonomy"

-- The loop stops when the plan is full.
unfoldable pub plan_workflows_deterministically :
    PlannerRules → (user_input : String) → List Workflow
plan_workflows_deterministically p user_input =
    let classified = p.classify_tool user_input in
    let extra = p.detect_additional_grafana_tools user_input classified.0 in
    ensure_workflows p user_input
      (take max_workflow_executions (primary_workflow p classified ∷ map (extra_workflow p) extra))

abbrev pub parsed_plan : PlannerRules → (user_input : String) → Option Value → List Workflow
parsed_plan p user_input none = []
parsed_plan p user_input (some parsed) = normalize_planner_workflows p parsed user_input

-- The plan, and the tokens of the model where its plan is taken.
abbrev pub Plan : Type 0
Plan = List Workflow × Value

abbrev pub fallback : PlannerRules → (user_input : String) → Plan → Plan
fallback p user_input ([], usage) = (plan_workflows_deterministically p user_input, null)
fallback p user_input (w ∷ workflows, usage) = (w ∷ workflows, usage)

abbrev pub semantic_plan : PlannerRules → (user_input : String) → (enabled : Bool) → Plan
semantic_plan p user_input true =
    let proposed = p.propose user_input in (parsed_plan p user_input proposed.0, proposed.1)
semantic_plan p user_input false = ([], null)

unfoldable pub plan_workflows : PlannerRules → (user_input : String) → Plan
plan_workflows p user_input =
    fallback p user_input (semantic_plan p user_input p.semantic_planner_enabled)

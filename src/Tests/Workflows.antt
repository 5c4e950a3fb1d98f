-- ===== src/Tests/Workflows.antt =====
-- Requests to the IOA v3 agent whose planner takes every request for one about the inventory.
use iot_ops_agent.Prelude.{
  String, ◌≡◌, ◌≤◌, refl, true, false, none, some, [], ◌∷◌, length, map, All, List, ◌==◌, ◌⊎◌,
  string_eq,
}
use iot_ops_agent.Prelude.Int.{pos}
use iot_ops_agent.Prelude.Text.{strip}
use iot_ops_agent.Prelude.Text.Words.{holds_any}
use iot_ops_agent.Prelude.Result.{ok}
use iot_ops_agent.MongoProxy.Documents.{null, text, document, Items, nil, item, end, field}
use iot_ops_agent.IoaV3.Catalog.{
  Workflow, get_tool_spec, get_company_tool, is_text, authorize_single_workflow,
}
use iot_ops_agent.IoaV3.Execution.{
  TextRules, get_company_inventory_context, answers, company_execution, execution_of,
}
use iot_ops_agent.IoaV3.Outputs.{company_output, output_of}
use iot_ops_agent.IoaV3.Planner.Parameters.{PlannerRules}
use iot_ops_agent.IoaV3.Planner.Runbooks.{
  workflow, ensure_runbook_required_workflows, ensure_device_drilldown_workflow,
  ensure_infrastructure_overview_workflows, ensure_k8s_resource_log_workflows, onem2m_plan, cut_if,
  asks_overview,
}
use iot_ops_agent.IoaV3.Planner.{
  plan_workflows, plan_workflows_deterministically, ensure_workflows, normalized, is_accepted,
  is_workflow_compatible_with_prompt, prompt_domain,
}
use iot_ops_agent.IoaV3.Planner.Acceptance.{IsAuthorized, AreNew, normalized-IsAuthorized}
use iot_ops_agent.IoaV3.Planner.Bounds.{plan_workflows-length}
use iot_ops_agent.IoaV3.{
  Request, Services, initial_state, request_is_valid, validate_request_node, select_workflow_node,
  authorized_workflows, workflow_policy, authorize_workflow_node, execute_workflows,
  call_n8n_workflow_node, apply_kpi_rules_node, generate_answer_node, deny_request_node,
}
use iot_ops_agent.IoaV3.Stream.{perform, stream_nodes, run_stream}
use iot_ops_agent.IoaV3.Authorization.{IsSafe}
use iot_ops_agent.IoaV3.Runs.{run_stream-IsSafe}
use iot_ops_agent.IoaV3.Finals.{IsComplete, run_stream-IsComplete}
use iot_ops_agent.IoaV3.Logs.{no_logs, hours_of, ensure_k8s_resource_log_workflows-answers}

abbrev texts : TextRules
texts = record { lower = λ s. s; str = λ v. ""; primary_language = λ s. "en" }

abbrev planner : PlannerRules
planner = record {
  texts = texts;
  tools = [];
  semantic_planner_enabled = false;
  propose = λ s. (none, null);
  float = λ v. none;
  scale = 1;
  confidence = λ v. none;
  classify_tool = λ s. ("get_company_inventory", [], "inventory");
  detect_additional_grafana_tools = λ s t. [];
  extract_onem2m_identifiers = λ s. [];
  extract_onem2m_collection_name = λ s. none;
  extract_device_identifier = λ s. none;
  has_digit = λ s. false;
  hours_back = λ s. none;
  k8s_hours_back = λ s. some 12;
}

abbrev pub services : Services
services = record {
  planner = planner;
  resolve_contextual_user_input = λ s context. s;
  answer = λ c. ok (field "source" (text "company_mongodb") end);
  kpi_rules = λ t. [];
  generate = λ s. ok (record { content = "Three devices."; token_usage = null });
}

abbrev request_from : (active_source : String) → Request
request_from active_source = record {
  user_input = "which devices are there";
  selected_source = "company";
  source_resolution = ("active_source", text active_source) ∷ [];
  conversation_context = [];
}

company_calls :
    (run_stream services (request_from "company_mongodb")).state.calls
    ≡ get_company_inventory_context ∷ []
unfolding run_stream stream_nodes perform initial_state request_is_valid strip validate_request_node
    select_workflow_node plan_workflows plan_workflows_deterministically ensure_workflows
    ensure_runbook_required_workflows ensure_device_drilldown_workflow
    ensure_infrastructure_overview_workflows ensure_k8s_resource_log_workflows onem2m_plan cut_if
    asks_overview holds_any authorize_workflow_node authorized_workflows workflow_policy
    authorize_single_workflow get_tool_spec get_company_tool is_text call_n8n_workflow_node
    execute_workflows execution_of company_execution output_of company_output apply_kpi_rules_node
    generate_answer_node deny_request_node
company_calls = refl

run_stream-IsSafe_example :
    IsSafe services
      (request_from "company_mongodb")
      (run_stream services (request_from "company_mongodb")).state.calls
run_stream-IsSafe_example = run_stream-IsSafe services (request_from "company_mongodb")

run_stream-IsComplete_example : IsComplete (run_stream services (request_from "unavailable")).events
run_stream-IsComplete_example = run_stream-IsComplete services (request_from "unavailable")

plan_workflows-length_example :
    (1 ≤ length (plan_workflows planner "which devices are there").0)
    × (length (plan_workflows planner "which devices are there").0 ≤ 5)
plan_workflows-length_example = plan_workflows-length planner "which devices are there"

-- The resources of Kubernetes, and logs of a service.
abbrev k8s_plan : List Workflow
k8s_plan =
    workflow planner "grafana_k8s_resources" [] "" 90 ""
    ∷ workflow planner "grafana_logs" (("service", text "emqx") ∷ []) "" 90 ""
    ∷ []

ensure_k8s_resource_log_workflows-answers_example :
    All
      (λ w.
        ((w.tool == "grafana_logs") ≡ false)
        ⊎ (execution_of [] texts w
            ≡ answers (no_logs (hours_of (planner.k8s_hours_back "k8s pods")))))
      (ensure_k8s_resource_log_workflows planner "k8s pods" k8s_plan)
ensure_k8s_resource_log_workflows-answers_example =
    ensure_k8s_resource_log_workflows-answers [] texts planner "k8s pods" k8s_plan refl

-- The request names a device, and the model is sure of two workflows for it.
abbrev device_planner : PlannerRules
device_planner = record planner {
  semantic_planner_enabled = true;
  confidence = λ v. some (pos 90);
  extract_onem2m_identifiers = λ s. ("device_id", text "S123456789") ∷ [];
}

abbrev proposal : String → Items → Items
proposal tool items = item (document (field "tool" (text tool) end)) items

abbrev proposals : Items
proposals =
    proposal "query_device_online_status"
      (proposal "query_device_online_status" (proposal "get_company_inventory" nil))

two_tools :
    map (λ (w : Workflow). w.tool) (normalized device_planner "status of S123456789" 5 [] proposals)
    ≡ "query_device_online_status" ∷ "get_company_inventory" ∷ []
unfolding normalized is_accepted is_workflow_compatible_with_prompt prompt_domain strip holds_any
    get_tool_spec get_company_tool
two_tools = refl

normalized-IsAuthorized_example :
    All
      (IsAuthorized device_planner)
      (normalized device_planner "status of S123456789" 5 [] proposals)
    × AreNew [] (normalized device_planner "status of S123456789" 5 [] proposals)
normalized-IsAuthorized_example =
    normalized-IsAuthorized device_planner "status of S123456789" 5 proposals (refl, tt)

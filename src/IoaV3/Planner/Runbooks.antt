-- ===== src/IoaV3/Planner/Runbooks.antt =====
-- The workflows that runbooks of agents/ioa_v3_agent.py require.
use iot_ops_agent.Prelude.{
  ℕ, ◌*◌, String, Bool, true, false, not, ◌&&◌, ◌||◌, Option, none, some, List, [], ◌∷◌, ◌++◌, min,
  map, any, find, select, discard, take, ◌==◌, string_eq, if◌then◌else◌,
}
use mathlib.Core.List.{reverse}
use iot_ops_agent.Prelude.Int.{pos}
use iot_ops_agent.Prelude.Text.Words.{holds, holds_any}
use iot_ops_agent.MongoProxy.Documents.{Value, null, number, text}
use iot_ops_agent.IoaV3.Catalog.{Params, Workflow, contains, get_or, put}
use iot_ops_agent.IoaV3.Execution.{truthy, onem2m_tools}
use iot_ops_agent.IoaV3.Planner.Parameters.{PlannerRules, enrich_workflow_params}

abbrev pub max_workflow_executions : ℕ
max_workflow_executions = 5

abbrev pub workflow :
    PlannerRules → (tool : String) → Params → (reason : String) → ℕ → (planner : String) → Workflow
workflow p tool params reason hundredths planner = record {
  tool = tool;
  params = params;
  reason = reason;
  confidence = hundredths * p.scale;
  planner = planner;
}

abbrev pub metric_runbook_tools : List String
metric_runbook_tools =
    "grafana_queue_backlog" ∷ "grafana_queue_trend" ∷ "grafana_emqx_dropped_trend"
    ∷ "grafana_emqx_connection_trend" ∷ "grafana_k8s_resources" ∷ []

abbrev pub is_tool : String → Workflow → Bool
is_tool tool w = w.tool == tool

abbrev pub is_onem2m : Workflow → Bool
is_onem2m w = contains onem2m_tools w.tool

abbrev log_params : (hours_back : Option ℕ) → Params
log_params none =
    ("level", text "error|warn") ∷ ("hours_back", number (pos 6)) ∷ ("limit", number (pos 50)) ∷ []
log_params (some n) =
    ("level", text "error|warn")
    ∷ ("hours_back", number (pos (min n 72)))
    ∷ ("limit", number (pos 50))
    ∷ []

abbrev target_services : (request : String) → List String
target_services request =
    let http = if holds request "iot-http-api" then "iot-http-api" ∷ [] else [] in
    let mqtt =
      if holds_any request ("iot-mqtt-client-adapter" ∷ "mqtt" ∷ [])
      then "iot-mqtt-client-adapter" ∷ []
      else [] in
    let notify = if holds request "notify" then "notify" ∷ [] else [] in http ++ (mqtt ++ notify)

abbrev pub or_http_api : List String → List String
or_http_api [] = "iot-http-api" ∷ []
or_http_api (service ∷ services) = service ∷ services

abbrev with_device_filter : Value → Params → Params
with_device_filter device_id params =
    if truthy device_id then params ++ ("contains", device_id) ∷ [] else params

unfoldable pub adapter_logs : PlannerRules → (user_input : String) → List Workflow
adapter_logs p user_input =
    let request = p.texts.lower user_input in
    let device_id = get_or "device_id" null (p.extract_onem2m_identifiers user_input) in
    let params = with_device_filter device_id (log_params (p.hours_back request)) in
    map
      (λ service.
        workflow p "grafana_logs" (put "service" (text service) params)
          "runbook_required_adapter_logs" 68 "runbook_required")
      (or_http_api (target_services request))

-- The workflows are replaced where the test holds, by the first ones of others.
unfoldable pub cut_if : Bool → (others workflows : List Workflow) → List Workflow
cut_if true others workflows = take max_workflow_executions others
cut_if false others workflows = workflows

-- The plan of a OneM2M request, with the logs of the adapters where a flow is debugged.
unfoldable pub onem2m_plan : PlannerRules → (user_input : String) → List Workflow → List Workflow
onem2m_plan p user_input workflows =
    let request = p.texts.lower user_input in
    let kept = select (λ w. is_onem2m w || is_tool "grafana_logs" w) workflows in
    let flow_debug =
      any (is_tool "get_company_onem2m_command_flow") workflows
      || any (is_tool "get_company_onem2m_telemetry_flow") workflows in
    let logs_asked =
      holds_any request
        ("log" ∷ "loki" ∷ "adapter" ∷ "iot-http-api" ∷ "iot-mqtt-client-adapter" ∷ "notify" ∷ []) in
    if not (any is_onem2m workflows)
    then workflows
    else cut_if (flow_debug && logs_asked)
        (discard (is_tool "grafana_logs") kept ++ adapter_logs p user_input) kept

abbrev pub runbook_workflow :
    PlannerRules → (user_input : String) → String × Params × String → Workflow
runbook_workflow p user_input (tool, params, reason) =
    let enriched = enrich_workflow_params p tool params user_input in
    workflow p tool enriched reason 90 "runbook_keyword_override"

unfoldable pub ensure_runbook_required_workflows :
    PlannerRules → (user_input : String) → List Workflow → List Workflow
ensure_runbook_required_workflows p user_input workflows =
    let runbook = p.classify_tool user_input in
    let required = runbook_workflow p user_input runbook in
    if contains metric_runbook_tools runbook.0
    then take max_workflow_executions
        (required ∷ discard (λ w. is_tool runbook.0 w || is_onem2m w) workflows)
    else onem2m_plan p user_input (
        cut_if (contains onem2m_tools runbook.0) (required ∷ discard is_onem2m workflows) workflows)

abbrev pub drilldown_workflow :
    PlannerRules → (user_input : String) → String × Params × String → Workflow
drilldown_workflow p user_input (tool, params, reason) =
    let enriched = enrich_workflow_params p tool params user_input in
    workflow p tool enriched reason 90 "drilldown_keyword_override"

unfoldable pub ensure_device_drilldown_workflow :
    PlannerRules → (user_input : String) → List Workflow → List Workflow
ensure_device_drilldown_workflow p user_input workflows =
    let classified = p.classify_tool user_input in
    cut_if (classified.0 == "get_company_device_drilldown")
      (drilldown_workflow p user_input classified ∷ discard (is_tool classified.0) workflows)
      workflows

abbrev infrastructure_overview_tools : List String
infrastructure_overview_tools =
    "grafana_k8s_health" ∷ "grafana_linux_health" ∷ "grafana_redis_health"
    ∷ "grafana_mongodb_health" ∷ "grafana_mysql_health" ∷ []

abbrev existing_or : PlannerRules → (tool : String) → Option Workflow → Workflow
existing_or p tool none =
    workflow p tool [] "infrastructure_overview_required" 72 "runbook_required"
existing_or p tool (some w) = w

unfoldable pub asks_overview : (request : String) → Bool
asks_overview request =
    holds_any request ("kubernetes" ∷ "k8s" ∷ [])
    && (holds request "linux"
        && (holds request "redis"
            && (holds_any request ("mongodb" ∷ "mongo" ∷ []) && holds request "mysql")))

-- Of two workflows of a tool, the last one is kept, as in a dict.
unfoldable pub ensure_infrastructure_overview_workflows :
    PlannerRules → (user_input : String) → List Workflow → List Workflow
ensure_infrastructure_overview_workflows p user_input workflows =
    cut_if (asks_overview (p.texts.lower user_input))
      (map (λ tool. existing_or p tool (find (is_tool tool) (reverse workflows)))
        infrastructure_overview_tools)
      workflows

abbrev pub k8s_log_workflow : PlannerRules → (user_input : String) → Workflow
k8s_log_workflow p user_input =
    workflow p "grafana_logs" (log_params (p.k8s_hours_back user_input))
      "k8s_resource_error_log_correlation" 72 "runbook_required"

unfoldable pub ensure_k8s_resource_log_workflows :
    PlannerRules → (user_input : String) → List Workflow → List Workflow
ensure_k8s_resource_log_workflows p user_input workflows =
    cut_if (any (is_tool "grafana_k8s_resources") workflows)
      (discard (is_tool "grafana_logs") workflows ++ k8s_log_workflow p user_input ∷ []) workflows

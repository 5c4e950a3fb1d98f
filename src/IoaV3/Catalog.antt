-- ===== src/IoaV3/Catalog.antt =====
-- The workflows that agents/ioa_v3_agent.py knows and the test that one of them is authorised.
-- config/grafana_tools.json, which lists the Grafana tools, is a parameter.
use iot_ops_agent.Prelude.{
  ℕ, String, Bool, true, false, not, ◌&&◌, Option, none, some, List, [], ◌∷◌, map, any, find, ◌==◌,
  string_eq, if◌then◌else◌, is_some,
}
use iot_ops_agent.MongoProxy.Documents.{Value, null, flag, number, text, array, document}

pub record ToolSpec : Type 0 where
  pub name : String
  pub workflow_id : String
  pub allowed_params : List String

abbrev tool : (name workflow_id : String) → (allowed_params : List String) → ToolSpec
tool name workflow_id allowed_params = record {
  name = name;
  workflow_id = workflow_id;
  allowed_params = allowed_params;
}

abbrev pub correlation_params : List String
correlation_params =
    "ae_id" ∷ "request_id" ∷ "payload_hint" ∷ "time_range" ∷ "application_domain" ∷ []

abbrev pub company_db_tools : List ToolSpec
company_db_tools =
    tool "get_company_disconnected_devices" "company_disconnected_devices" []
    ∷ tool "get_company_provisional_alerts" "company_provisional_alerts" []
    ∷ tool "get_company_fleet_summary" "company_fleet_summary" []
    ∷ tool "get_company_inventory" "company_inventory" []
    ∷ tool "get_company_telemetry_coverage" "company_telemetry_coverage" []
    ∷ tool "get_company_device_drilldown" "company_device_drilldown" ("device_id" ∷ [])
    ∷ tool "get_company_rule_readiness" "company_rule_readiness" []
    ∷ tool "get_company_onem2m_device_resources" "company_onem2m_device_resources"
        ("device_id" ∷ correlation_params)
    ∷ tool "query_company_onem2m_collection" "query_company_onem2m_collection"
        ("device_id" ∷ "collection" ∷ correlation_params)
    ∷ tool "query_device_online_status" "query_device_online_status"
        ("device_id" ∷ correlation_params)
    ∷ tool "query_onem2m_cin_records" "query_onem2m_cin_records"
        ("device_id" ∷ "cin_type" ∷ correlation_params)
    ∷ tool "get_company_onem2m_command_flow" "company_onem2m_command_flow"
        ("device_id" ∷ correlation_params)
    ∷ tool "get_company_onem2m_telemetry_flow" "company_onem2m_telemetry_flow"
        ("device_id" ∷ correlation_params)
    ∷ tool "scan_company_threshold" "company_threshold_scan" ("threshold" ∷ [])
    ∷ []

abbrev pub mcp_prometheus_tools : List String
mcp_prometheus_tools =
    "grafana_queue_backlog" ∷ "grafana_queue_trend" ∷ "grafana_emqx_health"
    ∷ "grafana_emqx_dropped_trend" ∷ "grafana_emqx_connection_trend" ∷ "grafana_k8s_health"
    ∷ "grafana_k8s_resources" ∷ "grafana_linux_health" ∷ "grafana_redis_health"
    ∷ "grafana_mongodb_health" ∷ "grafana_mysql_health" ∷ "grafana_http_health"
    ∷ "grafana_throughput" ∷ "query_rabbitmq_queue_detail" ∷ "query_emqx_connection_count" ∷ []

-- A tool of the file; a missing list of parameters is the empty one.
pub record GrafanaTool : Type 0 where
  pub spec : ToolSpec
  pub method : String
  pub path : String

abbrev pub contains : List String → String → Bool
contains names name = any (λ n. n == name) names

unfoldable pub get_company_tool : String → Option ToolSpec
get_company_tool tool_name = find (λ t. t.name == tool_name) company_db_tools

unfoldable pub get_grafana_tool_by_name : List GrafanaTool → String → Option GrafanaTool
get_grafana_tool_by_name tools tool_name = find (λ t. t.spec.name == tool_name) tools

abbrev spec_of : Option GrafanaTool → Option ToolSpec
spec_of none = none
spec_of (some t) = some t.spec

abbrev or_else : Option ToolSpec → Option ToolSpec → Option ToolSpec
or_else none other = other
or_else (some t) other = some t

unfoldable pub get_tool_spec : List GrafanaTool → String → Option ToolSpec
get_tool_spec tools tool_name =
    or_else (get_company_tool tool_name) (spec_of (get_grafana_tool_by_name tools tool_name))

-- The parameters of a workflow, a dict: no name stands twice.
abbrev pub Params : Type 0
Params = List (String × Value)

abbrev pub keys : Params → List String
keys params = map (λ p. p.0) params

-- `params.get(key, default)`
abbrev pub get_or : String → (default : Value) → Params → Value
get_or key default [] = default
get_or key default ((k, v) ∷ params) = if k == key then v else get_or key default params

-- `params[key] = value`
abbrev pub put : String → Value → Params → Params
put key value [] = (key, value) ∷ []
put key value ((k, v) ∷ params) =
    let rest = put key value params in if k == key then (k, value) ∷ params else (k, v) ∷ rest

-- `confidence` counts equal parts of a hundredth.
pub record Workflow : Type 0 where
  pub tool : String
  pub params : Params
  pub reason : String
  pub confidence : ℕ
  pub planner : String

unfoldable pub is_text : Value → String → Bool
is_text (text s) other = s == other
is_text null other = false
is_text (flag b) other = false
is_text (number n) other = false
is_text (array xs) other = false
is_text (document fs) other = false

abbrev pub allowed_params_of : Option ToolSpec → List String
allowed_params_of none = []
allowed_params_of (some t) = t.allowed_params

abbrev pub all_in : List String → List String → Bool
all_in allowed [] = true
all_in allowed (name ∷ names) = contains allowed name && all_in allowed names

-- The decision on a workflow, with its reason.
unfoldable pub authorize_single_workflow :
    List GrafanaTool → (selected_source active_source : Value) → Workflow → Bool × String
authorize_single_workflow tools selected_source active_source w =
    let spec = get_tool_spec tools w.tool in
    let from_company =
      is_text selected_source "company" && is_text active_source "company_mongodb" in
    if is_some (get_company_tool w.tool) && not from_company
    then (false, "company_db_source_required")
    else if not (all_in (allowed_params_of spec) (keys w.params))
    then (false, "unsupported_workflow_params")
    else if is_some spec
    then (true, "workflow_authorized")
    else (false, "workflow_denied")

-- ===== src/IoaV3/Outputs.antt =====
-- What an executed workflow of agents/ioa_v3_agent.py hands on: the calls that were made, and an
-- output or the error that was raised.
use Prim.Native.String.{◌++◌}
use iot_ops_agent.Prelude.{
  String, Bool, true, false, List, [], ◌∷◌, ◌==◌, string_eq, if◌then◌else◌, is_some,
}
use iot_ops_agent.Prelude.Result.{Result, ok, err}
use iot_ops_agent.MongoProxy.Documents.{Value, null, text, array, document, nil, Fields, end, field}
use iot_ops_agent.Evidence.{put_field}
use iot_ops_agent.IoaV3.Catalog.{Params, Workflow, get_or, contains, get_company_tool}
use iot_ops_agent.IoaV3.Execution.{
  TextRules, Call, get_company_disconnected_context, get_company_provisional_alert_context,
  get_company_agent_context, get_company_inventory_context, get_company_telemetry_coverage_context,
  get_company_rule_readiness_context, get_company_device_drilldown_context,
  get_company_onem2m_device_resource_context, get_company_onem2m_command_flow_context,
  get_company_onem2m_telemetry_flow_context, scan_company_payload_threshold,
  query_loki_logs_via_mcp, query_iot_platform_metric_via_mcp, call_n8n_grafana_workflow, Execution,
  asks, answers, raises, loki_request, onem2m_tools,
}

pub record ToolOutput : Type 0 where
  pub source : Value
  pub tool : String
  pub result : Value
  pub kpi_rules : List Value

-- `data.get(key)`
abbrev pub get_field : String → Fields → Value
get_field key end = null
get_field key (field k v fs) = if k == key then v else get_field key fs

abbrev to_document : Params → Fields
to_document [] = end
to_document ((key, value) ∷ params) = field key value (to_document params)

abbrev mcp_error : (mcp_tool message : String) → (request : Value) → (rest : Fields) → Fields
mcp_error mcp_tool message request rest = field "source" (text "mcp_server") (
    field "mcp_tool" (text mcp_tool) (
      field "level" (text "unavailable")
        (field "error" (text message) (field "request" request rest))))

-- A failed MCP query is evidence; the error of another call is raised again.
abbrev pub recovered : Call → (message : String) → Result String Fields
recovered (query_loki_logs_via_mcp service keyword hours limit) m =
    let request = loki_request service keyword hours limit in
    ok (
      mcp_error "loki_query_range" ("MCP Loki query failed: " ++ m) request
        (field "logs" (array nil) end))
recovered (query_iot_platform_metric_via_mcp tool params) m =
    let request = document (to_document params) in
    let rest = field "tool" (text tool) end in
    ok (mcp_error "grafana_query" ("MCP Prometheus query failed: " ++ m) request rest)
recovered get_company_disconnected_context m = err m
recovered get_company_provisional_alert_context m = err m
recovered get_company_agent_context m = err m
recovered get_company_inventory_context m = err m
recovered get_company_telemetry_coverage_context m = err m
recovered get_company_rule_readiness_context m = err m
recovered (get_company_device_drilldown_context identifier) m = err m
recovered (get_company_onem2m_device_resource_context params) m = err m
recovered (get_company_onem2m_command_flow_context params) m = err m
recovered (get_company_onem2m_telemetry_flow_context params) m = err m
recovered (scan_company_payload_threshold threshold) m = err m
recovered (call_n8n_grafana_workflow tool params) m = err m

abbrev pub received : Call → Result String Fields → Result String Fields
received c (ok evidence) = ok evidence
received c (err m) = recovered c m

abbrev tagged : Workflow → Fields → Fields
tagged w evidence =
    if contains onem2m_tools w.tool then put_field "tool" (text w.tool) evidence else evidence

abbrev with_collection : Workflow → Fields → Fields
with_collection w evidence =
    if w.tool == "query_company_onem2m_collection"
    then put_field "query_collection" (get_or "collection" null w.params) evidence
    else if w.tool == "query_onem2m_cin_records"
    then put_field "cin_type" (get_or "cin_type" null w.params) evidence
    else evidence

unfoldable pub company_output : TextRules → (user_input : String) → Workflow → Fields → ToolOutput
company_output rules user_input w evidence =
    let language = text (rules.primary_language user_input) in
    let noted = put_field "answer_language" language (with_collection w (tagged w evidence)) in
    let result = put_field "current_user_input" (text user_input) noted in
    record {
      source = get_field "source" result;
      tool = w.tool;
      result = document result;
      kpi_rules = [];
    }

abbrev of_source : (source : String) → Workflow → Value → ToolOutput
of_source source w result = record {
  source = text source;
  tool = w.tool;
  result = result;
  kpi_rules = [];
}

abbrev is_mcp : Execution → Bool
is_mcp (asks (call_n8n_grafana_workflow tool params)) = false
is_mcp (asks c) = true
is_mcp (answers evidence) = true
is_mcp (raises m) = true

unfoldable pub output_of :
    TextRules → (user_input : String) → Workflow → Execution → Fields → ToolOutput
output_of rules user_input w e evidence =
    if is_some (get_company_tool w.tool)
    then company_output rules user_input w evidence
    else if is_mcp e
    then of_source "mcp_server" w (document evidence)
    else of_source "n8n_grafana_gateway" w (get_field "evidence" evidence)

abbrev pub Executed : Type 0
Executed = List Call × Result String ToolOutput

abbrev map_ok {ℓ κ} : {A : Type ℓ} {B : Type κ} → (A → B) → Result String A → Result String B
map_ok f (ok a) = ok (f a)
map_ok f (err m) = err m

abbrev pub performed :
    TextRules
    → (user_input : String) → (answer : Call → Result String Fields) → Workflow
    → Execution
    → Executed
performed rules user_input answer w (asks c) =
    (c ∷ [], map_ok (output_of rules user_input w (asks c)) (received c (answer c)))
performed rules user_input answer w (answers evidence) =
    ([], ok (output_of rules user_input w (answers evidence) evidence))
performed rules user_input answer w (raises m) = ([], err m)

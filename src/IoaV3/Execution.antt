-- ===== src/IoaV3/Execution.antt =====
-- How agents/ioa_v3_agent.py executes a workflow, with the parameters of the payload that
-- services/n8n_gateway_service.py posts. What is asked of the other services is a `Call`.
use Prim.Native.String
use Prim.Native.Char.{code}
use iot_ops_agent.Prelude.{
  String, Bool, true, false, not, ◌&&◌, Option, none, some, List, [], ◌∷◌, select, find, ◌==◌,
  string_eq, nat_eq, if◌then◌else◌, is_some,
}
use iot_ops_agent.Prelude.Int.{pos, negsuc}
use iot_ops_agent.Prelude.Text.{is_empty, strip}
use iot_ops_agent.Prelude.Text.Words.{strip_chars}
use iot_ops_agent.MongoProxy.Documents.{
  Value, null, flag, number, text, array, document, nil, item, Fields, end, field,
}
use iot_ops_agent.IoaV3.Catalog.{
  GrafanaTool, Params, Workflow, get_or, put, contains, get_company_tool, get_grafana_tool_by_name,
  mcp_prometheus_tools,
}

-- `str.lower`, `str` of a value that is no text, and the language that a request is taken to be in.
pub record TextRules : Type 0 where
  pub lower : String → String
  pub str : Value → String
  pub primary_language : String → String

pub data Call : Type 0 where
  get_company_disconnected_context : Call
  get_company_provisional_alert_context : Call
  get_company_agent_context : Call
  get_company_inventory_context : Call
  get_company_telemetry_coverage_context : Call
  get_company_rule_readiness_context : Call
  get_company_device_drilldown_context : (identifier : Value) → Call
  get_company_onem2m_device_resource_context : Params → Call
  get_company_onem2m_command_flow_context : Params → Call
  get_company_onem2m_telemetry_flow_context : Params → Call
  scan_company_payload_threshold : Value → Call
  query_loki_logs_via_mcp : (service_name contains hours_back limit : Value) → Call
  query_iot_platform_metric_via_mcp : (selected_tool : String) → Params → Call
  call_n8n_grafana_workflow : GrafanaTool → (safe_params : Params) → Call

-- A call, evidence without one, or an error that is raised.
pub data Execution : Type 0 where
  asks : Call → Execution
  answers : Fields → Execution
  raises : String → Execution

-- `bool(value)`
abbrev pub truthy : Value → Bool
truthy null = false
truthy (flag b) = b
truthy (number (pos n)) = not (n == 0)
truthy (number (negsuc n)) = true
truthy (text s) = not (is_empty s)
truthy (array nil) = false
truthy (array (item v vs)) = true
truthy (document end) = false
truthy (document (field key v fs)) = true

-- `str(value)`
abbrev pub str_of : TextRules → Value → String
str_of rules (text s) = s
str_of rules v = rules.str v

-- `str(value or "")`
abbrev pub text_of : TextRules → Value → String
text_of rules v = if truthy v then str_of rules v else ""

abbrev pub normalize_identifier_value : TextRules → Value → String
normalize_identifier_value rules v =
    strip_chars (b'.' ∷ b',' ∷ b';' ∷ b':' ∷ b')' ∷ b']' ∷ b'}' ∷ b'"' ∷ 39 ∷ [])
      (strip (text_of rules v))

-- `text.replace("_", "-")`
abbrev dashed : String → String
dashed String.[] = String.[]
dashed (String.◌∷◌ c s) = let rest = dashed s in String.◌∷◌ (if code c == b'_' then "-" else c) rest

abbrev log_service_aliases : List (String × String)
log_service_aliases =
    ("mqtt-adapter", "iot-mqtt-client-adapter")
    ∷ ("mqtt-client-adapter", "iot-mqtt-client-adapter")
    ∷ ("iot-mqtt-adapter", "iot-mqtt-client-adapter")
    ∷ ("iot-mqtt-client-adapter", "iot-mqtt-client-adapter")
    ∷ ("http-api", "iot-http-api")
    ∷ ("iot-http-api", "iot-http-api")
    ∷ ("notify", "notify")
    ∷ ("emqx", "emqx")
    ∷ ("rabbitmq", "rabbitmq")
    ∷ []

abbrev alias_or : Option (String × String) → String → String
alias_or none other = other
alias_or (some (_, alias)) other = alias

unfoldable pub normalize_log_service_name : TextRules → Value → String
normalize_log_service_name rules v =
    let name = normalize_identifier_value rules v in
    let lowered = dashed (rules.lower name) in
    alias_or (find (λ p. p.0 == lowered) log_service_aliases) name

-- The parameters that the OneM2M reads take.
abbrev onem2m_context_params : Params → Params
onem2m_context_params params =
    ("device_id", get_or "device_id" null params)
    ∷ ("ae_id", get_or "ae_id" null params)
    ∷ ("request_id", get_or "request_id" null params)
    ∷ ("payload_hint", get_or "payload_hint" null params)
    ∷ ("time_range", get_or "time_range" null params)
    ∷ ("application_domain", get_or "application_domain" null params)
    ∷ []

abbrev no_threshold : Fields
no_threshold = field "source" (text "company_mongodb") (
    field "tool" (text "scan_company_threshold") (
      field "rules_status" (text "not_configured")
        (field "error" (text "No numeric threshold was detected in the request.") end)))

abbrev is_null : Value → Bool
is_null null = true
is_null (flag b) = false
is_null (number n) = false
is_null (text s) = false
is_null (array xs) = false
is_null (document fs) = false

abbrev scan : Value → Execution
scan threshold =
    if is_null threshold
    then answers no_threshold
    else asks (scan_company_payload_threshold threshold)

abbrev pub onem2m_tools : List String
onem2m_tools =
    "get_company_onem2m_device_resources" ∷ "get_company_onem2m_command_flow"
    ∷ "get_company_onem2m_telemetry_flow" ∷ "query_company_onem2m_collection"
    ∷ "query_device_online_status" ∷ "query_onem2m_cin_records" ∷ []

abbrev resource_tools : List String
resource_tools =
    "get_company_onem2m_device_resources" ∷ "query_company_onem2m_collection"
    ∷ "query_device_online_status" ∷ "query_onem2m_cin_records" ∷ []

unfoldable pub company_execution : Workflow → Execution
company_execution w =
    if w.tool == "scan_company_threshold"
    then scan (get_or "threshold" null w.params)
    else if contains resource_tools w.tool
    then asks (get_company_onem2m_device_resource_context (onem2m_context_params w.params))
    else if w.tool == "get_company_onem2m_command_flow"
    then asks (get_company_onem2m_command_flow_context (onem2m_context_params w.params))
    else if w.tool == "get_company_onem2m_telemetry_flow"
    then asks (get_company_onem2m_telemetry_flow_context (onem2m_context_params w.params))
    else if w.tool == "get_company_device_drilldown"
    then asks (get_company_device_drilldown_context (get_or "device_id" null w.params))
    else if w.tool == "get_company_disconnected_devices"
    then asks get_company_disconnected_context
    else if w.tool == "get_company_provisional_alerts"
    then asks get_company_provisional_alert_context
    else if w.tool == "get_company_fleet_summary"
    then asks get_company_agent_context
    else if w.tool == "get_company_inventory"
    then asks get_company_inventory_context
    else if w.tool == "get_company_telemetry_coverage"
    then asks get_company_telemetry_coverage_context
    else if w.tool == "get_company_rule_readiness"
    then asks get_company_rule_readiness_context
    else raises "Unsupported company DB workflow."

abbrev with_service : TextRules → Params → Params
with_service rules params =
    let service = get_or "service" null params in
    if truthy service
    then put "service" (text (normalize_log_service_name rules service)) params
    else params

abbrev pub loki_request : (service_name contains hours_back limit : Value) → Value
loki_request service_name contains hours_back limit = document (
    field "service_name" service_name
      (field "contains" contains (field "hours_back" hours_back (field "limit" limit end))))

abbrev needs_target : Params → Fields
needs_target params = field "source" (text "mcp_server") (
    field "mcp_tool" (text "loki_query_range") (
      field "level" (text "needs_target") (
        field "request"
          (loki_request null null (get_or "hours_back" (number (pos 6)) params)
            (get_or "limit" (number (pos 50)) params))
          (field "logs" (array nil) (
            field "message"
              (text
                "A concrete service name or search keyword is required before running a scoped Loki query.")
              end)))))

unfoldable pub loki_execution : TextRules → Params → Execution
loki_execution rules params =
    let selected = with_service rules params in
    let service = get_or "service" null selected in
    let keyword = get_or "contains" null selected in
    if not (truthy service) && not (truthy keyword)
    then answers (needs_target selected)
    else asks (
        query_loki_logs_via_mcp service keyword (get_or "hours_back" (number (pos 6)) selected)
          (get_or "limit" (number (pos 50)) selected))

-- The parameters that `build_n8n_v3_payload` passes on.
abbrev pub safe_params : GrafanaTool → Params → Params
safe_params tool params =
    select (λ p. contains tool.spec.allowed_params p.0 && not (is_null p.1)) params

abbrev pub n8n_execution : Option GrafanaTool → Workflow → Execution
n8n_execution none w = raises (String.◌++◌ "Unknown Grafana tool: " w.tool)
n8n_execution (some tool) w = asks (call_n8n_grafana_workflow tool (safe_params tool w.params))

unfoldable pub execution_of : List GrafanaTool → TextRules → Workflow → Execution
execution_of tools rules w =
    if is_some (get_company_tool w.tool)
    then company_execution w
    else if w.tool == "grafana_logs"
    then loki_execution rules w.params
    else if contains mcp_prometheus_tools w.tool
    then asks (query_iot_platform_metric_via_mcp w.tool w.params)
    else n8n_execution (get_grafana_tool_by_name tools w.tool) w

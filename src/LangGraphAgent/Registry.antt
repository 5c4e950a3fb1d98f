-- ===== src/LangGraphAgent/Registry.antt =====
-- The tools of agents/langgraph_agent.py, how it reads a request and which tool it picks. `str.lower`
-- and the last number that a regular expression finds in a text are parameters.
use iot_ops_agent.Prelude.{
  ℕ, String, Bool, true, false, not, ◌&&◌, ◌||◌, Option, none, some, List, [], ◌∷◌, map, discard,
  any, find, ◌==◌, string_eq, if◌then◌else◌, is_some,
}
use mathlib.Core.List.{reverse}
use package.text.Mathlib.Text.{starts_with}
use iot_ops_agent.Prelude.Text.{is_empty}
use iot_ops_agent.Prelude.Text.Words.{words, blanked, strip_chars, holds, holds_any}

-- The fields that are the same in every entry of the registry are left out.
pub record ToolSpec : Type 0 where
  pub name : String
  pub data_source : String
  pub intent : String
  pub workflow_node : String
  pub requires_device_id : Bool
  pub requires_company_device_id : Bool

abbrev simulator_tool :
    (name intent workflow_node : String) → (requires_device_id : Bool) → ToolSpec
simulator_tool name intent workflow_node requires_device_id = record {
  name = name;
  data_source = "simulator";
  intent = intent;
  workflow_node = workflow_node;
  requires_device_id = requires_device_id;
  requires_company_device_id = false;
}

abbrev company_tool : (name intent workflow_node : String) → (requires_id : Bool) → ToolSpec
company_tool name intent workflow_node requires_id = record {
  name = name;
  data_source = "company";
  intent = intent;
  workflow_node = workflow_node;
  requires_device_id = false;
  requires_company_device_id = requires_id;
}

abbrev pub tool_registry : List ToolSpec
tool_registry =
    simulator_tool "get_device_history" "simulator_device_history" "simulator.device_history" true
    ∷ simulator_tool "get_device_status" "simulator_device_status" "simulator.device_status" true
    ∷ simulator_tool "get_fleet_status" "simulator_fleet_status" "simulator.fleet_status" false
    ∷ company_tool "get_company_device" "company_device_inspection" "company.device_inspection" true
    ∷ company_tool "get_company_disconnected_devices" "company_disconnected_devices"
        "company.disconnected_devices" false
    ∷ company_tool "get_company_fleet_summary" "company_fleet_summary" "company.fleet_summary" false
    ∷ company_tool "get_company_inventory" "company_inventory" "company.inventory" false
    ∷ company_tool "get_company_provisional_alerts" "company_provisional_alerts"
        "company.provisional_alerts" false
    ∷ company_tool "get_company_rule_readiness" "company_rule_readiness" "company.rule_readiness"
        false
    ∷ company_tool "get_company_telemetry_coverage" "company_telemetry_coverage"
        "company.telemetry_coverage" false
    ∷ company_tool "scan_company_threshold" "company_threshold_scan" "company.threshold_scan" false
    ∷ []

-- `TOOL_REGISTRY.get(name)`
unfoldable pub get_tool : String → Option ToolSpec
get_tool name = find (λ s. s.name == name) tool_registry

pub record TextRules : Type 0 where
  pub lower : String → String
  pub last_number : String → Option String

unfoldable pub extract_device_id : String → Option String
extract_device_id request =
    find (λ token. starts_with token "gateway-" || starts_with token "sensor-")
      (words (blanked (b',' ∷ []) request))

abbrev ignored_words : List String
ignored_words =
    "company" ∷ "device" ∷ "diagnose" ∷ "check" ∷ "show" ∷ "inspect" ∷ "thiết" ∷ "bị" ∷ "thiet"
    ∷ "bi" ∷ []

abbrev looks_like_identifier : TextRules → String → Bool
looks_like_identifier rules token =
    let lowered = rules.lower token in
    not (any (λ w. w == lowered) ignored_words)
    && (any (starts_with lowered) ("s" ∷ "dvi-" ∷ "dvi_" ∷ "nod_" ∷ [])
        || (holds token "_" || holds token "-"))

abbrev first_of : List String → String
first_of [] = ""
first_of (token ∷ _) = token

abbrev found_or : Option String → String → String
found_or none other = other
found_or (some token) other = token

-- The tokens without brackets around them, the last first.
unfoldable pub extract_company_device_identifier : TextRules → String → String
extract_company_device_identifier rules request =
    let brackets = b'(' ∷ b')' ∷ b'[' ∷ b']' ∷ b'{' ∷ b'}' ∷ [] in
    let parts = words (blanked (b'/' ∷ b',' ∷ b':' ∷ []) request) in
    let tokens = reverse (discard is_empty (map (strip_chars brackets) parts)) in
    found_or (find (looks_like_identifier rules) tokens) (first_of tokens)

-- `confidence` in hundredths.
pub record IntentDecision : Type 0 where
  pub intent : String
  pub tool_name : String
  pub confidence : ℕ
  pub reason : String

abbrev pub decide : (intent tool_name : String) → ℕ → (reason : String) → IntentDecision
decide intent tool_name confidence reason = record {
  intent = intent;
  tool_name = tool_name;
  confidence = confidence;
  reason = reason;
}

-- `if … elif …`: the decision of the first test that holds.
unfoldable pub choose : List (Bool × IntentDecision) → (otherwise : IntentDecision) → IntentDecision
choose [] otherwise = otherwise
choose ((test, d) ∷ rest) otherwise = if test then d else choose rest otherwise

abbrev pub company_decisions : TextRules → String → List (Bool × IntentDecision)
company_decisions rules request =
    (
      holds_any request ("greater than" ∷ "above" ∷ ">" ∷ "lớn hơn" ∷ "vuot" ∷ "vượt" ∷ []),
      decide "company_threshold_scan" "scan_company_threshold" 90 "company_threshold_keyword",
    )
    ∷ (
      holds_any request (
          "provisional alert" ∷ "poc alert" ∷ "alarm" ∷ "alert" ∷ "cảnh báo" ∷ "canh bao" ∷ "risk"
          ∷ []),
      decide "company_provisional_alerts" "get_company_provisional_alerts" 90
          "company_alert_keyword",
    )
    ∷ (
      holds_any request (
          "coverage" ∷ "telemetry coverage" ∷ "unmapped" ∷ "không map" ∷ "khong map" ∷ "metric"
          ∷ []),
      decide "company_telemetry_coverage" "get_company_telemetry_coverage" 85
          "company_coverage_keyword",
    )
    ∷ (
      holds_any request
          ("rule readiness" ∷ "rule catalog" ∷ "rules" ∷ "grafana" ∷ "luật" ∷ "luat" ∷ []),
      decide "company_rule_readiness" "get_company_rule_readiness" 85 "company_rule_keyword",
    )
    ∷ (
      holds_any request ("disconnected" ∷ "offline" ∷ "mất kết nối" ∷ "mat ket noi" ∷ []),
      decide "company_disconnected_devices" "get_company_disconnected_devices" 90
          "company_disconnected_keyword",
    )
    ∷ (
      not (is_empty (extract_company_device_identifier rules request))
          && holds_any request ("device" ∷ "diagnose" ∷ "thiết bị" ∷ "thiet bi" ∷ []),
      decide "company_device_inspection" "get_company_device" 80 "company_device_identifier",
    )
    ∷ (
      holds_any request (
          "inventory" ∷ "node" ∷ "identity" ∷ "device list" ∷ "danh sách thiết bị"
          ∷ "danh sach thiet bi" ∷ []),
      decide "company_inventory" "get_company_inventory" 85 "company_inventory_keyword",
    )
    ∷ []

abbrev pub company_default : IntentDecision
company_default =
    decide "company_fleet_summary" "get_company_fleet_summary" 60 "company_default_fleet_summary"

abbrev pub simulator_decisions : String → List (Bool × IntentDecision)
simulator_decisions request =
    (
      holds request "history" || holds request "trend",
      decide "simulator_device_history" "get_device_history" 75 "simulator_history_keyword",
    )
    ∷ (
      holds request "diagnose" && is_some (extract_device_id request),
      decide "simulator_device_status" "get_device_status" 80 "simulator_diagnose_device",
    )
    ∷ []

abbrev pub simulator_default : IntentDecision
simulator_default =
    decide "simulator_fleet_status" "get_fleet_status" 55 "simulator_default_fleet_status"

unfoldable pub classify_intent : TextRules → (user_input data_source : String) → IntentDecision
classify_intent rules user_input data_source =
    let request = rules.lower user_input in
    if data_source == "company"
    then choose (company_decisions rules request) company_default
    else choose (simulator_decisions request) simulator_default

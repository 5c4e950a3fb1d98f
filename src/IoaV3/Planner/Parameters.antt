-- ===== src/IoaV3/Planner/Parameters.antt =====
-- The parameters of a planned workflow in agents/ioa_v3_agent.py: which ones of the model are kept,
-- and which ones the request adds.
use Prim.Native.Char.{code}
use package.text.Mathlib.Text.{starts_with}
use iot_ops_agent.Prelude.{
  ℕ, String, Bool, true, false, not, ◌&&◌, ◌||◌, Option, none, some, List, [], ◌∷◌, ltb, ◌==◌,
  string_eq, nat_eq, if◌then◌else◌,
}
use iot_ops_agent.Prelude.Int.{ℤ}
use iot_ops_agent.Prelude.Text.{is_empty, strip}
use iot_ops_agent.Prelude.Text.Words.{text_length, holds, holds_any}
use iot_ops_agent.MongoProxy.Documents.{
  Value, null, flag, number, text, array, document, Fields, end, field,
}
use iot_ops_agent.IoaV3.Catalog.{GrafanaTool, Params, contains, get_or, put, keys}
use iot_ops_agent.IoaV3.Execution.{TextRules, str_of, text_of, onem2m_tools}

-- `propose` is the parsed reply of the model, if there is one, and the tokens that it took.
pub record PlannerRules : Type 0 where
  pub texts : TextRules
  pub tools : List GrafanaTool
  pub semantic_planner_enabled : Bool
  pub propose : String → Option Value × Value
  pub float : Value → Option Value
  pub scale : ℕ
  pub confidence : Value → Option ℤ
  pub classify_tool : String → String × Params × String
  pub detect_additional_grafana_tools : (user_input primary_tool : String) → List (String × String)
  pub extract_onem2m_identifiers : String → Params
  pub extract_onem2m_collection_name : String → Option String
  pub extract_device_identifier : String → Option String
  pub has_digit : String → Bool
  pub hours_back : String → Option ℕ
  pub k8s_hours_back : String → Option ℕ

abbrev placeholder_fragments : List String
placeholder_fragments =
    "your_" ∷ "requested" ∷ "requested_" ∷ "placeholder" ∷ "start_time" ∷ "end_time"
    ∷ "step_interval" ∷ "queue_name" ∷ "device_id" ∷ "device id" ∷ []

abbrev last_is : ℕ → String → Bool
last_is n String.[] = false
last_is n (String.◌∷◌ c s) = let rest = last_is n s in if is_empty s then code c == n else rest

unfoldable pub is_placeholder_param : TextRules → Value → Bool
is_placeholder_param rules value =
    let s = rules.lower (strip (text_of rules value)) in
    is_empty s || (starts_with s "<" && last_is b'>' s) || holds_any s placeholder_fragments

abbrev text_params : List String
text_params =
    "device_id" ∷ "collection" ∷ "cin_type" ∷ "queue_name" ∷ "ae_id" ∷ "request_id" ∷ "payload_hint"
    ∷ "time_range" ∷ "application_domain" ∷ []

abbrev window_params : List String
window_params = "start" ∷ "end" ∷ "step" ∷ "queue" ∷ "contains" ∷ []

abbrev is_scalar : Value → Bool
is_scalar (flag b) = true
is_scalar (number n) = true
is_scalar (text s) = true
is_scalar null = false
is_scalar (array xs) = false
is_scalar (document fs) = false

-- A window that is named in the request, or that is no parameter of this kind.
abbrev in_request : PlannerRules → (user_text key : String) → Value → Bool
in_request p user_text key value =
    let s = p.texts.lower (strip (str_of p.texts value)) in
    not (contains window_params key) || is_empty s || holds user_text s

-- What is kept of a parameter that is allowed.
unfoldable pub kept_param : PlannerRules → (user_text key : String) → Value → Option Value
kept_param p user_text key value =
    if key == "threshold"
    then p.float value
    else if contains text_params key
    then if is_placeholder_param p.texts value then none else some (text (str_of p.texts value))
    else if not (is_scalar value) || is_placeholder_param p.texts value
    then none
    else if in_request p user_text key value
    then some value
    else none

unfoldable pub filter_tool_params :
    PlannerRules → Fields → (allowed_params : List String) → (user_input : String) → Params
filter_tool_params p end allowed user_input = []
filter_tool_params p (field key value fs) allowed user_input =
    let rest = filter_tool_params p fs allowed user_input in
    if contains allowed key
    then elim (kept_param p (p.texts.lower user_input) key value) [
      | none ↦ rest
      | some v ↦ (key, v) ∷ rest
    ]
    else rest

abbrev pub has_key : String → Params → Bool
has_key key params = contains (keys params) key

-- `params.setdefault(key, value)`
abbrev pub set_default : String → Value → Params → Params
set_default key value params = if has_key key params then params else put key value params

abbrev pub set_found : String → Option String → Params → Params
set_found key none params = params
set_found key (some s) params = if is_empty s then params else set_default key (text s) params

unfoldable pub extract_cin_type : PlannerRules → String → Option String
extract_cin_type p user_input =
    let normalized = p.texts.lower user_input in
    if holds_any normalized ("command" ∷ "cmd" ∷ "lệnh" ∷ "lenh" ∷ "downlink" ∷ [])
    then some "command"
    else if holds_any normalized ("telemetry" ∷ "dữ liệu đo" ∷ "du lieu do" ∷ "uplink" ∷ [])
    then some "telemetry"
    else none

abbrev is_missing : Value → Bool
is_missing null = true
is_missing (text s) = is_empty s
is_missing v = false

unfoldable pub is_weak_device_identifier : PlannerRules → Value → Bool
is_weak_device_identifier p value =
    let s = strip (str_of p.texts value) in
    is_missing value
    || is_placeholder_param p.texts (text s)
    || ltb (text_length s) 8
    || not (p.has_digit s)

unfoldable pub with_identifiers : PlannerRules → (found : Params) → Params → Params
with_identifiers p [] params = params
with_identifiers p ((key, value) ∷ found) params =
    let weak = key == "device_id" && is_weak_device_identifier p (get_or key null params) in
    with_identifiers p found (if weak then put key value params else set_default key value params)

abbrev pub with_device : PlannerRules → Option String → Params → Params
with_device p none params = params
with_device p (some device_id) params =
    if not (is_empty device_id) && is_weak_device_identifier p (get_or "device_id" null params)
    then put "device_id" (text device_id) params
    else params

unfoldable pub enrich_workflow_params :
    PlannerRules → (tool_name : String) → Params → (user_input : String) → Params
enrich_workflow_params p tool_name params user_input =
    let identified = with_identifiers p (p.extract_onem2m_identifiers user_input) params in
    if tool_name == "query_company_onem2m_collection"
    then set_found "collection" (p.extract_onem2m_collection_name user_input) identified
    else if tool_name == "query_onem2m_cin_records"
    then set_found "cin_type" (extract_cin_type p user_input) identified
    else if contains onem2m_tools tool_name
    then identified
    else if tool_name == "get_company_device_drilldown"
    then with_device p (p.extract_device_identifier user_input) params
    else params

-- ===== src/PocRules.antt =====
-- services/company_poc_rule_service.py: the alerts that provisional rules raise for a company's
-- devices. Floats are a parameter, with the integers that the thresholds are; so is `str.lower`. The
-- fields that are the same in every alert and report are left out.
pub mod Readings
pub mod Reports
use Prim.Native.Char.{code}
use Prim.Native.String
use iot_ops_agent.Prelude.{
  ℕ, ◌-◌, String, Bool, true, false, ◌||◌, Option, none, some, List, [], ◌∷◌, ◌++◌, length, select,
  any, sort_by, ltb, ◌==◌, nat_eq, string_eq, not, if◌then◌else◌,
}
use iot_ops_agent.Prelude.Int.{ℤ, pos, negsuc}
use iot_ops_agent.Prelude.Text.{is_empty, strip, split}
use iot_ops_agent.Prelude.Text.Words.{before}
use iot_ops_agent.DataSources.{text_or}
use iot_ops_agent.MongoProxy.Documents.{Value, null, flag, number, text, array, document}

-- `float(value)`, `none` where that raises TypeError or ValueError, an integer as a float, `<` and
-- `<=`. An integer so large that `float` raises OverflowError, which nothing catches, is left out.
pub record Floats : Type 1 where
  pub Float : Type 0
  pub float : Value → Option Float
  pub of_int : ℤ → Float
  pub less : Float → Float → Bool
  pub at_most : Float → Float → Bool

pub data Severity : Type 0 where
  critical warning : Severity

pub record StatusRule : Type 0 where
  pub id : String
  pub name : String
  pub threshold : List String
  pub severity : Severity

-- `at_least` for the operator ">=", else "<=".
pub record NumericRule : Type 0 where
  pub id : String
  pub name : String
  pub metric_names : List String
  pub at_least : Bool
  pub warning_threshold : ℤ
  pub critical_threshold : ℤ

pub data Rule : Type 0 where
  on_status : StatusRule → Rule
  on_metric : NumericRule → Rule

abbrev pub poc_rules : List Rule
poc_rules =
    on_status (record {
      id = "poc-device-disconnected";
      name = "Device reported disconnected";
      threshold = "disconnected" ∷ "offline" ∷ [];
      severity = critical;
    })
    ∷ on_metric (record {
      id = "poc-temperature-high";
      name = "High temperature";
      metric_names = "temp" ∷ "temperature" ∷ "nhietdo" ∷ [];
      at_least = true;
      warning_threshold = pos 50;
      critical_threshold = pos 70;
    })
    ∷ on_metric (record {
      id = "poc-rssi-weak";
      name = "Weak signal strength";
      metric_names = "rssi" ∷ [];
      at_least = false;
      warning_threshold = negsuc 69;
      critical_threshold = negsuc 84;
    })
    ∷ []

pub record Metric : Type 0 where
  pub name : String
  pub value : Value
  pub unit : String

-- "" for a text that is missing.
pub record Device : Type 0 where
  pub device_id : String
  pub device_name : String
  pub status : String
  pub timestamp : String
  pub inventory_source : String
  pub telemetry_record_count : ℕ
  pub metrics : List Metric

abbrev last_part : List String → String
last_part [] = ""
last_part (p ∷ []) = p
last_part (p ∷ q ∷ ps) = last_part (q ∷ ps)

-- `a < b`, by code points.
unfoldable pub text_less : String → String → Bool
text_less a String.[] = false
text_less String.[] (String.◌∷◌ d t) = true
text_less (String.◌∷◌ c s) (String.◌∷◌ d t) =
    let rest = text_less s t in if code c == code d then rest else ltb (code c) (code d)

module _ (F : Floats) where
  -- The measured value, or the status.
  pub data Observed : Type 0 where
    reading : F.Float → (unit : String) → (threshold : ℤ) → Observed
    status_text : String → (threshold : List String) → Observed

  pub record Alert : Type 0 where
    pub alert_id : String
    pub device_id : String
    pub device_name : String
    pub severity : Severity
    pub rule_id : String
    pub rule_name : String
    pub timestamp : String
    pub inventory_source : String
    pub field : String
    pub observed : Observed

  pub record Report : Type 0 where
    pub critical_count : ℕ
    pub warning_count : ℕ
    pub total_count : ℕ
    pub rule_count : ℕ
    pub active_alerts : List Alert
    pub devices_with_telemetry : ℕ
    pub inventory_only_devices : ℕ

  abbrev pub numeric_value : Value → Option F.Float
  numeric_value (flag b) = none
  numeric_value null = F.float null
  numeric_value (number n) = F.float (number n)
  numeric_value (text s) = F.float (text s)
  numeric_value (array xs) = F.float (array xs)
  numeric_value (document fs) = F.float (document fs)

  abbrev build_alert : Device → (id name : String) → Severity → (field : String) → Observed → Alert
  build_alert device id name severity field observed = record {
    alert_id = String.◌++◌ id (String.◌++◌ ":" device.device_id);
    device_id = device.device_id;
    device_name = device.device_name;
    severity = severity;
    rule_id = id;
    rule_name = name;
    timestamp = device.timestamp;
    inventory_source = device.inventory_source;
    field = field;
    observed = observed;
  }

  -- A value that is past a threshold, and one that is further out than another.
  abbrev pub reaches : (at_least : Bool) → ℤ → F.Float → Bool
  reaches at_least threshold value =
      if at_least
      then F.at_most (F.of_int threshold) value
      else F.at_most value (F.of_int threshold)

  abbrev pub further : (at_least : Bool) → F.Float → F.Float → Bool
  further at_least value best = if at_least then F.less best value else F.less value best

  -- `max` or `min` by the value: the first of those that are furthest out.
  unfoldable pub furthest :
      (at_least : Bool) → Metric × F.Float → List (Metric × F.Float) → Metric × F.Float
  furthest at_least best [] = best
  furthest at_least best (m ∷ ms) =
      furthest at_least (if further at_least m.1 best.1 then m else best) ms

  unfoldable pub graded : Device → NumericRule → Metric × F.Float → Option Alert
  graded device rule (metric, value) =
      let alert = λ (s : Severity) (threshold : ℤ).
        build_alert device rule.id rule.name s metric.name (reading value metric.unit threshold) in
      if reaches rule.at_least rule.critical_threshold value
      then some (alert critical rule.critical_threshold)
      else if reaches rule.at_least rule.warning_threshold value
      then some (alert warning rule.warning_threshold)
      else none

  abbrev pub graded_furthest : Device → NumericRule → List (Metric × F.Float) → Option Alert
  graded_furthest device rule [] = none
  graded_furthest device rule (m ∷ ms) = graded device rule (furthest rule.at_least m ms)

  abbrev with_value : Metric → Option F.Float → List (Metric × F.Float) → List (Metric × F.Float)
  with_value metric none rest = rest
  with_value metric (some value) rest = (metric, value) ∷ rest

  module _ (lower : String → String) where
    unfoldable pub metric_leaf_name : String → String
    unfolding strip split before
    metric_leaf_name name = before b'[' (last_part (split b'.' (lower (strip name))))

    unfoldable pub evaluate_status_rule : Device → StatusRule → Option Alert
    unfolding strip
    evaluate_status_rule device rule =
        let status = lower (strip device.status) in
        let alert =
          build_alert device rule.id rule.name rule.severity "status"
            (status_text status rule.threshold) in
        if any (λ t. t == status) rule.threshold then some alert else none

    abbrev pub is_accepted : NumericRule → Metric → Bool
    is_accepted rule metric = any (λ n. n == metric_leaf_name metric.name) rule.metric_names

    unfoldable pub matches : NumericRule → List Metric → List (Metric × F.Float)
    matches rule [] = []
    matches rule (metric ∷ metrics) =
        let rest = matches rule metrics in
        if is_accepted rule metric
        then with_value metric (numeric_value metric.value) rest
        else rest

    unfoldable pub evaluate_numeric_rule : Device → NumericRule → Option Alert
    unfolding matches
    evaluate_numeric_rule device rule = graded_furthest device rule (matches rule device.metrics)

    abbrev pub evaluate_rule : Device → Rule → Option Alert
    evaluate_rule device (on_status rule) = evaluate_status_rule device rule
    evaluate_rule device (on_metric rule) = evaluate_numeric_rule device rule

    abbrev added : Option Alert → List Alert → List Alert
    added none alerts = alerts
    added (some alert) alerts = alert ∷ alerts

    abbrev alerts_of : Device → List Rule → List Alert
    alerts_of device [] = []
    alerts_of device (rule ∷ rules) = added (evaluate_rule device rule) (alerts_of device rules)

    abbrev all_alerts : List Device → List Alert
    all_alerts [] = []
    all_alerts (device ∷ devices) = alerts_of device poc_rules ++ all_alerts devices

    abbrev pub is_critical : Alert → Bool
    is_critical alert = elim alert.severity [ critical ↦ true | warning ↦ false ]

    abbrev shown_name : Alert → String
    shown_name alert = text_or alert.device_name alert.device_id

    -- By severity, then by name.
    abbrev shown_before : Alert → Alert → Bool
    shown_before a b =
        if is_critical a
        then (if is_critical b then text_less (shown_name a) (shown_name b) else true)
        else if is_critical b
        then false
        else text_less (shown_name a) (shown_name b)

    abbrev has_telemetry : Device → Bool
    has_telemetry device = not (device.telemetry_record_count == 0)

    unfoldable pub evaluate_company_poc_rules : List Device → Report
    evaluate_company_poc_rules devices =
        let alerts = sort_by shown_before (all_alerts devices) in
        let with_telemetry = length (select has_telemetry devices) in
        record {
          critical_count = length (select is_critical alerts);
          warning_count = length (select (λ a. not (is_critical a)) alerts);
          total_count = length alerts;
          rule_count = length poc_rules;
          active_alerts = alerts;
          devices_with_telemetry = with_telemetry;
          inventory_only_devices = length devices - with_telemetry;
        }

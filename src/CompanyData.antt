-- ===== src/CompanyData.antt =====
-- services/company_data_service.py: the KPI evaluations over a read model of the company's devices, the
-- alerts that follow, and the payload with its fallbacks. Floats are those of the rules on devices;
-- `percent a b` is `round(a / b * 100, 2)`. The rules of config/grafana_kpi_rules.json and the reads
-- of the model are parameters; samples and texts that are shown only are left out.
pub mod Kpis
pub mod Payloads
pub mod Reads
use iot_ops_agent.Prelude.{
  ℕ, ◌+◌, ◌-◌, max, min, String, Bool, true, false, not, Option, none, some, List, [], ◌∷◌, ◌++◌,
  length, select, take, any, ◌==◌, nat_eq, string_eq, if◌then◌else◌,
}
use iot_ops_agent.Prelude.Int.{ℤ, pos, negsuc}
use iot_ops_agent.Prelude.Text.{strip}
use iot_ops_agent.Prelude.Result.{Result, ok, err}
use iot_ops_agent.PocRules.{Floats, Device, Report, evaluate_company_poc_rules}

pub data Bucket : Type 0 where
  connected disconnected unknown : Bucket

abbrev connected_status_values : List String
connected_status_values = "active" ∷ "connected" ∷ "online" ∷ "true" ∷ "1" ∷ []

abbrev disconnected_status_values : List String
disconnected_status_values = "disconnected" ∷ "inactive" ∷ "offline" ∷ "false" ∷ "0" ∷ []

pub data KpiStatus : Type 0 where
  not_evaluable good warning critical unclear : KpiStatus

pub record Model : Type 0 where
  pub devices : List Device
  pub content_instance_count : ℕ
  pub invalid_payload_count : ℕ
  pub parseable_payload_count : ℕ
  pub rules : List String

pub data Evidence : Type 0 where
  of_devices :
      (connected_devices disconnected_devices unknown_status_devices status_evidence_devices
        total_devices : ℕ)
      → Evidence
  of_payloads : (invalid_payloads content_instances_scanned parseable_payloads : ℕ) → Evidence

module _ (F : Floats) where
  -- The keys of an `evaluation`; "unclear" stands for the status "unknown".
  pub record Thresholds : Type 0 where
    pub good_min : Option F.Float
    pub good_below : Option F.Float
    pub good_max : Option F.Float
    pub critical_below : Option F.Float
    pub critical_above : Option F.Float
    pub warning_min : Option F.Float
    pub warning_max : Option F.Float

  abbrev holds_for : Option F.Float → (F.Float → Bool) → Bool
  holds_for none test = false
  holds_for (some threshold) test = test threshold

  abbrev status_of : F.Float → Thresholds → KpiStatus
  status_of value t =
      if holds_for t.good_min (λ x. F.at_most x value)
      then good
      else if holds_for t.good_below (λ x. F.less value x)
      then good
      else if holds_for t.good_max (λ x. F.at_most value x)
      then good
      else if holds_for t.critical_below (λ x. F.less value x)
      then critical
      else if holds_for t.critical_above (λ x. F.less x value)
      then critical
      else if holds_for t.warning_min (λ x. F.at_most x value)
      then warning
      else if holds_for t.warning_max (λ x. F.at_most value x)
      then warning
      else unclear

  unfoldable pub evaluate_threshold : Option F.Float → Thresholds → KpiStatus
  evaluate_threshold none t = not_evaluable
  evaluate_threshold (some value) t = status_of value t

  pub record KpiRule : Type 0 where
    pub kpi : String
    pub tool : String
    pub unit : String
    pub implementation_status : String
    pub metric : String
    pub thresholds : Thresholds

  pub record Evaluation : Type 0 where
    pub rule : KpiRule
    pub value : Option F.Float
    pub status : KpiStatus
    pub evidence : Evidence

  -- `severity` is the status of the evaluation.
  pub record KpiAlert : Type 0 where
    pub severity : KpiStatus
    pub evaluation : Evaluation

  pub record KpiReport : Type 0 where
    pub critical_count : ℕ
    pub warning_count : ℕ
    pub total_count : ℕ
    pub active_alerts : List KpiAlert

  abbrev pub is_critical : KpiStatus → Bool
  is_critical status = elim status [
    | critical ↦ true
    | not_evaluable ↦ false
    | good ↦ false
    | warning ↦ false
    | unclear ↦ false
  ]

  abbrev pub is_warning : KpiStatus → Bool
  is_warning status = elim status [
    | warning ↦ true
    | not_evaluable ↦ false
    | good ↦ false
    | critical ↦ false
    | unclear ↦ false
  ]

  abbrev pub kpi_alerts : List Evaluation → List KpiAlert
  kpi_alerts [] = []
  kpi_alerts (e ∷ evaluations) =
      let rest = kpi_alerts evaluations in
      let alert : KpiAlert = record { severity = e.status; evaluation = e } in
      if is_critical e.status
      then alert ∷ rest
      else if is_warning e.status
      then alert ∷ rest
      else rest

  unfoldable pub build_company_kpi_alerts : List Evaluation → KpiReport
  build_company_kpi_alerts evaluations =
      let alerts = kpi_alerts evaluations in
      record {
        critical_count = length (select (λ a. is_critical a.severity) alerts);
        warning_count = length (select (λ a. is_warning a.severity) alerts);
        total_count = length alerts;
        active_alerts = alerts;
      }

  module _ (lower : String → String) (percent : ℕ → ℕ → F.Float) where
    abbrev in_list : List String → String → Bool
    in_list values s = any (λ v. v == s) values

    unfoldable pub status_bucket : String → Bucket
    unfolding strip
    status_bucket status =
        let normalized = lower (strip status) in
        if in_list connected_status_values normalized
        then connected
        else if in_list disconnected_status_values normalized
        then disconnected
        else unknown

    abbrev pub is_connected : Device → Bool
    is_connected d = elim (status_bucket d.status) [
      | connected ↦ true
      | disconnected ↦ false
      | unknown ↦ false
    ]

    abbrev pub is_disconnected : Device → Bool
    is_disconnected d = elim (status_bucket d.status) [
      | connected ↦ false
      | disconnected ↦ true
      | unknown ↦ false
    ]

    abbrev pub rate : ℕ → ℕ → Option F.Float
    rate part whole = if whole == 0 then none else some (percent part whole)

    -- The value and the evidence of a metric, `none` for a metric that is not computed.
    unfoldable pub metric_of : Model → String → Option (Option F.Float × Evidence)
    metric_of model name =
        let total = length model.devices in
        let up = length (select is_connected model.devices) in
        let down = length (select is_disconnected model.devices) in
        if name == "connected_devices_rate_percent"
        then some (rate up (up + down), of_devices up down (total - up - down) (up + down) total)
        else if name == "invalid_payload_rate_percent"
        then some (
          rate model.invalid_payload_count model.content_instance_count,
          of_payloads model.invalid_payload_count model.content_instance_count
              model.parseable_payload_count,
        )
        else none

    abbrev pub evaluated : KpiRule → Option (Option F.Float × Evidence) → List Evaluation
    evaluated rule none = []
    evaluated rule (some (value, evidence)) =
        record {
          rule = rule;
          value = value;
          status = evaluate_threshold value rule.thresholds;
          evidence = evidence;
        }
        ∷ []

    -- `kpi_rules` are the rules of the file.
    unfoldable pub build_company_kpi_evaluations :
        (kpi_rules : List KpiRule) → Model → List Evaluation
    build_company_kpi_evaluations [] model = []
    build_company_kpi_evaluations (rule ∷ kpi_rules) model =
        let rest = build_company_kpi_evaluations kpi_rules model in
        if rule.implementation_status == "available_company_db"
        then evaluated rule (metric_of model rule.metric) ++ rest
        else rest

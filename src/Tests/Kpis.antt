-- ===== src/Tests/Kpis.antt =====
-- A model in which nothing is known of the devices, and a read through MCP that fails.
use iot_ops_agent.Prelude.{ℕ, ◌≡◌, refl, none, some, [], ◌∷◌, if◌then◌else◌}
use iot_ops_agent.Prelude.Int.{pos}
use iot_ops_agent.Prelude.Text.{strip}
use iot_ops_agent.Prelude.Result.{ok, err}
use iot_ops_agent.PocRules.{Device}
use iot_ops_agent.CompanyData.{
  Model, KpiRule, build_company_kpi_evaluations, build_company_kpi_alerts, status_bucket,
}
use iot_ops_agent.CompanyData.Kpis.{ups, no_evidence-no_alert}
use iot_ops_agent.CompanyData.Payloads.{Access, get_company_operational_payload}
use iot_ops_agent.CompanyData.Reads.{Origin, get_company_operational_payload-Origin}
use iot_ops_agent.Tests.Rules.{numbers, hot}

abbrev silent : Device
silent = record hot { status = "waiting" }

abbrev model : Model
model = record {
  devices = silent ∷ [];
  content_instance_count = 0;
  invalid_payload_count = 0;
  parseable_payload_count = 0;
  rules = [];
}

abbrev connected_rate : KpiRule numbers
connected_rate = record {
  kpi = "Connected devices";
  tool = "grafana_devices";
  unit = "%";
  implementation_status = "available_company_db";
  metric = "connected_devices_rate_percent";
  thresholds = record {
    good_min = some 95;
    good_below = none;
    good_max = none;
    critical_below = some 90;
    critical_above = none;
    warning_min = some 90;
    warning_max = none;
  };
}

abbrev whole : ℕ → ℕ → ℕ
whole part all = 100

nothing_known : ups numbers (λ s. s) whole (silent ∷ []) ≡ 0
unfolding status_bucket strip
nothing_known = refl

no_evidence-no_alert_example :
    (build_company_kpi_alerts numbers (
      build_company_kpi_evaluations numbers (λ s. s) whole (connected_rate ∷ []) model)).total_count
    ≡ 0
no_evidence-no_alert_example =
    no_evidence-no_alert numbers (λ s. s) whole (connected_rate ∷ []) model
      (unfold status_bucket strip in refl) refl

-- Only a direct read returns a model.
abbrev through_mcp : Access
through_mcp = record {
  company_db_type = "mongodb";
  company_data_access_mode = "mcp";
  load = λ read. if read.force_direct then ok model else err "no session";
}

get_company_operational_payload-Origin_example :
    Origin numbers
      (λ s. s)
      whole
      (connected_rate ∷ [])
      through_mcp
      (pos 20)
      (get_company_operational_payload numbers
        (λ s. s)
        whole
        (connected_rate ∷ [])
        through_mcp
        (pos 20)
        "company-api")
get_company_operational_payload-Origin_example =
    get_company_operational_payload-Origin numbers (λ s. s) whole (connected_rate ∷ []) through_mcp
      (pos 20) "company-api"

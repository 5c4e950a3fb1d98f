-- ===== src/CompanyData/Payloads.antt =====
-- `get_company_operational_payload` of services/company_data_service.py. A read of the model through a
-- proxy is a parameter, by the proxy's actor, whether it is forced to be direct, and the scan limit.
use Prim.Native.String
use iot_ops_agent.Prelude.{
  ℕ, max, min, String, Bool, true, false, not, List, [], ◌∷◌, take, ◌==◌, string_eq, if◌then◌else◌,
}
use iot_ops_agent.Prelude.Int.{ℤ, pos, negsuc}
use iot_ops_agent.Prelude.Result.{Result, ok, err}
use iot_ops_agent.PocRules.{Floats, Device, Report, evaluate_company_poc_rules}
use iot_ops_agent.CompanyData.{
  Model, KpiRule, Evaluation, KpiReport, build_company_kpi_evaluations, build_company_kpi_alerts,
}

pub record Read : Type 0 where
  pub actor : String
  pub force_direct : Bool
  pub cin_scan_limit : ℕ

abbrev default_company_cin_scan_limit : ℕ
default_company_cin_scan_limit = 500

abbrev scan_limit : ℤ → ℕ
scan_limit (pos n) = max n default_company_cin_scan_limit
scan_limit (negsuc n) = default_company_cin_scan_limit

-- `max(1, min(int(limit), 100))`
abbrev pub record_limit : ℤ → ℕ
record_limit (pos n) = max 1 (min n 100)
record_limit (negsuc n) = 1

-- The environment, as its functions read it.
pub record Access : Type 0 where
  pub company_db_type : String
  pub company_data_access_mode : String
  pub load : Read → Result String Model

abbrev pub first_read : (limit : ℤ) → (proxy_actor : String) → Read
first_read limit proxy_actor = record {
  actor = proxy_actor;
  force_direct = false;
  cin_scan_limit = scan_limit limit;
}

abbrev pub second_read : (limit : ℤ) → (proxy_actor : String) → Read
second_read limit proxy_actor = record {
  actor = String.◌++◌ proxy_actor "-direct-fallback";
  force_direct = true;
  cin_scan_limit = scan_limit limit;
}

module _ (F : Floats) where
  pub data Payload : Type 0 where
    simulator_fallback : (reason : String) → Payload
    company_mongodb :
        (devices : List Device)
        → (alerts : Report F) → (kpi_evaluations : List (Evaluation F))
        → (official_alerts : KpiReport F) → (company_rule_mappings : List String)
        → (db_transport_fallback_reason : String) → Payload

  module _ (lower : String → String) (percent : ℕ → ℕ → F.Float)
      (kpi_rules : List (KpiRule F)) where
    unfoldable pub payload_of : (limit : ℤ) → (fallback_reason : String) → Model → Payload
    payload_of limit fallback_reason model =
        let records = take (record_limit limit) model.devices in
        let evaluations = build_company_kpi_evaluations F lower percent kpi_rules model in
        company_mongodb records (evaluate_company_poc_rules F lower records) evaluations
          (build_company_kpi_alerts F evaluations) model.rules fallback_reason

    abbrev failed : (reason : String) → Payload
    failed reason = simulator_fallback (String.◌++◌ "Company MongoDB read failed: " reason)

    abbrev after_direct : (limit : ℤ) → (reason : String) → Result String Model → Payload
    after_direct limit reason (err _) = failed reason
    after_direct limit reason (ok model) =
        payload_of limit
          (String.◌++◌
            "MCP client transport failed; direct read fallback used for local diagnostics: " reason)
          model

    -- The payload, with the reads that were made.
    abbrev after_read :
        Access → (limit : ℤ) → (first second : Read) → Result String Model → Payload × List Read
    after_read access limit first second (ok model) = (payload_of limit "" model, first ∷ [])
    after_read access limit first second (err reason) =
        if not (access.company_data_access_mode == "mcp")
        then (failed reason, first ∷ [])
        else (after_direct limit reason (access.load second), first ∷ second ∷ [])

    unfoldable pub get_company_operational_payload :
        Access → (limit : ℤ) → (proxy_actor : String) → Payload × List Read
    get_company_operational_payload access limit proxy_actor =
        let first = first_read limit proxy_actor in
        let second = second_read limit proxy_actor in
        let result = after_read access limit first second (access.load first) in
        if access.company_db_type == "mongodb"
        then result
        else (simulator_fallback "Company MongoDB URL is not configured.", [])

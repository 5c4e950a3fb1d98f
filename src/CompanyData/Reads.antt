-- ===== src/CompanyData/Reads.antt =====
-- When the company's payload comes from its data, and after which reads.
use iot_ops_agent.Prelude.{
  ℕ, String, ◌≡◌, ◌≢◌, refl, inl, inr, true, false, List, [], ◌∷◌, arith, eq_iff, ◌==◌, string_eq,
  Bool-cases,
}
use iot_ops_agent.Prelude.Int.{ℤ}
use iot_ops_agent.Prelude.Result.{ok, err, Result-cases}
use iot_ops_agent.PocRules.{Floats}
use iot_ops_agent.CompanyData.{Model, KpiRule}
use iot_ops_agent.CompanyData.Payloads.{
  Read, Access, first_read, second_read, Payload, simulator_fallback, payload_of,
  get_company_operational_payload,
}

module _ (F : Floats) (lower : String → String) (percent : ℕ → ℕ → F.Float)
    (kpi_rules : List (KpiRule F)) (access : Access) (limit : ℤ) where
  -- How a payload may come about: from a model that was read at once, from one that was read
  -- directly after the read through MCP failed, or else from the simulator.
  pub data Origin : Payload F × List Read → Type 0 where
    not_configured :
        (reason : String)
        → access.company_db_type ≢ "mongodb"
        → Origin (simulator_fallback reason, [])
    read_at_once :
        (first : Read) (model : Model)
        → access.load first ≡ ok model
        → first.force_direct ≡ false
        → Origin (payload_of F lower percent kpi_rules limit "" model, first ∷ [])
    read_failed :
        (first : Read) (failure reason : String)
        → access.load first ≡ err failure
        → access.company_data_access_mode ≢ "mcp"
        → Origin (simulator_fallback reason, first ∷ [])
    read_directly :
        (first second : Read) (model : Model) (failure reason : String)
        → access.load first ≡ err failure
        → access.company_data_access_mode ≡ "mcp"
        → access.load second ≡ ok model
        → second.force_direct ≡ true
        → Origin (payload_of F lower percent kpi_rules limit reason model, first ∷ second ∷ [])
    both_failed :
        (first second : Read) (failure again reason : String)
        → access.load first ≡ err failure
        → access.company_data_access_mode ≡ "mcp"
        → access.load second ≡ err again
        → second.force_direct ≡ true
        → Origin (simulator_fallback reason, first ∷ second ∷ [])

  -- The payload comes from a model that a read returned, and from the simulator if and only if no
  -- read did: there is one read, and a second one, which is direct, only after the first failed while
  -- the data are accessed through MCP; there is none where the database is not MongoDB.
  pub get_company_operational_payload-Origin :
      (proxy_actor : String)
      → Origin (get_company_operational_payload F lower percent kpi_rules access limit proxy_actor)
  unfolding get_company_operational_payload
  get_company_operational_payload-Origin proxy_actor =
      elim (Bool-cases (access.company_db_type == "mongodb")) [
        | inr other ↦
            rw other
              (not_configured _ (λ e. ground (arith, eq_iff access.company_db_type "mongodb")))
        | inl mongodb ↦
            rw mongodb (elim (Result-cases (access.load (first_read limit proxy_actor))) [
              | inl (model, e) ↦ rw e (read_at_once _ model e refl)
              | inr (failure, e) ↦
                  rw e (elim (Bool-cases (access.company_data_access_mode == "mcp")) [
                    | inr direct ↦ rw direct (
                        read_failed _ failure _ e
                          (λ m. ground (arith, eq_iff access.company_data_access_mode "mcp")))
                    | inl mcp ↦
                        rw mcp (elim (Result-cases (access.load (second_read limit proxy_actor))) [
                          | inl (model, e') ↦ rw e' (
                              read_directly _ _ model failure _ e
                                ((eq_iff access.company_data_access_mode "mcp").0 mcp) e' refl)
                          | inr (again, e') ↦ rw e' (
                              both_failed _ _ failure again _ e
                                ((eq_iff access.company_data_access_mode "mcp").0 mcp) e' refl)
                        ])
                  ])
            ])
      ]

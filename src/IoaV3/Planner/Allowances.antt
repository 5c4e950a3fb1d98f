-- ===== src/IoaV3/Planner/Allowances.antt =====
-- What a request adds to the parameters of a workflow is allowed by its tool.
use iot_ops_agent.Prelude.{
  String, ◌≡◌, refl, sym, ap, inl, inr, true, none, some, List, [], ◌∷◌, All, Bool-cases, ◌==◌,
  string_eq, eq_iff,
}
use iot_ops_agent.IoaV3.Catalog.{
  ToolSpec, GrafanaTool, Params, correlation_params, contains, get_tool_spec, get_company_tool,
}
use iot_ops_agent.IoaV3.Execution.{onem2m_tools}
use iot_ops_agent.IoaV3.Planner.Parameters.{PlannerRules, enrich_workflow_params}
use iot_ops_agent.IoaV3.Planner.Keys.{
  Within, identifier_names, set_found-Within, with_identifiers-Within, with_device-Within,
  Within-names,
}

same-allowed : (t spec : ToolSpec) → some t ≡ some spec → t.allowed_params ≡ spec.allowed_params
same-allowed t spec k = ap (λ o. elim o [ none ↦ t.allowed_params | some s ↦ s.allowed_params ]) k

-- A tool whose specification, whatever the tools of Grafana are, allows the names.
Allows : List String → String → Type 0
Allows names tool =
    (tools : List GrafanaTool) (spec : ToolSpec)
    → get_tool_spec tools tool ≡ some spec
    → All (λ name. contains spec.allowed_params name ≡ true) names

Allows-tool :
    (names : List String) (name tool : String) → name ≡ tool → Allows names name → Allows names tool
Allows-tool names name tool same h = rw same at h

-- The tool is one of those named.
Allows-contains :
    (names candidates : List String) (tool : String)
    → All (Allows names) candidates
    → contains candidates tool ≡ true
    → Allows names tool
Allows-contains names [] tool h k = absurd (cc k)
Allows-contains names (c ∷ candidates) tool (a, h) k = elim (Bool-cases (c == tool)) [
  | inl e ↦ Allows-tool names c tool ((eq_iff c tool).0 e) a
  | inr e ↦ Allows-contains names candidates tool h (rw e at k)
]

company-Allows :
    (names : List String) (tool : String) (t : ToolSpec)
    → get_company_tool tool ≡ some t
    → All (λ name. contains t.allowed_params name ≡ true) names
    → Allows names tool
unfolding Allows get_tool_spec
company-Allows names tool t k h tools spec e =
    let same : some t ≡ some spec = rw k at e in rw (← same-allowed t spec same) h

-- What the six OneM2M tools allow.
onem2m-Allows : All (Allows identifier_names) onem2m_tools
unfolding get_company_tool
onem2m-Allows =
    let n : All (λ name. contains ("device_id" ∷ correlation_params) name ≡ true) identifier_names =
      (refl, (refl, (refl, (refl, (refl, tt))))) in
    let collection : All
        (λ name. contains ("device_id" ∷ "collection" ∷ correlation_params) name ≡ true)
        identifier_names =
      (refl, (refl, (refl, (refl, (refl, tt))))) in
    let cin : All (λ name. contains ("device_id" ∷ "cin_type" ∷ correlation_params) name ≡ true)
        identifier_names =
      (refl, (refl, (refl, (refl, (refl, tt))))) in
    (
      company-Allows identifier_names "get_company_onem2m_device_resources" _ refl n,
      (
        company-Allows identifier_names "get_company_onem2m_command_flow" _ refl n,
        (
          company-Allows identifier_names "get_company_onem2m_telemetry_flow" _ refl n,
          (
            company-Allows identifier_names "query_company_onem2m_collection" _ refl collection,
            (
              company-Allows identifier_names "query_device_online_status" _ refl n,
              (company-Allows identifier_names "query_onem2m_cin_records" _ refl cin, tt),
            ),
          ),
        ),
      ),
    )

collection-Allows : Allows ("collection" ∷ identifier_names) "query_company_onem2m_collection"
unfolding get_company_tool
collection-Allows =
    company-Allows _ "query_company_onem2m_collection" _ refl
      (refl, (refl, (refl, (refl, (refl, (refl, tt))))))

cin-Allows : Allows ("cin_type" ∷ identifier_names) "query_onem2m_cin_records"
unfolding get_company_tool
cin-Allows =
    company-Allows _ "query_onem2m_cin_records" _ refl
      (refl, (refl, (refl, (refl, (refl, (refl, tt))))))

drilldown-Allows : Allows ("device_id" ∷ []) "get_company_device_drilldown"
unfolding get_company_tool
drilldown-Allows = company-Allows _ "get_company_device_drilldown" _ refl (refl, tt)

-- What the request adds is allowed by the tool, and what is allowed stays.
pub enrich_workflow_params-Within :
    (p : PlannerRules) (tool user_input : String) (spec : ToolSpec) (params : Params)
    → get_tool_spec p.tools tool ≡ some spec
    → Within identifier_names (p.extract_onem2m_identifiers user_input)
    → Within spec.allowed_params params
    → Within spec.allowed_params (enrich_workflow_params p tool params user_input)
unfolding enrich_workflow_params Allows
enrich_workflow_params-Within p tool user_input spec params e ids h =
    let found = p.extract_onem2m_identifiers user_input in
    let kept = with_identifiers-Within spec.allowed_params p found params in
    let named = Within-names spec.allowed_params identifier_names found in
    elim (Bool-cases (tool == "query_company_onem2m_collection")) [
      | inl t ↦
          let n =
            Allows-tool ("collection" ∷ identifier_names) _ tool
              (sym ((eq_iff tool "query_company_onem2m_collection").0 t)) collection-Allows p.tools
              spec e in
          rw t (set_found-Within spec.allowed_params "collection" _ _ n.0 (kept (named n.1 ids) h))
      | inr t ↦ elim (Bool-cases (tool == "query_onem2m_cin_records")) [
        | inl c ↦
            let n =
              Allows-tool ("cin_type" ∷ identifier_names) _ tool
                (sym ((eq_iff tool "query_onem2m_cin_records").0 c)) cin-Allows p.tools spec e in
            rw (t, c)
              (set_found-Within spec.allowed_params "cin_type" _ _ n.0 (kept (named n.1 ids) h))
        | inr c ↦ elim (Bool-cases (contains onem2m_tools tool)) [
          | inl o ↦
              let n =
                Allows-contains identifier_names onem2m_tools tool onem2m-Allows o p.tools spec e in
              rw (t, c, o) (kept (named n ids) h)
          | inr o ↦ elim (Bool-cases (tool == "get_company_device_drilldown")) [
            | inl d ↦
                let n =
                  Allows-tool ("device_id" ∷ []) _ tool
                    (sym ((eq_iff tool "get_company_device_drilldown").0 d)) drilldown-Allows
                    p.tools spec e in
                rw (t, c, o, d) (with_device-Within spec.allowed_params p _ params n.0 h)
            | inr d ↦ rw (t, c, o, d) h
          ]
        ]
      ]
    ]

-- ===== src/CompanyData/Kpis.antt =====
-- What the KPI evaluations count, and when they raise an alert.
use iot_ops_agent.Prelude.{
  ℕ, ◌+◌, ◌-◌, String, ◌≡◌, refl, inl, inr, Bool, true, false, Option, some, List, [], ◌∷◌, length,
  select, All, All-append, arith, ◌==◌, nat_eq, string_eq, Bool-cases, ◌⊎◌,
}
use iot_ops_agent.PocRules.{Floats, Device}
use iot_ops_agent.CompanyData.{
  Bucket, connected, disconnected, unknown, not_evaluable, Model, of_devices, KpiRule, Evaluation,
  evaluate_threshold, build_company_kpi_alerts, kpi_alerts, is_critical, is_warning, status_bucket,
  is_connected, is_disconnected, rate, metric_of, evaluated, build_company_kpi_evaluations,
}

module _ (F : Floats) (lower : String → String) (percent : ℕ → ℕ → F.Float) where
  abbrev is_unknown : Device → Bool
  is_unknown d = elim (status_bucket F lower percent d.status) [
    | connected ↦ false
    | disconnected ↦ false
    | unknown ↦ true
  ]

  bucket-cases : (b : Bucket) → (b ≡ connected) ⊎ (b ≡ disconnected) ⊎ (b ≡ unknown)
  bucket-cases connected = inl refl
  bucket-cases disconnected = inr (inl refl)
  bucket-cases unknown = inr (inr refl)

  abbrev pub ups : List Device → ℕ
  ups ds = length (select (is_connected F lower percent) ds)

  abbrev pub downs : List Device → ℕ
  downs ds = length (select (is_disconnected F lower percent) ds)

  buckets-add : (ds : List Device) → ups ds + downs ds + length (select is_unknown ds) ≡ length ds
  buckets-add [] = omega arith
  buckets-add (d ∷ ds) = elim (bucket-cases (status_bucket F lower percent d.status)) [
    | inl e ↦
        let up : is_connected F lower percent d ≡ true = rw (is_connected, e) refl in
        let down : is_disconnected F lower percent d ≡ false = rw (is_disconnected, e) refl in
        let other : is_unknown d ≡ false = rw (is_unknown, e) refl in
        ground (arith, up, down, other, buckets-add ds)
    | inr (inl e) ↦
        let up : is_connected F lower percent d ≡ false = rw (is_connected, e) refl in
        let down : is_disconnected F lower percent d ≡ true = rw (is_disconnected, e) refl in
        let other : is_unknown d ≡ false = rw (is_unknown, e) refl in
        ground (arith, up, down, other, buckets-add ds)
    | inr (inr e) ↦
        let up : is_connected F lower percent d ≡ false = rw (is_connected, e) refl in
        let down : is_disconnected F lower percent d ≡ false = rw (is_disconnected, e) refl in
        let other : is_unknown d ≡ true = rw (is_unknown, e) refl in
        ground (arith, up, down, other, buckets-add ds)
  ]

  buckets-rest : (ds : List Device) → length ds - ups ds - downs ds ≡ length (select is_unknown ds)
  buckets-rest ds = omega (arith, buckets-add ds)

  -- The devices that the evidence of the connected rate counts as unknown are those whose status is
  -- neither of a connected nor of a disconnected device.
  pub unknown-counted :
      (model : Model)
      → (value : Option F.Float) × (metric_of F lower percent model "connected_devices_rate_percent"
          ≡ some (
            value,
            of_devices
                (ups model.devices)
                (downs model.devices)
                (length (select is_unknown model.devices))
                (ups model.devices + downs model.devices)
                (length model.devices),
          ))
  unfolding metric_of
  unknown-counted model = (
    rate F lower percent (ups model.devices) (ups model.devices + downs model.devices),
    rw (buckets-rest model.devices) refl,
  )

module _ (F : Floats) where
  -- Nothing was measured for the evaluation.
  abbrev Unmeasured : Evaluation F → Type 0
  Unmeasured e = e.status ≡ not_evaluable

  kpi_alerts-Unmeasured : (es : List (Evaluation F)) → All Unmeasured es → kpi_alerts F es ≡ []
  kpi_alerts-Unmeasured [] h = refl
  kpi_alerts-Unmeasured (e ∷ es) (h, hs) =
      let severe : is_critical F e.status ≡ false = rw h refl in
      let mild : is_warning F e.status ≡ false = rw h refl in
      rw (severe, mild) (kpi_alerts-Unmeasured es hs)

  module _ (lower : String → String) (percent : ℕ → ℕ → F.Float) where
    metric-Unmeasured :
        (model : Model) (rule : KpiRule F)
        → ups F lower percent model.devices + downs F lower percent model.devices ≡ 0
        → model.content_instance_count ≡ 0
        → All Unmeasured
            (evaluated F lower percent rule (metric_of F lower percent model rule.metric))
    unfolding metric_of evaluate_threshold
    metric-Unmeasured model rule d c =
        elim (Bool-cases (rule.metric == "connected_devices_rate_percent")) [
          | inl of_status ↦ rw (of_status, d) (refl, tt)
          | inr other ↦ elim (Bool-cases (rule.metric == "invalid_payload_rate_percent")) [
            | inl of_payload ↦ rw (other, of_payload, c) (refl, tt)
            | inr no_metric ↦ rw (other, no_metric) tt
          ]
        ]

    evaluations-Unmeasured :
        (kpi_rules : List (KpiRule F)) (model : Model)
        → ups F lower percent model.devices + downs F lower percent model.devices ≡ 0
        → model.content_instance_count ≡ 0
        → All Unmeasured (build_company_kpi_evaluations F lower percent kpi_rules model)
    unfolding build_company_kpi_evaluations
    evaluations-Unmeasured [] model d c = tt
    evaluations-Unmeasured (rule ∷ kpi_rules) model d c =
        let rest = evaluations-Unmeasured kpi_rules model d c in
        elim (Bool-cases (rule.implementation_status == "available_company_db")) [
          | inr other ↦ rw other rest
          | inl ours ↦ rw ours (All-append Unmeasured _ _ (metric-Unmeasured model rule d c) rest)
        ]

    -- Whatever the rules of the file are, no alert is raised from a model in which no device is known
    -- to be connected or disconnected and no content instance was read.
    pub no_evidence-no_alert :
        (kpi_rules : List (KpiRule F)) (model : Model)
        → ups F lower percent model.devices + downs F lower percent model.devices ≡ 0
        → model.content_instance_count ≡ 0
        → (build_company_kpi_alerts F
            (build_company_kpi_evaluations F lower percent kpi_rules model)).total_count
          ≡ 0
    unfolding build_company_kpi_alerts
    no_evidence-no_alert kpi_rules model d c =
        rw (kpi_alerts-Unmeasured _ (evaluations-Unmeasured kpi_rules model d c)) refl

-- ===== src/IoaV3/Planner/Bounds.antt =====
-- How many workflows a plan has.
use iot_ops_agent.Prelude.{
  ℕ, zero, suc, ◌≤◌, String, ◌≡◌, Bool, true, false, ◌||◌, inl, inr, Option, none, some, List, [],
  ◌∷◌, ◌++◌, map, arith, any, take, select, discard, length, length-take, length-select, Bool-cases,
}
use iot_ops_agent.MongoProxy.Documents.{
  Value, null, flag, number, text, array, document, Items, nil, item,
}
use iot_ops_agent.IoaV3.Catalog.{Workflow, contains}
use iot_ops_agent.IoaV3.Planner.Parameters.{PlannerRules}
use iot_ops_agent.IoaV3.Planner.Runbooks.{
  max_workflow_executions, ensure_runbook_required_workflows, ensure_device_drilldown_workflow,
  ensure_infrastructure_overview_workflows, ensure_k8s_resource_log_workflows, onem2m_plan,
  adapter_logs, is_onem2m, is_tool, or_http_api, cut_if, metric_runbook_tools, runbook_workflow,
}
use iot_ops_agent.IoaV3.Planner.{
  accepted_item, taken_or, normalized, ensure_workflows, normalize_planner_workflows,
  plan_workflows_deterministically, plan_workflows, Plan, fallback, parsed_plan, semantic_plan,
  primary_workflow, extra_workflow,
}

Fits : List Workflow → Type 0
Fits workflows = length workflows ≤ 5

IsFilled : List Workflow → Type 0
IsFilled workflows = 1 ≤ length workflows

take-IsFilled : (n : ℕ) (ws : List Workflow) → IsFilled ws → IsFilled (take (suc n) ws)
unfolding IsFilled
take-IsFilled n [] h = h
take-IsFilled n (w ∷ ws) h = omega arith

append-IsFilled : (ws : List Workflow) (w : Workflow) (vs : List Workflow) → IsFilled (ws ++ w ∷ vs)
unfolding IsFilled
append-IsFilled [] w vs = omega arith
append-IsFilled (v ∷ ws) w vs = omega arith

-- A selection is filled if an item passes a test that is stronger.
select-IsFilled :
    (q r : Workflow → Bool) (ws : List Workflow)
    → any q ws ≡ true
    → IsFilled (select (λ w. q w || r w) ws)
unfolding IsFilled
select-IsFilled q r [] h = absurd (cc h)
select-IsFilled q r (w ∷ ws) h = ground (arith, select-IsFilled q r ws)

take-Fits : (ws : List Workflow) → Fits (take max_workflow_executions ws)
unfolding Fits
take-Fits ws = length-take 5 ws

select-Fits : (q : Workflow → Bool) (ws : List Workflow) → Fits ws → Fits (select q ws)
unfolding Fits
select-Fits q ws h = omega (arith, h, length-select q ws)

nil-Fits : Fits []
unfolding Fits
nil-Fits = omega arith

cons-IsFilled : (w : Workflow) (ws : List Workflow) → IsFilled (w ∷ ws)
unfolding IsFilled
cons-IsFilled w ws = omega arith

cut_if-Fits : (b : Bool) (others ws : List Workflow) → Fits ws → Fits (cut_if b others ws)
unfolding cut_if
cut_if-Fits true others ws h = take-Fits others
cut_if-Fits false others ws h = h

cut_if-IsFilled :
    (b : Bool) (others ws : List Workflow)
    → IsFilled others
    → IsFilled ws
    → IsFilled (cut_if b others ws)
unfolding cut_if
cut_if-IsFilled true others ws k h = take-IsFilled 4 others k
cut_if-IsFilled false others ws k h = h

or_http_api-filled : (services : List String) → 1 ≤ length (or_http_api services)
or_http_api-filled [] = omega arith
or_http_api-filled (service ∷ services) = omega arith

map-IsFilled :
    (f : String → Workflow) (services : List String)
    → 1 ≤ length services
    → (vs : List Workflow) → IsFilled (vs ++ map f services)
map-IsFilled f [] h vs = absurd (omega (arith, h))
map-IsFilled f (service ∷ services) h vs = append-IsFilled vs (f service) (map f services)

taken_or-length :
    (n : ℕ) (o : Option Workflow) (skipped : List Workflow) (rest : String → List Workflow)
    → length skipped ≤ n
    → ((tool : String) → length (rest tool) ≤ n)
    → length (taken_or o skipped rest) ≤ suc n
taken_or-length n none skipped rest h k = omega (arith, h)
taken_or-length n (some w) skipped rest h k = omega (arith, k w.tool)

module _ (p : PlannerRules) (user_input : String) where
  onem2m_plan-Fits : (ws : List Workflow) → Fits ws → Fits (onem2m_plan p user_input ws)
  unfolding onem2m_plan
  onem2m_plan-Fits ws h = elim (Bool-cases (any is_onem2m ws)) [
    | inl e ↦ rw e (cut_if-Fits _ _ _ (select-Fits _ ws h))
    | inr e ↦ rw e h
  ]

  onem2m_plan-IsFilled : (ws : List Workflow) → IsFilled ws → IsFilled (onem2m_plan p user_input ws)
  unfolding onem2m_plan adapter_logs
  onem2m_plan-IsFilled ws h = elim (Bool-cases (any is_onem2m ws)) [
    | inl e ↦ rw e (
        cut_if-IsFilled _ _ _ (map-IsFilled _ (or_http_api _) (or_http_api-filled _) _)
          (select-IsFilled is_onem2m (is_tool "grafana_logs") ws e))
    | inr e ↦ rw e h
  ]

  runbook-Fits :
      (ws : List Workflow) → Fits ws → Fits (ensure_runbook_required_workflows p user_input ws)
  unfolding ensure_runbook_required_workflows
  runbook-Fits ws h =
      elim (Bool-cases (contains metric_runbook_tools (p.classify_tool user_input).0)) [
        | inl e ↦ rw e (
            take-Fits (
              runbook_workflow p user_input (p.classify_tool user_input)
              ∷ discard (λ w. is_tool (p.classify_tool user_input).0 w || is_onem2m w) ws))
        | inr e ↦ rw e (onem2m_plan-Fits _ (cut_if-Fits _ _ _ h))
      ]

  runbook-IsFilled :
      (ws : List Workflow)
      → IsFilled ws
      → IsFilled (ensure_runbook_required_workflows p user_input ws)
  unfolding ensure_runbook_required_workflows
  runbook-IsFilled ws h =
      elim (Bool-cases (contains metric_runbook_tools (p.classify_tool user_input).0)) [
        | inl e ↦ rw e (cons-IsFilled _ _)
        | inr e ↦ rw e (onem2m_plan-IsFilled _ (cut_if-IsFilled _ _ _ (cons-IsFilled _ _) h))
      ]

  ensure-Fits : (ws : List Workflow) → Fits ws → Fits (ensure_workflows p user_input ws)
  unfolding ensure_workflows ensure_device_drilldown_workflow
      ensure_infrastructure_overview_workflows ensure_k8s_resource_log_workflows
  ensure-Fits ws h = cut_if-Fits _ _ _ (cut_if-Fits _ _ _ (cut_if-Fits _ _ _ (runbook-Fits ws h)))

  ensure-IsFilled : (ws : List Workflow) → IsFilled ws → IsFilled (ensure_workflows p user_input ws)
  unfolding ensure_workflows ensure_device_drilldown_workflow
      ensure_infrastructure_overview_workflows ensure_k8s_resource_log_workflows
  ensure-IsFilled ws h = cut_if-IsFilled _ _ _ (append-IsFilled _ _ []) (
      cut_if-IsFilled _ _ _ (cons-IsFilled _ _)
        (cut_if-IsFilled _ _ _ (cons-IsFilled _ _) (runbook-IsFilled ws h)))

  normalized-length :
      (n : ℕ) (seen : List String) (items : Items)
      → length (normalized p user_input n seen items) ≤ n
  unfolding normalized
  normalized-length zero seen items = omega arith
  normalized-length (suc n) seen nil = omega arith
  normalized-length (suc n) seen (item v items) =
      let rest = normalized-length n in
      taken_or-length n (accepted_item p user_input seen v) _ _ (rest seen items)
        (λ tool. rest (tool ∷ seen) items)

  normalized-Fits :
      (items : Items) → Fits (normalized p user_input max_workflow_executions [] items)
  unfolding Fits
  normalized-Fits items = normalized-length 5 [] items

  normalize_planner_workflows-Fits : (v : Value) → Fits (normalize_planner_workflows p v user_input)
  unfolding normalize_planner_workflows
  normalize_planner_workflows-Fits (document fs) = ensure-Fits _ (normalized-Fits _)
  normalize_planner_workflows-Fits null = nil-Fits
  normalize_planner_workflows-Fits (flag b) = nil-Fits
  normalize_planner_workflows-Fits (number n) = nil-Fits
  normalize_planner_workflows-Fits (text s) = nil-Fits
  normalize_planner_workflows-Fits (array xs) = nil-Fits

  parsed_plan-Fits : (o : Option Value) → Fits (parsed_plan p user_input o)
  parsed_plan-Fits none = nil-Fits
  parsed_plan-Fits (some v) = normalize_planner_workflows-Fits v

  deterministic-Fits : Fits (plan_workflows_deterministically p user_input)
  unfolding plan_workflows_deterministically
  deterministic-Fits =
      let classified = p.classify_tool user_input in
      let extra = p.detect_additional_grafana_tools user_input classified.0 in
      ensure-Fits _ (take-Fits (primary_workflow p classified ∷ map (extra_workflow p) extra))

  deterministic-IsFilled : IsFilled (plan_workflows_deterministically p user_input)
  unfolding plan_workflows_deterministically
  deterministic-IsFilled = ensure-IsFilled _ (cons-IsFilled _ _)

  fallback-length :
      (plan : Plan)
      → Fits plan.0
      → IsFilled (fallback p user_input plan).0 × Fits (fallback p user_input plan).0
  fallback-length ([], usage) h = (deterministic-IsFilled, deterministic-Fits)
  fallback-length (w ∷ ws, usage) h = (cons-IsFilled w ws, h)

  semantic_plan-Fits : (enabled : Bool) → Fits (semantic_plan p user_input enabled).0
  semantic_plan-Fits true = parsed_plan-Fits (p.propose user_input).0
  semantic_plan-Fits false = nil-Fits

-- Whatever the model replies and whatever the keyword tables find, a plan has one to five workflows.
pub plan_workflows-length :
    (p : PlannerRules) (user_input : String)
    → (1 ≤ length (plan_workflows p user_input).0) × (length (plan_workflows p user_input).0 ≤ 5)
unfolding Fits IsFilled plan_workflows
plan_workflows-length p user_input =
    fallback-length p user_input (semantic_plan p user_input p.semantic_planner_enabled)
      (semantic_plan-Fits p user_input p.semantic_planner_enabled)

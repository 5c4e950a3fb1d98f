-- ===== src/IoaV3/Logs.antt =====
-- The log workflow that a Kubernetes request adds to a plan.
use iot_ops_agent.Prelude.{
  ℕ, zero, suc, min, String, ◌≡◌, ◌⊎◌, refl, inl, inr, true, false, Bool, Option, none, some, List,
  [], ◌∷◌, ◌++◌, any, arith, All, All-append, discard, take, Option-cases, string_eq, ◌==◌,
}
use iot_ops_agent.Prelude.Int.{pos}
use iot_ops_agent.MongoProxy.Documents.{
  Fields, null, number, text, array, document, nil, end, field,
}
use iot_ops_agent.IoaV3.Catalog.{GrafanaTool, Workflow, get_company_tool}
use iot_ops_agent.IoaV3.Execution.{TextRules, answers, loki_execution, execution_of}
use iot_ops_agent.IoaV3.Planner.Parameters.{PlannerRules}
use iot_ops_agent.IoaV3.Planner.Runbooks.{
  max_workflow_executions, k8s_log_workflow, is_tool, cut_if, ensure_k8s_resource_log_workflows,
}

-- Evidence without logs, of a request that names no service and no keyword.
abbrev pub no_logs : (hours_back : ℕ) → Fields
no_logs hours_back = field "source" (text "mcp_server") (
    field "mcp_tool" (text "loki_query_range") (
      field "level" (text "needs_target") (
        field "request"
          (document (
            field "service_name" null (
              field "contains" null (
                field "hours_back" (number (pos hours_back))
                  (field "limit" (number (pos 50)) end)))))
          (field "logs" (array nil) (
            field "message"
              (text
                "A concrete service name or search keyword is required before running a scoped Loki query.")
              end)))))

-- Six hours, or those that the request asks for, up to 72.
abbrev pub hours_of : Option ℕ → ℕ
hours_of none = 6
hours_of (some n) = min n 72

k8s_log_workflow-answers :
    (tools : List GrafanaTool) (rules : TextRules) (p : PlannerRules) (user_input : String)
    → execution_of tools rules (k8s_log_workflow p user_input)
      ≡ answers (no_logs (hours_of (p.k8s_hours_back user_input)))
unfolding execution_of loki_execution get_company_tool
k8s_log_workflow-answers tools rules p user_input =
    elim (Option-cases (p.k8s_hours_back user_input)) [ inl e ↦ rw e refl | inr (n, e) ↦ rw e refl ]

All-discard : (q : Workflow → Bool) (xs : List Workflow) → All (λ w. q w ≡ false) (discard q xs)
All-discard q [] = tt
All-discard q (x ∷ xs) = ground (arith, All-discard q xs)

All-take {κ} : (P : Workflow → Type κ) (n : ℕ) (xs : List Workflow) → All P xs → All P (take n xs)
All-take P zero xs h = tt
All-take P (suc n) [] h = tt
All-take P (suc n) (x ∷ xs) (first, h) = (first, All-take P n xs h)

All-weaken :
    (P Q : Workflow → Type 0) (xs : List Workflow)
    → ((w : Workflow) → P w → Q w)
    → All P xs
    → All Q xs
All-weaken P Q [] f h = tt
All-weaken P Q (x ∷ xs) f (first, h) = (f x first, All-weaken P Q xs f h)

-- Where a plan has a workflow for the Kubernetes resources, no log workflow that it has once a log
-- workflow was ensured makes a call, whatever the request and the tools are: each is answered by
-- evidence without logs, which names no service and no keyword, for six hours or for those that the
-- request asks for, up to 72.
pub ensure_k8s_resource_log_workflows-answers :
    (tools : List GrafanaTool) (rules : TextRules) (p : PlannerRules) (user_input : String)
    (workflows : List Workflow)
    → any (is_tool "grafana_k8s_resources") workflows ≡ true
    → All
        (λ w.
          ((w.tool == "grafana_logs") ≡ false)
          ⊎ (execution_of tools rules w
              ≡ answers (no_logs (hours_of (p.k8s_hours_back user_input)))))
        (ensure_k8s_resource_log_workflows p user_input workflows)
unfolding ensure_k8s_resource_log_workflows cut_if
ensure_k8s_resource_log_workflows-answers tools rules p user_input workflows asked =
    let Quiet : Workflow → Type 0 = λ w.
      ((w.tool == "grafana_logs") ≡ false)
      ⊎ (execution_of tools rules w ≡ answers (no_logs (hours_of (p.k8s_hours_back user_input)))) in
    let others = discard (is_tool "grafana_logs") workflows in
    rw asked (
      All-take Quiet max_workflow_executions (others ++ k8s_log_workflow p user_input ∷ []) (
        All-append Quiet others (k8s_log_workflow p user_input ∷ [])
          (All-weaken (λ w. is_tool "grafana_logs" w ≡ false) Quiet others (λ w h. inl h)
            (All-discard (is_tool "grafana_logs") workflows))
          (inr (k8s_log_workflow-answers tools rules p user_input), tt)))

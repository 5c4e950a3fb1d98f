-- ===== src/IoaV3/Runs.antt =====
-- What a streamed run of the agent may call, node by node along the loop of `run_stream`.
use iot_ops_agent.Prelude.{
  ◌≤◌, String, ◌≡◌, refl, inl, inr, Bool, true, false, none, some, List, [], ◌∷◌, ◌++◌, arith, All,
  length, string_eq, if◌then◌else◌,
}
use iot_ops_agent.Prelude.Result.{Result, ok, err, Result-cases}
use iot_ops_agent.LangGraphAgent.Graph.{Event, last_step}
use iot_ops_agent.IoaV3.Catalog.{Workflow}
use iot_ops_agent.IoaV3.Execution.{Call}
use iot_ops_agent.IoaV3.Outputs.{ToolOutput}
use iot_ops_agent.IoaV3.{
  Request, State, Services, Outcome, initial_state, request_is_valid, validate_request_node,
  select_workflow_node, authorize_workflow_node, execute_workflows, called, call_n8n_workflow_node,
  apply_kpi_rules_node, generate_answer_node, deny_request_node,
}
use iot_ops_agent.IoaV3.Stream.{
  Node, validate_request, select_workflow, authorize_workflow, call_n8n_workflow, apply_kpi_rules,
  perform, after_node, stream_nodes, run_stream, Streamed, after, denied,
}
use iot_ops_agent.IoaV3.Authorization.{
  IsAllowed, IsSafe, authorized_workflows-IsAllowed, authorized_workflows-length,
  execute_workflows-length, execute_workflows-Authorized,
}

module _ (e : Services) (request : Request) where
  Safe : Streamed → Type 0
  Safe r = IsSafe e request r.state.calls

  chosen-Safe :
      (allowed : Bool) (events : List Event) (r refused : Streamed)
      → (allowed ≡ true → Safe r)
      → Safe refused
      → Safe (after events (if allowed then r else refused))
  unfolding Safe
  chosen-Safe true events r refused k h = k refl
  chosen-Safe false events r refused k h = h

  after_node-Safe :
      (node : Node) (rest : State → Streamed) (out : Outcome)
      → IsSafe e request out.1.calls
      → (out.1.policy_allowed ≡ true → Safe (rest out.1))
      → Safe (after_node node rest out)
  unfolding Safe deny_request_node
  after_node-Safe node rest (some m, s) h k = h
  after_node-Safe node rest (none, s) h k =
      chosen-Safe s.policy_allowed (last_step s.steps) (rest s) (denied s) k h

  stream_answer-Safe : (s : State) → IsSafe e request s.calls → Safe (stream_nodes e [] s)
  unfolding Safe stream_nodes generate_answer_node
  stream_answer-Safe s h = elim (Result-cases (e.generate s)) [
    | inl (a, g) ↦ rw g h
    | inr (m, g) ↦ rw g h
  ]

  step-Safe :
      (node : Node) (nodes : List Node) (s : State)
      → IsSafe e request (perform e node s).1.calls
      → ((perform e node s).1.policy_allowed ≡ true
          → Safe (stream_nodes e nodes (perform e node s).1))
      → Safe (stream_nodes e (node ∷ nodes) s)
  unfolding stream_nodes
  step-Safe node nodes s h k = after_node-Safe node (stream_nodes e nodes) (perform e node s) h k

  kpi-Safe : (s : State) → IsSafe e request s.calls → Safe (stream_nodes e (apply_kpi_rules ∷ []) s)
  unfolding perform apply_kpi_rules_node
  kpi-Safe s h = step-Safe apply_kpi_rules [] s h (λ allowed. stream_answer-Safe _ h)

  -- The state keeps the request and has made no call.
  abbrev Fresh : State → Type 0
  Fresh s = (s.request ≡ request) × (s.calls ≡ []) × (s.max_tool_executions ≡ 5)

  abbrev Valid : Type 0
  Valid = request_is_valid request.user_input ≡ true

  none-IsSafe : (calls : List Call) → calls ≡ [] → IsSafe e request calls
  none-IsSafe calls h = rw h (tt, omega arith)

  called-calls :
      (s : State) (r : List Call × Result String (List ToolOutput))
      → (called s r).1.calls ≡ s.calls ++ r.0
  called-calls s (calls, ok outputs) = refl
  called-calls s (calls, err m) = refl

  call-IsSafe :
      (s : State)
      → s.calls ≡ []
      → Valid
      → length s.selected_workflows ≤ 5
      → All (IsAllowed e.planner.tools request) s.selected_workflows
      → IsSafe e request (perform e call_n8n_workflow s).1.calls
  unfolding perform call_n8n_workflow_node
  call-IsSafe s fresh v n allowed =
      let calls = execute_workflows e s.request.user_input s.selected_workflows in
      rw (called-calls s calls, fresh)
        (
          execute_workflows-Authorized e request v s.request.user_input s.selected_workflows
              allowed,
          omega (arith, n, execute_workflows-length e s.request.user_input s.selected_workflows),
        )

  call-Safe :
      (s : State)
      → s.calls ≡ []
      → Valid
      → length s.selected_workflows ≤ 5
      → All (IsAllowed e.planner.tools request) s.selected_workflows
      → Safe (stream_nodes e (call_n8n_workflow ∷ apply_kpi_rules ∷ []) s)
  call-Safe s fresh v n allowed =
      let h = call-IsSafe s fresh v n allowed in
      step-Safe call_n8n_workflow _ s h (λ _. kpi-Safe _ h)

  same-IsAllowed :
      (other : Request) (ws : List Workflow)
      → other ≡ request
      → All (IsAllowed e.planner.tools other) ws
      → All (IsAllowed e.planner.tools request) ws
  same-IsAllowed other ws same h = rw same at h

  authorize-Safe :
      (s : State)
      → Fresh s
      → Valid
      → Safe (stream_nodes e (authorize_workflow ∷ call_n8n_workflow ∷ apply_kpi_rules ∷ []) s)
  unfolding perform authorize_workflow_node
  authorize-Safe s (same, fresh, budget) v =
      let tools = e.planner.tools in
      let allowed = authorized_workflows-IsAllowed tools s in
      step-Safe authorize_workflow _ s (none-IsSafe s.calls fresh) (λ _.
        call-Safe _ fresh v (omega (arith, budget, authorized_workflows-length tools s))
          (same-IsAllowed s.request _ same allowed))

  select-Safe :
      (s : State)
      → Fresh s
      → Valid
      → Safe (
          stream_nodes e
            (select_workflow ∷ authorize_workflow ∷ call_n8n_workflow ∷ apply_kpi_rules ∷ [])
            s)
  unfolding perform select_workflow_node
  select-Safe s h v =
      step-Safe select_workflow _ s (none-IsSafe s.calls h.1) (λ _. authorize-Safe _ h v)

  validate-Safe :
      (s : State)
      → Fresh s
      → Safe (
          stream_nodes e
            (validate_request ∷ select_workflow ∷ authorize_workflow ∷ call_n8n_workflow
              ∷ apply_kpi_rules ∷ [])
            s)
  unfolding perform validate_request_node
  validate-Safe s h =
      step-Safe validate_request _ s (none-IsSafe s.calls h.1)
        (λ allowed. select-Safe _ h (rw h.0 at allowed))

-- Whatever the planner proposes, whatever the keyword tables find and whatever the services answer
-- or raise, a streamed run makes at most five calls, each for a workflow of a known tool with
-- parameters that the tool allows; none for a request that is empty or too long, and none of the
-- company's data unless that is the selected source and the active one.
pub run_stream-IsSafe :
    (e : Services) (request : Request) → IsSafe e request (run_stream e request).state.calls
unfolding run_stream Safe initial_state
run_stream-IsSafe e request = validate-Safe e request (initial_state request) (refl, refl, refl)

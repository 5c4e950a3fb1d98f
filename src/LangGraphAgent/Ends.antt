-- ===== src/LangGraphAgent/Ends.antt =====
-- How a run of the graph ends, by induction on its steps.
use Prim.Native.String.{◌++◌}
use iot_ops_agent.Prelude.{
  ℕ, zero, suc, String, ◌≡◌, ◌⊎◌, refl, inl, inr, Bool, true, false, Option, none, some, ap, ◌∙◌,
  arith, Bool-cases, ◌&&◌, string_eq,
}
use iot_ops_agent.Prelude.Result.{Result, ok, err, Result-cases}
use iot_ops_agent.MongoProxy.Documents.{Value}
use iot_ops_agent.LangGraphAgent.Registry.{ToolSpec, get_tool}
use iot_ops_agent.LangGraphAgent.{
  Call, Answer, Services, State, initial_state, request_policy, tool_policy, decided,
  validate_request_node, select_tool_node, authorize_tool_node, Execution, reads, answers,
  not_executable, execution_of,
}
use iot_ops_agent.LangGraphAgent.Nodes.{
  Outcome, read, execute, fits, is_null, denial_reason, run_tool_node, validate_evidence_node,
  generate_answer_node, deny_request_node,
}
use iot_ops_agent.LangGraphAgent.Graph.{
  Node, validate_request, select_tool, authorize_tool, run_tool, validate_evidence, generate_answer,
  deny_request, finish, perform, next, invoke, run, continue, recursion_limit,
}
use iot_ops_agent.LangGraphAgent.Runs.{run-returns}
use iot_ops_agent.LangGraphAgent.Executable.{IsExecutable, execution_of-IsExecutable}

module _ (e : Services) (user_input : String) where
  -- The model's answer to the request and the evidence.
  pub record IsAnswered (s : State) : Type 0 where
    pub answer : Answer
    pub asked : e.invoke user_input s.tool_output ≡ ok answer
    pub content : s.final_answer ≡ answer.content
    pub usage : s.token_usage ≡ answer.token_usage

  -- The refusal, with its reason.
  pub record IsDenied (s : State) : Type 0 where
    pub denied : s.policy_allowed ≡ false
    pub refusal :
        s.final_answer
        ≡ "The request was not executed because it did not satisfy the operational policy ("
          ++ (denial_reason s ++ ").")

  -- A read of a tool raised the message, or the model did.
  abbrev pub IsRaised : String → Type 0
  IsRaised m = ((c : Call) × (e.answer c ≡ err m)) ⊎ ((v : Value) × (e.invoke user_input v ≡ err m))

  pub data Ends : Outcome → Type 0 where
    answered : (s : State) → IsAnswered s → Ends (none, s)
    denied : (s : State) → IsDenied s → Ends (none, s)
    raised : (m : String) (s : State) → IsRaised m → Ends (some m, s)

  abbrev Same : State → Type 0
  Same s = s.user_input ≡ user_input

  -- What holds when the graph comes to a node.
  Before : Node → State → Type 0
  Before validate_request s = Same s
  Before select_tool s = Same s
  Before authorize_tool s = Same s
  Before run_tool s =
      Same s
      × (s.policy_allowed ≡ true)
      × ((tool_policy e.rules s (get_tool s.selected_tool)).0 ≡ true)
  Before validate_evidence s = Same s
  Before generate_answer s = Same s
  Before deny_request s = s.policy_allowed ≡ false
  Before finish s = IsAnswered s ⊎ IsDenied s

  After : Node → Outcome → Type 0
  After node (none, s) = Before (next node s) s
  After node (some m, s) = IsRaised m

  validate_request-After :
      (s : State) → Same s → After validate_request (perform e validate_request s)
  unfolding Before After perform next validate_request_node
  validate_request-After s h = elim (Bool-cases (request_policy s.user_input s.data_source).0) [
    | inl allowed ↦ rw allowed h
    | inr denied_ ↦ rw denied_ refl
  ]

  select_tool-After : (s : State) → Same s → After select_tool (perform e select_tool s)
  unfolding Before After perform next select_tool_node
  select_tool-After s h = h

  policy-decided :
      (d : Bool × String) (s : State) (o : Option ToolSpec)
      → (tool_policy e.rules (decided 3 "authorize_tool" d s) o).0 ≡ (tool_policy e.rules s o).0
  unfolding tool_policy
  policy-decided d s none = refl
  policy-decided d s (some t) = refl

  authorize_tool-After : (s : State) → Same s → After authorize_tool (perform e authorize_tool s)
  unfolding Before After perform next authorize_tool_node tool_policy
  authorize_tool-After s h =
      let policy = tool_policy e.rules s (get_tool s.selected_tool) in
      elim (Bool-cases policy.0) [
        | inl allowed ↦
            rw allowed (h, refl, policy-decided policy s (get_tool s.selected_tool) ∙ allowed)
        | inr denied_ ↦ rw denied_ refl
      ]

  fits-policy :
      (s : State) (o : Option ToolSpec)
      → (tool_policy e.rules s o).0 ≡ true
      → (tool_spec : ToolSpec) × (o ≡ some tool_spec) × (fits s o ≡ true)
  unfolding tool_policy
  fits-policy s none h = absurd (cc h)
  fits-policy s (some t) h = (t, refl, ground arith)

  read-After :
      (s : State) (c : Call) (r : Result String Value)
      → Same s
      → e.answer c ≡ r
      → After run_tool (read c r s)
  unfolding Before After next
  read-After s c (ok v) h a = h
  read-After s c (err m) h a = inl (c, a)

  executed-After :
      (s : State) (x : Execution) → Same s → IsExecutable x → After run_tool (execute e x s)
  unfolding Before After next
  executed-After s (reads c) h x = read-After s c (e.answer c) h refl
  executed-After s (answers v) h x = h
  executed-After s not_executable h x = absurd x

  run_tool-After : (s : State) → Before run_tool s → After run_tool (perform e run_tool s)
  unfolding Before perform run_tool_node
  run_tool-After s (h, allowed, policy) =
      let (t, found, fit) = fits-policy s (get_tool s.selected_tool) policy in
      let granted : (s.policy_allowed && fits s (get_tool s.selected_tool)) ≡ true =
        ground (arith, fit) in
      rw granted (
        executed-After s (execution_of e.rules s.selected_tool s.user_input) h
          (execution_of-IsExecutable e.rules s.selected_tool s.user_input t found))

  validate_evidence-After :
      (s : State) → Same s → After validate_evidence (perform e validate_evidence s)
  unfolding Before After perform next validate_evidence_node
  validate_evidence-After s h = elim (Bool-cases (is_null s.tool_output)) [
    | inl missing ↦ rw missing refl
    | inr present ↦ rw present h
  ]

  generate_answer-After : (s : State) → Same s → After generate_answer (perform e generate_answer s)
  unfolding Before After perform next generate_answer_node
  generate_answer-After s h = elim (Result-cases (e.invoke s.user_input s.tool_output)) [
    | inl (a, answer_) ↦
        rw answer_
          (inl (record { answer = a; asked = rw h at answer_; content = refl; usage = refl }))
    | inr (m, failed) ↦ rw failed (inr (s.tool_output, rw h at failed))
  ]

  deny_request-After :
      (s : State) → s.policy_allowed ≡ false → After deny_request (perform e deny_request s)
  unfolding Before After perform next deny_request_node
  deny_request-After s h = inr (record { denied = h; refusal = refl })

  node-After : (node : Node) (s : State) → Before node s → After node (perform e node s)
  unfolding Before
  node-After validate_request s h = validate_request-After s h
  node-After select_tool s h = select_tool-After s h
  node-After authorize_tool s h = authorize_tool-After s h
  node-After run_tool s h = run_tool-After s h
  node-After validate_evidence s h = validate_evidence-After s h
  node-After generate_answer s h = generate_answer-After s h
  node-After deny_request s h = deny_request-After s h
  node-After finish s h = unfold After perform next in h

  finished-Ends : (s : State) → IsAnswered s ⊎ IsDenied s → Ends (none, s)
  finished-Ends s (inl h) = answered s h
  finished-Ends s (inr h) = denied s h

  returned : (o r : Outcome) → some o ≡ some r → Ends o → Ends r
  returned o r same h =
      let eq : o ≡ r = ap (λ x. elim x [ none ↦ o | some y ↦ y ]) same in rw (← eq) h

  continue-Ends :
      (n : ℕ) (node : Node) (o r : Outcome)
      → ((node' : Node) (s : State)
          → Before node' s
          → (r : Outcome) → invoke e n node' s ≡ some r
          → Ends r)
      → After node o
      → continue (λ s'. invoke e n (next node s') s') o ≡ some r
      → Ends r
  unfolding After
  continue-Ends n node (none, s) r rest h k = rest (next node s) s h r k
  continue-Ends n node (some m, s) r rest h k = returned (some m, s) r k (raised m s h)

  invoke-Ends :
      (n : ℕ) (node : Node) (s : State)
      → Before node s
      → (r : Outcome) → invoke e n node s ≡ some r
      → Ends r
  unfolding invoke
  invoke-Ends zero finish s h r k = returned (none, s) r k (finished-Ends s (unfold Before in h))
  invoke-Ends zero validate_request s h r k = absurd (cc k)
  invoke-Ends zero select_tool s h r k = absurd (cc k)
  invoke-Ends zero authorize_tool s h r k = absurd (cc k)
  invoke-Ends zero run_tool s h r k = absurd (cc k)
  invoke-Ends zero validate_evidence s h r k = absurd (cc k)
  invoke-Ends zero generate_answer s h r k = absurd (cc k)
  invoke-Ends zero deny_request s h r k = absurd (cc k)
  invoke-Ends (suc n) finish s h r k = returned (none, s) r k (finished-Ends s (unfold Before in h))
  invoke-Ends (suc n) validate_request s h r k =
      continue-Ends n validate_request _ r (invoke-Ends n) (node-After validate_request s h) k
  invoke-Ends (suc n) select_tool s h r k =
      continue-Ends n select_tool _ r (invoke-Ends n) (node-After select_tool s h) k
  invoke-Ends (suc n) authorize_tool s h r k =
      continue-Ends n authorize_tool _ r (invoke-Ends n) (node-After authorize_tool s h) k
  invoke-Ends (suc n) run_tool s h r k =
      continue-Ends n run_tool _ r (invoke-Ends n) (node-After run_tool s h) k
  invoke-Ends (suc n) validate_evidence s h r k =
      continue-Ends n validate_evidence _ r (invoke-Ends n) (node-After validate_evidence s h) k
  invoke-Ends (suc n) generate_answer s h r k =
      continue-Ends n generate_answer _ r (invoke-Ends n) (node-After generate_answer s h) k
  invoke-Ends (suc n) deny_request s h r k =
      continue-Ends n deny_request _ r (invoke-Ends n) (node-After deny_request s h) k

-- Every run ends within the limit of 25 steps: with the model's answer to the request and the
-- evidence, with a refusal that names the policy's reason, or with an error that a read of a tool or
-- the model raised.
pub run-Ends :
    (e : Services) (user_input data_source : String)
    → (r : Outcome) × (run e user_input data_source ≡ some r) × Ends e user_input r
unfolding run Before initial_state
run-Ends e user_input data_source =
    let (r, returns) = run-returns e user_input data_source in
    (
      r,
      returns,
      invoke-Ends e user_input recursion_limit validate_request
          (initial_state user_input data_source) refl r returns,
    )

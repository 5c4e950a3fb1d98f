-- ===== src/LangGraphAgent/Authorization.antt =====
-- A run of the graph makes one authorised read at most, by induction on the steps of the graph.
use iot_ops_agent.Prelude.{
  ℕ, zero, suc, String, ◌≡◌, ◌⊎◌, refl, inl, inr, Bool, true, false, Option, none, some, List, [],
  ◌∷◌, ap, ◌∙◌, arith, Bool-cases, Option-cases, is_some, ◌&&◌, string_eq, eq_iff,
}
use iot_ops_agent.Prelude.Text.{is_empty}
use iot_ops_agent.Prelude.Result.{Result, ok, err, Result-cases}
use iot_ops_agent.LangGraphAgent.Registry.{
  ToolSpec, TextRules, get_tool, extract_device_id, extract_company_device_identifier,
}
use iot_ops_agent.MongoProxy.Documents.{Value}
use iot_ops_agent.LangGraphAgent.{
  Call, Services, State, decided, initial_state, request_policy, tool_policy, validate_request_node,
  select_tool_node, authorize_tool_node, Execution, reads, answers, not_executable, execution_of,
}
use iot_ops_agent.LangGraphAgent.Nodes.{
  Outcome, read, execute, fits, is_null, run_tool_node, validate_evidence_node,
  generate_answer_node, deny_request_node,
}
use iot_ops_agent.LangGraphAgent.Graph.{
  Node, validate_request, select_tool, authorize_tool, run_tool, validate_evidence, generate_answer,
  deny_request, finish, perform, next, invoke, run, continue, recursion_limit,
}

request_policy-ok :
    (u d : String)
    → (request_policy u d).0 ≡ true
    → request_policy u d ≡ (true, "request_validated")
unfolding request_policy
request_policy-ok u d h = ground arith

tool_policy-ok :
    (rules : TextRules) (s : State) (o : Option ToolSpec)
    → (tool_policy rules s o).0 ≡ true
    → tool_policy rules s o ≡ (true, "tool_authorized")
unfolding tool_policy
tool_policy-ok rules s none h = absurd (cc h)
tool_policy-ok rules s (some t) h = ground arith

tool_policy-decided :
    (rules : TextRules) (n : ℕ) (id : String) (d : Bool × String) (s : State) (o : Option ToolSpec)
    → tool_policy rules (decided n id d s) o ≡ tool_policy rules s o
unfolding tool_policy
tool_policy-decided rules n id d s none = refl
tool_policy-decided rules n id d s (some t) = refl

-- A read that the policy of the workflow allows for this request.
pub record IsAuthorized (e : Services) (user_input data_source : String) (c : Call) : Type 0 where
  pub request : request_policy user_input data_source ≡ (true, "request_validated")
  pub tool_name : String
  pub tool_spec : ToolSpec
  pub registered : get_tool tool_name ≡ some tool_spec
  pub for_source : tool_spec.data_source ≡ data_source
  pub identified :
      tool_spec.requires_device_id ≡ true → is_some (extract_device_id user_input) ≡ true
  pub company_identified :
      tool_spec.requires_company_device_id ≡ true
      → is_empty (extract_company_device_identifier e.rules user_input) ≡ false
  pub made : execution_of e.rules tool_name user_input ≡ reads c

module _ (e : Services) (user_input data_source : String) where
  -- No read, or one that is authorised.
  abbrev pub IsSafe : List Call → Type 0
  IsSafe calls =
      (calls ≡ []) ⊎ ((c : Call) × (calls ≡ c ∷ []) × IsAuthorized e user_input data_source c)

  abbrev Fresh : State → Type 0
  Fresh s = (s.user_input ≡ user_input) × (s.data_source ≡ data_source) × (s.calls ≡ [])

  abbrev Valid : Type 0
  Valid = request_policy user_input data_source ≡ (true, "request_validated")

  -- What holds when the graph comes to a node.
  Before : Node → State → Type 0
  Before validate_request s = Fresh s
  Before select_tool s = Fresh s × Valid
  Before authorize_tool s = Fresh s × Valid
  Before run_tool s =
      Fresh s
      × Valid
      × (tool_policy e.rules s (get_tool s.selected_tool) ≡ (true, "tool_authorized"))
  Before validate_evidence s = IsSafe s.calls
  Before generate_answer s = IsSafe s.calls
  Before deny_request s = IsSafe s.calls
  Before finish s = IsSafe s.calls

  After : Node → Outcome → Type 0
  After node (none, s) = Before (next node s) s
  After node (some m, s) = IsSafe s.calls

  validate_request-After :
      (s : State) → Fresh s → After validate_request (perform e validate_request s)
  unfolding Before After perform next validate_request_node
  validate_request-After s (u, d, c) =
      elim (Bool-cases (request_policy s.user_input s.data_source).0) [
        | inl allowed ↦
            let valid = request_policy-ok s.user_input s.data_source allowed in
            rw allowed ((u, d, c), (rw (u, d) at valid))
        | inr denied ↦ rw denied (inl c)
      ]

  select_tool-After : (s : State) → Fresh s × Valid → After select_tool (perform e select_tool s)
  unfolding Before After perform next select_tool_node
  select_tool-After s h = h

  authorize_tool-After :
      (s : State) → Fresh s × Valid → After authorize_tool (perform e authorize_tool s)
  unfolding Before After perform next authorize_tool_node tool_policy
  authorize_tool-After s ((u, d, c), v) =
      let policy = tool_policy e.rules s (get_tool s.selected_tool) in
      elim (Bool-cases policy.0) [
        | inl allowed ↦ rw allowed (
          (u, d, c),
          v,
          tool_policy-decided e.rules 3 "authorize_tool" policy s (get_tool s.selected_tool)
              ∙ tool_policy-ok e.rules s (get_tool s.selected_tool) allowed,
        )
        | inr denied ↦ rw denied (inl c)
      ]

  authorized :
      (s : State) (c : Call)
      → Before run_tool s
      → execution_of e.rules s.selected_tool s.user_input ≡ reads c
      → IsAuthorized e user_input data_source c
  unfolding Before tool_policy
  authorized s c ((u, d, _), v, p) m = elim (Option-cases (get_tool s.selected_tool)) [
    | inl missing ↦ absurd (cc (ap (λ x. x.0) (rw missing at p)))
    | inr (t, found) ↦
        let allowed : (tool_policy e.rules s (some t)).0 ≡ true = ap (λ x. x.0) (rw found at p) in
        record {
          request = v;
          tool_name = s.selected_tool;
          tool_spec = t;
          registered = found;
          for_source = ground (arith, eq_iff t.data_source s.data_source);
          identified = λ r. rw (← u) (ground arith);
          company_identified = λ r. rw (← u) (ground arith);
          made = rw (← u) m;
        }
  ]

  read-After :
      (s : State) (c : Call) (r : Result String Value)
      → Fresh s
      → IsAuthorized e user_input data_source c
      → After run_tool (read c r s)
  unfolding After Before next
  read-After s c (ok v) (u, d, k) h = inr (c, rw k, h)
  read-After s c (err m) (u, d, k) h = inr (c, rw k, h)

  executed-After :
      (s : State) (x : Execution)
      → Before run_tool s
      → execution_of e.rules s.selected_tool s.user_input ≡ x
      → After run_tool (execute e x s)
  unfolding After Before next
  executed-After s (reads c) h m = read-After s c (e.answer c) h.0 (authorized s c h m)
  executed-After s (answers v) h m = inl h.0.2
  executed-After s not_executable h m = inl h.0.2

  run_tool-After : (s : State) → Before run_tool s → After run_tool (perform e run_tool s)
  unfolding Before After perform next run_tool_node
  run_tool-After s h = elim (Bool-cases (s.policy_allowed && fits s (get_tool s.selected_tool))) [
    | inl allowed ↦
        rw allowed (executed-After s (execution_of e.rules s.selected_tool s.user_input) h refl)
    | inr denied ↦ rw denied (inl h.0.2)
  ]

  validate_evidence-After :
      (s : State) → IsSafe s.calls → After validate_evidence (perform e validate_evidence s)
  unfolding Before After perform next validate_evidence_node
  validate_evidence-After s h = elim (Bool-cases (is_null s.tool_output)) [
    | inl missing ↦ rw missing h
    | inr present ↦ rw present h
  ]

  generate_answer-After :
      (s : State) → IsSafe s.calls → After generate_answer (perform e generate_answer s)
  unfolding Before After perform next generate_answer_node
  generate_answer-After s h = elim (Result-cases (e.invoke s.user_input s.tool_output)) [
    | inl (a, answer) ↦ rw answer h
    | inr (m, raised) ↦ rw raised h
  ]

  node-After : (node : Node) (s : State) → Before node s → After node (perform e node s)
  unfolding Before
  node-After validate_request s h = validate_request-After s h
  node-After select_tool s h = select_tool-After s h
  node-After authorize_tool s h = authorize_tool-After s h
  node-After run_tool s h = run_tool-After s h
  node-After validate_evidence s h = validate_evidence-After s h
  node-After generate_answer s h = generate_answer-After s h
  node-After deny_request s h = unfold After perform next deny_request_node in h
  node-After finish s h = unfold After perform next in h

  finished : (s : State) (r : Outcome) → IsSafe s.calls → some (none, s) ≡ some r → IsSafe r.1.calls
  finished s r h k =
      let same : (none, s) ≡ r = ap (λ o. elim o [ none ↦ (none, s) | some x ↦ x ]) k in
      rw (← same) h

  continue-IsSafe :
      (n : ℕ) (node : Node) (out r : Outcome)
      → ((node' : Node) (s : State)
          → Before node' s
          → (r : Outcome) → invoke e n node' s ≡ some r
          → IsSafe r.1.calls)
      → After node out
      → continue (λ s'. invoke e n (next node s') s') out ≡ some r
      → IsSafe r.1.calls
  unfolding After
  continue-IsSafe n node (none, s) r rest h k = rest (next node s) s h r k
  continue-IsSafe n node (some m, s) r rest h k =
      let same : (some m, s) ≡ r = ap (λ o. elim o [ none ↦ (some m, s) | some x ↦ x ]) k in
      rw (← same) h

  invoke-IsSafe :
      (n : ℕ) (node : Node) (s : State)
      → Before node s
      → (r : Outcome) → invoke e n node s ≡ some r
      → IsSafe r.1.calls
  unfolding invoke
  invoke-IsSafe zero finish s h r k = finished s r (unfold Before in h) k
  invoke-IsSafe zero validate_request s h r k = absurd (cc k)
  invoke-IsSafe zero select_tool s h r k = absurd (cc k)
  invoke-IsSafe zero authorize_tool s h r k = absurd (cc k)
  invoke-IsSafe zero run_tool s h r k = absurd (cc k)
  invoke-IsSafe zero validate_evidence s h r k = absurd (cc k)
  invoke-IsSafe zero generate_answer s h r k = absurd (cc k)
  invoke-IsSafe zero deny_request s h r k = absurd (cc k)
  invoke-IsSafe (suc n) finish s h r k = finished s r (unfold Before in h) k
  invoke-IsSafe (suc n) validate_request s h r k =
      continue-IsSafe n validate_request _ r (invoke-IsSafe n) (node-After validate_request s h) k
  invoke-IsSafe (suc n) select_tool s h r k =
      continue-IsSafe n select_tool _ r (invoke-IsSafe n) (node-After select_tool s h) k
  invoke-IsSafe (suc n) authorize_tool s h r k =
      continue-IsSafe n authorize_tool _ r (invoke-IsSafe n) (node-After authorize_tool s h) k
  invoke-IsSafe (suc n) run_tool s h r k =
      continue-IsSafe n run_tool _ r (invoke-IsSafe n) (node-After run_tool s h) k
  invoke-IsSafe (suc n) validate_evidence s h r k =
      continue-IsSafe n validate_evidence _ r (invoke-IsSafe n) (node-After validate_evidence s h) k
  invoke-IsSafe (suc n) generate_answer s h r k =
      continue-IsSafe n generate_answer _ r (invoke-IsSafe n) (node-After generate_answer s h) k
  invoke-IsSafe (suc n) deny_request s h r k =
      continue-IsSafe n deny_request _ r (invoke-IsSafe n) (node-After deny_request s h) k

-- Whatever the request is and whatever the services answer or raise, a run makes no read of data, or
-- one: by a registered tool of the requested source, for a valid request that names the device that
-- the tool needs.
pub run-IsSafe :
    (e : Services) (user_input data_source : String) (r : Outcome)
    → run e user_input data_source ≡ some r
    → IsSafe e user_input data_source r.1.calls
unfolding run Before initial_state
run-IsSafe e user_input data_source r k =
    invoke-IsSafe e user_input data_source recursion_limit validate_request
      (initial_state user_input data_source) (refl, refl, refl) r k

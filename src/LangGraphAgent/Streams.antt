-- ===== src/LangGraphAgent/Streams.antt =====
-- The streamed run and the run of the graph agree.
use iot_ops_agent.Prelude.{
  ℕ, zero, suc, String, ◌≡◌, ◌⊎◌, refl, sym, inl, inr, Bool, true, false, Option, none, some, List,
  [], ◌∷◌, ◌++◌, Bool-cases, ◌&&◌, if◌then◌else◌,
}
use iot_ops_agent.Prelude.Result.{ok, Result-cases}
use iot_ops_agent.MongoProxy.Documents.{Value, null}
use iot_ops_agent.LangGraphAgent.Registry.{get_tool}
use iot_ops_agent.LangGraphAgent.{
  Services, State, Step, initial_state, request_policy, tool_policy, validate_request_node,
  select_tool_node, authorize_tool_node, Execution, reads, answers, not_executable, execution_of,
}
use iot_ops_agent.LangGraphAgent.Nodes.{
  Outcome, answered, execute, fits, is_null, run_tool_node, validate_evidence_node,
  generate_answer_node, deny_request_node,
}
use iot_ops_agent.LangGraphAgent.Graph.{
  Node, validate_request, select_tool, authorize_tool, run_tool, validate_evidence, generate_answer,
  deny_request, finish, perform, next, invoke, run, continue, recursion_limit, Event, thought,
  observation, answer_observation, final, last_step, Streamed, after, denied, after_node,
  stream_nodes, run_stream,
}

-- The answer that the first `final` event carries.
abbrev pub final_of : List Event → Option (String × Value)
final_of [] = none
final_of (thought n action ∷ rest) = final_of rest
final_of (observation step ∷ rest) = final_of rest
final_of (answer_observation usage ∷ rest) = final_of rest
final_of (final answer usage ∷ rest) = some (answer, usage)

-- The same error or none, the same reads, and, with no error, the answer and usage of the state.
abbrev pub Matches : Option Outcome → Streamed → Type 0
Matches none r = ⊥
Matches (some (error, s)) r =
    (r.raised ≡ error)
    × (r.state.calls ≡ s.calls)
    × (error ≡ none → final_of r.events ≡ some (s.final_answer, s.token_usage))

final_of-last_step :
    (steps : List Step) (events : List Event)
    → final_of (last_step steps ++ events) ≡ final_of events
final_of-last_step [] events = refl
final_of-last_step (step ∷ []) events = refl
final_of-last_step (step ∷ another ∷ steps) events = final_of-last_step (another ∷ steps) events

Matches-after :
    (out : Option Outcome) (steps : List Step) (r : Streamed)
    → Matches out r
    → Matches out (after (last_step steps) r)
Matches-after none steps r h = h
Matches-after (some (error, s)) steps r (a, b, c) =
    (a, b, λ k. rw (final_of-last_step steps r.events) (c k))

if_true : (b : Bool) (x y : Streamed) → b ≡ true → (if b then x else y) ≡ x
if_true b x y h = rw h

if_false : (b : Bool) (x y : Streamed) → b ≡ false → (if b then x else y) ≡ y
if_false b x y h = rw h

-- What holds when the workflow goes on to a node.
abbrev Ready : State → Type 0
Ready s = (s.policy_allowed ≡ true) × (s.token_usage ≡ null)

-- The node raised, or the policy sends the workflow to `node'` or to the denial.
Follows : Node → Node → Outcome → Type 0
Follows node node' (some m, s) = Unit
Follows node node' (none, s) =
    (s.token_usage ≡ null)
    × (((s.policy_allowed ≡ true) × (next node s ≡ node'))
        ⊎ ((s.policy_allowed ≡ false) × (next node s ≡ deny_request)))

module _ (e : Services) where
  validate_request-Follows :
      (s : State) → Ready s → Follows validate_request select_tool (perform e validate_request s)
  unfolding Follows perform next validate_request_node
  validate_request-Follows s (p, u) =
      elim (Bool-cases (request_policy s.user_input s.data_source).0) [
        | inl allowed ↦ (u, inl (allowed, rw allowed))
        | inr refused ↦ (u, inr (refused, rw refused))
      ]

  select_tool-Follows :
      (s : State) → Ready s → Follows select_tool authorize_tool (perform e select_tool s)
  unfolding Follows perform next select_tool_node
  select_tool-Follows s (p, u) = (u, inl (p, refl))

  authorize_tool-Follows :
      (s : State) → Ready s → Follows authorize_tool run_tool (perform e authorize_tool s)
  unfolding Follows perform next authorize_tool_node
  authorize_tool-Follows s (p, u) =
      elim (Bool-cases (tool_policy e.rules s (get_tool s.selected_tool)).0) [
        | inl allowed ↦ (u, inl (allowed, rw allowed))
        | inr refused ↦ (u, inr (refused, rw refused))
      ]

  executed-Follows :
      (s : State) (x : Execution) → Ready s → Follows run_tool validate_evidence (execute e x s)
  unfolding Follows next
  executed-Follows s (reads c) (p, u) = elim (Result-cases (e.answer c)) [
    | inl (v, answer) ↦ rw answer (u, inl (p, refl))
    | inr (m, raised) ↦ rw raised tt
  ]
  executed-Follows s (answers v) (p, u) = (u, inl (p, refl))
  executed-Follows s not_executable h = tt

  run_tool-Follows :
      (s : State) → Ready s → Follows run_tool validate_evidence (perform e run_tool s)
  unfolding perform run_tool_node Follows
  run_tool-Follows s h = elim (Bool-cases (s.policy_allowed && fits s (get_tool s.selected_tool))) [
    | inl allowed ↦
        rw allowed (executed-Follows s (execution_of e.rules s.selected_tool s.user_input) h)
    | inr refused ↦ rw refused tt
  ]

  validate_evidence-Follows :
      (s : State)
      → Ready s
      → Follows validate_evidence generate_answer (perform e validate_evidence s)
  unfolding Follows perform next validate_evidence_node
  validate_evidence-Follows s (p, u) = elim (Bool-cases (is_null s.tool_output)) [
    | inl missing ↦ rw missing (u, inr (refl, refl))
    | inr present ↦ rw present (u, inl (refl, refl))
  ]

  invoke-finish : (n : ℕ) (s : State) → invoke e n finish s ≡ some (none, s)
  unfolding invoke
  invoke-finish zero s = refl
  invoke-finish (suc n) s = refl

  -- One step of the graph.
  invoke_suc :
      (n : ℕ) (node : Node) (s : State)
      → invoke e (suc n) node s ≡ continue (λ s'. invoke e n (next node s') s') (perform e node s)
  unfolding invoke
  invoke_suc n validate_request s = refl
  invoke_suc n select_tool s = refl
  invoke_suc n authorize_tool s = refl
  invoke_suc n run_tool s = refl
  invoke_suc n validate_evidence s = refl
  invoke_suc n generate_answer s = refl
  invoke_suc n deny_request s = refl
  invoke_suc n finish s = unfold perform next in sym (invoke-finish n s)

  denied-Matches :
      (n : ℕ) (s : State)
      → s.token_usage ≡ null
      → Matches (invoke e (suc n) deny_request s) (denied s)
  unfolding perform next deny_request_node
  denied-Matches n s u =
      rw (invoke_suc n deny_request s, invoke-finish n (deny_request_node s))
        (refl, refl, λ _. rw u refl)

  after_node-Matches :
      (n : ℕ) (node node' : Node) (nodes : List Node) (out : Outcome)
      → Follows node node' out
      → ((s : State) → Ready s → Matches (invoke e (suc n) node' s) (stream_nodes e nodes s))
      → Matches
          (continue (λ s. invoke e (suc n) (next node s) s) out)
          (after_node (stream_nodes e nodes) out)
  unfolding Follows
  after_node-Matches n node node' nodes (some m, s) h rest = (refl, refl, λ k. absurd (cc k))
  after_node-Matches n node node' nodes (none, s) (u, inl (p, f)) rest =
      rw (f, if_true s.policy_allowed (stream_nodes e nodes s) (denied s) p)
        (Matches-after (invoke e (suc n) node' s) s.steps (stream_nodes e nodes s) (rest s (p, u)))
  after_node-Matches n node node' nodes (none, s) (u, inr (p, f)) rest =
      rw (f, if_false s.policy_allowed (stream_nodes e nodes s) (denied s) p)
        (Matches-after (invoke e (suc n) deny_request s) s.steps (denied s) (denied-Matches n s u))

  answer-Matches :
      (n : ℕ) (s : State)
      → Ready s
      → Matches (invoke e (suc n) generate_answer s) (stream_nodes e [] s)
  unfolding perform next generate_answer_node stream_nodes
  answer-Matches n s h = elim (Result-cases (e.invoke s.user_input s.tool_output)) [
    | inl (a, answer) ↦
        rw (invoke_suc n generate_answer s, answer)
          (rw (invoke-finish n (answered (ok a) s).1) (refl, refl, λ _. refl))
    | inr (m, raised) ↦ rw (invoke_suc n generate_answer s, raised) (refl, refl, λ k. absurd (cc k))
  ]

  step-Matches :
      (n : ℕ) (node node' : Node) (nodes : List Node)
      → ((s : State) → Ready s → Follows node node' (perform e node s))
      → ((s : State) → Ready s → Matches (invoke e (suc n) node' s) (stream_nodes e nodes s))
      → (s : State) → Ready s
      → Matches (invoke e (suc (suc n)) node s) (stream_nodes e (node ∷ nodes) s)
  unfolding stream_nodes
  step-Matches n node node' nodes follows rest s h =
      rw (invoke_suc (suc n) node s)
        (after_node-Matches n node node' nodes (perform e node s) (follows s h) rest)

  path-Matches :
      (s : State)
      → Ready s
      → Matches (invoke e recursion_limit validate_request s) (
          stream_nodes e
            (validate_request ∷ select_tool ∷ authorize_tool ∷ run_tool ∷ validate_evidence ∷ [])
            s)
  path-Matches = step-Matches 23 validate_request select_tool _ validate_request-Follows (
      step-Matches 22 select_tool authorize_tool _ select_tool-Follows (
        step-Matches 21 authorize_tool run_tool _ authorize_tool-Follows (
          step-Matches 20 run_tool validate_evidence _ run_tool-Follows (
            step-Matches 19 validate_evidence generate_answer _ validate_evidence-Follows
              (answer-Matches 19)))))

-- A streamed run ends like the run of the graph on the same request: both raise the same error or
-- none, make the same reads, and, with no error, the stream's `final` event carries the answer and
-- the token usage of the graph's run.
pub run_stream-Matches-run :
    (e : Services) (user_input data_source : String)
    → Matches (run e user_input data_source) (run_stream e user_input data_source)
unfolding run run_stream initial_state
run_stream-Matches-run e user_input data_source =
    path-Matches e (initial_state user_input data_source) (refl, refl)

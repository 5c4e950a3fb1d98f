-- ===== src/LangGraphAgent/Runs.antt =====
-- A run of the graph ends.
use iot_ops_agent.Prelude.{
  ℕ, zero, suc, ◌≤◌, String, ◌≡◌, refl, Option, none, some, arith, string_eq,
}
use iot_ops_agent.LangGraphAgent.{Services, State, initial_state}
use iot_ops_agent.LangGraphAgent.Nodes.{Outcome}
use iot_ops_agent.LangGraphAgent.Graph.{
  Node, validate_request, select_tool, authorize_tool, run_tool, validate_evidence, generate_answer,
  deny_request, finish, perform, next, invoke, run, continue, recursion_limit,
}

-- How many nodes lie ahead at most.
abbrev rank : Node → ℕ
rank finish = 0
rank deny_request = 1
rank generate_answer = 1
rank validate_evidence = 2
rank run_tool = 3
rank authorize_tool = 4
rank select_tool = 5
rank validate_request = 6

continue-returns :
    (rest : State → Option Outcome) (out : Outcome)
    → ((s : State) → (r : Outcome) × (rest s ≡ some r))
    → (r : Outcome) × (continue rest out ≡ some r)
continue-returns rest (none, s) h = h s
continue-returns rest (some m, s) h = ((some m, s), refl)

next-rank : (node : Node) (s : State) (n : ℕ) → rank node ≤ suc n → rank (next node s) ≤ n
unfolding next
next-rank validate_request s n h = ground arith
next-rank select_tool s n h = omega (arith, h)
next-rank authorize_tool s n h = ground arith
next-rank run_tool s n h = omega (arith, h)
next-rank validate_evidence s n h = ground arith
next-rank generate_answer s n h = omega arith
next-rank deny_request s n h = omega arith
next-rank finish s n h = omega arith

module _ (e : Services) where
  Returns : ℕ → Node → State → Type 0
  Returns n node s = (r : Outcome) × (invoke e n node s ≡ some r)

  advance :
      (n : ℕ) (node : Node) (s : State)
      → rank node ≤ suc n
      → ((node' : Node) (s' : State) → rank node' ≤ n → Returns n node' s')
      → (r : Outcome) × (continue (λ s'. invoke e n (next node s') s') (perform e node s) ≡ some r)
  unfolding Returns
  advance n node s h rest =
      continue-returns (λ s'. invoke e n (next node s') s') (perform e node s)
        (λ s'. rest (next node s') s' (next-rank node s' n h))

  invoke-Returns : (n : ℕ) (node : Node) (s : State) → rank node ≤ n → Returns n node s
  unfolding invoke Returns
  invoke-Returns zero finish s h = ((none, s), refl)
  invoke-Returns zero validate_request s h = absurd (omega (arith, h))
  invoke-Returns zero select_tool s h = absurd (omega (arith, h))
  invoke-Returns zero authorize_tool s h = absurd (omega (arith, h))
  invoke-Returns zero run_tool s h = absurd (omega (arith, h))
  invoke-Returns zero validate_evidence s h = absurd (omega (arith, h))
  invoke-Returns zero generate_answer s h = absurd (omega (arith, h))
  invoke-Returns zero deny_request s h = absurd (omega (arith, h))
  invoke-Returns (suc n) finish s h = ((none, s), refl)
  invoke-Returns (suc n) validate_request s h = advance n validate_request s h (invoke-Returns n)
  invoke-Returns (suc n) select_tool s h = advance n select_tool s h (invoke-Returns n)
  invoke-Returns (suc n) authorize_tool s h = advance n authorize_tool s h (invoke-Returns n)
  invoke-Returns (suc n) run_tool s h = advance n run_tool s h (invoke-Returns n)
  invoke-Returns (suc n) validate_evidence s h = advance n validate_evidence s h (invoke-Returns n)
  invoke-Returns (suc n) generate_answer s h = advance n generate_answer s h (invoke-Returns n)
  invoke-Returns (suc n) deny_request s h = advance n deny_request s h (invoke-Returns n)

-- Every run ends within the limit of 25 steps: with an answer, a denial or an error that a service
-- raised.
pub run-returns :
    (e : Services) (user_input data_source : String)
    → (r : Outcome) × (run e user_input data_source ≡ some r)
unfolding run Returns
run-returns e user_input data_source =
    invoke-Returns e recursion_limit validate_request (initial_state user_input data_source)
      (omega arith)

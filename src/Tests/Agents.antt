-- ===== src/Tests/Agents.antt =====
-- Requests to the LangGraph agent, with services that answer at once, and evidence that is cut.
use iot_ops_agent.Prelude.{String, ◌≡◌, refl, Option, none, some, [], ◌∷◌}
use iot_ops_agent.Prelude.Result.{ok}
use iot_ops_agent.MongoProxy.Documents.{Value, null, text, array, nil, item}
use iot_ops_agent.Prelude.Text.{strip}
use iot_ops_agent.Prelude.Text.Words.{holds_any}
use iot_ops_agent.Evidence.{sanitize_evidence, sanitize}
use iot_ops_agent.Evidence.Bounds.{IsSmall, sanitize_evidence-IsSmall}
use iot_ops_agent.LangGraphAgent.Registry.{
  TextRules, get_tool, extract_device_id, extract_company_device_identifier, choose,
  classify_intent,
}
use iot_ops_agent.LangGraphAgent.{
  Services, initial_state, request_policy, tool_policy, execution_of,
  get_company_disconnected_context, validate_request_node, select_tool_node, authorize_tool_node,
}
use iot_ops_agent.LangGraphAgent.Nodes.{
  Outcome, run_tool_node, validate_evidence_node, generate_answer_node, deny_request_node,
}
use iot_ops_agent.LangGraphAgent.Graph.{perform, next, invoke, run, run_stream}
use iot_ops_agent.LangGraphAgent.Ends.{Ends, run-Ends}
use iot_ops_agent.LangGraphAgent.Authorization.{IsSafe, run-IsSafe}
use iot_ops_agent.LangGraphAgent.Streams.{Matches, run_stream-Matches-run}

abbrev rules : TextRules
rules = record { lower = λ s. s; last_number = λ s. none }

abbrev services : Services
services = record {
  rules = rules;
  answer = λ c. ok (text "three devices");
  invoke = λ u v. ok (record { content = "All is well."; token_usage = null });
}

abbrev outcome_of : Option Outcome → Outcome
outcome_of none = (none, initial_state "" "")
outcome_of (some r) = r

abbrev offline : String
offline = "which devices are offline"

offline_calls :
    (outcome_of (run services offline "company")).1.calls ≡ get_company_disconnected_context ∷ []
unfolding run invoke perform next initial_state request_policy tool_policy execution_of get_tool
    extract_device_id extract_company_device_identifier choose classify_intent validate_request_node
    select_tool_node authorize_tool_node run_tool_node validate_evidence_node generate_answer_node
    deny_request_node sanitize_evidence sanitize strip holds_any
offline_calls = refl

run-IsSafe_example :
    IsSafe services offline "company" (outcome_of (run services offline "company")).1.calls
unfolding run invoke perform next initial_state request_policy tool_policy execution_of get_tool
    extract_device_id extract_company_device_identifier choose classify_intent validate_request_node
    select_tool_node authorize_tool_node run_tool_node validate_evidence_node generate_answer_node
    deny_request_node sanitize_evidence sanitize strip holds_any
run-IsSafe_example =
    run-IsSafe services offline "company" (outcome_of (run services offline "company")) refl

-- A blank request is denied.
empty_request : (outcome_of (run services " " "company")).1.policy_reason ≡ "empty_request"
unfolding run invoke perform next initial_state request_policy validate_request_node
    deny_request_node strip
empty_request = refl

run-Ends_example :
    (r : Outcome) × (run services offline "company" ≡ some r) × Ends services offline r
run-Ends_example = run-Ends services offline "company"

run_stream-Matches-run_example :
    Matches (run services offline "company") (run_stream services offline "company")
run_stream-Matches-run_example = run_stream-Matches-run services offline "company"

abbrev evidence : Value
evidence = array (item (text "S1 is offline") (item null nil))

sanitize_evidence-IsSmall_example : IsSmall 6 (sanitize_evidence evidence)
sanitize_evidence-IsSmall_example = sanitize_evidence-IsSmall evidence

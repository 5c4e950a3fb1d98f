-- ===== src/LangGraphAgent/Nodes.antt =====
-- The nodes of agents/langgraph_agent.py that run the tool, check its evidence, answer and deny. A
-- node that raises gives the message.
use Prim.Native.String.{◌++◌}
use iot_ops_agent.Prelude.{
  suc, ◌+◌, String, Bool, true, false, ◌&&◌, Option, none, some, [], ◌∷◌, length, ◌==◌, string_eq,
  if◌then◌else◌,
}
use mathlib.Core.List
use iot_ops_agent.Prelude.Text.{is_empty}
use iot_ops_agent.Prelude.Result.{Result, ok, err}
use iot_ops_agent.MongoProxy.Documents.{
  Value, null, flag, number, text, array, document, end, field,
}
use iot_ops_agent.Evidence.{sanitize_evidence}
use iot_ops_agent.LangGraphAgent.Registry.{ToolSpec, get_tool}
use iot_ops_agent.LangGraphAgent.{
  Call, Answer, Services, State, append_step, action_step, decided, Execution, reads, answers,
  not_executable, execution_of,
}

-- What a node raised, and the state that it left.
abbrev pub Outcome : Type 0
Outcome = Option String × State

abbrev pub is_null : Value → Bool
is_null null = true
is_null (flag b) = false
is_null (number n) = false
is_null (text s) = false
is_null (array xs) = false
is_null (document fs) = false

abbrev pub ran : Value → State → Outcome
ran v s = (
  none,
  record s {
    tool_output = sanitize_evidence v;
    execution_count = s.execution_count + 1;
    steps = append_step s (action_step 4 "run_tool" s.selected_tool);
  },
)

abbrev pub read : Call → Result String Value → State → Outcome
read c (ok v) s = ran v (record s { calls = List.◌++◌ s.calls (c ∷ []) })
read c (err e) s = (some e, record s { calls = List.◌++◌ s.calls (c ∷ []) })

abbrev pub execute : Services → Execution → State → Outcome
execute e (reads c) s = read c (e.answer c) s
execute e (answers v) s = ran v s
execute e not_executable s = (some ("Tool is not executable: " ++ s.selected_tool), s)

abbrev pub fits : State → Option ToolSpec → Bool
fits s none = false
fits s (some tool_spec) = tool_spec.data_source == s.data_source

unfoldable pub run_tool_node : Services → State → Outcome
run_tool_node e s =
    let done = execute e (execution_of e.rules s.selected_tool s.user_input) s in
    if s.policy_allowed && fits s (get_tool s.selected_tool)
    then done
    else (some "Tool execution reached without an approved policy decision.", s)

abbrev no_evidence : Value
no_evidence = document (field "error" (text "The authorized tool returned no evidence.") end)

unfoldable pub validate_evidence_node : State → State
validate_evidence_node s =
    if is_null s.tool_output
    then record (decided 5 "validate_evidence" (false, "missing_tool_evidence") s) {
      tool_output = no_evidence;
    }
    else record (decided 5 "validate_evidence" (true, "evidence_validated") s) {
      tool_output = sanitize_evidence s.tool_output;
    }

abbrev pub answered : Result String Answer → State → Outcome
answered (err m) s = (some m, s)
answered (ok a) s = (
  none,
  record s {
    final_answer = a.content;
    token_usage = a.token_usage;
    steps = append_step s (action_step 6 "generate_answer" "generate_answer");
  },
)

unfoldable pub generate_answer_node : Services → State → Outcome
generate_answer_node e s = answered (e.invoke s.user_input s.tool_output) s

abbrev pub denial_reason : State → String
denial_reason s = if is_empty s.policy_reason then "policy_denied" else s.policy_reason

unfoldable pub deny_request_node : State → State
deny_request_node s =
    let reason = denial_reason s in
    record s {
      final_answer =
          "The request was not executed because it did not satisfy the operational policy ("
          ++ (reason ++ ").");
      tool_output =
          document (field "error" (text "policy_denied") (field "reason" (text reason) end));
      steps = append_step s (record {
        iteration = suc (length s.steps);
        node_id = "deny_request";
        action = "deny_request";
        decision = some (false, reason);
      });
    }

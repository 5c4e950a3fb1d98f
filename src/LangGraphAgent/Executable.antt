-- ===== src/LangGraphAgent/Executable.antt =====
-- Every registered tool of agents/langgraph_agent.py has something to do.
use iot_ops_agent.Prelude.{
  String, ◌≡◌, inl, inr, some, List, [], ◌∷◌, find, Bool-cases, Option-cases, string_eq, eq_iff,
  ◌==◌, All,
}
use iot_ops_agent.LangGraphAgent.Registry.{ToolSpec, TextRules, get_tool, tool_registry}
use iot_ops_agent.LangGraphAgent.{Execution, reads, answers, not_executable, execution_of}

-- What a tool of the registry does.
abbrev pub IsExecutable : Execution → Type 0
IsExecutable (reads c) = Unit
IsExecutable (answers v) = Unit
IsExecutable not_executable = ⊥

find-IsExecutable :
    (rules : TextRules) (name user_input : String) (tools : List ToolSpec) (tool_spec : ToolSpec)
    → All (λ (t : ToolSpec). IsExecutable (execution_of rules t.name user_input)) tools
    → find (λ (t : ToolSpec). t.name == name) tools ≡ some tool_spec
    → IsExecutable (execution_of rules name user_input)
find-IsExecutable rules name user_input [] tool_spec h found = absurd (cc found)
find-IsExecutable rules name user_input (t ∷ ts) tool_spec (first, h) found =
    elim (Bool-cases (t.name == name)) [
      | inl e ↦ rw (← (eq_iff t.name name).0 e) first
      | inr e ↦ find-IsExecutable rules name user_input ts tool_spec h (rw e at found)
    ]

-- Every tool of the registry is executable.
registry-IsExecutable :
    (rules : TextRules) (user_input : String)
    → All (λ (t : ToolSpec). IsExecutable (execution_of rules t.name user_input)) tool_registry
unfolding execution_of
registry-IsExecutable rules user_input = elim (Option-cases (rules.last_number user_input)) [
  | inl e ↦ rw e (tt, (tt, (tt, (tt, (tt, (tt, (tt, (tt, (tt, (tt, (tt, tt)))))))))))
  | inr (n, e) ↦ rw e (tt, (tt, (tt, (tt, (tt, (tt, (tt, (tt, (tt, (tt, (tt, tt)))))))))))
]

-- A registered tool is executable, whatever the request is.
pub execution_of-IsExecutable :
    (rules : TextRules) (name user_input : String) (tool_spec : ToolSpec)
    → get_tool name ≡ some tool_spec
    → IsExecutable (execution_of rules name user_input)
unfolding get_tool
execution_of-IsExecutable rules name user_input tool_spec found =
    find-IsExecutable rules name user_input tool_registry tool_spec
      (registry-IsExecutable rules user_input) found

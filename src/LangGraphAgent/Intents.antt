-- ===== src/LangGraphAgent/Intents.antt =====
-- What tool a request is given.
use iot_ops_agent.Prelude.{
  String, List, [], ◌∷◌, All, ◌≡◌, ◌⊎◌, refl, inl, inr, Bool, true, false, some, string_eq,
}
use iot_ops_agent.LangGraphAgent.Registry.{
  ToolSpec, get_tool, TextRules, IntentDecision, choose, company_decisions, company_default,
  simulator_decisions, simulator_default, classify_intent,
}

-- The tool is registered for the source, and for the intent.
pub IsRegistered : String → IntentDecision → Type 0
IsRegistered data_source d =
    (tool_spec : ToolSpec) × (get_tool d.tool_name ≡ some tool_spec)
    × (tool_spec.data_source ≡ data_source)
    × (tool_spec.intent ≡ d.intent)

choose-IsRegistered :
    (source : String) (table : List (Bool × IntentDecision)) (otherwise : IntentDecision)
    → All (λ entry. IsRegistered source entry.1) table
    → IsRegistered source otherwise
    → IsRegistered source (choose table otherwise)
unfolding choose
choose-IsRegistered source [] otherwise h k = k
choose-IsRegistered source ((true, d) ∷ rest) otherwise (h, hs) k = h
choose-IsRegistered source ((false, d) ∷ rest) otherwise (h, hs) k =
    choose-IsRegistered source rest otherwise hs k

company-IsRegistered :
    (rules : TextRules) (request : String)
    → IsRegistered "company" (choose (company_decisions rules request) company_default)
unfolding IsRegistered get_tool
company-IsRegistered rules request =
    choose-IsRegistered "company" (company_decisions rules request) company_default
      (
        (_, refl, refl, refl),
        (
          (_, refl, refl, refl),
          (
            (_, refl, refl, refl),
            (
              (_, refl, refl, refl),
              ((_, refl, refl, refl), ((_, refl, refl, refl), ((_, refl, refl, refl), tt))),
            ),
          ),
        ),
      )
      (_, refl, refl, refl)

simulator-IsRegistered :
    (request : String)
    → IsRegistered "simulator" (choose (simulator_decisions request) simulator_default)
unfolding IsRegistered get_tool
simulator-IsRegistered request =
    choose-IsRegistered "simulator" (simulator_decisions request) simulator_default
      ((_, refl, refl, refl), ((_, refl, refl, refl), tt)) (_, refl, refl, refl)

-- For either source and every request, the tool picked is registered, for that source and for the
-- intent picked with it.
classify_intent-IsRegistered :
    (rules : TextRules) (user_input data_source : String)
    → (data_source ≡ "simulator") ⊎ (data_source ≡ "company")
    → IsRegistered data_source (classify_intent rules user_input data_source)
unfolding classify_intent
classify_intent-IsRegistered rules user_input data_source (inl e) =
    rw e (simulator-IsRegistered (rules.lower user_input))
classify_intent-IsRegistered rules user_input data_source (inr e) =
    rw e (company-IsRegistered rules (rules.lower user_input))

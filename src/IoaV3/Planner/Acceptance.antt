-- ===== src/IoaV3/Planner/Acceptance.antt =====
-- What is taken of the model's reply is what the policy of the agent lets through.
use iot_ops_agent.Prelude.{
  ℕ, zero, suc, String, ◌≡◌, refl, inl, inr, true, false, Option, none, some, List, [], ◌∷◌, arith,
  All, Bool-cases, Option-cases, is_some,
}
use iot_ops_agent.Prelude.Text.{strip}
use iot_ops_agent.MongoProxy.Documents.{
  Value, null, flag, number, text, array, document, Items, nil, item, Fields,
}
use iot_ops_agent.IoaV3.Catalog.{
  ToolSpec, Workflow, Params, keys, contains, all_in, get_tool_spec, get_company_tool, is_text,
  authorize_single_workflow,
}
use iot_ops_agent.IoaV3.Execution.{text_of}
use iot_ops_agent.IoaV3.Outputs.{get_field}
use iot_ops_agent.IoaV3.Planner.Parameters.{PlannerRules}
use iot_ops_agent.IoaV3.Planner.Keys.{Within, identifier_names, filter_tool_params-Within}
use iot_ops_agent.IoaV3.Planner.Allowances.{enrich_workflow_params-Within}
use iot_ops_agent.IoaV3.Planner.{
  is_accepted, planned, accepted, accepted_item, taken_or, normalized, fields_of,
}

-- The policy lets the workflow through where the company's data are the source.
pub IsAuthorized : PlannerRules → Workflow → Type 0
IsAuthorized p w =
    authorize_single_workflow p.tools (text "company") (text "company_mongodb") w
    ≡ (true, "workflow_authorized")

-- No tool is among those taken before, or stands twice.
abbrev pub AreNew : List String → List Workflow → Type 0
AreNew seen [] = Unit
AreNew seen (w ∷ ws) = (contains seen w.tool ≡ false) × AreNew (w.tool ∷ seen) ws

all_in_of_Within :
    (allowed : List String) (params : Params)
    → Within allowed params
    → all_in allowed (keys params) ≡ true
all_in_of_Within allowed [] h = refl
all_in_of_Within allowed ((key, v) ∷ params) (k, h) = rw k (all_in_of_Within allowed params h)

IsAuthorized-known :
    (p : PlannerRules) (w : Workflow) (spec : ToolSpec)
    → get_tool_spec p.tools w.tool ≡ some spec
    → Within spec.allowed_params w.params
    → IsAuthorized p w
unfolding IsAuthorized authorize_single_workflow is_text
IsAuthorized-known p w spec e h =
    let within = all_in_of_Within spec.allowed_params w.params h in
    elim (Bool-cases (is_some (get_company_tool w.tool))) [
      | inl c ↦ rw (c, e, within) refl
      | inr c ↦ rw (c, e, within) refl
    ]

module _ (p : PlannerRules) (user_input : String) where
  planned-IsAuthorized :
      (tool_name : String) (fs : Fields) (spec : ToolSpec)
      → get_tool_spec p.tools tool_name ≡ some spec
      → Within identifier_names (p.extract_onem2m_identifiers user_input)
      → IsAuthorized p (planned p user_input tool_name fs)
  planned-IsAuthorized tool_name fs spec e ids =
      let names =
        filter_tool_params-Within spec.allowed_params p (fields_of (get_field "params" fs))
          user_input in
      IsAuthorized-known p (planned p user_input tool_name fs) spec e
        (rw e (enrich_workflow_params-Within p tool_name user_input spec _ e ids names))

  is_accepted-known :
      (seen : List String) (tool_name : String) (fs : Fields)
      → is_accepted p user_input seen tool_name fs ≡ true
      → (contains seen tool_name ≡ false)
        × ((spec : ToolSpec) × (get_tool_spec p.tools tool_name ≡ some spec))
  unfolding is_accepted
  is_accepted-known seen tool_name fs h = elim (Option-cases (get_tool_spec p.tools tool_name)) [
    | inl e ↦ absurd (ground (arith, e, h))
    | inr e ↦ (ground (arith, h), e)
  ]

  -- A workflow that is taken, if one is, is new and passes the policy.
  Taken : List String → Option Workflow → Type 0
  Taken seen none = Unit
  Taken seen (some w) = (contains seen w.tool ≡ false) × IsAuthorized p w

  accepted-Taken :
      (seen : List String) (fs : Fields)
      → Within identifier_names (p.extract_onem2m_identifiers user_input)
      → Taken seen (accepted p user_input seen fs)
  unfolding Taken
  accepted-Taken seen fs ids =
      let tool_name = strip (text_of p.texts (get_field "tool" fs)) in
      elim (Bool-cases (is_accepted p user_input seen tool_name fs)) [
        | inl a ↦
            let known = is_accepted-known seen tool_name fs a in
            rw a (known.0, planned-IsAuthorized tool_name fs known.1.0 known.1.1 ids)
        | inr a ↦ rw a tt
      ]

  accepted_item-Taken :
      (seen : List String) (v : Value)
      → Within identifier_names (p.extract_onem2m_identifiers user_input)
      → Taken seen (accepted_item p user_input seen v)
  unfolding Taken
  accepted_item-Taken seen (document fs) ids = unfold Taken in accepted-Taken seen fs ids
  accepted_item-Taken seen null ids = tt
  accepted_item-Taken seen (flag b) ids = tt
  accepted_item-Taken seen (number n) ids = tt
  accepted_item-Taken seen (text s) ids = tt
  accepted_item-Taken seen (array xs) ids = tt

  Passes : List String → List Workflow → Type 0
  Passes seen ws = All (IsAuthorized p) ws × AreNew seen ws

  taken_or-Passes :
      (seen : List String) (o : Option Workflow) (skipped : List Workflow)
      (rest : String → List Workflow)
      → Taken seen o
      → Passes seen skipped
      → ((tool : String) → Passes (tool ∷ seen) (rest tool))
      → Passes seen (taken_or o skipped rest)
  unfolding Taken Passes
  taken_or-Passes seen none skipped rest t h k = h
  taken_or-Passes seen (some w) skipped rest (new, a) h k = ((a, (k w.tool).0), (new, (k w.tool).1))

  nil-Passes : (seen : List String) → Passes seen []
  unfolding Passes
  nil-Passes seen = (tt, tt)

  normalized-Passes :
      (n : ℕ) (seen : List String) (items : Items)
      → Within identifier_names (p.extract_onem2m_identifiers user_input)
      → Passes seen (normalized p user_input n seen items)
  unfolding normalized
  normalized-Passes zero seen items ids = nil-Passes seen
  normalized-Passes (suc n) seen nil ids = nil-Passes seen
  normalized-Passes (suc n) seen (item v items) ids =
      taken_or-Passes seen (accepted_item p user_input seen v) _ _ (accepted_item-Taken seen v ids)
        (normalized-Passes n seen items ids) (λ tool. normalized-Passes n (tool ∷ seen) items ids)

-- Where the identifiers found in the request are of the kinds that the source looks for, every
-- workflow taken from the model's reply, whatever it is, passes the policy for company data, and no
-- tool is taken twice.
pub normalized-IsAuthorized :
    (p : PlannerRules) (user_input : String) (n : ℕ) (items : Items)
    → Within identifier_names (p.extract_onem2m_identifiers user_input)
    → All (IsAuthorized p) (normalized p user_input n [] items)
      × AreNew [] (normalized p user_input n [] items)
unfolding Passes
normalized-IsAuthorized p user_input n items ids = normalized-Passes p user_input n [] items ids

-- ===== src/IoaV3/Authorization.antt =====
-- What the workflows that are authorised may call.
use iot_ops_agent.Prelude.{
  ℕ, suc, ◌≤◌, String, ◌≡◌, refl, inl, inr, Bool, true, some, List, [], ◌∷◌, arith, All, All-append,
  select, take, length, length-take, length-append, length-select, is_some, Bool-cases,
  Option-cases, string_eq,
}
use iot_ops_agent.Prelude.Result.{Result, ok, err}
use iot_ops_agent.MongoProxy.Documents.{Fields}
use iot_ops_agent.IoaV3.Catalog.{
  ToolSpec, GrafanaTool, Workflow, get_tool_spec, get_company_tool, all_in, keys, is_text, contains,
  allowed_params_of, authorize_single_workflow,
}
use iot_ops_agent.IoaV3.Execution.{TextRules, Call, Execution, asks, answers, raises, execution_of}
use iot_ops_agent.IoaV3.Outputs.{ToolOutput, Executed, performed}
use iot_ops_agent.IoaV3.{
  Request, State, Services, request_is_valid, selected_source_of, active_source_of,
  authorized_workflows, collected, execute_workflow, execute_workflows,
}

-- A workflow that the policy allows for this request: the tool is known, takes the parameters, and,
-- if it reads the company's data, that is the source of the request and active.
pub record IsAllowed (tools : List GrafanaTool) (request : Request) (w : Workflow) : Type 0 where
  pub tool_spec : ToolSpec
  pub known : get_tool_spec tools w.tool ≡ some tool_spec
  pub takes : All (λ key. contains tool_spec.allowed_params key ≡ true) (keys w.params)
  pub from_company :
      is_some (get_company_tool w.tool) ≡ true
      → (is_text (selected_source_of request) "company" ≡ true)
        × (is_text (active_source_of request) "company_mongodb" ≡ true)

-- A call for a workflow that is allowed, of a request that is valid.
pub record IsAuthorized (e : Services) (request : Request) (c : Call) : Type 0 where
  pub valid : request_is_valid request.user_input ≡ true
  pub workflow : Workflow
  pub allowed : IsAllowed e.planner.tools request workflow
  pub made : execution_of e.planner.tools e.planner.texts workflow ≡ asks c

all_in-All :
    (allowed names : List String)
    → all_in allowed names ≡ true
    → All (λ name. contains allowed name ≡ true) names
all_in-All allowed [] h = tt
all_in-All allowed (name ∷ names) h = elim (Bool-cases (contains allowed name)) [
  | inl e ↦ (e, all_in-All allowed names (rw e at h))
  | inr e ↦ absurd (ground (arith, e, h))
]

takes-All :
    (tools : List GrafanaTool) (request : Request) (w : Workflow) (spec : ToolSpec)
    → get_tool_spec tools w.tool ≡ some spec
    → (authorize_single_workflow tools (selected_source_of request) (active_source_of request) w).0
      ≡ true
    → All (λ key. contains spec.allowed_params key ≡ true) (keys w.params)
unfolding authorize_single_workflow
takes-All tools request w spec e h =
    let within : all_in (allowed_params_of (get_tool_spec tools w.tool)) (keys w.params) ≡ true =
      ground (arith, h) in
    all_in-All spec.allowed_params (keys w.params) (rw e at within)

authorize-IsAllowed :
    (tools : List GrafanaTool) (request : Request) (w : Workflow)
    → (authorize_single_workflow tools (selected_source_of request) (active_source_of request) w).0
      ≡ true
    → IsAllowed tools request w
unfolding authorize_single_workflow
authorize-IsAllowed tools request w h = elim (Option-cases (get_tool_spec tools w.tool)) [
  | inl e ↦ absurd (ground (arith, e, h))
  | inr (spec, e) ↦ record {
    tool_spec = spec;
    known = e;
    takes = takes-All tools request w spec e h;
    from_company = λ k. (ground (arith, h, k), ground (arith, h, k));
  }
]

-- What passes a test that gives a property has it.
All-select_of {ℓ κ} :
    {A : Type ℓ} (P : A → Type κ) (q : A → Bool)
    → ((x : A) → q x ≡ true → P x)
    → (xs : List A) → All P (select q xs)
All-select_of P q f [] = tt
All-select_of P q f (x ∷ xs) = elim (Bool-cases (q x)) [
  | inl e ↦ rw e (f x e, All-select_of P q f xs)
  | inr e ↦ rw e (All-select_of P q f xs)
]

pub authorized_workflows-IsAllowed :
    (tools : List GrafanaTool) (s : State)
    → All (IsAllowed tools s.request) (authorized_workflows tools s)
unfolding authorized_workflows
authorized_workflows-IsAllowed tools s =
    All-select_of (IsAllowed tools s.request) _ (authorize-IsAllowed tools s.request)
      (take s.max_tool_executions s.selected_workflows)

pub authorized_workflows-length :
    (tools : List GrafanaTool) (s : State)
    → length (authorized_workflows tools s) ≤ s.max_tool_executions
unfolding authorized_workflows
authorized_workflows-length tools s = omega (
  arith,
  length-select
      (λ w.
        (authorize_single_workflow tools (selected_source_of s.request) (active_source_of s.request)
          w).0)
      (take s.max_tool_executions s.selected_workflows),
  length-take s.max_tool_executions s.selected_workflows,
)

module _ (P : Call → Type 0) where
  performed-All :
      (rules : TextRules) (user_input : String) (answer : Call → Result String Fields)
      (w : Workflow) (x : Execution)
      → ((c : Call) → x ≡ asks c → P c)
      → All P (performed rules user_input answer w x).0
  performed-All rules user_input answer w (asks c) h = (h c refl, tt)
  performed-All rules user_input answer w (answers fs) h = tt
  performed-All rules user_input answer w (raises m) h = tt

  collected-All :
      (x : Executed) (rest : List Call × Result String (List ToolOutput))
      → All P x.0
      → All P rest.0
      → All P (collected x rest).0
  collected-All (calls, err m) rest h k = h
  collected-All (calls, ok output) (more, err m) h k = All-append P calls more h k
  collected-All (calls, ok output) (more, ok outputs) h k = All-append P calls more h k

performed-length :
    (rules : TextRules) (user_input : String) (answer : Call → Result String Fields) (w : Workflow)
    (x : Execution)
    → length (performed rules user_input answer w x).0 ≤ 1
performed-length rules user_input answer w (asks c) = omega arith
performed-length rules user_input answer w (answers fs) = omega arith
performed-length rules user_input answer w (raises m) = omega arith

collected-length :
    (n : ℕ) (x : Executed) (rest : List Call × Result String (List ToolOutput))
    → length x.0 ≤ 1
    → length rest.0 ≤ n
    → length (collected x rest).0 ≤ suc n
collected-length n (calls, err m) rest h k = omega (arith, h)
collected-length n (calls, ok output) (more, err m) h k =
    omega (arith, h, k, length-append calls more)
collected-length n (calls, ok output) (more, ok outputs) h k =
    omega (arith, h, k, length-append calls more)

pub execute_workflows-length :
    (e : Services) (user_input : String) (ws : List Workflow)
    → length (execute_workflows e user_input ws).0 ≤ length ws
unfolding execute_workflows
execute_workflows-length e user_input [] = omega arith
execute_workflows-length e user_input (w ∷ ws) =
    collected-length _ (execute_workflow e user_input w) (execute_workflows e user_input ws)
      (performed-length _ _ _ w (execution_of e.planner.tools e.planner.texts w))
      (execute_workflows-length e user_input ws)

module _ (e : Services) (request : Request) where
  -- At most five calls, each of them authorised.
  abbrev pub IsSafe : List Call → Type 0
  IsSafe calls = All (IsAuthorized e request) calls × (length calls ≤ 5)

  pub execute_workflows-Authorized :
      request_is_valid request.user_input ≡ true
      → (user_input : String) (ws : List Workflow) → All (IsAllowed e.planner.tools request) ws
      → All (IsAuthorized e request) (execute_workflows e user_input ws).0
  unfolding execute_workflows
  execute_workflows-Authorized v user_input [] h = tt
  execute_workflows-Authorized v user_input (w ∷ ws) (allowed, h) =
      collected-All (IsAuthorized e request) (execute_workflow e user_input w)
        (execute_workflows e user_input ws)
        (performed-All (IsAuthorized e request) _ user_input _ w _
          (λ c made. record { valid = v; workflow = w; allowed = allowed; made = made }))
        (execute_workflows-Authorized v user_input ws h)

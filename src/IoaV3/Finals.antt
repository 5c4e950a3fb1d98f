-- ===== src/IoaV3/Finals.antt =====
-- How a streamed run of the agent ends.
use iot_ops_agent.Prelude.{
  String, ◌≡◌, refl, sym, Bool, true, false, none, some, List, [], ◌∷◌, ◌++◌, any, any-append,
  if◌then◌else◌,
}
use mathlib.Core.List.{append_assoc}
use iot_ops_agent.MongoProxy.Documents.{Value, null}
use iot_ops_agent.LangGraphAgent.{Step}
use iot_ops_agent.LangGraphAgent.Graph.{
  Event, thought, observation, answer_observation, final, last_step,
}
use iot_ops_agent.IoaV3.{Request, State, Services, Outcome, initial_state, generate_answer_node}
use iot_ops_agent.IoaV3.Stream.{
  Node, perform, Streamed, after, runtime_error, stopped, denied, after_node, stream_answer,
  stream_nodes, run_stream,
}

abbrev pub is_final : Event → Bool
is_final (thought iteration action) = false
is_final (observation step) = false
is_final (answer_observation usage) = false
is_final (final answer usage) = true

-- The events are some that are not final, and a final one.
abbrev pub IsComplete : List Event → Type 0
IsComplete events =
    (before : List Event) × (answer : String) × (usage : Value) × (events
      ≡ before ++ final answer usage ∷ [])
    × (any is_final before ≡ false)

last_step-any : (steps : List Step) → any is_final (last_step steps) ≡ false
last_step-any [] = refl
last_step-any (step ∷ []) = refl
last_step-any (step ∷ next ∷ steps) = last_step-any (next ∷ steps)

step-IsComplete :
    (steps : List Step) (answer : String) (usage : Value)
    → IsComplete (last_step steps ++ final answer usage ∷ [])
step-IsComplete steps answer usage = (last_step steps, answer, usage, refl, last_step-any steps)

after-IsComplete :
    (steps : List Step) (events : List Event)
    → IsComplete events
    → IsComplete (last_step steps ++ events)
after-IsComplete steps events (before, answer, usage, same, h) = (
  last_step steps ++ before,
  answer,
  usage,
  rw same (sym (append_assoc (last_step steps) before (final answer usage ∷ []))),
  rw (any-append is_final (last_step steps) before, last_step-any steps) h,
)

Complete : Streamed → Type 0
Complete r = IsComplete r.events

module _ (e : Services) where
  chosen-Complete :
      (allowed : Bool) (steps : List Step) (r refused : Streamed)
      → Complete r
      → Complete refused
      → Complete (after (last_step steps) (if allowed then r else refused))
  unfolding Complete
  chosen-Complete true steps r refused h k = after-IsComplete steps r.events h
  chosen-Complete false steps r refused h k = after-IsComplete steps refused.events k

  stopped-Complete : (node_id answer : String) (s : State) → Complete (stopped node_id answer s)
  unfolding Complete
  stopped-Complete node_id answer s = step-IsComplete (runtime_error node_id s).steps answer null

  finished-Complete :
      (steps : List Step) (answer : String) (usage : Value) (s : State)
      → Complete (record { events = last_step steps ++ final answer usage ∷ []; state = s })
  unfolding Complete
  finished-Complete steps answer usage s = step-IsComplete steps answer usage

  denied-Complete : (s : State) → Complete (denied s)
  unfolding Complete
  denied-Complete s = ([], _, _, refl, refl)

  after_node-Complete :
      (node : Node) (rest : State → Streamed) (out : Outcome)
      → ((s : State) → Complete (rest s))
      → Complete (after_node node rest out)
  after_node-Complete node rest (some m, s) h = stopped-Complete _ _ s
  after_node-Complete node rest (none, s) h =
      chosen-Complete s.policy_allowed s.steps (rest s) (denied s) (h s) (denied-Complete s)

  stream_answer-Complete : (out : Outcome) → Complete (stream_answer out)
  stream_answer-Complete (some m, s) = stopped-Complete _ _ s
  stream_answer-Complete (none, s) = finished-Complete s.steps s.final_answer s.token_usage s

  stream_nodes-Complete : (nodes : List Node) (s : State) → Complete (stream_nodes e nodes s)
  unfolding stream_nodes
  stream_nodes-Complete [] s = stream_answer-Complete (generate_answer_node e s)
  stream_nodes-Complete (node ∷ nodes) s =
      after_node-Complete node (stream_nodes e nodes) (perform e node s)
        (stream_nodes-Complete nodes)

-- Whatever the services answer or raise, a streamed run ends, with one final event, which is its last.
pub run_stream-IsComplete :
    (e : Services) (request : Request) → IsComplete (run_stream e request).events
unfolding run_stream Complete
run_stream-IsComplete e request = stream_nodes-Complete e _ (initial_state request)

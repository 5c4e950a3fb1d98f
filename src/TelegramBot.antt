-- ===== src/TelegramBot.antt =====
-- What the bot of services/telegram_service.py works on: updates, the state it keeps, what it sends
-- and what it calls. Identifiers that Telegram gives as numbers are their decimal texts.
pub mod Commands
pub mod Sending
pub mod History
pub mod Handlers
pub mod Turns
pub mod Chunks
pub mod Writes
pub mod Webhook
pub mod Deliveries
pub mod Redelivery
pub mod Isolation
pub mod Access
pub mod Saves
pub mod Agent
pub mod Answers
use iot_ops_agent.Prelude.{
  ℕ, String, Bool, ◌||◌, Option, none, some, List, is_some, not, if◌then◌else◌,
}
use iot_ops_agent.Prelude.Text.{is_empty, strip}
use iot_ops_agent.Prelude.Result.{Result, ok, err}
use iot_ops_agent.MongoProxy.Documents.{Value, Fields}
use iot_ops_agent.Database.{Db}
use iot_ops_agent.TelegramLink.{Platform}
use Commands.{PromptEntry, Suggestion}

-- A message of an update, "" where it has no text.
pub record Incoming : Type 0 where
  pub text : String
  pub chat_id : Option String
  pub from_id : Option String
  pub from_username : Option String

-- `none` for a message that the update does not have, or that is empty.
pub record Update : Type 0 where
  pub update_id : Option String
  pub message : Option Incoming
  pub edited_message : Option Incoming

pub record Message : Type 0 where
  pub chat_id : String
  pub telegram_user_id : Option String
  pub telegram_username : Option String
  pub text : String

abbrev or_else : Option Incoming → Option Incoming → Option Incoming
or_else none other = other
or_else (some m) other = some m

abbrev in_chat : Incoming → Option String → Option Message
in_chat m none = none
in_chat m (some id) =
    if is_empty (strip m.text)
    then none
    else some (record {
      chat_id = id;
      telegram_user_id = m.from_id;
      telegram_username = m.from_username;
      text = strip m.text;
    })

abbrev with_chat : Option Incoming → Option Message
with_chat none = none
with_chat (some m) = in_chat m m.chat_id

unfoldable pub extract_message : Update → Option Message
extract_message update = with_chat (or_else update.message update.edited_message)

-- A message that the bot posts.
pub record Sent : Type 0 where
  pub chat_id : String
  pub text : String

-- What an agent yields; `none` and `null` for a key that an event does not have.
pub data StreamEvent : Type 0 where
  thought : (iteration : ℕ) → (thought action workflow : Value) → StreamEvent
  observation : (iteration : ℕ) → (output : Value) → StreamEvent
  final : (final_answer : String) → (token_usage : Fields) → StreamEvent
  other : (kind : String) → StreamEvent

-- A step of the answer, as events are merged into it.
pub record AnswerStep : Type 0 where
  pub iteration : ℕ
  pub thought : Value
  pub action : Value
  pub workflow : Value
  pub output : Option Value

-- The arguments of `run_stream`. An agent without `plan_workflows` gets the first two only.
pub record Run : Type 0 where
  pub prompt : String
  pub data_source : String
  pub source_resolution : List (String × Value)
  pub user_id : ℕ

-- The payloads of `emit_user_event`.
pub data Notice : Type 0 where
  telegram_chat_started :
      (chat_id : ℕ)
      → (title message telegram_user_id telegram_role : String) → (is_new_topic created : Bool)
      → Notice
  telegram_reasoning_event : (chat_id : ℕ) → StreamEvent → Notice
  telegram_chat_completed :
      (chat_id : ℕ)
      → (final_answer : String) → List AnswerStep
      → (token_usage : Option Fields) → Notice
  telegram_chat_failed : Notice

-- The state: the database, `_telegram_active_history`, and, oldest first, what was posted, the runs
-- of the agent and the events for the users' pages.
pub record Bot : Type 0 where
  pub db : Db
  pub active : List ((String × String) × ℕ)
  pub sent : List Sent
  pub runs : List Run
  pub emitted : List (ℕ × Notice)

-- The dictionary that the processing of an update returns.
pub data Outcome : Type 0 where
  ignored duplicate linked unlinked help_sent : Outcome
  link_failed unlink_failed forbidden : (reason : String) → Outcome
  data_source_not_allowed : (data_source : String) → Outcome
  answered : (history_chat_id : ℕ) → (history_chat_created : Bool) → (step_count : ℕ) → Outcome

-- The readings of the clocks in one processing, by the call that makes them.
pub record Times : Type 0 where
  pub claimed : ℕ
  pub completed : ℕ
  pub linked : ℕ
  pub created : String
  pub asked : String
  pub created_again : String
  pub asked_again : String
  pub answered : String

-- The environment and what the bot calls: `post` says which error the next request to Telegram
-- raises after those already made, an agent what it yields and the error that ends it.
pub record Services : Type 0 where
  pub platform : Platform
  pub lower : String → String
  pub bot_token : String
  pub allowed_user_ids : String
  pub retention : ℕ
  pub render : String → String
  pub post : List Sent → Sent → Option String
  pub get_user_data_source : ℕ → Db → String
  pub get_telegram_prompt_catalog : ℕ → String → Db → List PromptEntry
  pub coverage : Option (String × List Suggestion)
  pub resolve_source_context : String → List (String × Value)
  pub run_stream : Run → List StreamEvent × Option String
  pub dumps_steps : List AnswerStep → Option String
  pub dumps_usage : Option Fields → Option String

-- A function returns or raises, and leaves what it changed in either case.
abbrev pub M : Type 0 → Type 0
M A = Bot → Result String A × Bot

abbrev pub continue : {A B : Type 0} → Result String A → (A → M B) → M B
continue (ok a) f w = f a w
continue (err e) f w = (err e, w)

infixl 5 ◌>>=◌ ◌>>◌
abbrev pub ◌>>=◌ : {First Last : Type 0} (step : M First) (next : First → M Last) → M Last
◌>>=◌ step next w = let (result, after) = step w in continue result next after

abbrev pub ◌>>◌ : {Last : Type 0} (check : M (Unit {0})) (rest : M Last) → M Last
check >> rest = check >>= λ _. rest

abbrev pub return : {A : Type 0} → A → M A
return a w = (ok a, w)

-- Code that answers with the database it leaves.
abbrev pub on_db : {A : Type 0} → (Db → A × Db) → M A
on_db f w = let (a, db) = f w.db in (ok a, record w { db = db })

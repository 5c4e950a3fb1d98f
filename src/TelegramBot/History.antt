-- ===== src/TelegramBot/History.antt =====
-- The chat of the database in which services/telegram_service.py keeps a conversation, and the steps
-- of an answer as events come in.
use Prim.Native.String
use package.text.Mathlib.Text.{starts_with}
use iot_ops_agent.Prelude.{
  ℕ, String, Bool, true, false, not, ◌&&◌, Option, none, some, List, [], ◌∷◌, ◌++◌, select, any,
  ltb, ◌==◌, nat_eq, string_eq, if◌then◌else◌,
}
use iot_ops_agent.Prelude.Text.{join, first_chars}
use iot_ops_agent.Prelude.Text.Words.{text_length, words}
use iot_ops_agent.DataSources.{text_or}
use iot_ops_agent.MongoProxy.Documents.{Value, text, Fields, end, field}
use iot_ops_agent.Database.{Chat, Db}
use iot_ops_agent.Database.Chats.{create_chat, get_chats, chat_belongs_to_user}
use iot_ops_agent.ChatService.{save_chat_message}
use iot_ops_agent.TelegramBot.{
  Message, StreamEvent, thought, observation, final, other, AnswerStep, Bot, Times, Services,
}

unfoldable pub make_chat_title : String → String
make_chat_title message =
    let compact = join " " (words message) in
    let shown =
      if ltb 48 (text_length compact)
      then String.◌++◌ (first_chars 45 compact) "..."
      else compact in
    String.◌++◌ "Telegram: " (text_or shown "New request")

-- `str(x or "")`, for the text of an integer: 0 is false.
abbrev or_blank : Option String → String
or_blank none = ""
or_blank (some s) = if s == "0" then "" else s

unfoldable pub telegram_history_key : Message → String × String
telegram_history_key message = (or_blank message.telegram_user_id, or_blank (some message.chat_id))

abbrev same_key : String × String → (String × String) × ℕ → Bool
same_key key entry = entry.0.0 == key.0 && entry.0.1 == key.1

-- `_telegram_active_history.get(key)`
unfoldable pub active_chat : String × String → List ((String × String) × ℕ) → Option ℕ
active_chat key [] = none
active_chat key (entry ∷ entries) =
    let later = active_chat key entries in if same_key key entry then some entry.1 else later

-- `_telegram_active_history[key] = chat_id`: the first entry of a key counts.
abbrev set_active : String × String → ℕ → Bot → Bot
set_active key chat_id w = record w { active = (key, chat_id) ∷ w.active }

abbrev is_telegram_chat : Chat → Bool
is_telegram_chat c = starts_with c.title "Telegram:"

-- `max(chats, key=id)["id"]`
abbrev largest_id : List Chat → Option ℕ
largest_id [] = none
largest_id (c ∷ chats) = elim (largest_id chats) [
  | none ↦ some c.id
  | some id ↦ some (if ltb c.id id then id else c.id)
]

unfoldable pub latest_telegram_history_chat_id : ℕ → Db → Option ℕ
latest_telegram_history_chat_id user_id db =
    largest_id (select is_telegram_chat (get_chats user_id db))

-- `chat_id and not chat_belongs_to_user(chat_id, user_id)`
abbrev still_own : ℕ → Db → Option ℕ → Option ℕ
still_own user_id db none = none
still_own user_id db (some chat_id) =
    if not (chat_id == 0) && not (chat_belongs_to_user chat_id user_id db)
    then none
    else some chat_id

abbrev or_latest : Option ℕ → Option ℕ → Option ℕ
or_latest none latest = latest
or_latest (some chat_id) latest = some chat_id

-- The chat to continue, if there is one.
unfoldable pub continued_chat : ℕ → Message → (new_topic : Bool) → Bot → Option ℕ
unfolding telegram_history_key active_chat
continued_chat user_id message new_topic w =
    let chat_id =
      or_latest (still_own user_id w.db (active_chat (telegram_history_key message) w.active))
        (latest_telegram_history_chat_id user_id w.db) in
    if new_topic then none else chat_id

unfoldable pub create_history : (now : String) → ℕ → Message → Bot → ℕ × Bot
create_history now user_id message w =
    let (chat_id, db) = create_chat now user_id (make_chat_title message.text) w.db in
    (chat_id, set_active (telegram_history_key message) chat_id (record w { db = db }))

unfoldable pub save_question : (now : String) → ℕ → ℕ → Message → Bot → Bool × Bot
save_question now chat_id user_id message w =
    let ((saved, _, _), db) =
      save_chat_message now chat_id user_id "user" message.text none none w.db in
    (saved, record w { db = db })

-- The chat, and whether it is a new one.
abbrev pub Started : Type 0
Started = (ℕ × Bool) × Bot

module _ (t : Times) (user_id : ℕ) (message : Message) where
  unfoldable pub start_created : Bot → Started
  start_created w =
      let (chat_id, w₁) = create_history t.created user_id message w in
      ((chat_id, true), (save_question t.asked chat_id user_id message w₁).1)

  -- Where the question could not be saved, in a chat that was made after all.
  unfoldable pub start_again : Bot → Started
  start_again w =
      let (chat_id, w₁) = create_history t.created_again user_id message w in
      ((chat_id, true), (save_question t.asked_again chat_id user_id message w₁).1)

  abbrev pub started : Option ℕ → Bot → Started
  started none w = start_created w
  started (some chat_id) w =
      let (saved, w₁) = save_question t.asked chat_id user_id message w in
      let again = start_again w₁ in if saved then ((chat_id, false), w₁) else again

  unfoldable pub start_telegram_history : (new_topic : Bool) → Bot → Started
  start_telegram_history new_topic w = started (continued_chat user_id message new_topic w) w

-- The result of the agent, as it is saved.
unfoldable pub finish_telegram_history :
    Services
    → (now : String) → ℕ
    → ℕ
    → (final_answer : String) → List AnswerStep
    → Option Fields
    → Bot
    → Bot
finish_telegram_history e now user_id chat_id final_answer steps token_usage w =
    let (_, db) =
      save_chat_message now chat_id user_id "assistant" final_answer (e.dumps_steps steps)
        (e.dumps_usage token_usage) w.db in
    record w { db = db }

abbrev at_iteration : ℕ → AnswerStep → Bool
at_iteration n step = step.iteration == n

-- Only the first step of an iteration changes.
unfoldable pub update_first :
    (AnswerStep → Bool) → (AnswerStep → AnswerStep) → List AnswerStep → List AnswerStep
update_first p f [] = []
update_first p f (s ∷ steps) =
    let later = update_first p f steps in if p s then f s ∷ steps else s ∷ later

abbrev set_thought : Value → Value → Value → AnswerStep → AnswerStep
set_thought thought_ action workflow step = record step {
  thought = thought_;
  action = action;
  workflow = workflow;
}

abbrev set_output : Value → AnswerStep → AnswerStep
set_output output step = record step { output = some output }

unfoldable pub merge_stream_event : List AnswerStep → StreamEvent → List AnswerStep
unfolding update_first
merge_stream_event steps (thought n said action workflow) =
    let step : AnswerStep = record {
      iteration = n;
      thought = said;
      action = action;
      workflow = workflow;
      output = none;
    } in
    if any (at_iteration n) steps
    then update_first (at_iteration n) (set_thought said action workflow) steps
    else steps ++ step ∷ []
merge_stream_event steps (observation n output) =
    update_first (at_iteration n) (set_output output) steps
merge_stream_event steps (final answer usage) = steps
merge_stream_event steps (other kind) = steps

-- `usage[key] = value`: a key that is there keeps its place.
abbrev set_field : String → Value → Fields → Fields
set_field key value end = field key value end
set_field key value (field k v fs) =
    let later = set_field key value fs in if k == key then field key value fs else field k v later

unfoldable pub add_telegram_runtime_metadata : Fields → Fields
add_telegram_runtime_metadata token_usage =
    set_field "model_name" (text "gpt-4o-mini + operational workflow")
      (set_field "runtime_label" (text "IOA v3 · Ops Graph") token_usage)

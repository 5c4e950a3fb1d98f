-- ===== src/TelegramBot/Turns.antt =====
-- What `process_telegram_update` of services/telegram_service.py does with a message that it claimed:
-- the guards, the agent's run and the answer. The application gives all of the optional arguments.

use iot_ops_agent.Prelude.{
  ℕ, String, Bool, Option, none, some, List, [], ◌∷◌, ◌++◌, map, length, if◌then◌else◌,
}
use iot_ops_agent.Prelude.Result.{Result, ok, err}
use iot_ops_agent.DataSources.{contains, deserialize_data_sources, text_or}
use iot_ops_agent.MongoProxy.Documents.{Fields}
use iot_ops_agent.Database.{TelegramIdentity}
use iot_ops_agent.TelegramLink.{resolve_telegram_identity}
use iot_ops_agent.TelegramBot.{
  Message, StreamEvent, thought, observation, final, other, AnswerStep, Run, Notice,
  telegram_chat_started, telegram_reasoning_event, telegram_chat_completed, Bot, Outcome, help_sent,
  forbidden, data_source_not_allowed, answered, Times, Services, M, ◌>>=◌, ◌>>◌, return,
}
use iot_ops_agent.TelegramBot.Commands.{
  Routed, ask, help, normalize_telegram_prompt, telegram_message_starts_new_topic,
  get_telegram_device_suggestions,
}
use iot_ops_agent.TelegramBot.Sending.{send_telegram_message}
use iot_ops_agent.TelegramBot.History.{
  make_chat_title, Started, start_telegram_history, finish_telegram_history, merge_stream_event,
  add_telegram_runtime_metadata,
}
use iot_ops_agent.TelegramBot.Handlers.{
  handle_telegram_link_command, handle_telegram_unlink_command,
}

unfoldable pub data_source_is_allowed : TelegramIdentity → String → Bool
data_source_is_allowed identity data_source =
    contains data_source (deserialize_data_sources identity.allowed_data_sources)

-- What the loop over the agent's events keeps.
pub record Progress : Type 0 where
  pub steps : List AnswerStep
  pub final_answer : String
  pub token_usage : Option Fields

abbrev with_final : StreamEvent → Progress → Progress
with_final (final answer usage) p = record p {
  final_answer = text_or answer p.final_answer;
  token_usage = some (add_telegram_runtime_metadata usage);
}
with_final (thought n said action workflow) p = p
with_final (observation n output) p = p
with_final (other kind) p = p

unfoldable pub consume : List StreamEvent → Progress → Progress
consume [] p = p
consume (event ∷ events) p =
    consume events (with_final event (record p { steps = merge_stream_event p.steps event }))

abbrev pub no_progress : Progress
no_progress = record { steps = []; final_answer = "No answer was generated."; token_usage = none }

unfoldable pub emit : ℕ → Notice → Bot → Bot
emit user_id notice w = record w { emitted = w.emitted ++ (user_id, notice) ∷ [] }

abbrev reasoning : ℕ → ℕ → StreamEvent → ℕ × Notice
reasoning user_id chat_id event = (user_id, telegram_reasoning_event chat_id event)

-- What the agent was asked, and what its page is told of each event.
unfoldable pub ran : ℕ → ℕ → Run → List StreamEvent → Bot → Bot
ran user_id chat_id run events w = record w {
  runs = w.runs ++ run ∷ [];
  emitted = w.emitted ++ map (reasoning user_id chat_id) events;
}

module _ (e : Services) (t : Times) (message : Message) where
  unfoldable pub record_answer : ℕ → (chat_id : ℕ) → Progress → Bot → Bot
  record_answer user_id chat_id p w =
      let w₁ =
        finish_telegram_history e t.answered user_id chat_id p.final_answer p.steps p.token_usage
          w in
      emit user_id (telegram_chat_completed chat_id p.final_answer p.steps p.token_usage) w₁

  unfoldable pub complete_answer : ℕ → (chat_id : ℕ) → (created : Bool) → Progress → M Outcome
  complete_answer user_id chat_id created p w =
      (send_telegram_message e message.chat_id p.final_answer
          >> return (answered chat_id created (length p.steps)))
        (record_answer user_id chat_id p w)

  abbrev after_run : ℕ → ℕ → (created : Bool) → List StreamEvent → Option String → M Outcome
  after_run user_id chat_id created events (some raised) w = (err raised, w)
  after_run user_id chat_id created events none w =
      complete_answer user_id chat_id created (consume events no_progress) w

  abbrev pub started_notice : TelegramIdentity → ℕ → (new_topic created : Bool) → Notice
  started_notice identity chat_id new_topic created =
      telegram_chat_started chat_id (make_chat_title message.text) message.text
        identity.telegram_user_id identity.role new_topic created

  unfoldable pub answer_in :
      TelegramIdentity → Run → (new_topic : Bool) → Started → Result String Outcome × Bot
  answer_in identity run new_topic ((chat_id, created), w) =
      let w₁ = emit identity.user_id (started_notice identity chat_id new_topic created) w in
      let (events, raised) = e.run_stream run in
      after_run identity.user_id chat_id created events raised
        (ran identity.user_id chat_id run events w₁)

  -- `prompt` is for the agent; the message itself goes into the history.
  unfoldable pub answer_prompt : TelegramIdentity → (data_source prompt : String) → M Outcome
  answer_prompt identity data_source prompt w =
      let new_topic = telegram_message_starts_new_topic e.lower message.text in
      let run : Run = record {
        prompt = prompt;
        data_source = data_source;
        source_resolution = e.resolve_source_context data_source;
        user_id = identity.user_id;
      } in
      answer_in identity run new_topic
        (start_telegram_history t identity.user_id message new_topic w)

  abbrev pub answer_routed : TelegramIdentity → (data_source : String) → Routed → M Outcome
  answer_routed identity data_source (help text) =
      send_telegram_message e message.chat_id text >> return help_sent
  answer_routed identity data_source (ask prompt) = answer_prompt identity data_source prompt

  unfoldable pub answer_allowed : TelegramIdentity → (data_source : String) → M Outcome
  answer_allowed identity data_source w =
      let catalog = e.get_telegram_prompt_catalog identity.user_id data_source w.db in
      let suggestions = get_telegram_device_suggestions 5 e.coverage in
      answer_routed identity data_source
        (normalize_telegram_prompt e.lower suggestions catalog message.text) w

  unfoldable pub answer_identity : TelegramIdentity → M Outcome
  answer_identity identity w =
      let data_source = e.get_user_data_source identity.user_id w.db in
      let refused =
        (send_telegram_message e message.chat_id
              "You are not allowed to use the selected IoT Ops Agent data source."
            >> return (data_source_not_allowed data_source))
          w in
      let result = answer_allowed identity data_source w in
      if data_source_is_allowed identity data_source then result else refused

  abbrev answer_resolved : Result String TelegramIdentity → M Outcome
  answer_resolved (err reason) =
      send_telegram_message e message.chat_id "You are not allowed to use this IoT Ops Agent bot."
      >> return (forbidden reason)
  answer_resolved (ok identity) = answer_identity identity

  unfoldable pub answer_sender : M Outcome
  answer_sender w =
      answer_resolved (resolve_telegram_identity e.allowed_user_ids message.telegram_user_id w.db) w

  abbrev pub unless_handled : M Outcome → Option Outcome → M Outcome
  unless_handled next (some outcome) = return outcome
  unless_handled next none = next

  -- The body of the `try`.
  unfoldable pub respond : M Outcome
  respond =
      handle_telegram_link_command e t message
      >>= unless_handled
          (handle_telegram_unlink_command e t message >>= unless_handled answer_sender)

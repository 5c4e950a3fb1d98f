-- ===== src/Tests/Company.antt =====
-- A Telegram user whose identity allows the company's data asks the agent of the application.
use iot_ops_agent.Prelude.{◌≡◌, refl, true, none, some, [], ◌∷◌, All}
use iot_ops_agent.Prelude.Text.{strip, split}
use iot_ops_agent.Prelude.Text.Words.{before, after, holds}
use iot_ops_agent.DataSources.{deserialize_data_sources, clean}
use iot_ops_agent.Database.{TelegramIdentity, Db}
use iot_ops_agent.Database.Links.{get_telegram_identity}
use iot_ops_agent.TelegramLink.{resolve_telegram_identity, telegram_user_is_allowed}
use iot_ops_agent.TelegramUpdates.{expire, claim_telegram_update}
use iot_ops_agent.TelegramBot.{Message, extract_message, Run, Services}
use iot_ops_agent.TelegramBot.Commands.{
  command_of, parse_link_command, is_unlink_command, normalize_telegram_command_name,
  build_telegram_command_prompt_map, normalize_telegram_prompt, telegram_message_starts_new_topic,
}
use iot_ops_agent.TelegramBot.Sending.{split_telegram_text, post_chunks, send_telegram_message}
use iot_ops_agent.TelegramBot.Turns.{
  data_source_is_allowed, respond, answer_sender, answer_identity, answer_allowed, answer_prompt,
  answer_in, ran, emit, consume, complete_answer, record_answer,
}
use iot_ops_agent.TelegramBot.History.{
  start_telegram_history, start_created, continued_chat, create_history, finish_telegram_history,
  save_question, merge_stream_event,
}
use iot_ops_agent.TelegramBot.Handlers.{
  handle_telegram_link_command, handle_telegram_unlink_command,
}
use iot_ops_agent.Database.Chats.{create_chat, chat_belongs_to_user}
use iot_ops_agent.ChatService.{save_chat_message}
use iot_ops_agent.TelegramBot.Webhook.{World, process_telegram_update}
use iot_ops_agent.DataSources.{contains}
use iot_ops_agent.Database.Users.{get_user_data_source_policy}
use iot_ops_agent.SourceSelection.{
  Selections, get_allowed_data_sources, get_user_selected_data_source,
  resolve_agent_operational_context,
}
use iot_ops_agent.SourceSelection.Laws.{get_user_selected_data_source-allowed}
use iot_ops_agent.IoaV3.Stream.{run_stream}
use iot_ops_agent.TelegramBot.Agent.{request_of, IsCleared, process-IsCleared}
use iot_ops_agent.Tests.Bot.{services, times, identity, linked, world, update}
use iot_ops_agent.Tests.Workflows

abbrev company_services : Services
company_services = record services {
  get_user_data_source = λ user_id db. "company";
  resolve_source_context = resolve_agent_operational_context (λ s. s) "sqlite" none;
}

abbrev cleared_identity : TelegramIdentity
cleared_identity = record identity { allowed_data_sources = "simulator,company" }

abbrev company_db : Db
company_db = record linked {
  telegram_identities = record { rows = cleared_identity ∷ []; seq = 1 };
}

abbrev company_world : World
company_world = record world { bot = record (world.bot) { db = company_db } }

abbrev company_run : Run
company_run = record {
  prompt = "Give me an overview";
  data_source = "company";
  source_resolution = resolve_agent_operational_context (λ s. s) "sqlite" none "company";
  user_id = 1;
}

ran_once :
    (process_telegram_update company_services times update company_world).1.bot.runs
    ≡ company_run ∷ []
unfolding process_telegram_update extract_message strip claim_telegram_update expire respond
    handle_telegram_link_command handle_telegram_unlink_command parse_link_command is_unlink_command
    command_of before after answer_sender resolve_telegram_identity telegram_user_is_allowed
    get_telegram_identity answer_identity data_source_is_allowed deserialize_data_sources clean
    split answer_allowed normalize_telegram_prompt normalize_telegram_command_name
    build_telegram_command_prompt_map holds answer_prompt answer_in start_telegram_history
    start_created continued_chat create_history create_chat save_question save_chat_message
    chat_belongs_to_user ran emit consume merge_stream_event complete_answer record_answer
    send_telegram_message post_chunks split_telegram_text telegram_message_starts_new_topic
    finish_telegram_history
ran_once = refl

process-IsCleared_example :
    (m : Message) × (extract_message update ≡ some m)
    × All
        (IsCleared
          (λ s. s)
          none
          Workflows.services
          company_services
          m
          company_world.bot
          company_run)
        (run_stream Workflows.services (request_of company_run)).state.calls
process-IsCleared_example =
    process-IsCleared (λ s. s) "sqlite" none Workflows.services company_services (λ source. refl)
      times update company_world company_run ran_once

abbrev selections : Selections
selections = record { sources = (1, "company") ∷ []; explicit = (1, true) ∷ [] }

simulator_allowed : contains "simulator" (get_allowed_data_sources 1 linked) ≡ true
unfolding get_allowed_data_sources get_user_data_source_policy
simulator_allowed = refl

-- A selection that the policy no longer allows.
get_user_selected_data_source-allowed_example :
    contains
      (get_user_selected_data_source (some 1) selections linked)
      (get_allowed_data_sources 1 linked)
    ≡ true
get_user_selected_data_source-allowed_example =
    get_user_selected_data_source-allowed 1 selections linked simulator_allowed

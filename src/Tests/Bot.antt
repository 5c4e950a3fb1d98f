-- ===== src/Tests/Bot.antt =====
-- A linked Telegram user asks the bot, in a group that Telegram delivers as update u7.
use iot_ops_agent.Prelude.{
  ◌≡◌, refl, true, none, some, [], ◌∷◌, ◌⊎◌, arith, ap, sym, ◌∙◌, All, List,
}
use iot_ops_agent.Prelude.Text.{strip, split}
use iot_ops_agent.Prelude.Text.Words.{before, after, holds}
use iot_ops_agent.Prelude.Result.{ok, err}
use iot_ops_agent.MongoProxy.Documents.{null, text, end}
use iot_ops_agent.DataSources.{deserialize_data_sources, clean}
use iot_ops_agent.Database.{TelegramIdentity, Db, init_db}
use iot_ops_agent.Database.Links.{get_telegram_identity}
use iot_ops_agent.Database.References.{IsValid}
use iot_ops_agent.TelegramLink.{Platform, resolve_telegram_identity, telegram_user_is_allowed}
use iot_ops_agent.TelegramUpdates.{expire, claim_telegram_update}
use iot_ops_agent.TelegramBot.{
  Incoming, Update, Message, extract_message, thought, observation, final, duplicate, answered,
  Times, Services,
}
use iot_ops_agent.TelegramBot.Commands.{
  command_of, parse_link_command, is_unlink_command, normalize_telegram_command_name,
  build_telegram_command_prompt_map, normalize_telegram_prompt, telegram_message_starts_new_topic,
}
use iot_ops_agent.TelegramBot.Sending.{split_telegram_text, post_chunks, send_telegram_message}
use iot_ops_agent.TelegramBot.Chunks.{concatenated, Fits, split_telegram_text-lossless}
use iot_ops_agent.TelegramBot.Access.{Footprint, process-Footprint}
use iot_ops_agent.TelegramBot.Isolation.{ShownSame, NotSentBy, process-IsValid, process-ShownSame}
use iot_ops_agent.TelegramBot.Deliveries.{claim-process_raised}
use iot_ops_agent.TelegramBot.Redelivery.{process_all, process_twice}
use iot_ops_agent.TelegramBot.Turns.{
  data_source_is_allowed, respond, answer_sender, answer_identity, answer_allowed, answer_prompt,
  answer_in, ran, emit, consume, complete_answer, record_answer,
}
use iot_ops_agent.TelegramBot.History.{
  start_telegram_history, start_created, continued_chat, create_history, save_question,
  merge_stream_event,
}
use iot_ops_agent.TelegramBot.Handlers.{
  handle_telegram_link_command, handle_telegram_unlink_command,
}
use iot_ops_agent.Database.Chats.{create_chat, chat_belongs_to_user}
use iot_ops_agent.ChatService.{save_chat_message}
use iot_ops_agent.TelegramBot.Webhook.{World, process_telegram_update}

abbrev platform : Platform
platform = record {
  upper = λ s. s;
  is_alnum = λ _. true;
  sha256_hex = λ s. s;
  instant = λ _. 100;
  isoformat = λ _. "now";
}

-- The agent thinks, reads and answers.
abbrev pub services : Services
services = record {
  platform = platform;
  lower = λ s. s;
  bot_token = "secret";
  allowed_user_ids = "";
  retention = 60;
  render = λ s. s;
  post = λ sent m. none;
  get_user_data_source = λ user_id db. "simulator";
  get_telegram_prompt_catalog = λ user_id source db.
      record { title = "Overview"; shortcut = "/overview"; command = "Give me an overview" } ∷ [];
  coverage = none;
  resolve_source_context = λ source. ("selected_source", text source) ∷ [];
  run_stream = λ run. (
    thought 1 (text "look") (text "read") null
        ∷ observation 1 (text "2 devices")
        ∷ final "Two devices" end
        ∷ [],
    none,
  );
  dumps_steps = λ steps. none;
  dumps_usage = λ usage. none;
}

abbrev pub times : Times
times = record {
  claimed = 10;
  completed = 12;
  linked = 10;
  created = "t1";
  asked = "t2";
  created_again = "t3";
  asked_again = "t4";
  answered = "t5";
}

abbrev later : Times
later = record times { claimed = 40; completed = 41 }

abbrev pub identity : TelegramIdentity
identity = record {
  id = 1;
  telegram_user_id = "77";
  user_id = 1;
  telegram_username = none;
  role = "viewer";
  allowed_data_sources = "simulator";
  is_active = true;
  created_at = "t0";
  updated_at = "t0";
}

abbrev pub linked : Db
linked = record init_db { telegram_identities = record { rows = identity ∷ []; seq = 1 } }

abbrev pub world : World
world = record {
  updates = record { inflight = []; processed = [] };
  bot = record { db = linked; active = []; sent = []; runs = []; emitted = [] };
}

abbrev incoming : Incoming
incoming = record {
  text = " /overview ";
  chat_id = some "5";
  from_id = some "77";
  from_username = none;
}

abbrev pub update : Update
update = record { update_id = some "u7"; message = some incoming; edited_message = none }

abbrev pub message : Message
message = record {
  chat_id = "5";
  telegram_user_id = some "77";
  telegram_username = none;
  text = "/overview";
}

found : extract_message update ≡ some message
unfolding extract_message strip
found = refl

claimed :
    (claim_telegram_update services.retention times.claimed update.update_id world.updates).0.1
    ≡ true
unfolding claim_telegram_update expire
claimed = refl

resolved : resolve_telegram_identity "" (some "77") linked ≡ ok identity
unfolding resolve_telegram_identity telegram_user_is_allowed get_telegram_identity
resolved = refl

linked-IsValid : IsValid linked
linked-IsValid = record { chats = omega arith; messages = omega arith; no_orphans = tt }

process-Footprint_example :
    ((process_telegram_update services times update world).1.bot ≡ world.bot)
    ⊎ ((m : Message) × (extract_message update ≡ some m)
        × Footprint services m world.bot
            (process_telegram_update services times update world).1.bot)
process-Footprint_example = process-Footprint services times update world

process-IsValid_example : IsValid (process_telegram_update services times update world).1.bot.db
process-IsValid_example = process-IsValid services times update world linked-IsValid

-- The sender is user 1.
not_user_2 : (m : Message) → extract_message update ≡ some m → NotSentBy services world.bot 2 m
not_user_2 m same i is_identity two =
    let sender : m ≡ message = cc (same, found) in
    let known : ok identity ≡ ok i = sym resolved ∙ (rw sender at is_identity) in
    let user : i ≡ identity = cc known in
    absurd (omega (arith, two, ap (λ (j : TelegramIdentity). j.user_id) user))

process-ShownSame_example :
    ShownSame 2 linked (process_telegram_update services times update world).1.bot.db
process-ShownSame_example =
    process-ShownSame services times update world linked-IsValid 2 not_user_2

-- Telegram refuses the answer.
abbrev unreachable : Services
unreachable = record services { post = λ sent m. some "503" }

outcomes :
    ((process_telegram_update services times update world).0 ≡ ok (answered 1 true 1))
    × ((process_telegram_update unreachable times update world).0 ≡ err "503")
unfolding process_telegram_update extract_message strip claim_telegram_update expire respond
    handle_telegram_link_command handle_telegram_unlink_command parse_link_command is_unlink_command
    command_of before after answer_sender resolve_telegram_identity telegram_user_is_allowed
    get_telegram_identity answer_identity data_source_is_allowed deserialize_data_sources clean
    split answer_allowed normalize_telegram_prompt normalize_telegram_command_name
    build_telegram_command_prompt_map holds answer_prompt answer_in start_telegram_history
    start_created continued_chat create_history create_chat save_question save_chat_message
    chat_belongs_to_user ran emit consume merge_stream_event complete_answer record_answer
    send_telegram_message post_chunks split_telegram_text telegram_message_starts_new_topic
outcomes = (refl, refl)

-- Another question, and the same update again.
abbrev between : List (Times × Update)
between = (later, record update { update_id = some "u8" }) ∷ (later, update) ∷ []

process_twice_example :
    let w' = process_all services between (process_telegram_update services times update world).1 in
    let again = process_telegram_update services later update w' in
    (again.0 ≡ ok duplicate) × (again.1.bot ≡ w'.bot)
process_twice_example =
    process_twice services times later update "u7" world (answered 1 true 1) between refl outcomes.0
      (λ e. cc e) (λ e. cc e) (omega arith) (omega arith) (omega arith, (omega arith, tt))

claim-process_raised_example :
    (claim_telegram_update 60 13
      (some "u7")
      (process_telegram_update unreachable times update world).1.updates).0.1
    ≡ true
claim-process_raised_example =
    claim-process_raised unreachable times update "u7" world refl "503" 13 outcomes.1

split_telegram_text-lossless_example :
    (concatenated (split_telegram_text "Two devices") ≡ "Two devices")
    × All Fits (split_telegram_text "Two devices")
split_telegram_text-lossless_example = split_telegram_text-lossless "Two devices" refl

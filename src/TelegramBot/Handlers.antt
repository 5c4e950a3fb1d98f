-- ===== src/TelegramBot/Handlers.antt =====
-- The commands that services/telegram_service.py answers itself: linking and unlinking.
use iot_ops_agent.Prelude.{
  String, Bool, true, false, Option, none, some, List, [], ◌∷◌, find, ◌==◌, string_eq,
  if◌then◌else◌,
}
use iot_ops_agent.DataSources.{contains, deserialize_data_sources}
use iot_ops_agent.Database.{TelegramIdentity}
use iot_ops_agent.Database.Links.{get_telegram_identity}
use iot_ops_agent.TelegramLink.{consume_link_code, unlink_telegram_identity}
use iot_ops_agent.TelegramBot.{
  Message, Outcome, linked, unlinked, link_failed, unlink_failed, Times, Services, M, ◌>>=◌, ◌>>◌,
  return, on_db,
}
use iot_ops_agent.TelegramBot.Commands.{parse_link_command, is_unlink_command}
use iot_ops_agent.TelegramBot.Sending.{send_telegram_message}

abbrev value_or : Option (String × String) → String → String
value_or none other = other
value_or (some (key, value)) other = value

-- `texts.get(reason, other)`
abbrev text_of : String → List (String × String) → String → String
text_of reason texts other = value_or (find (λ t. t.0 == reason) texts) other

abbrev sources_of : Option TelegramIdentity → List String
sources_of none = []
sources_of (some identity) = deserialize_data_sources identity.allowed_data_sources

abbrev linked_text : Option TelegramIdentity → String
linked_text identity =
    if contains "company" (sources_of identity)
    then "Telegram is linked to your IoT Ops Agent account. Company DB access is enabled for this linked account."
    else "Telegram is linked to your IoT Ops Agent account. Default access is simulator only."

abbrev link_texts : List (String × String)
link_texts =
    ("invalid_code", "Invalid Telegram link code.")
    ∷ ("code_expired", "This Telegram link code has expired.")
    ∷ ("code_already_used", "This Telegram link code was already used.")
    ∷ (
      "telegram_already_linked",
      "This Telegram account is already linked to another IoT Ops Agent account.",
    )
    ∷ []

abbrev unlink_texts : List (String × String)
unlink_texts =
    ("missing_telegram_user_id", "Telegram could not identify your user ID for unlinking.")
    ∷ (
      "telegram_identity_not_mapped",
      "This Telegram account is not linked to an IoT Ops Agent account.",
    )
    ∷ ("telegram_identity_inactive", "This Telegram account link is already inactive.")
    ∷ []

module _ (e : Services) (t : Times) (message : Message) where
  abbrev pub link_reply : (telegram_user_id : String) → Bool × String → M Outcome
  link_reply telegram_user_id (true, reason) w =
      let identity = get_telegram_identity telegram_user_id w.db in
      (send_telegram_message e message.chat_id (linked_text identity) >> return linked) w
  link_reply telegram_user_id (false, reason) w =
      (send_telegram_message e message.chat_id
            (text_of reason link_texts "Unable to link this Telegram account.")
          >> return (link_failed reason))
        w

  abbrev pub link_with : (code : String) → Option String → M Outcome
  link_with code none =
      send_telegram_message e message.chat_id
        "Telegram could not identify your user ID for account linking."
      >> return (link_failed "missing_telegram_user_id")
  link_with code (some telegram_user_id) =
      on_db (consume_link_code e.platform t.linked code telegram_user_id message.telegram_username)
      >>= link_reply telegram_user_id

  abbrev pub handled : Option String → M (Option Outcome)
  handled none = return none
  handled (some code) = link_with code message.telegram_user_id >>= λ outcome. return (some outcome)

  unfoldable pub handle_telegram_link_command : M (Option Outcome)
  handle_telegram_link_command = handled (parse_link_command e.lower message.text)

  abbrev pub unlink_reply : Bool × String → M Outcome
  unlink_reply (true, reason) =
      send_telegram_message e message.chat_id
        "Telegram has been unlinked from your IoT Ops Agent account. Use a new link code from the platform to link it again."
      >> return unlinked
  unlink_reply (false, reason) =
      send_telegram_message e message.chat_id
        (text_of reason unlink_texts "Unable to unlink this Telegram account.")
      >> return (unlink_failed reason)

  abbrev pub unlink_answer : M Outcome
  unlink_answer =
      on_db (unlink_telegram_identity e.platform t.linked message.telegram_user_id) >>= unlink_reply

  unfoldable pub handle_telegram_unlink_command : M (Option Outcome)
  handle_telegram_unlink_command w =
      let result = (unlink_answer >>= λ outcome. return (some outcome)) w in
      if is_unlink_command e.lower message.text then result else return none w

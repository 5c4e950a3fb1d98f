-- ===== src/TelegramBot/Webhook.antt =====
-- `process_telegram_update` of services/telegram_service.py as a whole, its thread, and the route of
-- routes/telegram_routes.py that starts it.
use iot_ops_agent.Prelude.{
  ℕ, String, Bool, ◌||◌, Option, none, some, ◌==◌, string_eq, if◌then◌else◌,
}
use iot_ops_agent.Prelude.Text.{is_empty, strip}
use iot_ops_agent.Prelude.Result.{Result, ok, err}
use iot_ops_agent.TelegramUpdates.{
  Updates, claim_telegram_update, complete_telegram_update, release_telegram_update,
}
use iot_ops_agent.TelegramLink.{resolve_telegram_identity}
use iot_ops_agent.TelegramBot.{
  Update, Message, extract_message, Bot, Outcome, ignored, duplicate, Times, Services,
  telegram_chat_failed,
}
use iot_ops_agent.TelegramBot.Sending.{send_telegram_message}
use iot_ops_agent.TelegramBot.Turns.{respond, emit}

-- The claims and the rest of the state.
pub record World : Type 0 where
  pub updates : Updates
  pub bot : Bot

abbrev pub Processed : Type 0
Processed = Result String Outcome × World

-- The update is complete where the body returned, also where it completes it and returns early.
abbrev pub settled : Times → Option String → Updates → Result String Outcome × Bot → Processed
settled t key u (ok outcome, bot) =
    (ok outcome, record { updates = complete_telegram_update t.completed key u; bot = bot })
settled t key u (err raised, bot) =
    (err raised, record { updates = release_telegram_update key u; bot = bot })

unfoldable pub telegram_secret_is_valid : (expected_secret request_secret : String) → Bool
unfolding strip
telegram_secret_is_valid expected_secret request_secret =
    is_empty (strip expected_secret) || request_secret == strip expected_secret

module _ (e : Services) where
  abbrev claimed_message : Times → Message → Bot → (Option String × Bool) × Updates → Processed
  claimed_message t message bot ((key, claimed), u) =
      let result = settled t key u (respond e t message bot) in
      if claimed then result else (ok duplicate, record { updates = u; bot = bot })

  abbrev process_message : Times → (update_id : Option String) → Option Message → World → Processed
  process_message t update_id none w = (ok ignored, w)
  process_message t update_id (some message) w =
      claimed_message t message w.bot
        (claim_telegram_update e.retention t.claimed update_id w.updates)

  unfoldable pub process_telegram_update : Times → Update → World → Processed
  process_telegram_update t update w = process_message t update.update_id (extract_message update) w

  abbrev user_of_sender : Message → Bot → Option ℕ → Option ℕ
  user_of_sender message w other =
      elim (resolve_telegram_identity e.allowed_user_ids message.telegram_user_id w.db) [
        | ok identity ↦ some identity.user_id
        | err reason ↦ other
      ]

  -- `history_user_id` is `get_history_user_id()`.
  unfoldable pub get_telegram_failure_user_id :
      (history_user_id : Option ℕ) → Option Message → Bot → Option ℕ
  get_telegram_failure_user_id history_user_id none w = history_user_id
  get_telegram_failure_user_id history_user_id (some message) w =
      user_of_sender message w history_user_id

  abbrev notify : Option Message → Bot → Bot
  notify none w = w
  notify (some message) w =
      (send_telegram_message e message.chat_id
        "Telegram request failed before the IoT Ops Agent could finish processing it. Please try again in a moment or check the server logs."
        w).1

  abbrev emit_failure : Option ℕ → Bot → Bot
  emit_failure none w = w
  emit_failure (some user_id) w = emit user_id telegram_chat_failed w

  abbrev after_failure : (history_user_id : Option ℕ) → Option Message → Processed → World
  after_failure history_user_id message (ok outcome, w) = w
  after_failure history_user_id message (err raised, w) =
      let user_id = get_telegram_failure_user_id history_user_id message w.bot in
      record w { bot = emit_failure user_id (notify message w.bot) }

  -- `run` of `process_telegram_update_in_background`.
  unfoldable pub process_in_background :
      (history_user_id : Option ℕ) → Times → Update → World → World
  process_in_background history_user_id t update w =
      after_failure history_user_id (extract_message update) (process_telegram_update t update w)

  -- The HTTP status; `expected_secret` is TELEGRAM_WEBHOOK_SECRET, "" where it is not set. The thread
  -- runs to its end.
  unfoldable pub telegram_webhook :
      (expected_secret request_secret : String)
      → (history_user_id : Option ℕ) → Times
      → Update
      → World
      → ℕ × World
  telegram_webhook expected_secret request_secret history_user_id t update w =
      let processed = process_in_background history_user_id t update w in
      if is_empty e.bot_token
      then (503, w)
      else if telegram_secret_is_valid expected_secret request_secret
      then (200, processed)
      else (403, w)

-- ===== src/TelegramBot/Sending.antt =====
-- How services/telegram_service.py cuts and posts a text. A text is rendered before it is cut.

use iot_ops_agent.Prelude.{
  ℕ, zero, suc, String, Option, none, some, List, [], ◌∷◌, ◌++◌, leb, if◌then◌else◌,
}
use iot_ops_agent.Prelude.Text.{is_empty, first_chars}
use iot_ops_agent.Prelude.Text.Words.{text_length}
use iot_ops_agent.Prelude.Result.{ok, err}
use iot_ops_agent.TelegramBot.{Sent, Services, M, continue}

abbrev pub max_telegram_message_chars : ℕ
max_telegram_message_chars = 3900

-- `text[n:]`
unfoldable pub rest_chars : ℕ → String → String
rest_chars zero s = s
rest_chars (suc n) String.[] = String.[]
rest_chars (suc n) (String.◌∷◌ c s) = rest_chars n s

-- `while remaining:`; `fuel` bounds the rounds.
unfoldable pub chunks : (size fuel : ℕ) → String → List String
chunks size zero s = []
chunks size (suc n) s =
    let later = chunks size n (rest_chars size s) in
    if is_empty s then [] else first_chars size s ∷ later

unfoldable pub split_telegram_text : String → List String
unfolding chunks
split_telegram_text text =
    if leb (text_length text) max_telegram_message_chars
    then text ∷ []
    else chunks max_telegram_message_chars (text_length text) text

module _ (e : Services) where
  abbrev posted : Sent → Option String → M (Unit {0})
  posted message none w = (ok tt, record w { sent = w.sent ++ message ∷ [] })
  posted message (some raised) w = (err raised, w)

  unfoldable pub post_chunks : (chat_id : String) → List String → M (Unit {0})
  post_chunks chat_id [] w = (ok tt, w)
  post_chunks chat_id (chunk ∷ later) w =
      let message : Sent = record { chat_id = chat_id; text = chunk } in
      let (result, after) = posted message (e.post w.sent message) w in
      continue result (λ _. post_chunks chat_id later) after

  unfoldable pub send_telegram_message : (chat_id text : String) → M (Unit {0})
  unfolding post_chunks split_telegram_text
  send_telegram_message chat_id text w =
      if is_empty e.bot_token
      then (err "TELEGRAM_BOT_TOKEN is not configured.", w)
      else post_chunks chat_id (split_telegram_text (e.render text)) w

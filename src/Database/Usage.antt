-- ===== src/Database/Usage.antt =====
-- `get_user_usage_stats` of storage/sqlite_store.py. What `json.loads` and datetime make of a stored
-- `token_usage` and its time is a parameter: the tokens that it adds to today's total, 0 where the
-- source skips the row.
use iot_ops_agent.Prelude.{
  ℕ, suc, ◌+◌, String, ◌≡◌, refl, Bool, Option, none, some, List, [], ◌∷◌, arith, select, discard,
  any, length, if◌then◌else◌,
}
use iot_ops_agent.Database.{Message, TelemetryRow, Db}
use iot_ops_agent.Database.Chats.{owned, chat_id_in}
use iot_ops_agent.Database.Users.{custom_of, delete_user_account}
use iot_ops_agent.Database.Telemetry.{of_device}

pub record UsageStats : Type 0 where
  pub chat_count : ℕ
  pub message_count : ℕ
  pub custom_prompt_count : ℕ
  pub device_count : ℕ
  pub today_token_total : ℕ

-- COUNT(DISTINCT device_id)
abbrev pub device_count : List TelemetryRow → ℕ
device_count [] = 0
device_count (t ∷ rest) =
    let others = device_count rest in
    if any (of_device t.device_id) rest then others else suc others

abbrev tokens_of : (tokens_today : String → String → ℕ) → Message → Option String → ℕ
tokens_of tokens_today m none = 0
tokens_of tokens_today m (some usage) = tokens_today usage m.created_at

abbrev pub token_total : (tokens_today : String → String → ℕ) → List Message → ℕ
token_total tokens_today [] = 0
token_total tokens_today (m ∷ ms) =
    tokens_of tokens_today m m.token_usage + token_total tokens_today ms

unfoldable pub get_user_usage_stats : (tokens_today : String → String → ℕ) → ℕ → Db → UsageStats
get_user_usage_stats tokens_today user_id db =
    let chats = select (owned user_id) db.chats.rows in
    let messages = select (chat_id_in chats) db.messages.rows in
    record {
      chat_count = length chats;
      message_count = length messages;
      custom_prompt_count = length (select (custom_of user_id) db.prompts.rows);
      device_count = device_count db.telemetry.rows;
      today_token_total = token_total tokens_today messages;
    }

select-discard_self : {A : Type 0} (p : A → Bool) (xs : List A) → select p (discard p xs) ≡ []
select-discard_self p [] = refl
select-discard_self p (x ∷ xs) = ground (arith, select-discard_self p xs)

select-chats_nil : (ms : List Message) → select (chat_id_in []) ms ≡ []
select-chats_nil [] = refl
select-chats_nil (m ∷ ms) = select-chats_nil ms

-- After an account is deleted, its user has no chats, no messages, no prompts of its own and no
-- tokens, and the devices are as many as before.
usage-delete_user_account :
    (tokens_today : String → String → ℕ) (user_id : ℕ) (db : Db)
    → get_user_usage_stats tokens_today user_id (delete_user_account user_id db).1 ≡ record {
      chat_count = 0;
      message_count = 0;
      custom_prompt_count = 0;
      device_count = (get_user_usage_stats tokens_today user_id db).device_count;
      today_token_total = 0;
    }
unfolding get_user_usage_stats delete_user_account
usage-delete_user_account tokens_today user_id db = rw (
  select-discard_self (owned user_id) db.chats.rows,
  select-discard_self (custom_of user_id) db.prompts.rows,
  select-chats_nil (discard (chat_id_in (select (owned user_id) db.chats.rows)) db.messages.rows),
)

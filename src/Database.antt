-- ===== src/Database.antt =====
-- storage/sqlite_store.py: the tables that `init_db` creates. Columns that hold 0 or 1 are `Bool`; a
-- chat's `user_id` is never null, as `create_chat` sets it; `created_at` of prompts, which nothing
-- reads, is left out.
-- `FOREIGN KEY` clauses are inert: `get_connection` never turns `PRAGMA foreign_keys` on, so only the
-- statements in the functions themselves keep references whole. The functions stand in the modules
-- below; each takes the value of `now_iso()` that it writes.
pub mod Tables
pub mod Chats
pub mod Prompts
pub mod Users
pub mod Links
pub mod Telemetry
pub mod Usage
pub mod Isolation
pub mod References
use iot_ops_agent.Prelude.{ℕ, String, Bool, Option}
use Tables.{Table, empty}

pub record Chat : Type 0 where
  pub id : ℕ
  pub user_id : ℕ
  pub title : String
  pub created_at : String
  pub is_pinned : Bool

pub record Message : Type 0 where
  pub id : ℕ
  pub chat_id : ℕ
  pub role : String
  pub content : String
  pub reasoning_steps : Option String
  pub token_usage : Option String
  pub created_at : String

pub record User : Type 0 where
  pub id : ℕ
  pub username : String
  pub password_hash : String
  pub created_at : String
  pub allowed_data_sources : String
  pub default_data_source : String

pub record Prompt : Type 0 where
  pub id : ℕ
  pub user_id : ℕ
  pub title : String
  pub command : String
  pub category : String
  pub is_default : Bool

pub record TelegramIdentity : Type 0 where
  pub id : ℕ
  pub telegram_user_id : String
  pub user_id : ℕ
  pub telegram_username : Option String
  pub role : String
  pub allowed_data_sources : String
  pub is_active : Bool
  pub created_at : String
  pub updated_at : String

pub record LinkCode : Type 0 where
  pub id : ℕ
  pub code_hash : String
  pub user_id : ℕ
  pub expires_at : String
  pub used_at : Option String
  pub created_at : String

pub record TelemetryRow : Type 0 where
  pub id : ℕ
  pub device_id : String
  pub timestamp : String
  pub cpu_usage : ℕ
  pub memory_usage : ℕ
  pub heartbeat_delay : ℕ
  pub status : String
  pub log_message : Option String
  pub alarm_name : Option String
  pub alarm_severity : Option String

pub record Db : Type 0 where
  pub telemetry : Table TelemetryRow
  pub chats : Table Chat
  pub messages : Table Message
  pub users : Table User
  pub prompts : Table Prompt
  pub telegram_identities : Table TelegramIdentity
  pub telegram_link_codes : Table LinkCode

abbrev pub init_db : Db
init_db = record {
  telemetry = empty;
  chats = empty;
  messages = empty;
  users = empty;
  prompts = empty;
  telegram_identities = empty;
  telegram_link_codes = empty;
}

-- ===== src/Database/Links.antt =====
-- The Telegram identities and link codes of storage/sqlite_store.py.
use iot_ops_agent.Prelude.{
  ℕ, String, Bool, false, ◌&&◌, Option, none, some, update, any, find, is_some, ◌==◌, nat_eq,
  string_eq, not, if◌then◌else◌,
}
use iot_ops_agent.Prelude.Result.{Result, ok, err}
use iot_ops_agent.DataSources.{Sources, serialize_data_sources, text_or}
use iot_ops_agent.Database.Tables.{insert}
use iot_ops_agent.Database.{TelegramIdentity, LinkCode, Db}
use iot_ops_agent.Database.Users.{DbError, integrity_error}

abbrev pub has_telegram_id : String → TelegramIdentity → Bool
has_telegram_id telegram_user_id i = i.telegram_user_id == telegram_user_id

-- `excluded.…` of the ON CONFLICT clause: `id` and `created_at` stay.
abbrev pub overwritten : TelegramIdentity → TelegramIdentity → TelegramIdentity
overwritten new old = record new { id = old.id; created_at = old.created_at }

-- The row of VALUES under the key `id`.
abbrev pub identity_row :
    (now telegram_user_id : String)
    → ℕ
    → Option String
    → (role : String) → Sources
    → (is_active : Bool) → (id : ℕ) → TelegramIdentity
identity_row now telegram_user_id user_id telegram_username role sources is_active id = record {
  id = id;
  telegram_user_id = telegram_user_id;
  user_id = user_id;
  telegram_username = telegram_username;
  role = text_or role "viewer";
  allowed_data_sources = serialize_data_sources sources;
  is_active = is_active;
  created_at = now;
  updated_at = now;
}

unfoldable pub upsert_telegram_identity :
    (now telegram_user_id : String)
    → ℕ
    → Option String
    → (role : String) → Sources
    → (is_active : Bool) → Db
    → Db
upsert_telegram_identity now telegram_user_id user_id telegram_username role sources is_active db =
    let row = identity_row now telegram_user_id user_id telegram_username role sources is_active in
    let t = db.telegram_identities in
    if any (has_telegram_id telegram_user_id) t.rows
    then record db {
      telegram_identities = record t {
        rows = update (has_telegram_id telegram_user_id) (overwritten (row 0)) t.rows;
      };
    }
    else record db { telegram_identities = insert row t }

unfoldable pub get_telegram_identity : String → Db → Option TelegramIdentity
get_telegram_identity telegram_user_id db =
    find (has_telegram_id telegram_user_id) db.telegram_identities.rows

abbrev deactivated : String → TelegramIdentity → TelegramIdentity
deactivated now i = record i { is_active = false; updated_at = now }

unfoldable pub deactivate_telegram_identity : (now telegram_user_id : String) → Db → Bool × Db
deactivate_telegram_identity now telegram_user_id db =
    let t = db.telegram_identities in
    (
      any (has_telegram_id telegram_user_id) t.rows,
      record db {
        telegram_identities = record t {
          rows = update (has_telegram_id telegram_user_id) (deactivated now) t.rows;
        };
      },
    )

abbrev pub has_hash : String → LinkCode → Bool
has_hash code_hash c = c.code_hash == code_hash

unfoldable pub create_telegram_link_code :
    (now code_hash : String) → ℕ → (expires_at : String) → Db → Result DbError Db
create_telegram_link_code now code_hash user_id expires_at db =
    let row = λ (id : ℕ).
      let c : LinkCode = record {
        id = id;
        code_hash = code_hash;
        user_id = user_id;
        expires_at = expires_at;
        used_at = none;
        created_at = now;
      } in
      c in
    if any (has_hash code_hash) db.telegram_link_codes.rows
    then err integrity_error
    else ok (record db { telegram_link_codes = insert row db.telegram_link_codes })

unfoldable pub get_telegram_link_code : String → Db → Option LinkCode
get_telegram_link_code code_hash db = find (has_hash code_hash) db.telegram_link_codes.rows

-- WHERE code_hash = ? AND used_at IS NULL
abbrev pub is_unused : String → LinkCode → Bool
is_unused code_hash c = has_hash code_hash c && not (is_some c.used_at)

abbrev pub set_used : String → LinkCode → LinkCode
set_used now c = record c { used_at = some now }

unfoldable pub mark_telegram_link_code_used : (now code_hash : String) → Db → Bool × Db
mark_telegram_link_code_used now code_hash db =
    let t = db.telegram_link_codes in
    (
      any (is_unused code_hash) t.rows,
      record db {
        telegram_link_codes = record t {
          rows = update (is_unused code_hash) (set_used now) t.rows;
        };
      },
    )

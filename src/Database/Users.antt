-- ===== src/Database/Users.antt =====
-- The accounts of storage/sqlite_store.py. `generate_password_hash` and `check_password_hash` belong
-- to werkzeug: they are parameters, and `generate` takes the random salt that it draws.
use iot_ops_agent.Prelude.{
  ℕ, String, Bool, not, ◌&&◌, Option, none, some, List, [], ◌∷◌, select, discard, update, any, find,
  ◌==◌, nat_eq, string_eq, if◌then◌else◌,
}
use iot_ops_agent.Prelude.Result.{Result, ok, err}
use iot_ops_agent.DataSources.{
  Sources, listed, deserialize_data_sources, serialize_data_sources, contains, with_simulator,
  pick_default,
}
use iot_ops_agent.Database.Tables.{insert}
use iot_ops_agent.Database.{User, Prompt, Db}
use iot_ops_agent.Database.Chats.{owned, chat_id_in}

pub record PasswordHash : Type 0 where
  pub generate : (salt password : String) → String
  pub check : (hash password : String) → Bool

-- `sqlite3.IntegrityError`: a UNIQUE column would hold a value twice.
pub data DbError : Type 0 where
  integrity_error : DbError

abbrev pub has_name : String → User → Bool
has_name username u = u.username == username

abbrev pub has_id : ℕ → User → Bool
has_id user_id u = u.id == user_id

abbrev pub set_users : Db → List User → Db
set_users db rows = record db { users = record (db.users) { rows = rows } }

unfoldable pub create_user :
    PasswordHash → (salt now username password : String) → Db → Result DbError Db
create_user h salt now username password db =
    let row = λ (id : ℕ).
      let u : User = record {
        id = id;
        username = username;
        password_hash = h.generate salt password;
        created_at = now;
        allowed_data_sources = "simulator";
        default_data_source = "simulator";
      } in
      u in
    if any (has_name username) db.users.rows
    then err integrity_error
    else ok (record db { users = insert row db.users })

unfoldable pub get_user_by_username : String → Db → Option User
get_user_by_username username db = find (has_name username) db.users.rows

abbrev checked : PasswordHash → String → Option User → Option User
checked h password none = none
checked h password (some user) = if h.check user.password_hash password then some user else none

unfoldable pub verify_user : PasswordHash → (username password : String) → Db → Option User
unfolding get_user_by_username
verify_user h username password db = checked h password (get_user_by_username username db)

abbrev set_hash : String → User → User
set_hash hash u = record u { password_hash = hash }

pub data PasswordReply : Type 0 where
  user_not_found incorrect updated : PasswordReply

abbrev rehashed :
    PasswordHash
    → (salt : String) → ℕ
    → (current new : String) → Db
    → Option User
    → PasswordReply × Db
rehashed h salt user_id current new db none = (user_not_found, db)
rehashed h salt user_id current new db (some row) =
    if h.check row.password_hash current
    then (
      updated,
      set_users db (update (has_id user_id) (set_hash (h.generate salt new)) db.users.rows),
    )
    else (incorrect, db)

unfoldable pub change_user_password :
    PasswordHash → (salt : String) → ℕ → (current new : String) → Db → PasswordReply × Db
change_user_password h salt user_id current new db =
    rehashed h salt user_id current new db (find (has_id user_id) db.users.rows)

abbrev pub set_name : String → User → User
set_name username u = record u { username = username }

-- The UPDATE fails if it would give one name to two rows.
unfoldable pub update_username : ℕ → String → Db → Result DbError (Bool × Db)
update_username user_id new_username db =
    let taken = any (λ u. has_name new_username u && not (has_id user_id u)) db.users.rows in
    let present = any (has_id user_id) db.users.rows in
    if present && taken
    then err integrity_error
    else ok (present, set_users db (update (has_id user_id) (set_name new_username) db.users.rows))

abbrev pub custom_of : ℕ → Prompt → Bool
custom_of user_id p = p.user_id == user_id && not p.is_default

unfoldable pub delete_user_account : ℕ → Db → Bool × Db
delete_user_account user_id db =
    let mine = select (owned user_id) db.chats.rows in
    (
      any (has_id user_id) db.users.rows,
      record db {
        messages = record (db.messages) { rows = discard (chat_id_in mine) db.messages.rows };
        chats = record (db.chats) { rows = discard (owned user_id) db.chats.rows };
        prompts = record (db.prompts) { rows = discard (custom_of user_id) db.prompts.rows };
        users = record (db.users) { rows = discard (has_id user_id) db.users.rows };
      },
    )

abbrev pub or_simulator : List String → List String
or_simulator [] = "simulator" ∷ []
or_simulator (x ∷ xs) = x ∷ xs

abbrev policy_of : Option User → List String × String
policy_of none = ("simulator" ∷ [], "simulator")
policy_of (some row) =
    let allowed = deserialize_data_sources row.allowed_data_sources in
    let own : String =
      if contains row.default_data_source allowed then row.default_data_source else "simulator" in
    (or_simulator allowed, if contains "company" allowed then "company" else own)

unfoldable pub get_user_data_source_policy : ℕ → Db → List String × String
get_user_data_source_policy user_id db = policy_of (find (has_id user_id) db.users.rows)

abbrev set_policy : String → String → User → User
set_policy allowed default u = record u {
  allowed_data_sources = allowed;
  default_data_source = default;
}

unfoldable pub update_user_data_source_policy : ℕ → Sources → String → Db → Bool × Db
update_user_data_source_policy user_id given default db =
    let sources = with_simulator (deserialize_data_sources (serialize_data_sources given)) in
    (
      any (has_id user_id) db.users.rows,
      set_users db (
          update (has_id user_id)
            (set_policy (serialize_data_sources (listed sources)) (pick_default sources default))
            db.users.rows),
    )

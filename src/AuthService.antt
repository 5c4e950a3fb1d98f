-- ===== src/AuthService.antt =====
-- The accounts' rules, services/auth_service.py, over the accounts of storage/sqlite_store.py. The
-- environment's `ACCESS_CODE` is a parameter. A reply is the source's tuple: whether it went well,
-- and what happened; `authenticate_user` and `change_password` only call `verify_user` and
-- `change_user_password`.
pub mod Accounts
use iot_ops_agent.Prelude.{
  ℕ, String, Bool, true, false, not, Option, none, some, ◌==◌, string_eq, is_some, if◌then◌else◌,
  ◌||◌,
}
use iot_ops_agent.Prelude.Result.{Result, ok, err}
use iot_ops_agent.Database.{User, Db}
use iot_ops_agent.Database.Users.{
  PasswordHash, DbError, create_user, get_user_by_username, verify_user, update_username,
  delete_user_account,
}

pub data Reply : Type 0 where
  invalid_access_code : (status : ℕ) → Reply
  username_exists registered unable username_updated password_incorrect account_deleted : Reply

abbrev pub created : Db → Result DbError Db → Reply × Db
created db (ok db') = (registered, db')
created db (err e) = (username_exists, db)

-- `not required_code`: unset or empty.
unfoldable pub register_user :
    PasswordHash
    → (required_code : Option String) → (salt now : String)
    → (username password access_code : String) → Db
    → Reply × Db
register_user h none salt now username password access_code db = (invalid_access_code 500, db)
register_user h (some required) salt now username password access_code db =
    if required == ""
    then (invalid_access_code 500, db)
    else if not (access_code == required)
    then (invalid_access_code 403, db)
    else created db (create_user h salt now username password db)

abbrev renamed : Result DbError (Bool × Db) → Result DbError (Reply × Db)
renamed (ok (true, db)) = ok (username_updated, db)
renamed (ok (false, db)) = ok (unable, db)
renamed (err e) = err e

unfoldable pub change_username : ℕ → (new_username : String) → Db → Result DbError (Reply × Db)
change_username user_id new_username db =
    if is_some (get_user_by_username new_username db)
    then ok (username_exists, db)
    else renamed (update_username user_id new_username db)

abbrev deleted : Bool × Db → Reply × Db
deleted (true, db) = (account_deleted, db)
deleted (false, db) = (unable, db)

unfoldable pub delete_account : PasswordHash → ℕ → (username password : String) → Db → Reply × Db
delete_account h user_id username password db =
    if is_some (verify_user h username password db)
    then deleted (delete_user_account user_id db)
    else (password_incorrect, db)

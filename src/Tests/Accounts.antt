-- ===== src/Tests/Accounts.antt =====
-- An account that is registered, renamed and deleted, with a hash that keeps the password.
use iot_ops_agent.Prelude.{false, ◌≡◌, refl, false, some, [], ◌∷◌, ◌==◌, string_eq}
use iot_ops_agent.Prelude.Result.{ok}
use iot_ops_agent.Database.{Chat, User, Db, init_db}
use iot_ops_agent.Database.Users.{
  PasswordHash, create_user, get_user_by_username, verify_user, delete_user_account,
}
use iot_ops_agent.AuthService.{
  registered, account_deleted, username_exists, register_user, change_username, delete_account,
}

abbrev plain_hash : PasswordHash
plain_hash = record { generate = λ _ password. password; check = λ hash password. hash == password }

abbrev member : User
member = record {
  id = 1;
  username = "ada";
  password_hash = "pw";
  created_at = "now";
  allowed_data_sources = "simulator";
  default_data_source = "simulator";
}

abbrev one_member : Db
one_member = record init_db { users = record { rows = member ∷ []; seq = 1 } }

abbrev no_member : Db
no_member = record init_db { users = record { rows = []; seq = 1 } }

registers :
    register_user plain_hash (some "code") "salt" "now" "ada" "pw" "code" init_db
    ≡ (registered, one_member)
unfolding register_user create_user
registers = refl

name_is_taken : change_username 1 "ada" one_member ≡ ok (username_exists, one_member)
unfolding change_username get_user_by_username
name_is_taken = refl

deletes : delete_account plain_hash 1 "ada" "pw" one_member ≡ (account_deleted, no_member)
unfolding delete_account verify_user get_user_by_username delete_user_account
deletes = refl

abbrev ada_chat : Chat
ada_chat = record { id = 1; user_id = 1; title = "a"; created_at = "now"; is_pinned = false }

abbrev busy : Db
busy = record one_member { chats = record { rows = ada_chat ∷ []; seq = 1 } }

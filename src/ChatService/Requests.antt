-- ===== src/ChatService/Requests.antt =====
-- What one user may ask of services/chat_service.py, as steps on the database.
use iot_ops_agent.Prelude.{ℕ, String, Option}
use iot_ops_agent.Database.{Db}
use iot_ops_agent.ChatService.{create_user_chat, save_chat_message, remove_chat, toggle_chat_pin}

pub data Request : Type 0 where
  create : (now : String) → Option String → Request
  save :
      (now : String)
      → ℕ
      → (role content : String) → (reasoning_steps token_usage : Option String) → Request
  remove : ℕ → Request
  pin : ℕ → Request

-- The database after user `user_id` made the request.
abbrev pub perform : ℕ → Request → Db → Db
perform user_id (create now answer) db = (create_user_chat now user_id answer db).1
perform user_id (save now chat_id role content steps usage) db =
    (save_chat_message now chat_id user_id role content steps usage db).1
perform user_id (remove chat_id) db = (remove_chat chat_id user_id db).1
perform user_id (pin chat_id) db = (toggle_chat_pin chat_id user_id db).1

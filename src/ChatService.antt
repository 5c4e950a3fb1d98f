-- ===== src/ChatService.antt =====
-- services/chat_service.py. The value of `json.dumps` of the reasoning steps and of the normalised
-- token usage is an argument of `save_chat_message`; the model's reply is one of
-- `generate_chat_title`, `none` where the request to it raised.
pub mod Requests
pub mod Access
pub mod Saves
use iot_ops_agent.Prelude.{
  ℕ, String, Bool, true, false, ◌||◌, Option, none, some, List, if◌then◌else◌,
}
use iot_ops_agent.Prelude.Text.{is_empty, strip, first_chars}
use iot_ops_agent.Database.{Chat, Message, Db}
use iot_ops_agent.Database.Chats.{
  create_chat, get_chats, chat_belongs_to_user, add_message, get_messages, delete_chat,
  toggle_pin_chat,
}

unfoldable pub generate_chat_title : Option String → String
unfolding strip first_chars
generate_chat_title none = "New analysis"
generate_chat_title (some content) =
    let title = strip content in if is_empty title then "New analysis" else first_chars 60 title

unfoldable pub list_chats : ℕ → Db → List Chat
list_chats user_id db = get_chats user_id db

unfoldable pub create_user_chat : (now : String) → ℕ → Option String → Db → (ℕ × String) × Db
create_user_chat now user_id answer db =
    let title = generate_chat_title answer in
    let (chat_id, db') = create_chat now user_id title db in ((chat_id, title), db')

unfoldable pub get_chat_messages : ℕ → ℕ → Db → Option (List Message)
get_chat_messages chat_id user_id db =
    if chat_belongs_to_user chat_id user_id db then some (get_messages chat_id db) else none

-- The reply: whether it was saved, the message, the HTTP status.
abbrev pub Reply : Type 0
Reply = Bool × String × ℕ

unfoldable pub save_chat_message :
    (now : String)
    → ℕ
    → ℕ
    → (role content : String) → (reasoning_steps token_usage : Option String) → Db
    → Reply × Db
save_chat_message now chat_id user_id role content reasoning_steps token_usage db =
    if chat_belongs_to_user chat_id user_id db
    then (if is_empty role || is_empty content
        then ((false, "role and content are required", 400), db)
        else (
          (true, "saved", 200),
          add_message now chat_id role content reasoning_steps token_usage db,
        ))
    else ((false, "Chat not found", 404), db)

unfoldable pub remove_chat : ℕ → ℕ → Db → Bool × Db
remove_chat chat_id user_id db = delete_chat chat_id user_id db

unfoldable pub toggle_chat_pin : ℕ → ℕ → Db → Option Bool × Db
toggle_chat_pin chat_id user_id db = toggle_pin_chat chat_id user_id db

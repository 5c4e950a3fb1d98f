-- ===== src/Database/Chats.antt =====
-- The chats and messages of storage/sqlite_store.py.
use iot_ops_agent.Prelude.{
  ℕ, String, Bool, true, false, not, ◌&&◌, Option, none, some, List, select, discard, update, any,
  find, sort_by, ltb, ◌==◌, nat_eq, if◌then◌else◌,
}
use iot_ops_agent.Database.Tables.{next_id, insert}
use iot_ops_agent.Database.{Chat, Message, Db}

unfoldable pub create_chat : (now : String) → ℕ → String → Db → ℕ × Db
create_chat now user_id title db =
    let row = λ (id : ℕ).
      let c : Chat = record {
        id = id;
        user_id = user_id;
        title = title;
        created_at = now;
        is_pinned = false;
      } in
      c in
    (next_id db.chats, record db { chats = insert row db.chats })

-- ORDER BY is_pinned DESC, id DESC
abbrev pub listed_before : Chat → Chat → Bool
listed_before a b =
    if a.is_pinned
    then (if b.is_pinned then ltb b.id a.id else true)
    else if b.is_pinned
    then false
    else ltb b.id a.id

abbrev pub owned : ℕ → Chat → Bool
owned user_id c = c.user_id == user_id

-- The rows that `get_chats` returns; their `user_id` is the argument.
unfoldable pub get_chats : ℕ → Db → List Chat
get_chats user_id db = sort_by listed_before (select (owned user_id) db.chats.rows)

-- WHERE id = ? AND user_id = ?
abbrev pub is_chat : ℕ → ℕ → Chat → Bool
is_chat chat_id user_id c = c.id == chat_id && c.user_id == user_id

unfoldable pub chat_belongs_to_user : ℕ → ℕ → Db → Bool
chat_belongs_to_user chat_id user_id db = any (is_chat chat_id user_id) db.chats.rows

unfoldable pub add_message :
    (now : String)
    → ℕ
    → (role content : String) → (reasoning_steps token_usage : Option String) → Db
    → Db
add_message now chat_id role content reasoning_steps token_usage db =
    let row = λ (id : ℕ).
      let m : Message = record {
        id = id;
        chat_id = chat_id;
        role = role;
        content = content;
        reasoning_steps = reasoning_steps;
        token_usage = token_usage;
        created_at = now;
      } in
      m in
    record db { messages = insert row db.messages }

abbrev pub in_chat : ℕ → Message → Bool
in_chat chat_id m = m.chat_id == chat_id

-- ORDER BY id ASC
abbrev pub older : Message → Message → Bool
older a b = ltb a.id b.id

unfoldable pub get_messages : ℕ → Db → List Message
get_messages chat_id db = sort_by older (select (in_chat chat_id) db.messages.rows)

-- WHERE chat_id IN (SELECT id FROM chats WHERE …)
abbrev pub chat_id_in : List Chat → Message → Bool
chat_id_in chats m = any (λ c. c.id == m.chat_id) chats

-- The result is `rowcount > 0` of the second statement.
unfoldable pub delete_chat : ℕ → ℕ → Db → Bool × Db
delete_chat chat_id user_id db =
    let mine = select (is_chat chat_id user_id) db.chats.rows in
    (
      any (is_chat chat_id user_id) db.chats.rows,
      record db {
        messages = record (db.messages) { rows = discard (chat_id_in mine) db.messages.rows };
        chats = record (db.chats) { rows = discard (is_chat chat_id user_id) db.chats.rows };
      },
    )

abbrev set_pinned : Bool → Chat → Chat
set_pinned b c = record c { is_pinned = b }

abbrev toggled : ℕ → ℕ → Db → Option Chat → Option Bool × Db
toggled chat_id user_id db none = (none, db)
toggled chat_id user_id db (some row) = (
  some (not row.is_pinned),
  record db {
    chats = record (db.chats) {
      rows = update (is_chat chat_id user_id) (set_pinned (not row.is_pinned)) db.chats.rows;
    };
  },
)

unfoldable pub toggle_pin_chat : ℕ → ℕ → Db → Option Bool × Db
toggle_pin_chat chat_id user_id db =
    toggled chat_id user_id db (find (is_chat chat_id user_id) db.chats.rows)

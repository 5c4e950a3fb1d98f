-- ===== src/ChatService/Saves.antt =====
-- What `save_chat_message` adds, and when it refuses.
use iot_ops_agent.Prelude.{
  ℕ, String, ◌≡◌, ◌↔◌, ◌⊎◌, ◌+◌, refl, sym, ap, ◌∙◌, true, false, Option, some, [], ◌∷◌, ◌++◌, inl,
  inr, arith, select-append_keep, nat_eqb_iff, nat_eq, Bool-cases,
}
use iot_ops_agent.Prelude.Membership.{Has, any_iff}
use iot_ops_agent.Prelude.Text.{is_empty}
use iot_ops_agent.Database.Tables.{
  Ascending-append, Ascending-select, sort_by_of_Ascending, next_id,
}
use iot_ops_agent.Database.{Chat, Message, Db}
use iot_ops_agent.Database.Chats.{chat_belongs_to_user, add_message, in_chat, is_chat, get_messages}
use iot_ops_agent.Database.References.{IsValid}
use iot_ops_agent.ChatService.{get_chat_messages, save_chat_message}

-- The message that the next save writes.
abbrev pub new_message :
    (now : String)
    → ℕ
    → (role content : String) → (reasoning_steps token_usage : Option String) → Db
    → Message
new_message now chat_id role content steps usage db = record {
  id = next_id db.messages;
  chat_id = chat_id;
  role = role;
  content = content;
  reasoning_steps = steps;
  token_usage = usage;
  created_at = now;
}

pub add_message-own :
    (k : ℕ) (now role content : String) (steps usage : Option String) (db : Db)
    → IsValid db
    → get_messages k (add_message now k role content steps usage db)
      ≡ get_messages k db ++ new_message now k role content steps usage db ∷ []
unfolding add_message get_messages
add_message-own k now role content steps usage db valid =
    let key = λ (m : Message). m.id in
    let row = new_message now k role content steps usage db in
    let old = db.messages.rows in
    let seq = db.messages.seq in
    sort_by_of_Ascending key 0 _ (seq + 1) (
      Ascending-select key (in_chat k) 0 (old ++ row ∷ []) (seq + 1)
        (Ascending-append key 0 old seq row refl valid.messages))
    ∙ select-append_keep (in_chat k) old row ((nat_eqb_iff k k).1 refl)
    ∙ sym (
        ap (λ l. l ++ row ∷ [])
          (sort_by_of_Ascending key 0 _ seq
            (Ascending-select key (in_chat k) 0 old seq valid.messages)))

pub add_message-belongs :
    (k u : ℕ) (now role content : String) (steps usage : Option String) (db : Db)
    → chat_belongs_to_user k u (add_message now k role content steps usage db)
      ≡ chat_belongs_to_user k u db
unfolding chat_belongs_to_user add_message
add_message-belongs k u now role content steps usage db = refl

-- In a valid database, after a save that was accepted, reading the chat returns the messages that
-- it returned before and then the new one.
pub get_chat_messages-save_chat_message :
    (now : String) (k u : ℕ) (role content : String) (steps usage : Option String) (db : Db)
    → IsValid db
    → (save_chat_message now k u role content steps usage db).0 ≡ (true, "saved", 200)
    → get_chat_messages k u (save_chat_message now k u role content steps usage db).1
      ≡ some (get_messages k db ++ new_message now k role content steps usage db ∷ [])
unfolding save_chat_message get_chat_messages
get_chat_messages-save_chat_message now k u role content steps usage db valid saved = ground (
  arith,
  add_message-own k now role content steps usage db valid,
  add_message-belongs k u now role content steps usage db,
)

-- The user has a chat with this id.
abbrev Owns : (chat_id user_id : ℕ) → Db → Type 0
Owns k u db = Has (λ (c : Chat). (c.id ≡ k) × (c.user_id ≡ u)) db.chats.rows

chat_belongs_to_user_iff : (k u : ℕ) (db : Db) → (chat_belongs_to_user k u db ≡ true) ↔ Owns k u db
unfolding chat_belongs_to_user
chat_belongs_to_user_iff k u db =
    any_iff (is_chat k u) (λ (c : Chat). (c.id ≡ k) × (c.user_id ≡ u))
      (λ c. ground (arith, nat_eqb_iff c.id k, nat_eqb_iff c.user_id u)) db.chats.rows

-- A save answers 200 exactly if the table of chats has a row with the chat's id and the user's, and
-- the role and the content are not empty; it answers 404 exactly if the table has no such row; and a
-- save that does not answer 200 leaves the database as it was.
pub save_chat_message_iff :
    (now : String) (k u : ℕ) (role content : String) (steps usage : Option String) (db : Db)
    → (((save_chat_message now k u role content steps usage db).0.2 ≡ 200) ↔ (
        Has (λ (c : Chat). (c.id ≡ k) × (c.user_id ≡ u)) db.chats.rows
        × (is_empty role ≡ false)
        × (is_empty content ≡ false)))
      × (((save_chat_message now k u role content steps usage db).0.2 ≡ 404)
          ↔ (¬ Has (λ (c : Chat). (c.id ≡ k) × (c.user_id ≡ u)) db.chats.rows))
      × (((save_chat_message now k u role content steps usage db).0.2 ≡ 200)
          ⊎ ((save_chat_message now k u role content steps usage db).1 ≡ db))
unfolding save_chat_message
save_chat_message_iff now k u role content steps usage db =
    let (owner, row) = chat_belongs_to_user_iff k u db in
    elim (Bool-cases (chat_belongs_to_user k u db)) [
      | inl e ↦ ground (arith, e, owner e)
      | inr e ↦ ground (arith, e, λ (h : Owns k u db). row h)
    ]

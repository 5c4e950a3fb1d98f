-- ===== src/ChatService/Access.antt =====
-- What one user's requests do to the chats and messages of another, and to the user's own.
use iot_ops_agent.Prelude.{
  ℕ, String, ◌≡◌, ◌≢◌, refl, ap, inl, inr, true, false, Option, arith, select, any, find,
  select-append_skip, select-discard, select-update, any-append_skip, any-discard_other, any-update,
  sort_by, ◌==◌, nat_eq, Bool-cases, Option-cases,
}
use iot_ops_agent.Database.{Chat, Db}
use iot_ops_agent.Database.Chats.{
  create_chat, get_chats, owned, is_chat, chat_belongs_to_user, add_message, in_chat, get_messages,
  delete_chat, toggle_pin_chat, listed_before, older,
}
use iot_ops_agent.Database.References.{
  IsValid, create_chat-IsValid, add_message-IsValid, delete_chat-IsValid, toggle_pin_chat-IsValid,
}
use iot_ops_agent.Database.Isolation.{unique_owner, not_selected, messages_kept}
use iot_ops_agent.ChatService.{
  generate_chat_title, list_chats, create_user_chat, get_chat_messages, save_chat_message,
  remove_chat, toggle_chat_pin,
}
use iot_ops_agent.ChatService.Requests.{Request, create, save, remove, pin, perform}

-- Every request, refused or not, keeps keys growing and every message in a chat that exists.
pub perform-IsValid : (u : ℕ) (r : Request) (db : Db) → IsValid db → IsValid (perform u r db)
unfolding create_user_chat save_chat_message remove_chat toggle_chat_pin
perform-IsValid u (create now answer) db v =
    create_chat-IsValid now u (generate_chat_title answer) db v
perform-IsValid u (save now c role content steps usage) db v =
    ground (arith, add_message-IsValid now c u role content steps usage db)
perform-IsValid u (remove c) db v = delete_chat-IsValid c u db v
perform-IsValid u (pin c) db v = toggle_pin_chat-IsValid c u db v

module _ (u v : ℕ) (ne : u ≢ v) where
  not_owned : (c : Chat) → owned v c ≡ true → owned u c ≡ false
  not_owned c h = ground arith

  not_is_chat : (k : ℕ) (c : Chat) → owned v c ≡ true → is_chat k u c ≡ false
  not_is_chat k c h = ground arith

  pub create-chats :
      (now title : String) (db : Db)
      → select (owned v) (create_chat now u title db).1.chats.rows ≡ select (owned v) db.chats.rows
  unfolding create_chat
  create-chats now title db = select-append_skip (owned v) db.chats.rows _ (ground arith)

  pin-chats :
      (k : ℕ) (db : Db)
      → select (owned v) (toggle_pin_chat k u db).1.chats.rows ≡ select (owned v) db.chats.rows
  unfolding toggle_pin_chat
  pin-chats k db = elim (Option-cases (find (is_chat k u) db.chats.rows)) [
    | inl e ↦ rw e
    | inr (row, e) ↦
        rw e (select-update (is_chat k u) (owned v) _ (not_is_chat k) (λ c. refl) db.chats.rows)
  ]

  -- The chats that one user is shown do not change by what another does.
  perform-list_chats : (r : Request) (db : Db) → list_chats v (perform u r db) ≡ list_chats v db
  unfolding list_chats get_chats create_user_chat save_chat_message add_message remove_chat
      delete_chat toggle_chat_pin
  perform-list_chats (create now answer) db = ap (sort_by listed_before) (create-chats now _ db)
  perform-list_chats (save now c role content steps usage) db = ground arith
  perform-list_chats (remove c) db =
      ap (sort_by listed_before)
        (select-discard (is_chat c u) (owned v) (not_is_chat c) db.chats.rows)
  perform-list_chats (pin c) db = ap (sort_by listed_before) (pin-chats c db)

  pin-belongs :
      (k c : ℕ) (db : Db)
      → any (is_chat k v) (toggle_pin_chat c u db).1.chats.rows ≡ any (is_chat k v) db.chats.rows
  unfolding toggle_pin_chat
  pin-belongs k c db = elim (Option-cases (find (is_chat c u) db.chats.rows)) [
    | inl e ↦ rw e
    | inr (row, e) ↦ rw e (any-update (is_chat c u) (is_chat k v) _ (λ c. refl) db.chats.rows)
  ]

  -- Who owns a chat does not change.
  perform-belongs :
      (k : ℕ) (r : Request) (db : Db)
      → chat_belongs_to_user k v (perform u r db) ≡ chat_belongs_to_user k v db
  unfolding chat_belongs_to_user create_user_chat create_chat save_chat_message add_message
      remove_chat delete_chat toggle_chat_pin
  perform-belongs k (create now answer) db =
      any-append_skip (is_chat k v) db.chats.rows _ (ground arith)
  perform-belongs k (save now c role content steps usage) db = ground arith
  perform-belongs k (remove c) db =
      any-discard_other (is_chat c u) (is_chat k v) (λ c h. ground arith) db.chats.rows
  perform-belongs k (pin c) db = pin-belongs k c db

  add_message-other :
      (k c : ℕ) (now role content : String) (steps usage : Option String) (db : Db)
      → IsValid db
      → chat_belongs_to_user k v db ≡ true
      → chat_belongs_to_user c u db ≡ true
      → get_messages k (add_message now c role content steps usage db) ≡ get_messages k db
  unfolding chat_belongs_to_user add_message get_messages
  add_message-other k c now role content steps usage db valid own mine = ap (sort_by older) (
      select-append_skip (in_chat k) db.messages.rows _ (elim (Bool-cases (c == k)) [
        | inr e ↦ e
        | inl e ↦
            absurd (ground (arith, unique_owner k u v 0 db.chats.rows db.chats.seq ne valid.chats))
      ]))

  -- The messages of a chat that `v` owns are left alone.
  perform-messages :
      (k : ℕ) (r : Request) (db : Db)
      → IsValid db
      → chat_belongs_to_user k v db ≡ true
      → get_messages k (perform u r db) ≡ get_messages k db
  unfolding create_user_chat save_chat_message remove_chat toggle_chat_pin
  perform-messages k (create now answer) db valid own = unfold create_chat get_messages in refl
  perform-messages k (save now c role content steps usage) db valid own =
      ground (arith, add_message-other k c now role content steps usage db valid own)
  perform-messages k (remove c) db valid own =
      unfold delete_chat get_messages in
      ap (sort_by older) (
        messages_kept u (is_chat c u) (λ c h. ground arith) k db.chats.rows
          (not_selected u (is_chat c u) (λ c h. ground arith) k v 0 db.chats.rows db.chats.seq ne
            valid.chats (unfold chat_belongs_to_user in own))
          db.messages.rows)
  perform-messages k (pin c) db valid own = unfold toggle_pin_chat get_messages in ground arith

-- In a valid database, whatever a user asks, and whether or not it is refused, another user's list
-- of chats and the answer to every read of messages by that other user are the same as before.
pub perform_isolated :
    (u v : ℕ) (r : Request) (db : Db)
    → u ≢ v
    → IsValid db
    → (list_chats v (perform u r db) ≡ list_chats v db)
      × ((k : ℕ) → get_chat_messages k v (perform u r db) ≡ get_chat_messages k v db)
unfolding get_chat_messages
perform_isolated u v r db ne valid = (
  perform-list_chats u v ne r db,
  λ k. ground (arith, perform-belongs u v ne k r db, perform-messages u v ne k r db valid),
)

-- ===== src/TelegramBot/Isolation.antt =====
-- What the bot does to the chats of a user who did not send the message.
use iot_ops_agent.Prelude.{
  ℕ, String, ◌≡◌, ◌≢◌, refl, ap, ◌∙◌, inl, inr, some, arith, any-append_skip, sort_by, nat_eq,
}
use iot_ops_agent.Prelude.Result.{ok}
use iot_ops_agent.Database.{Db, TelegramIdentity}
use iot_ops_agent.Database.Chats.{
  create_chat, get_chats, is_chat, chat_belongs_to_user, get_messages, listed_before,
}
use iot_ops_agent.Database.References.{IsValid, create_chat-IsValid}
use iot_ops_agent.ChatService.{list_chats, get_chat_messages}
use iot_ops_agent.ChatService.Requests.{save}
use iot_ops_agent.ChatService.Access.{perform-IsValid, perform_isolated, create-chats}
use iot_ops_agent.TelegramLink.{resolve_telegram_identity}
use iot_ops_agent.TelegramLink.Effects.{SameChats}
use iot_ops_agent.TelegramBot.{Update, Message, extract_message, Bot, Times, Services}
use iot_ops_agent.TelegramBot.Webhook.{World, process_telegram_update}
use iot_ops_agent.TelegramBot.Writes.{Writes, done, created, saved}
use iot_ops_agent.TelegramBot.Access.{Footprint, quiet, turn, process-Footprint}

-- What `v` is shown is the same in both.
pub record ShownSame (v : ℕ) (before after : Db) : Type 0 where
  pub chats : list_chats v after ≡ list_chats v before
  pub messages : (k : ℕ) → get_chat_messages k v after ≡ get_chat_messages k v before

shown_same : (v : ℕ) (db : Db) → ShownSame v db db
shown_same v db = record { chats = refl; messages = λ k. refl }

ShownSame-trans : (v : ℕ) (a b c : Db) → ShownSame v a b → ShownSame v b c → ShownSame v a c
ShownSame-trans v a b c p q = record {
  chats = q.chats ∙ p.chats;
  messages = λ k. q.messages k ∙ p.messages k;
}

SameChats-ShownSame : (v : ℕ) (a b : Db) → SameChats a b → ShownSame v a b
unfolding list_chats get_chats get_chat_messages chat_belongs_to_user get_messages
SameChats-ShownSame v a b same = record {
  chats = rw same.chats refl;
  messages = λ k. rw (same.chats, same.messages) refl;
}

SameChats-IsValid : (a b : Db) → SameChats a b → IsValid a → IsValid b
SameChats-IsValid a b same valid = record {
  chats = rw same.chats valid.chats;
  messages = rw same.messages valid.messages;
  no_orphans = rw (same.chats, same.messages) valid.no_orphans;
}

create-belongs :
    (u v k : ℕ) (now title : String) (db : Db)
    → u ≢ v
    → chat_belongs_to_user k v (create_chat now u title db).1 ≡ chat_belongs_to_user k v db
unfolding chat_belongs_to_user create_chat
create-belongs u v k now title db ne = any-append_skip (is_chat k v) db.chats.rows _ (ground arith)

create-messages :
    (u k : ℕ) (now title : String) (db : Db)
    → get_messages k (create_chat now u title db).1 ≡ get_messages k db
unfolding create_chat get_messages
create-messages u k now title db = refl

create-ShownSame :
    (u v : ℕ) (now title : String) (db : Db) → u ≢ v → ShownSame v db (create_chat now u title db).1
create-ShownSame u v now title db ne = record {
  chats =
      unfold list_chats get_chats in ap (sort_by listed_before) (create-chats u v ne now title db);
  messages = λ k.
      unfold get_chat_messages in
      rw (create-belongs u v k now title db ne, create-messages u k now title db) refl;
}

pub Writes-IsValid : (u : ℕ) (a b : Db) → Writes u a b → IsValid a → IsValid b
Writes-IsValid u a b (done _) valid = valid
Writes-IsValid u a b (created now title _ _ p) valid =
    Writes-IsValid u _ b p (create_chat-IsValid now u title a valid)
Writes-IsValid u a b (saved now k role content steps usage _ _ p) valid =
    Writes-IsValid u _ b p (perform-IsValid u (save now k role content steps usage) a valid)

Writes-ShownSame : (u v : ℕ) (a b : Db) → u ≢ v → IsValid a → Writes u a b → ShownSame v a b
Writes-ShownSame u v a b ne valid (done _) = shown_same v a
Writes-ShownSame u v a b ne valid (created now title _ _ p) =
    ShownSame-trans v a _ b (create-ShownSame u v now title a ne)
      (Writes-ShownSame u v _ b ne (create_chat-IsValid now u title a valid) p)
Writes-ShownSame u v a b ne valid (saved now k role content steps usage _ _ p) =
    let request = save now k role content steps usage in
    let (chats, messages) = perform_isolated u v request a ne valid in
    ShownSame-trans v a _ b (record { chats = chats; messages = messages })
      (Writes-ShownSame u v _ b ne (perform-IsValid u request a valid) p)

Footprint-IsValid :
    (e : Services) (message : Message) (w after : Bot)
    → Footprint e message w after
    → IsValid w.db
    → IsValid after.db
Footprint-IsValid e message w after (quiet _ same no_run) valid =
    SameChats-IsValid w.db after.db same valid
Footprint-IsValid e message w after (turn _ identity run resolved allowed asked context is_turn)
      valid =
    Writes-IsValid identity.user_id w.db after.db is_turn.written valid

-- The sender of the message is not user `v`.
abbrev pub NotSentBy : Services → Bot → ℕ → Message → Type 0
NotSentBy e w v message =
    (identity : TelegramIdentity)
    → resolve_telegram_identity e.allowed_user_ids message.telegram_user_id w.db ≡ ok identity
    → identity.user_id ≢ v

Footprint-ShownSame :
    (e : Services) (message : Message) (w after : Bot) (v : ℕ)
    → Footprint e message w after
    → IsValid w.db
    → NotSentBy e w v message
    → ShownSame v w.db after.db
Footprint-ShownSame e message w after v (quiet _ same no_run) valid other =
    SameChats-ShownSame v w.db after.db same
Footprint-ShownSame e message w after v (turn _ identity run resolved allowed asked context is_turn)
      valid other =
    Writes-ShownSame identity.user_id v w.db after.db (other identity resolved) valid
      is_turn.written

module _ (e : Services) (t : Times) (update : Update) (w : World) (valid : IsValid w.bot.db) where
  -- Processing an update, with any result or error, keeps a database valid.
  pub process-IsValid : IsValid (process_telegram_update e t update w).1.bot.db
  process-IsValid = elim (process-Footprint e t update w) [
    | inl same ↦ rw same valid
    | inr (message, found, footprint) ↦ Footprint-IsValid e message w.bot _ footprint valid
  ]

  -- Processing an update in a valid database, with any result or error, changes nothing that a user
  -- other than its sender is shown: neither the user's list of chats nor the messages of a chat.
  pub process-ShownSame :
      (v : ℕ)
      → ((message : Message) → extract_message update ≡ some message → NotSentBy e w.bot v message)
      → ShownSame v w.bot.db (process_telegram_update e t update w).1.bot.db
  process-ShownSame v other = elim (process-Footprint e t update w) [
    | inl same ↦ rw same (shown_same v w.bot.db)
    | inr (message, found, footprint) ↦
        Footprint-ShownSame e message w.bot _ v footprint valid (other message found)
  ]

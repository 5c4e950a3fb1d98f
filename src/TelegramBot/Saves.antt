-- ===== src/TelegramBot/Saves.antt =====
-- The questions and answers that the bot saves in a user's chat.
use mathlib.Core.List.{map-append}
use iot_ops_agent.Prelude.{
  ℕ, ◌+◌, String, ◌≡◌, refl, ap, ◌∙◌, inl, inr, Bool, true, false, Option, none, some, List, [],
  ◌∷◌, ◌++◌, map, arith, any-append, nat_eqb_iff, nat_eq, Bool-cases, Option-cases,
}
use iot_ops_agent.Prelude.Text.{is_empty}
use iot_ops_agent.Database
use iot_ops_agent.Database.{Chat, Db, TelegramIdentity}
use iot_ops_agent.Database.Chats.{create_chat, chat_belongs_to_user, get_messages}
use iot_ops_agent.Database.References.{IsValid, create_chat-IsValid}
use iot_ops_agent.ChatService.{save_chat_message}
use iot_ops_agent.ChatService.Saves.{add_message-own, add_message-belongs, new_message}
use iot_ops_agent.TelegramBot.{Message, Bot, Times}
use iot_ops_agent.TelegramBot.History.{
  continued_chat, create_history, save_question, start_created, start_again, started,
  start_telegram_history, make_chat_title,
}

-- Who said what.
abbrev pub said : Database.Message → String × String
said m = (m.role, m.content)

-- The chat is the user's, and has more messages at its end.
pub record Appended (user_id chat_id : ℕ) (before after : Db) (more : List (String × String))
    : Type 0 where
  pub own : chat_belongs_to_user chat_id user_id after ≡ true
  pub messages :
      map said (get_messages chat_id after) ≡ map said (get_messages chat_id before) ++ more

pub save-Appended :
    (now : String) (k u : ℕ) (role content : String) (steps usage : Option String) (db : Db)
    → IsValid db
    → chat_belongs_to_user k u db ≡ true
    → is_empty role ≡ false
    → is_empty content ≡ false
    → ((save_chat_message now k u role content steps usage db).0.0 ≡ true)
      × Appended u k db
          (save_chat_message now k u role content steps usage db).1
          ((role, content) ∷ [])
unfolding save_chat_message
save-Appended now k u role content steps usage db valid own r c =
    rw (own, r, c)
      (
        refl,
        record {
          own = rw (add_message-belongs k u now role content steps usage db) own;
          messages =
              ap (map said) (add_message-own k now role content steps usage db valid)
              ∙ map-append said (get_messages k db)
                  (new_message now k role content steps usage db ∷ []);
        },
      )

create-own :
    (now title : String) (u : ℕ) (db : Db)
    → chat_belongs_to_user (create_chat now u title db).0 u (create_chat now u title db).1 ≡ true
unfolding chat_belongs_to_user create_chat
create-own now title u db =
    rw any-append
      (ground (arith, nat_eqb_iff (db.chats.seq + 1) (db.chats.seq + 1), nat_eqb_iff u u))

create-no_messages :
    (now title : String) (u k : ℕ) (db : Db)
    → get_messages k (create_chat now u title db).1 ≡ get_messages k db
unfolding create_chat get_messages
create-no_messages now title u k db = refl

module _ (t : Times) (u : ℕ) (message : Message) (asked : is_empty message.text ≡ false) where
  abbrev question : List (String × String)
  question = ("user", message.text) ∷ []

  -- A question in a chat that was made for it.
  created-Appended :
      (now later : String) (w : Bot)
      → IsValid w.db
      → let c = create_history now u message w in
        Appended u c.0 w.db (save_question later c.0 u message c.1).1.db question
  unfolding create_history save_question
  created-Appended now later w valid =
      let title = make_chat_title message.text in
      let k = (create_chat now u title w.db).0 in
      let db = (create_chat now u title w.db).1 in
      let (_, appended) =
        save-Appended later k u "user" message.text none none db
          (create_chat-IsValid now u title w.db valid) (create-own now title u w.db) refl asked in
      record {
        own = appended.own;
        messages =
            appended.messages
            ∙ ap (λ ms. map said ms ++ question) (create-no_messages now title u k w.db);
      }

  save_question-lost :
      (k : ℕ) (w : Bot)
      → chat_belongs_to_user k u w.db ≡ false
      → ((save_question t.asked k u message w).0 ≡ false)
        × ((save_question t.asked k u message w).1 ≡ w)
  unfolding save_question save_chat_message
  save_question-lost k w lost = (ground arith, rw lost refl)

  continued-Appended :
      (k : ℕ) (w : Bot)
      → IsValid w.db
      → let s = started t u message (some k) w in Appended u s.0.0 w.db s.1.db question
  unfolding start_again
  continued-Appended k w valid = elim (Bool-cases (chat_belongs_to_user k u w.db)) [
    | inl own ↦
        let (ok_, appended) =
          save-Appended t.asked k u "user" message.text none none w.db valid own refl asked in
        unfold save_question in rw ok_ appended
    | inr lost ↦
        let (refused, same) = save_question-lost k w lost in
        rw (refused, same) (created-Appended t.created_again t.asked_again w valid)
  ]

  pub start-Appended :
      (new_topic : Bool) (w : Bot)
      → IsValid w.db
      → let s = start_telegram_history t u message new_topic w in
        Appended u s.0.0 w.db s.1.db question
  unfolding start_telegram_history start_created start_again
  start-Appended new_topic w valid = elim (Option-cases (continued_chat u message new_topic w)) [
    | inl fresh ↦ rw fresh (created-Appended t.created t.asked w valid)
    | inr (k, e) ↦ rw e (continued-Appended k w valid)
  ]

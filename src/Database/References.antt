-- ===== src/Database/References.antt =====
-- The invariant of the database, which the functions keep without any foreign key: keys grow, names
-- and hashes that are declared UNIQUE are so, and every message belongs to a chat that exists.
use iot_ops_agent.Prelude.{
  ℕ, String, ◌≡◌, refl, inl, inr, Bool, true, false, ◌&&◌, Option, List, [], ◌∷◌, ◌++◌, All,
  All-append, arith, select, discard, update, any, any-append, any-update, find, ◌==◌, nat_eq,
  string_eq, Bool-cases, Option-cases,
}
use iot_ops_agent.Database.Tables.{IsKeyed, Ascending-append, Ascending-discard, Ascending-update}
use iot_ops_agent.Database.{Chat, Message, Db, init_db}
use iot_ops_agent.Database.Chats.{
  chat_id_in, create_chat, add_message, chat_belongs_to_user, delete_chat, toggle_pin_chat, is_chat,
}
use iot_ops_agent.Database.Users.{delete_user_account}

abbrev pub exists_chat : List Chat → Message → Bool
exists_chat chats m = any (λ c. c.id == m.chat_id) chats

pub record IsValid (db : Db) : Type 0 where
  pub chats : IsKeyed (λ c. c.id) db.chats
  pub messages : IsKeyed (λ m. m.id) db.messages
  pub no_orphans : All (λ m. exists_chat db.chats.rows m ≡ true) db.messages.rows

pub init_db-IsValid : IsValid init_db
init_db-IsValid = record { chats = omega arith; messages = omega arith; no_orphans = tt }

module _ {A : Type 0} where
  any-discard :
      (p q : A → Bool) (xs : List A)
      → any q xs ≡ true
      → any q (select p xs) ≡ false
      → any q (discard p xs) ≡ true
  any-discard p q [] h k = h
  any-discard p q (x ∷ xs) h k = ground (arith, any-discard p q xs)

  any_of_and : (p q : A → Bool) (xs : List A) → any (λ x. p x && q x) xs ≡ true → any p xs ≡ true
  any_of_and p q [] h = h
  any_of_and p q (x ∷ xs) h = ground (arith, any_of_and p q xs)

-- Chats that pass `p` go, and with them the messages of those chats.
no_orphans-discard :
    (p : Chat → Bool) (chats : List Chat) (ms : List Message)
    → All (λ m. exists_chat chats m ≡ true) ms
    → All (λ m. exists_chat (discard p chats) m ≡ true) (discard (chat_id_in (select p chats)) ms)
no_orphans-discard p chats [] h = tt
no_orphans-discard p chats (m ∷ ms) (h, hs) = elim (Bool-cases (chat_id_in (select p chats) m)) [
  | inl e ↦ rw e (no_orphans-discard p chats ms hs)
  | inr e ↦ rw e (any-discard p _ chats h e, no_orphans-discard p chats ms hs)
]

exists_chat-append :
    (chats more : List Chat) (ms : List Message)
    → All (λ m. exists_chat chats m ≡ true) ms
    → All (λ m. exists_chat (chats ++ more) m ≡ true) ms
exists_chat-append chats more [] h = tt
exists_chat-append chats more (m ∷ ms) (h, hs) =
    (rw any-append (rw h), exists_chat-append chats more ms hs)

exists_chat-update :
    (p : Chat → Bool) (f : Chat → Chat)
    → ((c : Chat) → (f c).id ≡ c.id)
    → (chats : List Chat) (ms : List Message) → All (λ m. exists_chat chats m ≡ true) ms
    → All (λ m. exists_chat (update p f chats) m ≡ true) ms
exists_chat-update p f same chats [] h = tt
exists_chat-update p f same chats (m ∷ ms) (h, hs) = (
  rw (any-update p (λ c. c.id == m.chat_id) f (λ c. rw (same c)) chats) h,
  exists_chat-update p f same chats ms hs,
)

pub create_chat-IsValid :
    (now : String) (user_id : ℕ) (title : String) (db : Db)
    → IsValid db
    → IsValid (create_chat now user_id title db).1
unfolding create_chat
create_chat-IsValid now user_id title db v = record {
  chats = Ascending-append (λ c. c.id) 0 db.chats.rows db.chats.seq _ refl v.chats;
  messages = v.messages;
  no_orphans = exists_chat-append db.chats.rows _ db.messages.rows v.no_orphans;
}

pub add_message-IsValid :
    (now : String) (chat_id user_id : ℕ) (role content : String) (steps usage : Option String)
    (db : Db)
    → chat_belongs_to_user chat_id user_id db ≡ true
    → IsValid db
    → IsValid (add_message now chat_id role content steps usage db)
unfolding add_message chat_belongs_to_user
add_message-IsValid now chat_id user_id role content steps usage db own v = record {
  chats = v.chats;
  messages = Ascending-append (λ m. m.id) 0 db.messages.rows db.messages.seq _ refl v.messages;
  no_orphans =
      All-append _ db.messages.rows _ v.no_orphans
        (any_of_and (λ c. c.id == chat_id) (λ c. c.user_id == user_id) db.chats.rows own, tt);
}

pub delete_chat-IsValid :
    (chat_id user_id : ℕ) (db : Db) → IsValid db → IsValid (delete_chat chat_id user_id db).1
unfolding delete_chat
delete_chat-IsValid chat_id user_id db v = record {
  chats = Ascending-discard (λ c. c.id) _ 0 db.chats.rows db.chats.seq v.chats;
  messages = Ascending-discard (λ m. m.id) _ 0 db.messages.rows db.messages.seq v.messages;
  no_orphans = no_orphans-discard _ db.chats.rows db.messages.rows v.no_orphans;
}

pub toggle_pin_chat-IsValid :
    (chat_id user_id : ℕ) (db : Db) → IsValid db → IsValid (toggle_pin_chat chat_id user_id db).1
unfolding toggle_pin_chat
toggle_pin_chat-IsValid chat_id user_id db v =
    elim (Option-cases (find (is_chat chat_id user_id) db.chats.rows)) [
      | inl e ↦ rw e v
      | inr (row, e) ↦ rw e (record {
        chats = Ascending-update (λ c. c.id) _ _ (λ c. refl) 0 db.chats.rows db.chats.seq v.chats;
        messages = v.messages;
        no_orphans = exists_chat-update _ _ (λ c. refl) db.chats.rows db.messages.rows v.no_orphans;
      })
    ]

pub delete_user_account-IsValid :
    (user_id : ℕ) (db : Db) → IsValid db → IsValid (delete_user_account user_id db).1
unfolding delete_user_account
delete_user_account-IsValid user_id db v = record {
  chats = Ascending-discard (λ c. c.id) _ 0 db.chats.rows db.chats.seq v.chats;
  messages = Ascending-discard (λ m. m.id) _ 0 db.messages.rows db.messages.seq v.messages;
  no_orphans = no_orphans-discard _ db.chats.rows db.messages.rows v.no_orphans;
}

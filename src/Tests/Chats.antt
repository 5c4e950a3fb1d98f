-- ===== src/Tests/Chats.antt =====
-- Two users of services/chat_service.py with a chat each.
use iot_ops_agent.Prelude.{
  ℕ, ◌≡◌, ◌≢◌, ◌↔◌, ◌⊎◌, refl, true, false, none, some, [], ◌∷◌, ◌++◌, arith,
}
use iot_ops_agent.Prelude.Membership.{Has}
use iot_ops_agent.Prelude.Text.{is_empty}
use iot_ops_agent.Database.{Chat, Db, init_db}
use iot_ops_agent.Database.Prompts.{get_prompts, create_prompt, update_prompt, delete_prompt}
use iot_ops_agent.Database.Prompts.Ownership.{prompts_isolated}
use iot_ops_agent.Database.Chats.{create_chat, chat_belongs_to_user, get_messages, delete_chat}
use iot_ops_agent.Database.References.{IsValid, init_db-IsValid}
use iot_ops_agent.ChatService.{
  generate_chat_title, list_chats, create_user_chat, get_chat_messages, save_chat_message,
  remove_chat,
}
use iot_ops_agent.ChatService.Requests.{create, save, remove, perform}
use iot_ops_agent.ChatService.Access.{perform-IsValid, perform_isolated}
use iot_ops_agent.ChatService.Saves.{
  new_message, save_chat_message_iff, get_chat_messages-save_chat_message,
}

abbrev one_chat : Db
one_chat = perform 1 (create "t0" (some " Pump alarms ")) init_db

abbrev two_chats : Db
two_chats = perform 2 (create "t1" none) one_chat

one_chat-IsValid : IsValid one_chat
one_chat-IsValid = perform-IsValid 1 (create "t0" (some " Pump alarms ")) init_db init_db-IsValid

two_chats-IsValid : IsValid two_chats
two_chats-IsValid = perform-IsValid 2 (create "t1" none) one_chat one_chat-IsValid

trimmed_title : generate_chat_title (some " Pump alarms ") ≡ "Pump alarms"
unfolding generate_chat_title
trimmed_title = refl

-- A chat is removed by its owner only.
removed_by_owner : (remove_chat 2 2 two_chats).0 ≡ true
unfolding remove_chat delete_chat create_user_chat create_chat
removed_by_owner = refl

not_removed : (remove_chat 2 1 two_chats).0 ≡ false
unfolding remove_chat delete_chat create_user_chat create_chat
not_removed = refl

one-ne-two : ◌≢◌ {A = ℕ} 1 2
one-ne-two = ground arith

perform_isolated_example :
    (list_chats 2 (perform 1 (remove 2) two_chats) ≡ list_chats 2 two_chats)
    × ((k : ℕ)
        → get_chat_messages k 2 (perform 1 (remove 2) two_chats) ≡ get_chat_messages k 2 two_chats)
perform_isolated_example = perform_isolated 1 2 (remove 2) two_chats one-ne-two two_chats-IsValid

perform-IsValid_example : IsValid (perform 2 (save "t2" 2 "user" "why?" none none) two_chats)
perform-IsValid_example =
    perform-IsValid 2 (save "t2" 2 "user" "why?" none none) two_chats two_chats-IsValid

save_chat_message_iff_example :
    (((save_chat_message "t2" 2 1 "user" "why?" none none two_chats).0.2 ≡ 200) ↔ (
      Has (λ (c : Chat). (c.id ≡ 2) × (c.user_id ≡ 1)) two_chats.chats.rows
      × (is_empty "user" ≡ false)
      × (is_empty "why?" ≡ false)))
    × (((save_chat_message "t2" 2 1 "user" "why?" none none two_chats).0.2 ≡ 404)
        ↔ (¬ Has (λ (c : Chat). (c.id ≡ 2) × (c.user_id ≡ 1)) two_chats.chats.rows))
    × (((save_chat_message "t2" 2 1 "user" "why?" none none two_chats).0.2 ≡ 200)
        ⊎ ((save_chat_message "t2" 2 1 "user" "why?" none none two_chats).1 ≡ two_chats))
save_chat_message_iff_example = save_chat_message_iff "t2" 2 1 "user" "why?" none none two_chats

saved : (save_chat_message "t2" 2 2 "user" "why?" none none two_chats).0 ≡ (true, "saved", 200)
unfolding save_chat_message chat_belongs_to_user create_user_chat create_chat
saved = refl

get_chat_messages-save_chat_message_example :
    get_chat_messages 2 2 (save_chat_message "t2" 2 2 "user" "why?" none none two_chats).1
    ≡ some (get_messages 2 two_chats ++ new_message "t2" 2 "user" "why?" none none two_chats ∷ [])
get_chat_messages-save_chat_message_example =
    get_chat_messages-save_chat_message "t2" 2 2 "user" "why?" none none two_chats two_chats-IsValid
      saved

abbrev one_prompt : Db
one_prompt = (create_prompt 2 "Fleet" "show the fleet" "company" init_db).1

not_mine : (delete_prompt 1 1 one_prompt).0 ≡ false
unfolding create_prompt delete_prompt
not_mine = refl

prompts_isolated_example :
    (get_prompts 2 (create_prompt 1 "t" "c" "g" one_prompt).1 ≡ get_prompts 2 one_prompt)
    × (get_prompts 2 (update_prompt 1 1 "t" "c" "g" one_prompt).1 ≡ get_prompts 2 one_prompt)
    × (get_prompts 2 (delete_prompt 1 1 one_prompt).1 ≡ get_prompts 2 one_prompt)
prompts_isolated_example = prompts_isolated 1 2 1 "t" "c" "g" one_prompt one-ne-two

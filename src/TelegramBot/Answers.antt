-- ===== src/TelegramBot/Answers.antt =====
-- A question of a linked user, from the message to the answer that is saved and posted.
use mathlib.Core.List.{append_assoc}
use iot_ops_agent.Prelude.{
  ℕ, String, ◌≡◌, refl, ap, ◌∙◌, Bool, true, false, none, List, [], ◌∷◌, ◌++◌, map, arith, length,
  nat_eq,
}
use iot_ops_agent.Prelude.Text.{is_empty}
use iot_ops_agent.Prelude.Result.{ok}
use iot_ops_agent.Database.{TelegramIdentity}
use iot_ops_agent.Database.Chats.{chat_belongs_to_user, get_messages}
use iot_ops_agent.Database.References.{IsValid}
use iot_ops_agent.TelegramBot.{
  Message, Sent, Bot, Times, Services, StreamEvent, thought, observation, final, other, Run,
  answered,
}
use iot_ops_agent.TelegramBot.Turns.{
  Progress, consume, no_progress, emit, ran, record_answer, complete_answer, answer_in,
  started_notice, answer_prompt,
}
use iot_ops_agent.TelegramBot.Sending.{post_chunks, split_telegram_text, send_telegram_message}
use iot_ops_agent.TelegramBot.Writes.{reply-with_sent, start-Writes}
use iot_ops_agent.TelegramBot.Isolation.{Writes-IsValid}
use iot_ops_agent.TelegramBot.Commands.{telegram_message_starts_new_topic}
use iot_ops_agent.TelegramBot.History.{Started, start_telegram_history, finish_telegram_history}
use iot_ops_agent.TelegramBot.Saves.{said, Appended, save-Appended, start-Appended}

-- The answer that is saved is not empty.
consume-answer :
    (events : List StreamEvent) (p : Progress)
    → is_empty p.final_answer ≡ false
    → is_empty (consume events p).final_answer ≡ false
unfolding consume
consume-answer [] p h = h
consume-answer (thought n said_ action workflow ∷ events) p h = consume-answer events _ h
consume-answer (observation n output ∷ events) p h = consume-answer events _ h
consume-answer (final answer usage ∷ events) p h = consume-answer events _ (ground arith)
consume-answer (other kind ∷ events) p h = consume-answer events _ h

-- The agent's run for a prompt of a linked user.
abbrev pub run_of : Services → TelegramIdentity → (data_source prompt : String) → Run
run_of e identity data_source prompt = record {
  prompt = prompt;
  data_source = data_source;
  source_resolution = e.resolve_source_context data_source;
  user_id = identity.user_id;
}

-- What is said at last, whatever the agent yields.
abbrev pub answer_of : List StreamEvent → String
answer_of events = (consume events no_progress).final_answer

module _ (e : Services) (t : Times) (message : Message)
    (asked : is_empty message.text ≡ false) where
  record-Appended :
      (u k : ℕ) (p : Progress) (w : Bot)
      → IsValid w.db
      → chat_belongs_to_user k u w.db ≡ true
      → is_empty p.final_answer ≡ false
      → Appended u k w.db
          (record_answer e t message u k p w).db
          (("assistant", p.final_answer) ∷ [])
  unfolding record_answer finish_telegram_history emit
  record-Appended u k p w valid own h =
      let (_, appended) =
        save-Appended t.answered k u "assistant" p.final_answer (e.dumps_steps p.steps)
          (e.dumps_usage p.token_usage) w.db valid own refl h in
      appended

  complete-Appended :
      (u k : ℕ) (created_ : Bool) (p : Progress) (w : Bot)
      → IsValid w.db
      → chat_belongs_to_user k u w.db ≡ true
      → is_empty p.final_answer ≡ false
      → Appended u k w.db
          (complete_answer e t message u k created_ p w).1.db
          (("assistant", p.final_answer) ∷ [])
  unfolding complete_answer
  complete-Appended u k created_ p w valid own h =
      let (sent, same) =
        reply-with_sent e message.chat_id p.final_answer (answered k created_ (length p.steps))
          (record_answer e t message u k p w) in
      rw same (record-Appended u k p w valid own h)

  answer_in-Appended :
      (identity : TelegramIdentity) (run : Run) (new_topic : Bool) (s : Started)
      → IsValid s.1.db
      → chat_belongs_to_user s.0.0 identity.user_id s.1.db ≡ true
      → (e.run_stream run).1 ≡ none
      → Appended identity.user_id s.0.0 s.1.db
          (answer_in e t message identity run new_topic s).1.db
          (("assistant", answer_of (e.run_stream run).0) ∷ [])
  unfolding answer_in
  answer_in-Appended identity run new_topic ((k, created_), w) valid own ended =
      let w₁ =
        ran identity.user_id k run (e.run_stream run).0
          (emit identity.user_id (started_notice e t message identity k new_topic created_) w) in
      rw ended (
        unfold ran emit in
        complete-Appended identity.user_id k created_ (consume (e.run_stream run).0 no_progress) w₁
          valid own (consume-answer (e.run_stream run).0 no_progress refl))

  module _ (token : is_empty e.bot_token ≡ false)
      (accepted : (sent : List Sent) (m : Sent) → e.post sent m ≡ none) where
    post-ok :
        (chat_id : String) (parts : List String) (w : Bot)
        → (post_chunks e chat_id parts w).0 ≡ ok tt
    unfolding post_chunks
    post-ok chat_id [] w = refl
    post-ok chat_id (p ∷ parts) w =
        let m : Sent = record { chat_id = chat_id; text = p } in
        rw (accepted w.sent m) (post-ok chat_id parts (record w { sent = w.sent ++ m ∷ [] }))

    send-ok : (chat_id text : String) (w : Bot) → (send_telegram_message e chat_id text w).0 ≡ ok tt
    unfolding send_telegram_message
    send-ok chat_id text w = rw token (post-ok chat_id (split_telegram_text (e.render text)) w)

    answer_in-answered :
        (identity : TelegramIdentity) (run : Run) (new_topic : Bool) (s : Started)
        → (e.run_stream run).1 ≡ none
        → (n : ℕ) × ((answer_in e t message identity run new_topic s).0
            ≡ ok (answered s.0.0 s.0.1 n))
    unfolding answer_in complete_answer
    answer_in-answered identity run new_topic ((k, created_), w) ended =
        let p = consume (e.run_stream run).0 no_progress in
        let w₁ =
          ran identity.user_id k run (e.run_stream run).0
            (emit identity.user_id (started_notice e t message identity k new_topic created_) w) in
        (
          length p.steps,
          rw
              (
                ended,
                send-ok message.chat_id p.final_answer
                    (record_answer e t message identity.user_id k p w₁),
              )
              refl,
        )

    pub prompt-Appended :
        (identity : TelegramIdentity) (data_source prompt : String) (w : Bot)
        → IsValid w.db
        → (e.run_stream (run_of e identity data_source prompt)).1 ≡ none
        → (k : ℕ) × Appended identity.user_id k w.db
            (answer_prompt e t message identity data_source prompt w).1.db
            (("user", message.text)
              ∷ ("assistant", answer_of (e.run_stream (run_of e identity data_source prompt)).0)
              ∷ [])
          × (created_ : Bool) × (n : ℕ) × ((answer_prompt e t message identity data_source prompt
                w).0
              ≡ ok (answered k created_ n))
    unfolding answer_prompt
    prompt-Appended identity data_source prompt w valid ended =
        let u = identity.user_id in
        let new_topic = telegram_message_starts_new_topic e.lower message.text in
        let run = run_of e identity data_source prompt in
        let s = start_telegram_history t u message new_topic w in
        let start = start-Appended t u message asked new_topic w valid in
        let valid' = Writes-IsValid u w.db s.1.db (start-Writes t u message new_topic w) valid in
        let end = answer_in-Appended identity run new_topic s valid' start.own ended in
        let (n, result) = answer_in-answered identity run new_topic s ended in
        (
          s.0.0,
          record {
            own = end.own;
            messages =
                end.messages
                ∙ ap (λ ms. ms ++ ("assistant", answer_of (e.run_stream run).0) ∷ []) start.messages
                ∙ append_assoc (map said (get_messages s.0.0 w.db)) _ _;
          },
          s.0.1,
          n,
          result,
        )

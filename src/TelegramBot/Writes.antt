-- ===== src/TelegramBot/Writes.antt =====
-- What the bot writes: the chats and messages of one user, the accounts of Telegram users, or nothing.
use iot_ops_agent.Prelude.{
  ℕ, String, ◌≡◌, refl, ap, ◌∙◌, inl, inr, Bool, Option, none, List, [], ◌∷◌, ◌++◌, length,
  Bool-cases, Option-cases,
}
use iot_ops_agent.Prelude.Text.{is_empty}
use iot_ops_agent.Prelude.Result.{Result-cases}
use iot_ops_agent.Database.{TelegramIdentity, Db}
use iot_ops_agent.Database.Chats.{create_chat}
use iot_ops_agent.ChatService.{save_chat_message}
use iot_ops_agent.TelegramBot.{Message, Run, Bot, Sent, answered, Times, Services, ◌>>◌, return}
use iot_ops_agent.TelegramBot.Commands.{telegram_message_starts_new_topic}
use iot_ops_agent.TelegramBot.Sending.{post_chunks, send_telegram_message}
use iot_ops_agent.TelegramBot.History.{
  continued_chat, create_history, save_question, start_created, start_again, Started,
  start_telegram_history, finish_telegram_history,
}
use iot_ops_agent.TelegramBot.Turns.{
  Progress, consume, emit, ran, complete_answer, answer_in, answer_prompt, record_answer,
  no_progress, started_notice,
}

-- From one database to another by writing chats of `u` and what `u` may write in chats.
pub data Writes (u : ℕ) : Db → Db → Type 0 where
  done : (db : Db) → Writes u db db
  created :
      (now title : String) (db after : Db)
      → Writes u (create_chat now u title db).1 after
      → Writes u db after
  saved :
      (now : String) (chat_id : ℕ) (role content : String) (steps usage : Option String)
      (db after : Db)
      → Writes u (save_chat_message now chat_id u role content steps usage db).1 after
      → Writes u db after

pub Writes-trans : {u : ℕ} {a b c : Db} → Writes u a b → Writes u b c → Writes u a c
Writes-trans (done a) q = q
Writes-trans (created now title a b p) q = created now title a _ (Writes-trans p q)
Writes-trans (saved now k role content steps usage a b p) q =
    saved now k role content steps usage a _ (Writes-trans p q)

-- Only what was posted differs.
abbrev pub with_sent : List Sent → Bot → Bot
with_sent sent w = record w { sent = sent }

module _ (e : Services) where
  post_chunks-with_sent :
      (chat_id : String) (parts : List String) (w : Bot)
      → (sent : List Sent) × ((post_chunks e chat_id parts w).1 ≡ with_sent sent w)
  unfolding post_chunks
  post_chunks-with_sent chat_id [] w = (w.sent, refl)
  post_chunks-with_sent chat_id (p ∷ parts) w =
      elim (Option-cases (e.post w.sent (record { chat_id = chat_id; text = p }))) [
        | inl accepted ↦
            let message : Sent = record { chat_id = chat_id; text = p } in
            let (sent, same) =
              post_chunks-with_sent chat_id parts (record w { sent = w.sent ++ message ∷ [] }) in
            (sent, rw accepted same)
        | inr (raised, e) ↦ (w.sent, rw e refl)
      ]

  pub send-with_sent :
      (chat_id text : String) (w : Bot)
      → (sent : List Sent) × ((send_telegram_message e chat_id text w).1 ≡ with_sent sent w)
  unfolding send_telegram_message
  send-with_sent chat_id text w = elim (Bool-cases (is_empty e.bot_token)) [
    | inl no_token ↦ (w.sent, rw no_token refl)
    | inr token ↦ rw token (post_chunks-with_sent chat_id _ w)
  ]

  pub reply-with_sent :
      {A : Type 0} (chat_id text : String) (outcome : A) (w : Bot)
      → (sent : List Sent) × (((send_telegram_message e chat_id text >> return outcome) w).1
          ≡ with_sent sent w)
  reply-with_sent chat_id text outcome w =
      let (sent, same) = send-with_sent chat_id text w in
      elim (Result-cases (send_telegram_message e chat_id text w).0) [
        | inl (x, posted) ↦ (sent, rw posted same)
        | inr (m, raised) ↦ (sent, rw raised same)
      ]

module _ (t : Times) (user_id : ℕ) (message : Message) where
  pub create_history-Writes :
      (now : String) (w : Bot) → Writes user_id w.db (create_history now user_id message w).1.db
  unfolding create_history
  create_history-Writes now w = created now _ w.db _ (done _)

  pub save_question-Writes :
      (now : String) (chat_id : ℕ) (w : Bot)
      → Writes user_id w.db (save_question now chat_id user_id message w).1.db
  unfolding save_question
  save_question-Writes now chat_id w =
      saved now chat_id "user" message.text none none w.db _ (done _)

  start_created-Writes : (w : Bot) → Writes user_id w.db (start_created t user_id message w).1.db
  unfolding start_created
  start_created-Writes w =
      Writes-trans (create_history-Writes t.created w) (save_question-Writes t.asked _ _)

  start_again-Writes : (w : Bot) → Writes user_id w.db (start_again t user_id message w).1.db
  unfolding start_again
  start_again-Writes w =
      Writes-trans (create_history-Writes t.created_again w)
        (save_question-Writes t.asked_again _ _)

  pub start-Writes :
      (new_topic : Bool) (w : Bot)
      → Writes user_id w.db (start_telegram_history t user_id message new_topic w).1.db
  unfolding start_telegram_history
  start-Writes new_topic w = elim (Option-cases (continued_chat user_id message new_topic w)) [
    | inl fresh ↦ rw fresh (start_created-Writes w)
    | inr (k, e) ↦ elim (Bool-cases (save_question t.asked k user_id message w).0) [
      | inl ok_ ↦ rw (e, ok_) (save_question-Writes t.asked k w)
      | inr refused ↦
          rw (e, refused)
            (Writes-trans (save_question-Writes t.asked k w)
              (start_again-Writes (save_question t.asked k user_id message w).1))
    ]
  ]

  start-runs :
      (new_topic : Bool) (w : Bot)
      → (start_telegram_history t user_id message new_topic w).1.runs ≡ w.runs
  unfolding start_telegram_history start_created start_again create_history save_question
  start-runs new_topic w = elim (Option-cases (continued_chat user_id message new_topic w)) [
    | inl fresh ↦ rw fresh refl
    | inr (k, e) ↦
        elim (Bool-cases
          (save_chat_message t.asked k user_id "user" message.text none none w.db).0.0) [
            | inl ok_ ↦ rw (e, ok_) refl
            | inr refused ↦ rw (e, refused) refl
          ]
  ]

-- The agent was run once more, and only chats and messages were written, for one user.
pub record IsTurn (user_id : ℕ) (run : Run) (before after : Bot) : Type 0 where
  pub runs : after.runs ≡ before.runs ++ run ∷ []
  pub written : Writes user_id before.db after.db

module _ (e : Services) (t : Times) (message : Message) where
  complete-kept :
      (user_id chat_id : ℕ) (created_ : Bool) (p : Progress) (w : Bot)
      → ((complete_answer e t message user_id chat_id created_ p w).1.runs ≡ w.runs)
        × Writes user_id w.db (complete_answer e t message user_id chat_id created_ p w).1.db
  unfolding complete_answer
  complete-kept user_id chat_id created_ p w =
      let (sent, same) =
        reply-with_sent e message.chat_id p.final_answer
          (answered chat_id created_ (length p.steps))
          (record_answer e t message user_id chat_id p w) in
      rw same (
        unfold record_answer finish_telegram_history emit in refl,
        unfold record_answer finish_telegram_history emit in
            saved t.answered chat_id "assistant" p.final_answer _ _ w.db _ (done _),
      )

  answer_in-IsTurn :
      (identity : TelegramIdentity) (run : Run) (new_topic : Bool) (s : Started)
      → IsTurn identity.user_id run s.1 (answer_in e t message identity run new_topic s).1
  unfolding answer_in ran emit
  answer_in-IsTurn identity run new_topic ((k, created_), w) =
      elim (Option-cases (e.run_stream run).1) [
        | inr (m, raised) ↦ rw raised (record { runs = refl; written = done w.db })
        | inl ended ↦
            let p = consume (e.run_stream run).0 no_progress in
            let w₁ = ran identity.user_id k run (e.run_stream run).0 (
              emit identity.user_id (started_notice e t message identity k new_topic created_) w) in
            let (runs, written) = complete-kept identity.user_id k created_ p w₁ in
            rw ended (record { runs = runs; written = written })
      ]

  pub answer_prompt-IsTurn :
      (identity : TelegramIdentity) (data_source prompt : String) (w : Bot)
      → (run : Run) × (run.data_source ≡ data_source)
        × (run.user_id ≡ identity.user_id)
        × (run.source_resolution ≡ e.resolve_source_context data_source)
        × IsTurn identity.user_id run w (answer_prompt e t message identity data_source prompt w).1
  unfolding answer_prompt
  answer_prompt-IsTurn identity data_source prompt w =
      let new_topic = telegram_message_starts_new_topic e.lower message.text in
      let run : Run = record {
        prompt = prompt;
        data_source = data_source;
        source_resolution = e.resolve_source_context data_source;
        user_id = identity.user_id;
      } in
      let s = start_telegram_history t identity.user_id message new_topic w in
      let turn = answer_in-IsTurn identity run new_topic s in
      (
        run,
        refl,
        refl,
        refl,
        record {
          runs =
              turn.runs
              ∙ ap (λ r. r ++ run ∷ []) (start-runs t identity.user_id message new_topic w);
          written = Writes-trans (start-Writes t identity.user_id message new_topic w) turn.written;
        },
      )

-- ===== src/TelegramBot/Access.antt =====
-- When the bot runs an agent, and for whom it writes.
use iot_ops_agent.Prelude.{
  String, ◌≡◌, refl, inl, inr, Bool, true, false, Option, none, some, Bool-cases, Option-cases, ◌⊎◌,
}
use iot_ops_agent.Prelude.Result.{ok, Result-cases}
use iot_ops_agent.Database.{TelegramIdentity}
use iot_ops_agent.TelegramUpdates.{claim_telegram_update}
use iot_ops_agent.TelegramLink.{resolve_telegram_identity}
use iot_ops_agent.TelegramLink.Effects.{SameChats, same_chats, consume-SameChats, unlink-SameChats}
use iot_ops_agent.TelegramBot.{
  Update, Message, extract_message, Run, Bot, Outcome, Times, Services, M, ◌>>◌, ◌>>=◌, return,
}
use iot_ops_agent.TelegramBot.Commands.{Routed, ask, help, parse_link_command, is_unlink_command}
use iot_ops_agent.TelegramBot.Sending.{send_telegram_message}
use iot_ops_agent.TelegramBot.Handlers.{
  handle_telegram_link_command, handle_telegram_unlink_command, link_with, link_reply, unlink_reply,
  unlink_answer,
}
use iot_ops_agent.TelegramBot.Turns.{
  data_source_is_allowed, answer_routed, answer_allowed, answer_identity, answer_sender,
  unless_handled, respond,
}
use iot_ops_agent.TelegramBot.Webhook.{World, process_telegram_update}
use iot_ops_agent.TelegramBot.Writes.{IsTurn, with_sent, reply-with_sent, answer_prompt-IsTurn}

-- What the processing of a message may have done: it ran no agent and left all chats alone, or it ran
-- one for a sender whose identity is resolved, with a data source that the identity allows, and
-- wrote chats and messages of that user only.
pub data Footprint (e : Services) (message : Message) (w : Bot) : Bot → Type 0 where
  quiet :
      (after : Bot) → SameChats w.db after.db → after.runs ≡ w.runs → Footprint e message w after
  turn :
      (after : Bot) (identity : TelegramIdentity) (run : Run)
      → resolve_telegram_identity e.allowed_user_ids message.telegram_user_id w.db ≡ ok identity
      → data_source_is_allowed identity run.data_source ≡ true
      → run.user_id ≡ identity.user_id
      → run.source_resolution ≡ e.resolve_source_context run.data_source
      → IsTurn identity.user_id run w after
      → Footprint e message w after

module _ (e : Services) (t : Times) (message : Message) where
  reply-quiet_after :
      {A : Type 0} (text : String) (outcome : A) (w w₁ : Bot)
      → SameChats w.db w₁.db
      → w₁.runs ≡ w.runs
      → Footprint e message w
          ((send_telegram_message e message.chat_id text >> return outcome) w₁).1
  reply-quiet_after text outcome w w₁ same no_run =
      let (sent, posted) = reply-with_sent e message.chat_id text outcome w₁ in
      rw posted (quiet (with_sent sent w₁) same no_run)

  reply-quiet :
      {A : Type 0} (text : String) (outcome : A) (w : Bot)
      → Footprint e message w ((send_telegram_message e message.chat_id text >> return outcome) w).1
  reply-quiet text outcome w = reply-quiet_after text outcome w w (same_chats w.db) refl

  routed-Footprint :
      (identity : TelegramIdentity) (data_source : String) (r : Routed) (w : Bot)
      → resolve_telegram_identity e.allowed_user_ids message.telegram_user_id w.db ≡ ok identity
      → data_source_is_allowed identity data_source ≡ true
      → Footprint e message w (answer_routed e t message identity data_source r w).1
  routed-Footprint identity data_source (help text) w resolved allowed = reply-quiet text _ w
  routed-Footprint identity data_source (ask prompt) w resolved allowed =
      let (run, source, user, context, is_turn) =
        answer_prompt-IsTurn e t message identity data_source prompt w in
      turn _ identity run resolved (rw source allowed) user (rw source context) is_turn

  allowed-Footprint :
      (identity : TelegramIdentity) (data_source : String) (w : Bot)
      → resolve_telegram_identity e.allowed_user_ids message.telegram_user_id w.db ≡ ok identity
      → data_source_is_allowed identity data_source ≡ true
      → Footprint e message w (answer_allowed e t message identity data_source w).1
  unfolding answer_allowed
  allowed-Footprint identity data_source w resolved allowed =
      routed-Footprint identity data_source _ w resolved allowed

  identity-Footprint :
      (identity : TelegramIdentity) (w : Bot)
      → resolve_telegram_identity e.allowed_user_ids message.telegram_user_id w.db ≡ ok identity
      → Footprint e message w (answer_identity e t message identity w).1
  unfolding answer_identity
  identity-Footprint identity w resolved =
      let source = e.get_user_data_source identity.user_id w.db in
      elim (Bool-cases (data_source_is_allowed identity source)) [
        | inr refused ↦ rw refused (reply-quiet _ _ w)
        | inl allowed ↦ rw allowed (allowed-Footprint identity source w resolved allowed)
      ]

  sender-Footprint : (w : Bot) → Footprint e message w (answer_sender e t message w).1
  unfolding answer_sender
  sender-Footprint w =
      elim (Result-cases
        (resolve_telegram_identity e.allowed_user_ids message.telegram_user_id w.db)) [
          | inr (reason, denied) ↦ rw denied (reply-quiet _ _ w)
          | inl (identity, resolved) ↦ rw resolved (identity-Footprint identity w resolved)
        ]

  -- A step that answers ends the processing.
  first_answers :
      (step : M Outcome) (next : M Outcome) (w : Bot)
      → ((step >>= (λ outcome. return (some outcome)) >>= unless_handled e t message next) w).1
        ≡ (step w).1
  first_answers step next w = elim (Result-cases (step w).0) [
    | inl (outcome, answered_) ↦ rw answered_ refl
    | inr (m, raised) ↦ rw raised refl
  ]

  link_reply-Footprint :
      (id : String) (reply : Bool × String) (w w₁ : Bot)
      → SameChats w.db w₁.db
      → w₁.runs ≡ w.runs
      → Footprint e message w (link_reply e t message id reply w₁).1
  link_reply-Footprint id (true, reason) w w₁ same no_run = reply-quiet_after _ _ w w₁ same no_run
  link_reply-Footprint id (false, reason) w w₁ same no_run = reply-quiet_after _ _ w w₁ same no_run

  unlink_reply-Footprint :
      (reply : Bool × String) (w w₁ : Bot)
      → SameChats w.db w₁.db
      → w₁.runs ≡ w.runs
      → Footprint e message w (unlink_reply e t message reply w₁).1
  unlink_reply-Footprint (true, reason) w w₁ same no_run = reply-quiet_after _ _ w w₁ same no_run
  unlink_reply-Footprint (false, reason) w w₁ same no_run = reply-quiet_after _ _ w w₁ same no_run

  link_with-Footprint :
      (code : String) (id : Option String) (w : Bot)
      → Footprint e message w (link_with e t message code id w).1
  link_with-Footprint code none w = reply-quiet _ _ w
  link_with-Footprint code (some id) w =
      link_reply-Footprint id _ w _
        (consume-SameChats e.platform t.linked code id message.telegram_username w.db) refl

  unlink_answer-Footprint : (w : Bot) → Footprint e message w (unlink_answer e t message w).1
  unlink_answer-Footprint w =
      unlink_reply-Footprint _ w _
        (unlink-SameChats e.platform t.linked message.telegram_user_id w.db) refl

  unlinked_or-Footprint :
      (w : Bot)
      → Footprint e message w
          ((handle_telegram_unlink_command e t message
              >>= unless_handled e t message (answer_sender e t message))
            w).1
  unfolding handle_telegram_unlink_command
  unlinked_or-Footprint w = elim (Bool-cases (is_unlink_command e.lower message.text)) [
    | inl is_unlink ↦
        rw (is_unlink, first_answers (unlink_answer e t message) (answer_sender e t message) w)
          (unlink_answer-Footprint w)
    | inr no_unlink ↦ rw no_unlink (sender-Footprint w)
  ]

  respond-Footprint : (w : Bot) → Footprint e message w (respond e t message w).1
  unfolding respond handle_telegram_link_command
  respond-Footprint w = elim (Option-cases (parse_link_command e.lower message.text)) [
    | inr (code, is_link) ↦
        rw (is_link, first_answers (link_with e t message code message.telegram_user_id) _ w)
          (link_with-Footprint code message.telegram_user_id w)
    | inl no_link ↦ rw no_link (unlinked_or-Footprint w)
  ]

-- Processing an update leaves the bot as it was, or is that of the update's message: it runs no agent
-- and leaves all chats alone, or it runs one for a sender that the allow list has and that is linked
-- to an active identity, with a data source that the identity allows, and then writes chats and
-- messages of the identity's user only.
pub process-Footprint :
    (e : Services) (t : Times) (update : Update) (w : World)
    → ((process_telegram_update e t update w).1.bot ≡ w.bot)
      ⊎ ((message : Message) × (extract_message update ≡ some message)
          × Footprint e message w.bot (process_telegram_update e t update w).1.bot)
unfolding process_telegram_update
process-Footprint e t update w = elim (Option-cases (extract_message update)) [
  | inl nothing ↦ rw nothing (inl refl)
  | inr (message, found) ↦
      elim (Bool-cases
        (claim_telegram_update e.retention t.claimed update.update_id w.updates).0.1) [
          | inr refused ↦ rw (found, refused) (inl refl)
          | inl claimed ↦ elim (Result-cases (respond e t message w.bot).0) [
            | inl (o, done) ↦
                rw (found, claimed, done) (inr (message, refl, respond-Footprint e t message w.bot))
            | inr (m, failed) ↦
                rw (found, claimed, failed)
                  (inr (message, refl, respond-Footprint e t message w.bot))
          ]
        ]
]

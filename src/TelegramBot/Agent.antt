-- ===== src/TelegramBot/Agent.antt =====
-- The bot with the agent that the application gives it, agents/ioa_v3_agent.py, and with the context
-- of services/diagnose_service.py: when a message makes the agent read the company's data.
use iot_ops_agent.Prelude.{
  String, ◌≡◌, ◌≢◌, refl, sym, ap, ◌∙◌, inl, inr, true, Option, none, some, List, [], ◌∷◌, ◌++◌,
  All, arith, length, length-append, is_some, string_eq,
}
use iot_ops_agent.Prelude.Result.{ok}
use iot_ops_agent.Database.{TelegramIdentity}
use iot_ops_agent.TelegramLink.{resolve_telegram_identity}
use iot_ops_agent.SourceSelection.{normalized_source, resolve_agent_operational_context}
use iot_ops_agent.SourceSelection.Laws.{resolve-company}
use iot_ops_agent.IoaV3
use iot_ops_agent.IoaV3.{Request}
use iot_ops_agent.IoaV3.Catalog.{Workflow, get_company_tool}
use iot_ops_agent.IoaV3.Execution.{Call, asks, execution_of}
use iot_ops_agent.IoaV3.Authorization.{IsAuthorized}
use iot_ops_agent.IoaV3.Stream.{run_stream}
use iot_ops_agent.IoaV3.Runs.{run_stream-IsSafe}
use iot_ops_agent.TelegramBot.{Update, Message, extract_message, Run, Bot, Times, Services}
use iot_ops_agent.TelegramBot.Turns.{data_source_is_allowed}
use iot_ops_agent.TelegramBot.Webhook.{World, process_telegram_update}
use iot_ops_agent.TelegramBot.Access.{Footprint, quiet, turn, process-Footprint}

-- The arguments of `run_stream` as the agent takes them; a message has no conversation context.
unfoldable pub request_of : Run → Request
request_of run = record {
  user_input = run.prompt;
  selected_source = run.data_source;
  source_resolution = run.source_resolution;
  conversation_context = [];
}

abbrev last_or : {A : Type 0} → A → List A → A
last_or other [] = other
last_or other (x ∷ xs) = last_or x xs

last_or-append : {A : Type 0} (other x : A) (xs : List A) → last_or other (xs ++ x ∷ []) ≡ x
last_or-append other x [] = refl
last_or-append other x (y ∷ ys) = last_or-append y x ys

append-last : {A : Type 0} (x y : A) (xs : List A) → xs ++ x ∷ [] ≡ xs ++ y ∷ [] → x ≡ y
append-last x y xs same = sym (last_or-append x x xs) ∙ ap (last_or x) same ∙ last_or-append x y xs

-- A call that the agent makes for a workflow on the company's data is for a sender whose identity
-- allows the company as a source, while its data can be read.
pub record IsCleared (lower : String → String) (health : Option String) (a : IoaV3.Services)
    (e : Services) (message : Message) (w : Bot) (run : Run) (c : Call) : Type 0 where
  pub workflow : Workflow
  pub made : execution_of a.planner.tools a.planner.texts workflow ≡ asks c
  pub cleared :
      is_some (get_company_tool workflow.tool) ≡ true
      → (identity : TelegramIdentity) × (resolve_telegram_identity e.allowed_user_ids
            message.telegram_user_id w.db
          ≡ ok identity)
        × (data_source_is_allowed identity run.data_source ≡ true)
        × (normalized_source lower run.data_source ≡ "company")
        × (health ≡ none)

module _ (lower : String → String) (telemetry_source : String) (health : Option String)
    (a : IoaV3.Services) (e : Services)
    (contexts : (source : String)
      → e.resolve_source_context source
        ≡ resolve_agent_operational_context lower telemetry_source health source) where
  call-IsCleared :
      (message : Message) (w : Bot) (identity : TelegramIdentity) (run : Run) (c : Call)
      → resolve_telegram_identity e.allowed_user_ids message.telegram_user_id w.db ≡ ok identity
      → data_source_is_allowed identity run.data_source ≡ true
      → run.source_resolution ≡ e.resolve_source_context run.data_source
      → IsAuthorized a (request_of run) c
      → IsCleared lower health a e message w run c
  unfolding request_of
  call-IsCleared message w identity run c resolved allowed context authorized = record {
    workflow = authorized.workflow;
    made = authorized.made;
    cleared = λ company.
        let (selected, active) = authorized.allowed.from_company company in
        let same = context ∙ contexts run.data_source in
        let (is_company, readable) =
          resolve-company lower telemetry_source health run.data_source (rw same at selected)
            (rw same at active) in
        (identity, resolved, allowed, is_company, readable);
  }

  All-IsCleared :
      (message : Message) (w : Bot) (identity : TelegramIdentity) (run : Run) (cs : List Call)
      → resolve_telegram_identity e.allowed_user_ids message.telegram_user_id w.db ≡ ok identity
      → data_source_is_allowed identity run.data_source ≡ true
      → run.source_resolution ≡ e.resolve_source_context run.data_source
      → All (IsAuthorized a (request_of run)) cs
      → All (IsCleared lower health a e message w run) cs
  All-IsCleared message w identity run [] resolved allowed context authorized = tt
  All-IsCleared message w identity run (c ∷ cs) resolved allowed context (h, hs) = (
    call-IsCleared message w identity run c resolved allowed context h,
    All-IsCleared message w identity run cs resolved allowed context hs,
  )

  -- No list is longer than itself.
  no-run : (runs : List Run) (run : Run) → runs ≢ runs ++ run ∷ []
  no-run runs run same = omega (arith, ap length same, length-append runs (run ∷ []))

  Footprint-IsCleared :
      (message : Message) (w after : Bot) (run : Run)
      → Footprint e message w after
      → after.runs ≡ w.runs ++ run ∷ []
      → All (IsCleared lower health a e message w run) (run_stream a (request_of run)).state.calls
  Footprint-IsCleared message w after run (quiet _ same no_run) grown =
      absurd (no-run w.runs run (sym no_run ∙ grown))
  Footprint-IsCleared message w after run
        (turn _ identity run' resolved allowed asked context is_turn) grown =
      let same : run' ≡ run = append-last run' run w.runs (sym is_turn.runs ∙ grown) in
      All-IsCleared message w identity run _ resolved (rw same at allowed) (rw same at context)
        (run_stream-IsSafe a (request_of run)).0

  -- Where the bot resolves a source as the application does, and processing an update made it run
  -- the agent: every call of that run, if it is for a workflow on the company's data, is for a sender
  -- with an active identity that allows the selected source, which is "company" but for case and
  -- surrounding blanks, while the company's data can be read.
  pub process-IsCleared :
      (t : Times) (update : Update) (w : World) (run : Run)
      → (process_telegram_update e t update w).1.bot.runs ≡ w.bot.runs ++ run ∷ []
      → (message : Message) × (extract_message update ≡ some message)
        × All
            (IsCleared lower health a e message w.bot run)
            (run_stream a (request_of run)).state.calls
  process-IsCleared t update w run grown = elim (process-Footprint e t update w) [
    | inl same ↦ absurd (no-run w.bot.runs run (sym (ap (λ (b : Bot). b.runs) same) ∙ grown))
    | inr (message, found, footprint) ↦
        (message, found, Footprint-IsCleared message w.bot _ run footprint grown)
  ]

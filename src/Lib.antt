-- ===== src/Lib.antt =====
-- IoT Ops Agent: a Flask application in which users chat with agents about telemetry of devices,
-- from a simulator or from a company's MongoDB, on the web or through a Telegram bot. This library
-- models the parts that keep its data and its access rules.
--
-- The parts, and the files that model them:
--
-- - storage/sqlite_store.py, the application's data: Database.antt (the tables of `init_db`),
--   Database/Tables.antt (a table with its AUTOINCREMENT key), Database/Chats.antt,
--   Database/Prompts.antt, Database/Users.antt, Database/Links.antt, Database/Telemetry.antt and
--   Database/Usage.antt, with one function for each function of the source. A function takes the
--   database and returns its result with the new database; one that may raise returns a `Result`.
--   Database/References.antt, Database/Isolation.antt and Database/Prompts/Ownership.antt hold the
--   lemmas on it.
-- - storage/relational_store.py, which sends an operation to MySQL, Postgres or SQLite:
--   Storage.antt (`_with_fallback`, `_without_sqlite_fallback`, the retry and the circuit breaker)
--   with Storage/Backends.antt and Storage/Calls.antt, and DataSources.antt (the policy of data
--   sources) with DataSources/Laws.antt.
-- - services/chat_service.py: ChatService.antt, over the tables of Database;
--   ChatService/Requests.antt makes one type of what a user may ask, ChatService/Access.antt and
--   ChatService/Saves.antt use it.
-- - services/auth_service.py: AuthService.antt and AuthService/Accounts.antt.
-- - services/company_mongo_proxy.py: RateLimiter.antt (`SlidingWindowRateLimiter`) with
--   RateLimiter/Window.antt and RateLimiter/Grants.antt; MongoProxy.antt (`CompanyMongoReadProxy`)
--   with MongoProxy/State.antt, MongoProxy/Documents.antt, MongoProxy/Names.antt and
--   MongoProxy/Reads.antt. The proxy calls the limiter before every read. McpProxy.antt (the
--   retries of `MCPCompanyMongoReadProxy`) with McpProxy/Retries.antt.
-- - services/telegram_link_service.py and the identities of services/telegram_service.py:
--   TelegramLink.antt with TelegramLink/Identities.antt, Codes.antt, Actions.antt, Reuse.antt,
--   Ownership.antt and Revocation.antt.
-- - The claims of webhook updates in services/telegram_service.py: TelegramUpdates.antt with
--   TelegramUpdates/Claims.antt and TelegramUpdates/Retention.antt.
-- - The rest of services/telegram_service.py: TelegramBot.antt (updates, the bot's state and the
--   monad of code that returns or raises), TelegramBot/Commands.antt (the commands and prompts in a
--   text), TelegramBot/Sending.antt (`split_telegram_text`, `send_telegram_message`),
--   TelegramBot/History.antt (the chat of a conversation, the steps of an answer),
--   TelegramBot/Handlers.antt (`/link`, `/unlink`), TelegramBot/Turns.antt (the body of the `try`
--   in `process_telegram_update`) and TelegramBot/Webhook.antt (the whole of it, its thread, and
--   the route of routes/telegram_routes.py). The bot calls TelegramUpdates, TelegramLink,
--   ChatService and Database. TelegramBot/Chunks.antt, Deliveries.antt, Redelivery.antt,
--   Writes.antt, Access.antt, Isolation.antt, Saves.antt and Answers.antt hold what follows, and
--   TelegramLink/Effects.antt what linking leaves alone.
-- - services/company_poc_rule_service.py: PocRules.antt with PocRules/Readings.antt and
--   PocRules/Reports.antt.
-- - services/company_data_service.py: CompanyData.antt (KPI evaluations and their alerts) with
--   CompanyData/Kpis.antt, and CompanyData/Payloads.antt (`get_company_operational_payload`, which
--   calls them and the rules on devices) with CompanyData/Reads.antt.
-- - The data source that a user has selected (routes/telemetry_routes.py) and the context that an
--   agent gets for it (services/diagnose_service.py): SourceSelection.antt with
--   SourceSelection/Laws.antt. TelegramBot/Agent.antt puts the bot, this context and the IOA agent
--   of version 3 together, as app.py does.
-- - agents/langgraph_agent.py: LangGraphAgent/Registry.antt (the tools and the reading of a
--   request), LangGraphAgent.antt (the state and the policy nodes), LangGraphAgent/Nodes.antt (the
--   nodes that run the tool and answer), LangGraphAgent/Graph.antt (the compiled graph, `run` and
--   `run_stream`) and Evidence.antt (`sanitize_evidence`). LangGraphAgent/Intents.antt, Runs.antt,
--   Executable.antt, Ends.antt, Authorization.antt and Streams.antt, and Evidence/Bounds.antt, hold
--   what follows.
-- - agents/ioa_v3_agent.py: IoaV3/Catalog.antt (the workflows and the test that one is authorised),
--   IoaV3/Execution.antt and IoaV3/Outputs.antt (what a workflow calls, and what it hands on, with
--   the parameters of the payload in services/n8n_gateway_service.py and the lookup in
--   services/grafana_tool_registry.py), IoaV3/Planner.antt with IoaV3/Planner/Parameters.antt and
--   IoaV3/Planner/Runbooks.antt (`plan_workflows`), IoaV3.antt (the state and the nodes) and
--   IoaV3/Stream.antt (`run_stream`). IoaV3/Planner/Bounds.antt, Keys.antt, Allowances.antt and
--   Acceptance.antt, and IoaV3/Authorization.antt, Runs.antt, Finals.antt and Logs.antt, hold what
--   follows.
-- - storage/telemetry_store.py: TelemetryStore.antt. simulator.py: Simulator.antt with
--   Simulator/Alarms.antt.
-- - Prelude.antt and its children hold what the modules share; Tests.antt and its children run the
--   functions on small inputs.
--
-- What is a parameter: password hashing (werkzeug), the MongoDB driver, SHA-256, the Unicode tables
-- behind `upper` and `isalnum`, ISO times, what `json.dumps` and `json.loads` give, what `int`
-- makes of an environment variable, random draws and clocks, language models, and the reads that
-- the agents' tools make. For the IOA agent, also what its keyword and regular expression tables
-- find in a request, how it reads a request in its conversation, the text of its answer, and the
-- two files of config/. The rate limiter's clock counts ticks, `scale` of them to a second; link
-- codes count microseconds; the update claims take a time in any unit. A lock makes each call one
-- step. The graph of the LangGraph agent runs on the limit of 25 steps that langgraph sets. The
-- loop of `split_telegram_text` runs on the length of the text, of which each round takes 3900
-- characters off. No other function needs fuel, as every loop of the source runs over a list.
-- Floats are a parameter of the rules, without values at which `float` raises OverflowError, and
-- the read model one of the company's payload. For the bot, the posts to Telegram, the rendering of
-- an answer, the agent, the prompts and the company devices that it shows are parameters too.
--
-- A number of the program is a natural number where the source has no negative one; a limit that a
-- caller passes is an integer. The FOREIGN KEY clauses are inert, as the source never turns them
-- on.
--
-- Not modelled: the prompts of the agents and the IOA agents of versions 1 and 2, the HTTP routes
-- but the Telegram webhook, the read model and the summaries of the company's data, the MCP client
-- and the n8n gateway beyond the parameters that it passes on, the rendering of Telegram messages
-- as HTML, the SQL sent to MySQL and Postgres, and the normalisation of token usage. They call
-- language models and services, or hand data on.
pub mod Prelude
pub mod DataSources
pub mod Database
pub mod ChatService
pub mod AuthService
pub mod PocRules
pub mod CompanyData
pub mod RateLimiter
pub mod McpProxy
pub mod MongoProxy
pub mod TelegramBot
pub mod TelegramLink
pub mod SourceSelection
pub mod Storage
pub mod TelegramUpdates
pub mod TelemetryStore
pub mod Simulator
pub mod Evidence
pub mod IoaV3
pub mod LangGraphAgent
pub mod Tests

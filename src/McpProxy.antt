-- ===== src/McpProxy.antt =====
-- The calls of `MCPCompanyMongoReadProxy` in services/company_mongo_proxy.py. What the MCP client
-- gives for a call, and raises when a session is opened again, is a parameter, by the number of the
-- attempt.
pub mod Retries
use iot_ops_agent.Prelude.{
  ℕ, zero, suc, ◌+◌, ◌*◌, String, Bool, true, false, not, ◌&&◌, ◌||◌, Option, none, some, List, [],
  ◌∷◌, ◌==◌, string_eq, if◌then◌else◌,
}
use iot_ops_agent.Prelude.Text.Words.{holds_any}
use iot_ops_agent.Prelude.Result.{Result, ok, err}
use iot_ops_agent.MongoProxy.Documents.{Value, null}
use iot_ops_agent.Storage.{Exception}

pub record Client : Type 0 where
  pub lower : String → String
  pub custom_tool_caller : Bool
  pub call : (attempt : ℕ) → Result Exception Value
  pub reopen_session : (attempt : ℕ) → Option Exception

-- What an attempt does; a pause is in milliseconds.
pub data Action : Type 0 where
  request : Action
  reopen : Action
  sleep : (milliseconds : ℕ) → Action

unfoldable pub is_retryable_mcp_error : Client → Exception → Bool
is_retryable_mcp_error c e =
    e.type_name == "McpClientError"
    && holds_any (c.lower e.message)
        ("failed before tool result" ∷ "taskgroup" ∷ "timed out" ∷ "connection" ∷ [])

-- What is returned or raised, and what was done.
abbrev pub Run : Type 0
Run = Result Exception Value × List Action

abbrev pub pause : (attempt : ℕ) → Run → Run
pause attempt (r, actions) = (r, sleep (200 * suc attempt) ∷ actions)

abbrev pub reopened : (attempt : ℕ) → Option Exception → Run → Run
reopened attempt none rest = let later = pause attempt rest in (later.0, reopen ∷ later.1)
reopened attempt (some e) rest = (err e, reopen ∷ [])

abbrev pub retried : Client → (attempt : ℕ) → Run → Run
retried c attempt rest =
    if c.custom_tool_caller
    then pause attempt rest
    else reopened attempt (c.reopen_session attempt) rest

abbrev pub is_last : (left : ℕ) → Bool
is_last zero = true
is_last (suc left) = false

abbrev pub asked : Run → Run
asked (r, actions) = (r, request ∷ actions)

-- `left` attempts follow; `rest` is what they do.
abbrev pub settled : Client → (left attempt : ℕ) → Result Exception Value → (rest : Run) → Run
settled c left attempt (ok v) rest = (ok v, request ∷ [])
settled c left attempt (err e) rest =
    if is_last left || not (is_retryable_mcp_error c e)
    then (err e, request ∷ [])
    else asked (retried c attempt rest)

unfoldable pub attempts_from : Client → (left attempt : ℕ) → Run
attempts_from c zero attempt = (ok null, [])
attempts_from c (suc left) attempt =
    settled c left attempt (c.call attempt) (attempts_from c left (suc attempt))

abbrev pub attempts : ℕ
attempts = 3

unfoldable pub call_mcp_read_tool : Client → Run
call_mcp_read_tool c = attempts_from c attempts 0

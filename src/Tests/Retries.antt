-- ===== src/Tests/Retries.antt =====
-- A call of the MCP proxy that times out once.
use iot_ops_agent.Prelude.{◌≡◌, refl, false, none, zero, suc, [], ◌∷◌, ℕ}
use iot_ops_agent.Prelude.Text.Words.{holds_any, holds}
use iot_ops_agent.Prelude.Result.{Result, ok, err}
use iot_ops_agent.MongoProxy.Documents.{Value, text}
use iot_ops_agent.Storage.{Exception}
use iot_ops_agent.McpProxy.{
  Client, request, reopen, sleep, is_retryable_mcp_error, attempts_from, call_mcp_read_tool,
}
use iot_ops_agent.McpProxy.Retries.{IsSettled, call_mcp_read_tool-IsSettled}

abbrev timed_out : Exception
timed_out = record { type_name = "McpClientError"; message = "the request timed out" }

abbrev outcome : ℕ → Result Exception Value
outcome zero = err timed_out
outcome (suc n) = ok (text "devices")

abbrev client : Client
client = record {
  lower = λ s. s;
  custom_tool_caller = false;
  call = outcome;
  reopen_session = λ n. none;
}

second_attempt :
    call_mcp_read_tool client ≡ (ok (text "devices"), request ∷ reopen ∷ sleep 200 ∷ request ∷ [])
unfolding call_mcp_read_tool attempts_from is_retryable_mcp_error holds_any holds
second_attempt = refl

call_mcp_read_tool-IsSettled_example : IsSettled client 0 2 (call_mcp_read_tool client)
call_mcp_read_tool-IsSettled_example = call_mcp_read_tool-IsSettled client

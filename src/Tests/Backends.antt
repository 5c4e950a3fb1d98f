-- ===== src/Tests/Backends.antt =====
-- A Postgres operation that fails, and the SQLite one in its place. The state counts the calls.
use iot_ops_agent.Prelude.{ℕ, suc, ◌≡◌, refl, Bool, true, false, none}
use iot_ops_agent.Prelude.Result.{ok, err}
use iot_ops_agent.Storage.{
  Exception, Config, Circuit, Operation, postgres_circuit_is_open, postgres_retry_allowed,
  looks_like_stale_postgres_connection, looks_like_postgres_timeout, with_fallback,
  without_sqlite_fallback,
}
use iot_ops_agent.Storage.Backends.{without_sqlite_fallback-sqlite}
use iot_ops_agent.Storage.Calls.{IsBounded, with_calls, with_calls-IsBounded}

abbrev lost : Exception
lost = record { type_name = "OperationalError"; message = "the connection is closed" }

abbrev broken_postgres : Operation ℕ ℕ
broken_postgres w = (err lost, suc w)

abbrev sqlite_operation : Operation ℕ ℕ
sqlite_operation w = (ok 7, w)

abbrev other_operation : Operation ℕ ℕ
other_operation w = (ok 8, w)

abbrev with_postgres : Bool → Config
with_postgres fallback = record {
  using_mysql = false;
  using_postgres = true;
  fallback_enabled = fallback;
  breaker = 30;
}

abbrev closed : Circuit
closed = record { last_fallback = none; open_until = 0 }

-- A read is tried twice.
read_twice :
    with_fallback
      (with_postgres false)
      5
      "get_chats"
      (λ w. w)
      broken_postgres
      sqlite_operation
      none
      0
      closed
    ≡ (err lost, 2, closed)
unfolding with_fallback postgres_retry_allowed looks_like_stale_postgres_connection
    looks_like_postgres_timeout
read_twice = refl

without_sqlite_fallback-sqlite_example :
    without_sqlite_fallback
      (with_postgres true)
      "verify_user"
      broken_postgres
      sqlite_operation
      none
      0
      closed
    ≡ without_sqlite_fallback
        (with_postgres true)
        "verify_user"
        broken_postgres
        other_operation
        none
        0
        closed
without_sqlite_fallback-sqlite_example =
    without_sqlite_fallback-sqlite (with_postgres true) "verify_user" broken_postgres
      sqlite_operation other_operation none 0 closed refl

with_calls-IsBounded_example : IsBounded (with_postgres true) "get_chats" broken_postgres none 0 (
    with_calls
      (with_postgres true)
      5
      "get_chats"
      (λ w. w)
      broken_postgres
      sqlite_operation
      none
      0
      closed)
with_calls-IsBounded_example =
    with_calls-IsBounded (with_postgres true) 5 "get_chats" (λ w. w) broken_postgres
      sqlite_operation none 0 closed

-- The read of before is sent to Postgres twice and then to SQLite.
calls_counted :
    (with_calls
      (with_postgres true)
      5
      "get_chats"
      (λ w. w)
      broken_postgres
      sqlite_operation
      none
      0
      closed).1.1
    ≡ record { postgres = 2; sqlite = 1; mysql = 0 }
unfolding with_fallback postgres_retry_allowed looks_like_stale_postgres_connection
    looks_like_postgres_timeout postgres_circuit_is_open
calls_counted = refl

-- ===== src/Storage.antt =====
-- The choice of the app-data backend in storage/relational_store.py. What an operation does at a
-- backend is a parameter: a function of the backends' state `W` that returns or raises.
pub mod Backends
pub mod Calls
use Prim.Native.String.{String}
use package.text.Mathlib.Text.{starts_with, find?}
use iot_ops_agent.Prelude.{
  ℕ, ◌+◌, Bool, true, false, not, ◌&&◌, ◌||◌, Option, none, some, List, [], ◌∷◌, any, ltb, is_some,
  ◌==◌, string_eq, if◌then◌else◌,
}
use iot_ops_agent.Prelude.Result.{Result, ok, err}

-- An exception: its type's name, and `str(error).lower()`.
pub record Exception : Type 0 where
  pub type_name : String
  pub message : String

-- The environment that the functions read, and the length of the circuit breaker.
pub record Config : Type 0 where
  pub using_mysql : Bool
  pub using_postgres : Bool
  pub fallback_enabled : Bool
  pub breaker : ℕ

pub record Fallback : Type 0 where
  pub operation : String
  pub error : String

-- `_last_fallback` and `_postgres_circuit_open_until`.
pub record Circuit : Type 0 where
  pub last_fallback : Option Fallback
  pub open_until : ℕ

unfoldable pub record_fallback : Config → (now : ℕ) → String → Exception → Circuit → Circuit
record_fallback cfg now operation e c = record {
  last_fallback = some (record { operation = operation; error = e.type_name });
  open_until = now + cfg.breaker;
}

unfoldable pub clear_fallback : Circuit → Circuit
clear_fallback c = record { last_fallback = none; open_until = 0 }

unfoldable pub postgres_circuit_is_open : (now : ℕ) → Circuit → Bool
postgres_circuit_is_open now c = ltb now c.open_until

unfoldable pub postgres_retry_allowed : String → Bool
postgres_retry_allowed name =
    starts_with name "get_" || (name == "chat_belongs_to_user" || name == "health_check")

abbrev mentions : List String → Exception → Bool
mentions markers e = any (λ m. is_some (find? e.message m)) markers

unfoldable pub looks_like_stale_postgres_connection : Exception → Bool
looks_like_stale_postgres_connection = mentions (
    "connection is closed" ∷ "consuming input failed" ∷ "could not receive data from server"
    ∷ "operation timed out" ∷ "ssl syscall" ∷ "[bad]" ∷ [])

unfoldable pub looks_like_postgres_timeout : Exception → Bool
looks_like_postgres_timeout = mentions (
    "couldn't get a connection" ∷ "operation timed out" ∷ "timeout expired" ∷ "query timed out"
    ∷ "statement timeout" ∷ "canceling statement due to statement timeout"
    ∷ "another command is already in progress" ∷ [])

abbrev pub Operation : Type 0 → Type 0 → Type 0
Operation W A = W → Result Exception A × W

-- The result, the backends and the circuit after a call.
abbrev pub Outcome : Type 0 → Type 0 → Type 0
Outcome W A = Result Exception A × W × Circuit

-- No MySQL operation was given.
abbrev not_wired : String → Exception
not_wired name = record { type_name = "RuntimeError"; message = name }

module _ {W A : Type 0} where
  abbrev pub plain : Operation W A → W → Circuit → Outcome W A
  plain op w c = let (r, w') = op w in (r, w', c)

  -- `except`: raise, or note the failure and ask SQLite.
  abbrev pub failed :
      Config → (now : ℕ) → String → Operation W A → Exception → W → Circuit → Outcome W A
  failed cfg now name sqlite e w c =
      if cfg.fallback_enabled
      then plain sqlite w (record_fallback cfg now name e c)
      else (err e, w, c)

  abbrev rescued : Config → ℕ → String → Operation W A → Outcome W A → Outcome W A
  rescued cfg now name sqlite (ok a, w, c) = (ok a, w, c)
  rescued cfg now name sqlite (err e, w, c) = failed cfg now name sqlite e w c

  -- The retry on a connection that went stale; `close_pool` is `close_postgres_pool`.
  abbrev retried : String → (close_pool : W → W) → Operation W A → Outcome W A → Outcome W A
  retried name close_pool postgres (ok a, w, c) = (ok a, w, c)
  retried name close_pool postgres (err e, w, c) =
      let again = plain postgres (close_pool w) c in
      if postgres_retry_allowed name
        && (looks_like_stale_postgres_connection e && not (looks_like_postgres_timeout e))
      then again
      else (err e, w, c)

  abbrev by_mysql :
      Config → ℕ → String → Operation W A → Option (Operation W A) → W → Circuit → Outcome W A
  by_mysql cfg now name sqlite none w c = (err (not_wired name), w, c)
  by_mysql cfg now name sqlite (some mysql) w c = rescued cfg now name sqlite (plain mysql w c)

  unfoldable pub with_fallback :
      Config
      → (now : ℕ) → (operation_name : String) → (close_pool : W → W)
      → (postgres sqlite : Operation W A) → (mysql : Option (Operation W A)) → W
      → Circuit
      → Outcome W A
  with_fallback cfg now name close_pool postgres sqlite mysql w c =
      if cfg.using_mysql
      then by_mysql cfg now name sqlite mysql w c
      else if not cfg.using_postgres
      then plain sqlite w c
      else if cfg.fallback_enabled && postgres_circuit_is_open now c
      then plain sqlite w c
      else rescued cfg now name sqlite (retried name close_pool postgres (plain postgres w c))

  abbrev by_mysql_only : String → Option (Operation W A) → W → Circuit → Outcome W A
  by_mysql_only name none w c = (err (not_wired name), w, c)
  by_mysql_only name (some mysql) w c = plain mysql w c

  unfoldable pub without_sqlite_fallback :
      Config
      → (operation_name : String) → (postgres sqlite : Operation W A)
      → (mysql : Option (Operation W A)) → W
      → Circuit
      → Outcome W A
  without_sqlite_fallback cfg name postgres sqlite mysql w c =
      if cfg.using_mysql
      then by_mysql_only name mysql w c
      else if not cfg.using_postgres
      then plain sqlite w c
      else plain postgres w c

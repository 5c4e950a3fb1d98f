-- ===== src/Storage/Backends.antt =====
-- Which backend answers where the fallback is off, not allowed, or has tripped.
use iot_ops_agent.Prelude.{ℕ, ◌+◌, ◌<◌, String, ◌≡◌, true, false, ◌||◌, Option, none, some, arith}
use iot_ops_agent.Storage.{
  Exception, Config, Circuit, Operation, plain, record_fallback, postgres_circuit_is_open,
  with_fallback, without_sqlite_fallback,
}

module _ {W A : Type 0} where
  -- Identity data is never read from or written to SQLite while MySQL or Postgres is in use, whatever
  -- fails: the outcome is the same for any two operations in the place of SQLite's.
  pub without_sqlite_fallback-sqlite :
      (cfg : Config) (name : String) (postgres sqlite sqlite' : Operation W A)
      (mysql : Option (Operation W A)) (w : W) (c : Circuit)
      → (cfg.using_mysql || cfg.using_postgres) ≡ true
      → without_sqlite_fallback cfg name postgres sqlite mysql w c
        ≡ without_sqlite_fallback cfg name postgres sqlite' mysql w c
  unfolding without_sqlite_fallback
  without_sqlite_fallback-sqlite cfg name postgres sqlite sqlite' mysql w c h = ground arith

  -- With the fallback switched off, and MySQL or Postgres in use, an operation has the same outcome for
  -- any two operations in the place of SQLite's, and leaves the circuit as it is.
  pub with_fallback-sqlite :
      (cfg : Config) (now : ℕ) (name : String) (close_pool : W → W)
      (postgres sqlite sqlite' : Operation W A) (mysql : Option (Operation W A)) (w : W)
      (c : Circuit)
      → (cfg.using_mysql || cfg.using_postgres) ≡ true
      → cfg.fallback_enabled ≡ false
      → (with_fallback cfg now name close_pool postgres sqlite mysql w c
          ≡ with_fallback cfg now name close_pool postgres sqlite' mysql w c)
        × ((with_fallback cfg now name close_pool postgres sqlite mysql w c).2 ≡ c)
  unfolding with_fallback
  with_fallback-sqlite cfg now name close_pool postgres sqlite sqlite' none w c h f =
      (ground arith, ground arith)
  with_fallback-sqlite cfg now name close_pool postgres sqlite sqlite' (some mysql) w c h f =
      (ground arith, ground arith)

  -- With the fallback on and MySQL off, every call that begins before the breaker's time has passed
  -- after a recorded failure goes to SQLite alone and leaves the circuit as it is.
  with_fallback-circuit :
      (cfg : Config) (now later : ℕ) (name name' : String) (close_pool : W → W) (e : Exception)
      (postgres sqlite : Operation W A) (mysql : Option (Operation W A)) (w : W) (c : Circuit)
      → cfg.using_mysql ≡ false
      → cfg.fallback_enabled ≡ true
      → later < now + cfg.breaker
      → with_fallback cfg later name' close_pool postgres sqlite mysql w
          (record_fallback cfg now name e c)
        ≡ plain sqlite w (record_fallback cfg now name e c)
  unfolding with_fallback postgres_circuit_is_open record_fallback
  with_fallback-circuit cfg now later name name' close_pool e postgres sqlite mysql w c m f h =
      ground arith

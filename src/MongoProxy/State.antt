-- ===== src/MongoProxy/State.antt =====
-- The state of a read proxy, what reaches the driver, and methods that return or raise.
use iot_ops_agent.Prelude.{ℕ, String, Option, List}
use iot_ops_agent.Prelude.Int.{ℤ}
use iot_ops_agent.Prelude.Result.{Result, ok, err}
use iot_ops_agent.RateLimiter.{Limiter, Env}
use iot_ops_agent.MongoProxy.Documents.{Value, ProxyError}
use iot_ops_agent.MongoProxy.Names.{Sort}

-- A bounded read as the driver receives it.
pub record Call : Type 0 where
  pub database_name : String
  pub collection_name : String
  pub query : Value
  pub projection : Option Value
  pub sort : Sort
  pub max_time_ms : ℕ
  pub limit : ℕ

-- The fields that are the same in every event are left out.
pub record AuditEvent : Type 0 where
  pub actor : String
  pub operation : String
  pub namespace : String
  pub query : Value
  pub projection : Value
  pub sort : Sort
  pub requested_limit : Option ℤ
  pub effective_limit : Option ℕ
  pub max_time_ms : ℕ

pub data Command : Type 0 where
  read : Call → Command
  list_databases : Command
  list_names : (database_name : String) → Command
  stats : (database_name collection_name : String) → Command

-- The proxy, the limiter that all proxies share, the environment, the clock, and the driver's calls.
pub record World : Type 0 where
  pub actor : String
  pub statement_timeout_ms : ℕ
  pub audit_events : List AuditEvent
  pub limiter : Limiter
  pub env : Env
  pub allowed_namespaces : String
  pub now : ℕ
  pub sent : List Command

-- A method returns or raises, and leaves what it changed in either case.
abbrev pub M : Type 0 → Type 0
M A = World → Result ProxyError A × World

abbrev continue : {A B : Type 0} → Result ProxyError A → (A → M B) → M B
continue (ok a) f w = f a w
continue (err e) f w = (err e, w)

infixl 5 ◌>>=◌ ◌>>◌
abbrev pub ◌>>=◌ : {First Last : Type 0} (step : M First) (next : First → M Last) → M Last
◌>>=◌ step next w = let (result, after) = step w in continue result next after

abbrev pub ◌>>◌ : {Last : Type 0} (check : M (Unit {0})) (rest : M Last) → M Last
check >> rest = check >>= λ _. rest

abbrev pub lift : {A : Type 0} → Result ProxyError A → M A
lift r w = (r, w)

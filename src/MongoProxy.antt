-- ===== src/MongoProxy.antt =====
-- `CompanyMongoReadProxy` of services/company_mongo_proxy.py. The driver (pymongo) is a parameter that
-- answers a call; the calls that reach it are kept in `sent`.
pub mod Documents
pub mod Names
pub mod State
pub mod Reads
use Prim.Native.String.{◌++◌}
use iot_ops_agent.Prelude.{
  ℕ, min, max, String, Bool, Option, none, some, List, [], ◌∷◌, map, select, length, true, false,
  not, ◌==◌, nat_eq, if◌then◌else◌,
}
use mathlib.Core.List
use package.text.Mathlib.Text.{starts_with}
use iot_ops_agent.Prelude.Int.{ℤ, pos, negsuc}
use iot_ops_agent.Prelude.Result
use iot_ops_agent.Prelude.Result.{Result, ok, err}
use iot_ops_agent.Prelude.Text.{split, join, is_empty}
use iot_ops_agent.RateLimiter.{Limiter, Env, CheckError, rate_limited, index_error, check}
use iot_ops_agent.MongoProxy.Documents.{
  Value, null, document, end, field, array, item, nil, text, number, flag, ProxyError,
  namespace_not_allowed, rate_limit, driver, validate_read_document,
}
use iot_ops_agent.MongoProxy.State.{
  Call, AuditEvent, Command, read, list_databases, list_names, stats, World, M, ◌>>=◌, ◌>>◌, lift,
}
use iot_ops_agent.MongoProxy.Names.{
  validate_identifier, Sort, unsorted, validate_sort, get_allowed_namespaces, contains_namespace,
}

abbrev limiter_error : Result CheckError (Unit {0}) → Result ProxyError (Unit {0})
limiter_error (ok _) = ok tt
limiter_error (err (rate_limited n)) = err (rate_limit n)
limiter_error (err index_error) = err (driver "IndexError")

abbrev driver_result : {A : Type 0} → Result String A → Result ProxyError A
driver_result (ok a) = ok a
driver_result (err message) = err (driver message)

unfoldable pub check_rate : (scale : ℕ) → (operation : String) → M (Unit {0})
check_rate scale operation w =
    let (r, l) = check scale w.env (w.actor ++ (":" ++ operation)) w.now w.limiter in
    (limiter_error r, record w { limiter = l })

abbrev pub namespace_of : String → String → String
namespace_of database_name collection_name = database_name ++ ("." ++ collection_name)

unfoldable pub require_namespace : String → M (Unit {0})
require_namespace ns w = (
  Result.◌>>=◌ (get_allowed_namespaces w.allowed_namespaces)
      (λ allowed. if contains_namespace ns allowed then ok tt else err (namespace_not_allowed ns)),
  w,
)

unfoldable pub check_read :
    (scale : ℕ) → (operation database_name collection_name : String) → M (Unit {0})
check_read scale operation database_name collection_name = do
  lift (validate_identifier database_name)
  lift (validate_identifier collection_name)
  require_namespace (namespace_of database_name collection_name)
  check_rate scale operation

-- `_check_read` with no collection.
unfoldable pub check_database : (scale : ℕ) → (operation database_name : String) → M (Unit {0})
check_database scale operation database_name = do
  lift (validate_identifier database_name)
  check_rate scale operation

unfoldable pub audit_read : AuditEvent → M (Unit {0})
audit_read event w = (ok tt, record w { audit_events = List.◌++◌ w.audit_events (event ∷ []) })

-- The driver's answer to a command.
unfoldable pub send : {A : Type 0} → Command → Result String A → M A
send c answer w = (driver_result answer, record w { sent = List.◌++◌ w.sent (c ∷ []) })

abbrev pub max_query_limit : ℕ
max_query_limit = 1000

-- `max(1, min(int(limit), MAX_QUERY_LIMIT))`
abbrev pub safe_limit : ℤ → ℕ
safe_limit (pos n) = max 1 (min n max_query_limit)
safe_limit (negsuc n) = 1

-- What Python takes for false.
abbrev is_falsy : Value → Bool
is_falsy null = true
is_falsy (flag b) = not b
is_falsy (number n) = elim n [ pos m ↦ m == 0 | negsuc m ↦ false ]
is_falsy (text s) = is_empty s
is_falsy (array xs) = elim xs [ nil ↦ true | item v vs ↦ false ]
is_falsy (document fs) = elim fs [ end ↦ true | field key v rest ↦ false ]

-- `query or {}`
abbrev pub or_empty : Option Value → Value
or_empty none = document end
or_empty (some v) = if is_falsy v then document end else v

-- What pymongo answers.
pub record Driver : Type 0 where
  pub find : Call → Result String (List Value)
  pub list_database_names : Result String (List String)
  pub list_collections : String → Result String (List String)
  pub collection_stats : String → String → Result String Value

abbrev pub find_call : World → String → String → Option Value → Option Value → Sort → ℤ → Call
find_call w database_name collection_name query projection sort limit = record {
  database_name = database_name;
  collection_name = collection_name;
  query = or_empty query;
  projection = projection;
  sort = sort;
  max_time_ms = w.statement_timeout_ms;
  limit = safe_limit limit;
}

abbrev pub find_event :
    World → String → String → Option Value → Option Value → Sort → ℤ → AuditEvent
find_event w database_name collection_name query projection sort limit = record {
  actor = w.actor;
  operation = "find";
  namespace = namespace_of database_name collection_name;
  query = or_empty query;
  projection = or_empty projection;
  sort = sort;
  requested_limit = some limit;
  effective_limit = some (safe_limit limit);
  max_time_ms = w.statement_timeout_ms;
}

module _ (scale : ℕ) (client : Driver) where
  unfoldable pub find :
      (database_name collection_name : String)
      → (query projection : Option Value) → Sort
      → (limit : ℤ) → M (List Value)
  find database_name collection_name query projection sort limit w =
      let call = find_call w database_name collection_name query projection sort limit in
      let event = find_event w database_name collection_name query projection sort limit in
      (do
        check_read scale "find" database_name collection_name
        lift (validate_read_document (or_empty query))
        lift (validate_read_document (or_empty projection))
        lift (validate_sort sort)
        audit_read event
        send (read call) (client.find call))
        w

  abbrev event_of : World → (operation namespace : String) → Value → Value → ℕ → AuditEvent
  event_of w operation namespace query projection effective_limit = record {
    actor = w.actor;
    operation = operation;
    namespace = namespace;
    query = query;
    projection = projection;
    sort = unsorted;
    requested_limit = none;
    effective_limit = some effective_limit;
    max_time_ms = w.statement_timeout_ms;
  }

  abbrev allowed_now : M (List String)
  allowed_now w = (get_allowed_namespaces w.allowed_namespaces, w)

  -- `ns.split(".", 1)`
  abbrev first_part : String → String
  first_part ns = elim (split b'.' ns) [ [] ↦ "" | p ∷ ps ↦ p ]

  abbrev second_part : String → String
  second_part ns = elim (split b'.' ns) [ [] ↦ "" | p ∷ ps ↦ join "." ps ]

  unfoldable pub list_database_names : M (List String)
  list_database_names w =
      (do
        check_rate scale "list_database_names"
        allowed ← allowed_now
        names ← send list_databases client.list_database_names
        let databases = select (λ n. contains_namespace n (map first_part allowed)) names
        audit_read
            (event_of w "list_database_names" "*" (document end) (document end) (length databases))
        (λ w'. (ok databases, w')))
        w

  -- {"type": {"$in": ["collection", "view"]}}
  abbrev collection_filter : Value
  collection_filter = document (
      field "type"
        (document (field "$in" (array (item (text "collection") (item (text "view") nil))) end))
        end)

  unfoldable pub list_collections : (database_name : String) → M (List String)
  list_collections database_name w =
      (do
        check_database scale "list_collections" database_name
        allowed ← allowed_now
        names ← send (list_names database_name) (client.list_collections database_name)
        let mine = select (λ ns. starts_with ns (database_name ++ ".")) allowed
        let collections = select (λ n. contains_namespace n (map second_part mine)) names
        audit_read (
            event_of w "list_collections" database_name collection_filter
              (document (field "nameOnly" (flag true) end)) (length collections))
        (λ w'. (ok collections, w')))
        w

  unfoldable pub collection_stats : (database_name collection_name : String) → M Value
  collection_stats database_name collection_name w =
      (do
        check_read scale "collection_stats" database_name collection_name
        answer ←
            send (stats database_name collection_name)
              (client.collection_stats database_name collection_name)
        audit_read (
            event_of w "collStats" (namespace_of database_name collection_name)
              (document (field "command" (text "collStats") (field "scale" (number (pos 1)) end)))
              (document end) 1)
        (λ w'. (ok answer, w')))
        w

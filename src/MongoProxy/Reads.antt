-- ===== src/MongoProxy/Reads.antt =====
-- What reaches the driver through `find`, and what is recorded of it.
use iot_ops_agent.Prelude.{
  ℕ, ◌≤◌, String, ◌≡◌, ◌⊎◌, refl, inl, inr, true, false, Option, some, List, [], ◌∷◌, ◌++◌, All,
  arith,
}
use iot_ops_agent.Prelude.Int.{ℤ, pos, negsuc}
use iot_ops_agent.Prelude.Text.{is_empty}
use iot_ops_agent.Prelude.Result.{Result, ok, err, Result-cases}
use iot_ops_agent.MongoProxy.Documents.{Value, ProxyError, validate_read_document}
use iot_ops_agent.MongoProxy.Documents.Keys.{keys, IsAllowed, validate_read_document_iff}
use iot_ops_agent.MongoProxy.Names.{
  all_identifier_chars, validate_identifier, Sort, validate_sort, get_allowed_namespaces,
  contains_namespace,
}
use iot_ops_agent.MongoProxy.State.{Call, AuditEvent, read, World}
use iot_ops_agent.MongoProxy.{
  namespace_of, check_rate, require_namespace, check_read, audit_read, send, safe_limit, Driver,
  find, or_empty, find_call, find_event,
}

abbrev pub IsIdentifier : String → Type 0
IsIdentifier s = (is_empty s ≡ false) × (all_identifier_chars s ≡ true)

-- A read that the proxy may send in the world `w`.
pub record IsBounded (w : World) (c : Call) : Type 0 where
  pub database : IsIdentifier c.database_name
  pub collection : IsIdentifier c.collection_name
  pub namespaces : List String
  pub configured : get_allowed_namespaces w.allowed_namespaces ≡ ok namespaces
  pub listed : contains_namespace (namespace_of c.database_name c.collection_name) namespaces ≡ true
  pub query : All IsAllowed (keys c.query)
  pub projection : All IsAllowed (keys (or_empty c.projection))
  pub positive : 1 ≤ c.limit
  pub bounded : c.limit ≤ 1000
  pub timed : c.max_time_ms ≡ w.statement_timeout_ms

validate_identifier-ok : (s : String) → validate_identifier s ≡ ok tt → IsIdentifier s
unfolding validate_identifier
validate_identifier-ok s h = ground arith

safe_limit_bounds : (n : ℤ) → (1 ≤ safe_limit n) × (safe_limit n ≤ 1000)
safe_limit_bounds (pos n) = (omega arith, omega arith)
safe_limit_bounds (negsuc n) = (omega arith, omega arith)

-- What a read did: nothing but raise, or one call and the one event that records it.
abbrev pub Quiet : World → World → Type 0
Quiet w w' = (w'.sent ≡ w.sent) × (w'.audit_events ≡ w.audit_events)

pub record OneRead (w w' : World) : Type 0 where
  pub call : Call
  pub event : AuditEvent
  pub sent : w'.sent ≡ w.sent ++ read call ∷ []
  pub audited : w'.audit_events ≡ w.audit_events ++ event ∷ []
  pub safe : IsBounded w call
  pub names : event.namespace ≡ namespace_of call.database_name call.collection_name
  pub queries : event.query ≡ call.query
  pub limits : event.effective_limit ≡ some call.limit

-- The checks change nothing but the limiter.
check_read-limiter :
    (scale : ℕ) (op db coll : String) (w : World)
    → (check_read scale op db coll w).1
      ≡ record w { limiter = (check_read scale op db coll w).1.limiter }
unfolding check_read check_rate require_namespace
check_read-limiter scale op db coll w = ground arith

Permitted : World → String → Type 0
Permitted w ns =
    (allowed : List String) × (get_allowed_namespaces w.allowed_namespaces ≡ ok allowed)
    × (contains_namespace ns allowed ≡ true)

check_read-ok :
    (scale : ℕ) (op db coll : String) (w : World)
    → (check_read scale op db coll w).0 ≡ ok tt
    → (validate_identifier db ≡ ok tt)
      × (validate_identifier coll ≡ ok tt)
      × Permitted w (namespace_of db coll)
unfolding check_read check_rate require_namespace Permitted
check_read-ok scale op db coll w h = (
  ground arith,
  ground arith,
  elim (Result-cases (get_allowed_namespaces w.allowed_namespaces)) [
    | inl (allowed, e) ↦ (allowed, e, ground arith)
    | inr (error, e) ↦ absurd (ground arith)
  ],
)

found-IsBounded :
    (db coll : String) (query projection : Option Value) (sort : Sort) (limit : ℤ) (w : World)
    → (validate_identifier db ≡ ok tt)
      × (validate_identifier coll ≡ ok tt)
      × Permitted w (namespace_of db coll)
    → validate_read_document (or_empty query) ≡ ok tt
    → validate_read_document (or_empty projection) ≡ ok tt
    → IsBounded w (find_call w db coll query projection sort limit)
unfolding Permitted
found-IsBounded db coll query projection sort limit w (d, c, (allowed, configured, listed)) q p =
    record {
      database = validate_identifier-ok db d;
      collection = validate_identifier-ok coll c;
      namespaces = allowed;
      configured = configured;
      listed = listed;
      query = (validate_read_document_iff (or_empty query)).0 q;
      projection = (validate_read_document_iff (or_empty projection)).0 p;
      positive = (safe_limit_bounds limit).0;
      bounded = (safe_limit_bounds limit).1;
      timed = refl;
    }

-- An error with no call and no event, or one call and its event.
abbrev pub Outcome : World → Result ProxyError (List Value) × World → Type 0
Outcome w r = ((e : ProxyError) × (r.0 ≡ err e) × Quiet w r.1) ⊎ OneRead w r.1

-- Whatever `find` is asked for, either it raises, nothing has reached the driver and no event is
-- recorded; or exactly one call has reached the driver, of an allowed namespace with two proper
-- names, with no blocked operator at any depth of its query and projection, a limit from 1 to 1000
-- and the proxy's time limit, and exactly one event records it.
pub find-Outcome :
    (scale : ℕ) (client : Driver) (db coll : String) (query projection : Option Value) (sort : Sort)
    (limit : ℤ) (w : World)
    → Outcome w (find scale client db coll query projection sort limit w)
unfolding find audit_read send
find-Outcome scale client db coll query projection sort limit w =
    let same = check_read-limiter scale "find" db coll w in
    elim (Result-cases (check_read scale "find" db coll w).0) [
      | inr (e, c) ↦ inl (e, ground arith, ground (arith, same))
      | inl (_, c) ↦ elim (Result-cases (validate_read_document (or_empty query))) [
        | inr (e, q) ↦ inl (e, ground arith, ground (arith, same))
        | inl (_, q) ↦ elim (Result-cases (validate_read_document (or_empty projection))) [
          | inr (e, p) ↦ inl (e, ground arith, ground (arith, same))
          | inl (_, p) ↦ elim (Result-cases (validate_sort sort)) [
            | inr (e, s) ↦ inl (e, ground arith, ground (arith, same))
            | inl (_, s) ↦ inr (record {
              call = find_call w db coll query projection sort limit;
              event = find_event w db coll query projection sort limit;
              sent = ground (arith, same);
              audited = ground (arith, same);
              safe =
                  found-IsBounded db coll query projection sort limit w
                    (check_read-ok scale "find" db coll w c) q p;
              names = refl;
              queries = refl;
              limits = refl;
            })
          ]
        ]
      ]
    ]

-- ===== src/Tests/Mongo.antt =====
-- Reads through the proxy of services/company_mongo_proxy.py.
use iot_ops_agent.Prelude.{◌≡◌, ◌↔◌, refl, none, some, [], All}
use iot_ops_agent.Prelude.Int.{pos}
use iot_ops_agent.Prelude.Result.{ok, err}
use iot_ops_agent.MongoProxy.Documents.{
  Value, document, end, field, text, array, item, nil, is_blocked, operator_not_allowed,
  validate_read_document, validate_fields, validate_items,
}
use iot_ops_agent.MongoProxy.Documents.Keys.{keys, IsAllowed, validate_read_document_iff}
use iot_ops_agent.MongoProxy.Names.{unsorted}
use iot_ops_agent.MongoProxy.State.{World}
use iot_ops_agent.MongoProxy.{Driver, find}
use iot_ops_agent.MongoProxy.Reads.{Outcome, find-Outcome}

abbrev quiet_driver : Driver
quiet_driver = record {
  find = λ _. ok [];
  list_database_names = ok [];
  list_collections = λ _. ok [];
  collection_stats = λ _ _. ok (document end);
}

abbrev start : World
start = record {
  actor = "company-data-service";
  statement_timeout_ms = 5000;
  audit_events = [];
  limiter = record { requests = none; window_seconds = none; request_log = λ _. [] };
  env = record { rate_limit_requests = none; rate_limit_window_seconds = none };
  allowed_namespaces = "";
  now = 0;
  sent = [];
}

-- {"$or": [{"$where": "1"}]}
abbrev nested_where : Value
nested_where =
    document (field "$or" (array (item (document (field "$where" (text "1") end)) nil)) end)

refused_operator : validate_read_document nested_where ≡ err (operator_not_allowed "$where")
unfolding validate_read_document validate_fields validate_items is_blocked
refused_operator = refl

validate_read_document_iff_example :
    (validate_read_document nested_where ≡ ok tt) ↔ All IsAllowed (keys nested_where)
validate_read_document_iff_example = validate_read_document_iff nested_where

find-Outcome_example :
    Outcome start
      (find 1 quiet_driver "datamgmt" "RULE" none (some (document end)) unsorted (pos 5000) start)
find-Outcome_example =
    find-Outcome 1 quiet_driver "datamgmt" "RULE" none (some (document end)) unsorted (pos 5000)
      start

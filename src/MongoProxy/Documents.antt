-- ===== src/MongoProxy/Documents.antt =====
-- Query documents of services/company_mongo_proxy.py and `_validate_read_document`. Lists and tuples
-- are one constructor; a key of a dict is a text.
pub mod Keys
use iot_ops_agent.Prelude.{ℕ, String, Bool, List, [], ◌∷◌, any, ◌==◌, string_eq, if◌then◌else◌}
use iot_ops_agent.Prelude.Int.{ℤ}
use iot_ops_agent.Prelude.Result.{Result, ok, err, ◌>>=◌, ◌>>◌}

-- JSON and BSON values, floats left out.
mutual
  pub data Value : Type 0 where
    null : Value
    flag : Bool → Value
    number : ℤ → Value
    text : String → Value
    array : Items → Value
    document : Fields → Value

  pub data Items : Type 0 where
    nil : Items
    item : Value → Items → Items

  pub data Fields : Type 0 where
    end : Fields
    field : String → Value → Fields → Fields

abbrev pub blocked_query_operators : List String
blocked_query_operators =
    "$accumulator" ∷ "$expr" ∷ "$function" ∷ "$geoNear" ∷ "$jsonSchema" ∷ "$merge" ∷ "$near"
    ∷ "$nearSphere" ∷ "$out" ∷ "$regex" ∷ "$text" ∷ "$where" ∷ []

unfoldable pub is_blocked : String → Bool
is_blocked key = any (λ b. b == key) blocked_query_operators

pub data ProxyError : Type 0 where
  invalid_identifier : String → ProxyError
  operator_not_allowed : String → ProxyError
  bad_sort : ProxyError
  bad_namespace_format : String → ProxyError
  namespace_not_allowed : String → ProxyError
  rate_limit : ℕ → ProxyError
  driver : String → ProxyError

unfoldable mutual
  pub validate_read_document : Value → Result ProxyError (Unit {0})
  validate_read_document null = ok tt
  validate_read_document (flag b) = ok tt
  validate_read_document (number n) = ok tt
  validate_read_document (text s) = ok tt
  validate_read_document (array xs) = validate_items xs
  validate_read_document (document fs) = validate_fields fs

  pub validate_items : Items → Result ProxyError (Unit {0})
  validate_items nil = ok tt
  validate_items (item v vs) = validate_read_document v >> validate_items vs

  pub validate_fields : Fields → Result ProxyError (Unit {0})
  validate_fields end = ok tt
  validate_fields (field key v fs) =
      if is_blocked key
      then err (operator_not_allowed key)
      else validate_read_document v >> validate_fields fs

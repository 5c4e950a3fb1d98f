-- ===== src/MongoProxy/Names.antt =====
-- Names and namespaces of services/company_mongo_proxy.py: `_validate_identifier`, `_validate_sort`
-- and `get_allowed_namespaces`.
use Prim.Native.Char.{Char, code}
use iot_ops_agent.Prelude.{
  zero, suc, String, Bool, true, false, not, ◌&&◌, ◌||◌, List, [], ◌∷◌, map, discard, any, leb,
  ◌==◌, nat_eq, string_eq, if◌then◌else◌,
}
use iot_ops_agent.Prelude.Int.{ℤ, pos, negsuc}
use iot_ops_agent.Prelude.Result.{Result, ok, err, ◌>>◌}
use iot_ops_agent.Prelude.Text.{is_empty, strip, split}
use iot_ops_agent.MongoProxy.Documents.{
  ProxyError, invalid_identifier, bad_sort, bad_namespace_format,
}

-- `IDENTIFIER_CHARS`
abbrev pub is_identifier_char : Char → Bool
is_identifier_char c =
    let n = code c in
    (leb b'a' n && leb n b'z')
    || (leb b'A' n && leb n b'Z')
    || (leb b'0' n && leb n b'9')
    || n == b'_'
    || n == b'-'

abbrev pub all_identifier_chars : String → Bool
all_identifier_chars String.[] = true
all_identifier_chars (String.◌∷◌ c s) = is_identifier_char c && all_identifier_chars s

unfoldable pub validate_identifier : String → Result ProxyError (Unit {0})
validate_identifier value =
    if is_empty value || not (all_identifier_chars value)
    then err (invalid_identifier value)
    else ok tt

-- What a caller passes for `sort`: `None`, a pair, or something else.
pub data Sort : Type 0 where
  unsorted : Sort
  by : (sort_field : String) → (direction : ℤ) → Sort
  malformed : Sort

-- `ALLOWED_SORT_DIRECTIONS`
abbrev pub is_direction : ℤ → Bool
is_direction (pos (suc zero)) = true
is_direction (pos zero) = false
is_direction (pos (suc (suc n))) = false
is_direction (negsuc zero) = true
is_direction (negsuc (suc n)) = false

unfoldable pub validate_sort : Sort → Result ProxyError (Unit {0})
unfolding validate_identifier
validate_sort unsorted = ok tt
validate_sort malformed = err bad_sort
validate_sort (by sort_field direction) =
    validate_identifier sort_field >> (if is_direction direction then ok tt else err bad_sort)

abbrev pub default_allowed_namespaces : List String
default_allowed_namespaces =
    "authorization.IDENTITY" ∷ "subNNotif.AE" ∷ "subNNotif.SUB" ∷ "datamgmt.CIN" ∷ "datamgmt.CNT"
    ∷ "datamgmt.DEVICE_TELEMETRY" ∷ "datamgmt.RULE" ∷ "devicemgmt.NODE" ∷ "orchestration.URI_MAPPER"
    ∷ []

-- With one "." there are two parts.
abbrev validate_parts : String → List String → Result ProxyError (Unit {0})
validate_parts ns (database ∷ collection ∷ []) =
    validate_identifier database >> validate_identifier collection
validate_parts ns (_ ∷ _ ∷ _ ∷ _) = err (bad_namespace_format ns)
validate_parts ns (_ ∷ []) = err (bad_namespace_format ns)
validate_parts ns [] = err (bad_namespace_format ns)

unfoldable pub validate_namespaces : List String → Result ProxyError (Unit {0})
unfolding validate_identifier split
validate_namespaces [] = ok tt
validate_namespaces (ns ∷ rest) = validate_parts ns (split b'.' ns) >> validate_namespaces rest

-- `configured` is the value of COMPANY_MONGO_ALLOWED_NAMESPACES, "" where it is not set. The set is a
-- list, so where two names are bad the error names the first.
unfoldable pub get_allowed_namespaces : (configured : String) → Result ProxyError (List String)
unfolding validate_namespaces strip
get_allowed_namespaces configured =
    let trimmed = strip configured in
    let namespaces = discard is_empty (map strip (split b',' trimmed)) in
    if is_empty trimmed
    then ok default_allowed_namespaces
    else (validate_namespaces namespaces >> ok namespaces)

unfoldable pub contains_namespace : String → List String → Bool
contains_namespace ns allowed = any (λ a. a == ns) allowed

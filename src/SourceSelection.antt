-- ===== src/SourceSelection.antt =====
-- The data source that a user has selected (routes/telemetry_routes.py) and the one that is then
-- active for an agent (services/diagnose_service.py).
pub mod Laws
use iot_ops_agent.Prelude.{
  ℕ, String, Bool, true, false, Option, none, some, List, [], ◌∷◌, find, ◌==◌, nat_eq, string_eq,
  if◌then◌else◌,
}
use iot_ops_agent.Prelude.Text.{is_empty, strip}
use iot_ops_agent.DataSources.{contains, text_or}
use iot_ops_agent.MongoProxy.Documents.{Value, null, text}
use iot_ops_agent.Database.{Db}
use iot_ops_agent.Database.Users.{get_user_data_source_policy}

-- `_user_data_sources` and `_user_data_source_explicit`, the last write of a user first.
pub record Selections : Type 0 where
  pub sources : List (ℕ × String)
  pub explicit : List (ℕ × Bool)

abbrev value_or {ℓ} : {A : Type ℓ} → Option (ℕ × A) → A → A
value_or none other = other
value_or (some (key, value)) other = value

-- `entries.get(key, other)`
abbrev lookup {ℓ} : {A : Type ℓ} → ℕ → A → List (ℕ × A) → A
lookup key other entries = value_or (find (λ e. e.0 == key) entries) other

unfoldable pub remember_user_data_source :
    Option ℕ → (selected_source : String) → (explicit : Bool) → Selections → Selections
remember_user_data_source none selected_source explicit s = s
remember_user_data_source (some user_id) selected_source explicit s = record {
  sources = (user_id, selected_source) ∷ s.sources;
  explicit = (user_id, explicit) ∷ s.explicit;
}

unfoldable pub get_allowed_data_sources : ℕ → Db → List String
get_allowed_data_sources user_id db = (get_user_data_source_policy user_id db).0

unfoldable pub get_default_data_source : ℕ → Db → String
get_default_data_source user_id db =
    let (allowed, default) = get_user_data_source_policy user_id db in
    if contains default allowed then default else "simulator"

unfoldable pub get_user_selected_data_source : Option ℕ → Selections → Db → String
get_user_selected_data_source none s db = "simulator"
get_user_selected_data_source (some user_id) s db =
    let default = get_default_data_source user_id db in
    let selected = lookup user_id default s.sources in
    if lookup user_id false s.explicit
    then (if contains selected (get_allowed_data_sources user_id db) then selected else default)
    else default

-- `check_company_mongodb_read_available()`: `none` where a read is possible, else the reason.
abbrev Health : Type 0
Health = Option String

abbrev context :
    (selected_source active_source : String) → (fallback_reason : Value) → List (String × Value)
context selected_source active_source fallback_reason =
    ("selected_source", text selected_source)
    ∷ ("active_source", text active_source)
    ∷ ("operational_context", null)
    ∷ ("fallback_reason", fallback_reason)
    ∷ []

abbrev company_context : Health → List (String × Value)
company_context none = context "company" "company_mongodb" null
company_context (some reason) = context "company" "simulator_fallback" (text reason)

module _ (lower : String → String) where
  abbrev pub normalized_source : String → String
  normalized_source selected_source = lower (strip (text_or selected_source "simulator"))

  -- `telemetry_source` is `get_telemetry_source()`.
  unfoldable pub resolve_agent_operational_context :
      (telemetry_source : String) → Health → (selected_source : String) → List (String × Value)
  resolve_agent_operational_context telemetry_source health selected_source =
      let company = company_context health in
      if normalized_source selected_source == "company"
      then company
      else context "simulator" telemetry_source null

  -- `db_type` is `company_db_type()`.
  unfoldable pub resolve_ioa_v3_operational_context :
      (telemetry_source : String)
      → Health
      → (db_type selected_source : String) → List (String × Value)
  unfolding resolve_agent_operational_context
  resolve_ioa_v3_operational_context telemetry_source health db_type selected_source =
      if normalized_source selected_source == "company"
      then (if db_type == "mongodb"
          then context "company" "company_mongodb" null
          else context "company" "simulator_fallback"
              (text "Company MongoDB URL is not configured."))
      else resolve_agent_operational_context telemetry_source health selected_source

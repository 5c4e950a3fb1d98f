-- ===== src/SourceSelection/Laws.antt =====
-- What a user may select, and when the company's data are active.
use iot_ops_agent.Prelude.{
  ℕ, String, ◌≡◌, inl, inr, Bool, true, false, Option, none, some, List, arith, eq_iff, ◌==◌,
  string_eq, Bool-cases, Option-cases, if◌then◌else◌,
}
use iot_ops_agent.DataSources.{contains}
use iot_ops_agent.Database.{Db}
use iot_ops_agent.Database.Users.{get_user_data_source_policy}
use iot_ops_agent.IoaV3.Catalog.{get_or, is_text}
use iot_ops_agent.MongoProxy.Documents.{null, text}
use iot_ops_agent.SourceSelection.{
  Selections, get_allowed_data_sources, get_default_data_source, get_user_selected_data_source,
  normalized_source, resolve_agent_operational_context,
}

default-contains :
    (default : String) (allowed : List String)
    → contains "simulator" allowed ≡ true
    → contains (if contains default allowed then default else "simulator") allowed ≡ true
default-contains default allowed h = elim (Bool-cases (contains default allowed)) [
  | inl e ↦ rw e e
  | inr e ↦ rw e h
]

selected-contains :
    (selected default : String) (explicit : Bool) (allowed : List String)
    → contains default allowed ≡ true
    → contains
        (if explicit then (if contains selected allowed then selected else default) else default)
        allowed
      ≡ true
selected-contains selected default false allowed h = h
selected-contains selected default true allowed h = elim (Bool-cases (contains selected allowed)) [
  | inl e ↦ rw e e
  | inr e ↦ rw e h
]

-- Whatever was selected before, the selected source of a user is one that the user's policy allows
-- now, if the policy allows the simulator.
pub get_user_selected_data_source-allowed :
    (user_id : ℕ) (s : Selections) (db : Db)
    → contains "simulator" (get_allowed_data_sources user_id db) ≡ true
    → contains
        (get_user_selected_data_source (some user_id) s db)
        (get_allowed_data_sources user_id db)
      ≡ true
unfolding get_user_selected_data_source get_default_data_source get_allowed_data_sources
get_user_selected_data_source-allowed user_id s db h =
    let (allowed, default) = get_user_data_source_policy user_id db in
    selected-contains _ _ _ allowed (default-contains default allowed h)

-- The company's data are active only for a source that is "company" and while they can be read.
pub resolve-company :
    (lower : String → String) (telemetry_source : String) (health : Option String)
    (selected_source : String)
    → is_text
        (get_or "selected_source"
          (text selected_source)
          (resolve_agent_operational_context lower telemetry_source health selected_source))
        "company"
      ≡ true
    → is_text
        (get_or "active_source" null
          (resolve_agent_operational_context lower telemetry_source health selected_source))
        "company_mongodb"
      ≡ true
    → (normalized_source lower selected_source ≡ "company") × (health ≡ none)
unfolding resolve_agent_operational_context is_text
resolve-company lower telemetry_source health selected_source h k =
    elim (Bool-cases (normalized_source lower selected_source == "company")) [
      | inr other ↦ absurd (ground (arith, (rw other at h)))
      | inl company ↦ elim (Option-cases health) [
        | inl readable ↦
            ((eq_iff (normalized_source lower selected_source) "company").0 company, readable)
        | inr (reason, failed) ↦ absurd (cc (rw (company, failed) at k))
      ]
    ]

-- ===== src/Tests/Readings.antt =====
-- Policies of data sources, and readings of simulator.py.
use iot_ops_agent.Prelude.{false, ◌≡◌, refl, [], ◌∷◌, arith, All}
use iot_ops_agent.Prelude.Text.{strip}
use iot_ops_agent.Prelude.{ℕ, suc}
use iot_ops_agent.Prelude.Result.{ok, err}
use iot_ops_agent.Database.{Db, init_db}
use iot_ops_agent.Database.Telemetry.{Reading}
use iot_ops_agent.TelemetryStore.{MongoStore}
use iot_ops_agent.DataSources.{plain, serialize_data_sources, normalize_user_data_source_policy}
use iot_ops_agent.DataSources.Laws.{IsSource, IsPolicy}
use iot_ops_agent.Simulator.{generate_telemetry}

company_is_default :
    normalize_user_data_source_policy (plain " company ,") "simulator"
    ≡ ("simulator" ∷ "company" ∷ [], "company")
unfolding normalize_user_data_source_policy serialize_data_sources
company_is_default = refl

names-IsSource : All IsSource ("simulator" ∷ "company" ∷ [])
unfolding strip
names-IsSource = ((refl, refl, omega arith), ((refl, refl, omega arith), tt))

both-IsPolicy : IsPolicy ("simulator" ∷ "company" ∷ []) "company"
both-IsPolicy = record {
  sources = names-IsSource;
  simulator = refl;
  member = refl;
  company = λ _. refl;
}

abbrev hot : Reading
hot = generate_telemetry "dev-1" 95 40 10 "CPU"

abbrev full_store : MongoStore ℕ
full_store = record {
  insert_telemetry_if_enabled = λ _ w. (false, suc w);
  get_all_latest_devices_from_mongo = λ _. ok [];
  get_device_telemetry_history_from_mongo = λ _ _ _. err "timeout";
}

abbrev empty_db : Db
empty_db = init_db

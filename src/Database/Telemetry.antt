-- ===== src/Database/Telemetry.antt =====
-- The telemetry table of storage/sqlite_store.py.
use Prim.Native.String.{compare}
use Prim.Native.Nat.{Ordering}
use iot_ops_agent.Prelude.{
  ℕ, String, Bool, true, false, ◌&&◌, Option, List, select, take, any, sort_by, ltb, ◌==◌, nat_eq,
  string_eq, not,
}
use mathlib.Core.List.{reverse}
use iot_ops_agent.Database.Tables.{insert}
use iot_ops_agent.Database.{TelemetryRow, Db}

-- What `write_telemetry` is called with.
pub record Reading : Type 0 where
  pub device_id : String
  pub cpu_usage : ℕ
  pub memory_usage : ℕ
  pub heartbeat_delay : ℕ
  pub status : String
  pub log_message : Option String
  pub alarm_name : Option String
  pub alarm_severity : Option String

unfoldable pub insert_telemetry : (now : String) → Reading → Db → Db
insert_telemetry now r db =
    let row = λ (id : ℕ).
      let t : TelemetryRow = record {
        id = id;
        device_id = r.device_id;
        timestamp = now;
        cpu_usage = r.cpu_usage;
        memory_usage = r.memory_usage;
        heartbeat_delay = r.heartbeat_delay;
        status = r.status;
        log_message = r.log_message;
        alarm_name = r.alarm_name;
        alarm_severity = r.alarm_severity;
      } in
      t in
    record db { telemetry = insert row db.telemetry }

abbrev pub of_device : String → TelemetryRow → Bool
of_device device_id t = t.device_id == device_id

-- A row of its device that no row of the device has a larger id than: `id = MAX(id)` of the group.
abbrev pub is_latest : List TelemetryRow → TelemetryRow → Bool
is_latest rows t = not (any (λ u. of_device t.device_id u && ltb t.id u.id) rows)

-- ORDER BY device_id, by code points as SQLite compares text
abbrev pub by_device : TelemetryRow → TelemetryRow → Bool
by_device a b = elim (compare a.device_id b.device_id) [ Ordering.lt ↦ true | _ ↦ false ]

unfoldable pub get_all_latest_devices : Db → List TelemetryRow
get_all_latest_devices db =
    sort_by by_device (select (is_latest db.telemetry.rows) db.telemetry.rows)

-- ORDER BY id DESC
abbrev newer : TelemetryRow → TelemetryRow → Bool
newer a b = ltb b.id a.id

unfoldable pub get_device_telemetry_history : String → ℕ → Db → List TelemetryRow
get_device_telemetry_history device_id limit db =
    reverse (take limit (sort_by newer (select (of_device device_id) db.telemetry.rows)))

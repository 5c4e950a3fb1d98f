-- ===== src/TelemetryStore.antt =====
-- storage/telemetry_store.py: telemetry in SQLite, in MongoDB or in both. `W` is the state behind
-- storage/mongo_store.py, whose operations are a parameter; an environment variable is the text that
-- `.lower()` gives of it.
use iot_ops_agent.Prelude.{
  String, ◌≡◌, ◌⊎◌, refl, inl, inr, Bool, true, false, Bool-cases, List, [], ◌∷◌, ◌==◌, string_eq,
  if◌then◌else◌, ℕ,
}
use iot_ops_agent.Prelude.Result.{Result, ok, err}
use iot_ops_agent.Database.{TelemetryRow, Db}
use iot_ops_agent.Database.Telemetry.{
  Reading, insert_telemetry, get_all_latest_devices as sqlite_devices,
  get_device_telemetry_history as sqlite_history,
}

-- `insert_telemetry_if_enabled` catches the driver's errors and says whether it wrote; the reads may
-- raise.
pub record MongoStore (W : Type 0) : Type 0 where
  pub insert_telemetry_if_enabled : Reading → W → Bool × W
  pub get_all_latest_devices_from_mongo : W → Result String (List TelemetryRow)
  pub get_device_telemetry_history_from_mongo : String → ℕ → W → Result String (List TelemetryRow)

pub record Written : Type 0 where
  pub sqlite : Bool
  pub mongodb : Bool

abbrev pub read_telemetry_from_mongo : String → Bool
read_telemetry_from_mongo setting = setting == "true"

abbrev pub get_telemetry_source : String → String
get_telemetry_source setting = if read_telemetry_from_mongo setting then "mongodb" else "sqlite"

-- What SQLite has, unless MongoDB is read and answers with something.
abbrev pub answered : {A : Type 0} → Result String (List A) → List A → List A
answered (ok (x ∷ xs)) rows = x ∷ xs
answered (ok []) rows = rows
answered (err e) rows = rows

module _ {W : Type 0} (m : MongoStore W) where
  unfoldable pub write_telemetry : (backend now : String) → Reading → Db → W → Written × (Db × W)
  write_telemetry backend now r db w =
      let (written, w') = m.insert_telemetry_if_enabled r w in
      if backend == "mongodb"
      then (record { sqlite = false; mongodb = written }, (db, w'))
      else if backend == "dual"
      then (record { sqlite = true; mongodb = written }, (insert_telemetry now r db, w'))
      else (record { sqlite = true; mongodb = false }, (insert_telemetry now r db, w))

  unfoldable pub get_all_latest_devices : (setting : String) → Db → W → List TelemetryRow
  get_all_latest_devices setting db w =
      let rows = sqlite_devices db in
      if read_telemetry_from_mongo setting
      then answered (m.get_all_latest_devices_from_mongo w) rows
      else rows

  unfoldable pub get_device_telemetry_history :
      (setting device_id : String) → ℕ → Db → W → List TelemetryRow
  get_device_telemetry_history setting device_id limit db w =
      let rows = sqlite_history device_id limit db in
      if read_telemetry_from_mongo setting
      then answered (m.get_device_telemetry_history_from_mongo device_id limit w) rows
      else rows

  -- A report of a write is true: where it says SQLite the reading was inserted there, and else the
  -- database is as it was; MongoDB is left as it was or was asked to insert the reading once, and is
  -- reported only as it answered.
  write_telemetry-reports :
      (backend now : String) (r : Reading) (db : Db) (w : W)
      → let out : Written × (Db × W) = write_telemetry backend now r db w in
        (((out.0.sqlite ≡ true) × (out.1.0 ≡ insert_telemetry now r db))
          ⊎ ((out.0.sqlite ≡ false) × (out.1.0 ≡ db)))
        × (((out.0.mongodb ≡ (m.insert_telemetry_if_enabled r w).0)
              × (out.1.1 ≡ (m.insert_telemetry_if_enabled r w).1))
            ⊎ ((out.0.mongodb ≡ false) × (out.1.1 ≡ w)))
  unfolding write_telemetry
  write_telemetry-reports backend now r db w = elim (Bool-cases (backend == "mongodb")) [
    | inl a ↦ rw a (inr (refl, refl), inl (refl, refl))
    | inr a ↦ elim (Bool-cases (backend == "dual")) [
      | inl b ↦ rw (a, b) (inl (refl, refl), inl (refl, refl))
      | inr b ↦ rw (a, b) (inl (refl, refl), inr (refl, refl))
    ]
  ]

-- ===== src/Simulator.antt =====
-- simulator.py. What `random` draws is an argument.
pub mod Alarms
use iot_ops_agent.Prelude.{
  ℕ, String, Bool, ◌||◌, Option, none, some, leb, ◌==◌, string_eq, if◌then◌else◌,
}
use iot_ops_agent.Database.Telemetry.{Reading}

unfoldable pub determine_status : (cpu memory heartbeat_delay : ℕ) → String
determine_status cpu memory heartbeat_delay =
    if leb 90 cpu || (leb 90 memory || leb 600 heartbeat_delay)
    then "critical"
    else if leb 75 cpu || (leb 80 memory || leb 180 heartbeat_delay)
    then "warning"
    else "healthy"

-- The alarm's name and severity, both `none` where there is no alarm.
abbrev pub Alarm : Type 0
Alarm = Option String × Option String

abbrev warning_alarm : (cpu memory heartbeat_delay : ℕ) → Alarm
warning_alarm cpu memory heartbeat_delay =
    if leb 180 heartbeat_delay
    then (some "Heartbeat delay warning", some "medium")
    else if leb 75 cpu
    then (some "High CPU usage", some "medium")
    else if leb 80 memory
    then (some "High memory usage", some "medium")
    else (none, none)

-- A critical status for which no cause is found falls through to the second test, which it fails.
unfoldable pub generate_alarm : (status : String) → (cpu memory heartbeat_delay : ℕ) → Alarm
generate_alarm status cpu memory heartbeat_delay =
    if status == "critical"
    then (if leb 600 heartbeat_delay
        then (some "Heartbeat delay exceeded", some "critical")
        else if leb 90 cpu
        then (some "Critical CPU usage", some "critical")
        else if leb 90 memory
        then (some "Critical memory usage", some "critical")
        else (none, none))
    else if status == "warning"
    then warning_alarm cpu memory heartbeat_delay
    else (none, none)

-- The reading that `generate_telemetry` writes, from the numbers and the log message that it drew.
unfoldable pub generate_telemetry :
    (device_id : String) → (cpu memory heartbeat_delay : ℕ) → (log_message : String) → Reading
generate_telemetry device_id cpu memory heartbeat_delay log_message =
    let status = determine_status cpu memory heartbeat_delay in
    let alarm = generate_alarm status cpu memory heartbeat_delay in
    record {
      device_id = device_id;
      cpu_usage = cpu;
      memory_usage = memory;
      heartbeat_delay = heartbeat_delay;
      status = status;
      log_message = some log_message;
      alarm_name = alarm.0;
      alarm_severity = alarm.1;
    }

-- ===== src/Simulator/Alarms.antt =====
-- The status of a reading and its alarm agree.
use iot_ops_agent.Prelude.{
  ℕ, ◌≤◌, String, ◌≡◌, ◌↔◌, refl, inl, inr, Bool-cases, ◌||◌, Option, none, some, arith, eq_iff,
  leb, ◌==◌, string_eq, true, if◌then◌else◌,
}
use iot_ops_agent.Simulator.{determine_status, generate_alarm, generate_telemetry}

-- The alarm that a status calls for.
abbrev severity_of : String → Option String
severity_of status =
    if status == "critical"
    then some "critical"
    else if status == "warning"
    then some "medium"
    else none

Agrees : String → Option String × Option String → Type 0
Agrees status alarm = (alarm.1 ≡ severity_of status) × ((alarm.0 ≡ none) ↔ (status ≡ "healthy"))

critical-Agrees : (name : String) → Agrees "critical" (some name, some "critical")
unfolding Agrees
critical-Agrees name =
    (refl, (λ e. absurd (cc e), λ e. absurd (ground (arith, eq_iff "critical" "healthy"))))

warning-Agrees : (name : String) → Agrees "warning" (some name, some "medium")
unfolding Agrees
warning-Agrees name =
    (refl, (λ e. absurd (cc e), λ e. absurd (ground (arith, eq_iff "warning" "healthy"))))

generate_alarm-critical :
    (cpu memory delay : ℕ)
    → (leb 90 cpu || (leb 90 memory || leb 600 delay)) ≡ true
    → Agrees "critical" (generate_alarm "critical" cpu memory delay)
unfolding generate_alarm
generate_alarm-critical cpu memory delay h = elim (Bool-cases (leb 600 delay)) [
  | inl d ↦ rw d (critical-Agrees _)
  | inr d ↦ elim (Bool-cases (leb 90 cpu)) [
    | inl c ↦ rw (d, c) (critical-Agrees _)
    | inr c ↦ elim (Bool-cases (leb 90 memory)) [
      | inl m ↦ rw (d, c, m) (critical-Agrees _)
      | inr m ↦ absurd (ground arith)
    ]
  ]
]

generate_alarm-warning :
    (cpu memory delay : ℕ)
    → (leb 75 cpu || (leb 80 memory || leb 180 delay)) ≡ true
    → Agrees "warning" (generate_alarm "warning" cpu memory delay)
unfolding generate_alarm
generate_alarm-warning cpu memory delay h = elim (Bool-cases (leb 180 delay)) [
  | inl d ↦ rw d (warning-Agrees _)
  | inr d ↦ elim (Bool-cases (leb 75 cpu)) [
    | inl c ↦ rw (d, c) (warning-Agrees _)
    | inr c ↦ elim (Bool-cases (leb 80 memory)) [
      | inl m ↦ rw (d, c, m) (warning-Agrees _)
      | inr m ↦ absurd (ground arith)
    ]
  ]
]

generate_alarm-Agrees :
    (cpu memory delay : ℕ)
    → Agrees
        (determine_status cpu memory delay)
        (generate_alarm (determine_status cpu memory delay) cpu memory delay)
unfolding determine_status
generate_alarm-Agrees cpu memory delay =
    elim (Bool-cases (leb 90 cpu || (leb 90 memory || leb 600 delay))) [
      | inl c ↦ rw c (generate_alarm-critical cpu memory delay c)
      | inr c ↦ elim (Bool-cases (leb 75 cpu || (leb 80 memory || leb 180 delay))) [
        | inl w ↦ rw (c, w) (generate_alarm-warning cpu memory delay w)
        | inr w ↦ rw (c, w) (unfold Agrees generate_alarm in (refl, (λ e. refl, λ e. refl)))
      ]
    ]

-- Every reading has a named alarm exactly if it is not healthy, and the severity of its status: a
-- critical or warning status has always a cause that names the alarm.
generate_telemetry-alarm :
    (device_id : String) (cpu memory heartbeat_delay : ℕ) (log_message : String)
    → ((generate_telemetry device_id cpu memory heartbeat_delay log_message).alarm_severity
        ≡ severity_of (generate_telemetry device_id cpu memory heartbeat_delay log_message).status)
      × (((generate_telemetry device_id cpu memory heartbeat_delay log_message).alarm_name ≡ none)
          ↔ ((generate_telemetry device_id cpu memory heartbeat_delay log_message).status
              ≡ "healthy"))
unfolding generate_telemetry Agrees
generate_telemetry-alarm device_id cpu memory heartbeat_delay log_message =
    generate_alarm-Agrees cpu memory heartbeat_delay

abbrev pub rank : String → ℕ
rank status = if status == "critical" then 2 else if status == "warning" then 1 else 0

rank-le-two : (status : String) → rank status ≤ 2
rank-le-two status = ground arith

-- A reading that is at least as high in all three measures never has a milder status.
determine_status_mono :
    (cpu cpu' memory memory' delay delay' : ℕ)
    → cpu ≤ cpu'
    → memory ≤ memory'
    → delay ≤ delay'
    → rank (determine_status cpu memory delay) ≤ rank (determine_status cpu' memory' delay')
unfolding determine_status
determine_status_mono cpu cpu' memory memory' delay delay' h k l =
    elim (Bool-cases (leb 90 cpu' || (leb 90 memory' || leb 600 delay'))) [
      | inl c' ↦ rw c' (rank-le-two (determine_status cpu memory delay))
      | inr c' ↦ elim (Bool-cases (leb 90 cpu || (leb 90 memory || leb 600 delay))) [
        | inl c ↦ absurd (ground arith)
        | inr c ↦ elim (Bool-cases (leb 75 cpu' || (leb 80 memory' || leb 180 delay'))) [
          | inl w' ↦ elim (Bool-cases (leb 75 cpu || (leb 80 memory || leb 180 delay))) [
            | inl w ↦ rw (c, w, c', w') (omega arith)
            | inr w ↦ rw (c, w, c', w') (omega arith)
          ]
          | inr w' ↦ elim (Bool-cases (leb 75 cpu || (leb 80 memory || leb 180 delay))) [
            | inl w ↦ absurd (ground arith)
            | inr w ↦ rw (c, w, c', w') (omega arith)
          ]
        ]
      ]
    ]

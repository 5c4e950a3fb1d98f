-- ===== src/TelegramBot/Commands.antt =====
-- The commands in a message of services/telegram_service.py. `str.lower` is a parameter.
use Prim.Native.Char.{code}
use Prim.Native.String
use package.text.Mathlib.Text.{starts_with}
use iot_ops_agent.Prelude.{
  ℕ, zero, suc, ◌-◌, String, Bool, not, ◌&&◌, ◌||◌, Option, none, some, List, [], ◌∷◌, ◌++◌, map,
  any, find, take, discard, leb, ◌==◌, nat_eq, max, string_eq, if◌then◌else◌,
}
use iot_ops_agent.DataSources.{text_or}
use iot_ops_agent.Prelude.Text.{is_empty, strip, join, first_chars}
use iot_ops_agent.Prelude.Text.Words.{text_length, drop_leading, holds, before, after}

abbrev without_slashes : String → String
without_slashes = drop_leading (b'/' ∷ [])

-- `text.replace(part, other)`, for a part that is not empty; `skip` characters are passed over.
unfoldable pub replaced : (part other : String) → (skip : ℕ) → String → String
replaced part other skip String.[] = String.[]
replaced part other (suc n) (String.◌∷◌ c s) = replaced part other n s
replaced part other zero (String.◌∷◌ c s) =
    let next = replaced part other (text_length part - 1) s in
    let rest = replaced part other zero s in
    if starts_with (String.◌∷◌ c s) part then String.◌++◌ other next else String.◌∷◌ c rest

abbrev is_command_char : ℕ → Bool
is_command_char n = (leb b'a' n && leb n b'z') || ((leb b'0' n && leb n b'9') || n == b'_')

abbrev command_chars : String → String
command_chars String.[] = String.[]
command_chars (String.◌∷◌ c s) =
    let rest = command_chars s in if is_command_char (code c) then String.◌∷◌ c rest else rest

abbrev aliases : List (String × String)
aliases =
    ("apihealth", "api-health")
    ∷ ("companyfleet", "company-fleet")
    ∷ ("companyinventory", "company-inventory")
    ∷ ("companycoverage", "company-coverage")
    ∷ ("companyalerts", "company-alerts")
    ∷ ("companydisconnected", "company-disconnected")
    ∷ ("companytemperature", "company-temperature")
    ∷ ("companyrules", "company-rules")
    ∷ ("companydevice", "company-device")
    ∷ ("companyredishttp", "company-redis-http")
    ∷ ("companyplatform", "company-platform")
    ∷ ("queuetrend", "queue-trend")
    ∷ ("emqxdropped", "emqx-dropped")
    ∷ ("simfleet", "sim-fleet")
    ∷ ("simdevice", "sim-device")
    ∷ ("simalarms", "sim-alarms")
    ∷ ("simstress", "sim-stress")
    ∷ ("simsmoke", "sim-smoke")
    ∷ []

abbrev second_or : Option (String × String) → String → String
second_or none other = other
second_or (some (key, value)) other = value

-- A prompt that the user may ask for by its shortcut.
pub record PromptEntry : Type 0 where
  pub title : String
  pub shortcut : String
  pub command : String

-- A device with telemetry; the count of its records is its decimal text.
pub record Suggestion : Type 0 where
  pub device_id : String
  pub device_name : String
  pub status : String
  pub telemetry_record_count : Option String

-- A prompt to ask an agent, or a text to send back.
pub data Routed : Type 0 where
  ask : (prompt : String) → Routed
  help : (text : String) → Routed

abbrev detail : Bool → String → List String
detail shown s = if shown then s ∷ [] else []

abbrev count_detail : Option String → List String
count_detail none = []
count_detail (some count) = String.◌++◌ "telemetry=" count ∷ []

abbrev details_of : Suggestion → List String
details_of d =
    detail (not (is_empty d.device_name) && not (d.device_name == d.device_id)) d.device_name
    ++ detail (not (is_empty d.status)) (String.◌++◌ "status=" d.status)
    ++ count_detail d.telemetry_record_count

abbrev suffix : List String → String
suffix [] = ""
suffix (x ∷ xs) = String.◌++◌ " (" (String.◌++◌ (join ", " (x ∷ xs)) ")")

abbrev suggested : String → List Suggestion → List String
suggested label [] = []
suggested label (d ∷ devices) =
    let rest = suggested label devices in
    let line =
      String.◌++◌ label (String.◌++◌ " " (String.◌++◌ d.device_id (suffix (details_of d)))) in
    if is_empty d.device_id then rest else line ∷ rest

unfoldable pub build_missing_device_id_text : String → List Suggestion → String
build_missing_device_id_text command devices =
    let label = if is_empty command then "this command" else String.◌++◌ "/" command in
    join "\n" (
      String.◌++◌ label " needs a device ID."
      ∷ ""
      ∷ "Send it like one of these:"
      ∷ String.◌++◌ label " SmartAsset_9b47fedc"
      ∷ suggested label devices)

abbrev telegram_static_commands : List (String × String)
telegram_static_commands =
    ("diagnose", "Diagnose the system or a device")
    ∷ ("link", "Link Telegram to your IoT Ops Agent account")
    ∷ ("unlink", "Unlink this Telegram account")
    ∷ ("help", "Show available commands")
    ∷ []

abbrev trimmed : Suggestion → Suggestion
trimmed d = record d {
  device_id = strip d.device_id;
  device_name = strip d.device_name;
  status = strip d.status;
}

-- `context` has the source of `get_company_telemetry_coverage_context` and its devices, and is `none`
-- where that raised. The loop stops once it has `limit` devices.
unfoldable pub get_telegram_device_suggestions :
    (limit : ℕ) → (context : Option (String × List Suggestion)) → List Suggestion
get_telegram_device_suggestions limit none = []
get_telegram_device_suggestions limit (some (source, devices)) =
    if source == "company_mongodb"
    then take (max 1 limit) (discard (λ d. is_empty d.device_id) (map trimmed devices))
    else []

module _ (lower : String → String) where
  unfoldable pub command_of : String → String
  command_of text = lower (without_slashes (before b'@' (before b' ' text)))

  unfoldable pub parse_link_command : String → Option String
  parse_link_command text =
      if command_of text == "link" then some (strip (after b' ' text)) else none

  unfoldable pub is_unlink_command : String → Bool
  is_unlink_command text = command_of text == "unlink"

  unfoldable pub telegram_message_starts_new_topic : String → Bool
  telegram_message_starts_new_topic text =
      let command_text = before b' ' (strip text) in
      let command = lower (without_slashes (before b'@' command_text)) in
      starts_with command_text "/"
      && not (any (λ c. c == command) ("" ∷ "start" ∷ "help" ∷ "link" ∷ "unlink" ∷ []))

  abbrev telegram_command_name : String → String
  telegram_command_name shortcut = command_chars (lower (without_slashes shortcut))

  unfoldable pub normalize_telegram_command_name : String → String
  normalize_telegram_command_name command =
      let normalized = without_slashes (lower (strip command)) in
      second_or (find (λ a. a.0 == normalized) aliases) normalized

  -- `prompt_map[key] = command`: the last value of a key counts.
  abbrev names_of : PromptEntry → List (String × String)
  names_of e =
      if is_empty e.shortcut || is_empty e.command
      then []
      else (telegram_command_name e.shortcut, e.command)
        ∷ (lower (without_slashes e.shortcut), e.command)
        ∷ []

  unfoldable pub build_telegram_command_prompt_map : List PromptEntry → List (String × String)
  build_telegram_command_prompt_map [] = []
  build_telegram_command_prompt_map (e ∷ catalog) =
      build_telegram_command_prompt_map catalog ++ names_of e

  abbrev help_line : PromptEntry → List String
  help_line e =
      let alias = String.◌++◌ "/" (telegram_command_name e.shortcut) in
      let shown =
        if not (is_empty (telegram_command_name e.shortcut)) && not (alias == e.shortcut)
        then String.◌++◌ e.shortcut (String.◌++◌ " or " alias)
        else e.shortcut in
      if is_empty e.shortcut
      then []
      else String.◌++◌ shown (String.◌++◌ " - " (text_or e.title e.shortcut)) ∷ []

  abbrev help_lines : List PromptEntry → List String
  help_lines [] = []
  help_lines (e ∷ catalog) = help_line e ++ help_lines catalog

  unfoldable pub build_help_text : List PromptEntry → String
  build_help_text catalog = join "\n" (
      "What would you like to check?" ∷ "" ∷ help_lines catalog
      ++ "/link CODE - Link Telegram to your IoT Ops Agent account"
        ∷ "/unlink - Revoke this Telegram account link" ∷ "/diagnose - Diagnose the whole system"
        ∷ "/diagnose gateway-001 - Diagnose one simulator device"
        ∷ "/diagnose SmartAsset_9b47fedc - Inspect one company device" ∷ [])

  abbrev asked_diagnosis : String → String
  asked_diagnosis target =
      if is_empty target then "diagnose system issue" else String.◌++◌ "diagnose " target

  abbrev fill_prompt_device_id : String → String → String
  fill_prompt_device_id prompt device_id = replaced "<device_id>" (strip device_id) 0 prompt

  abbrev with_target : List Suggestion → (command target prompt : String) → Routed
  with_target suggestions command target prompt =
      if holds prompt "<device_id>"
      then (if is_empty target
          then help (build_missing_device_id_text command suggestions)
          else ask (fill_prompt_device_id prompt target))
      else ask prompt

  abbrev routed :
      List Suggestion → (text command target : String) → Option (String × String) → Routed
  routed suggestions text command target (some (key, prompt)) =
      with_target suggestions command target prompt
  routed suggestions text command target none =
      if command == "diagnose" then ask (asked_diagnosis target) else ask text

  -- `suggestions` is `get_telegram_device_suggestions()`, as the bot asks for them.
  unfoldable pub normalize_telegram_prompt : List Suggestion → List PromptEntry → String → Routed
  unfolding command_of
  normalize_telegram_prompt suggestions catalog text =
      let command = normalize_telegram_command_name (command_of text) in
      let prompts = build_telegram_command_prompt_map catalog in
      let target = strip (after b' ' text) in
      if any (λ t. t == text) ("/" ∷ "/start" ∷ "/help" ∷ [])
      then help (build_help_text catalog)
      else routed suggestions text command target (find (λ p. p.0 == command) prompts)

  abbrev described : PromptEntry → String × String
  described e =
      let command = telegram_command_name e.shortcut in
      (command, first_chars 256 (text_or e.title command))

  abbrev prompt_commands : (seen : List String) → List PromptEntry → List (String × String)
  prompt_commands seen [] = []
  prompt_commands seen (e ∷ catalog) =
      let command = telegram_command_name e.shortcut in
      let skipped = prompt_commands seen catalog in
      let kept = prompt_commands (command ∷ seen) catalog in
      if is_empty command || any (λ c. c == command) seen then skipped else described e ∷ kept

  -- A command with its description.
  unfoldable pub build_telegram_prompt_commands : List PromptEntry → List (String × String)
  build_telegram_prompt_commands catalog = prompt_commands [] catalog

  unfoldable pub get_telegram_commands : List PromptEntry → List (String × String)
  unfolding build_telegram_prompt_commands
  get_telegram_commands catalog = build_telegram_prompt_commands catalog ++ telegram_static_commands

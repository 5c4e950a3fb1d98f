-- ===== src/Tests/Rules.antt =====
-- Devices of a company and their alerts, with natural numbers for floats, and with one that is NaN.
use iot_ops_agent.Prelude.{
  ℕ, String, ◌≡◌, ◌+◌, refl, Bool, true, false, Option, none, some, [], ◌∷◌, ◌++◌, any, arith, leb,
  ltb, ◌==◌, string_eq,
}
use iot_ops_agent.Prelude.Int.{ℤ, pos, negsuc}
use iot_ops_agent.Prelude.Text.{strip, split}
use iot_ops_agent.Prelude.Text.Words.{before}
use iot_ops_agent.MongoProxy.Documents.{null, flag, number, text, array, document}
use iot_ops_agent.PocRules.{
  Floats, critical, warning, NumericRule, Device, evaluate_numeric_rule, matches, metric_leaf_name,
  furthest, graded, evaluate_company_poc_rules, poc_rules,
}
use iot_ops_agent.PocRules.Readings.{
  IsOrdered, severity_of, called_for, evaluate_numeric_rule-severity,
}
use iot_ops_agent.PocRules.Reports.{
  raised_by, severities, repeat, active_alerts-raised, active_alerts-severities,
}

abbrev magnitude : ℤ → ℕ
magnitude (pos n) = n
magnitude (negsuc n) = 0

abbrev pub numbers : Floats
numbers = record {
  Float = ℕ;
  float = λ v. elim v [
    | number n ↦ some (magnitude n)
    | null ↦ none
    | flag b ↦ none
    | text s ↦ none
    | array xs ↦ none
    | document fs ↦ none
  ];
  of_int = magnitude;
  less = ltb;
  at_most = leb;
}

numbers-IsOrdered : IsOrdered numbers
numbers-IsOrdered = record {
  total = λ x y h. ground arith;
  trans = λ x y z h k. ground arith;
  less_not = λ x y. ground arith;
}

abbrev pub hot : Device
hot = record {
  device_id = "d1";
  device_name = "Boiler";
  status = "Offline";
  timestamp = "t";
  inventory_source = "NODE";
  telemetry_record_count = 2;
  metrics =
      record { name = "con.temp[0]"; value = number (pos 55); unit = "C" }
      ∷ record { name = "temperature"; value = number (pos 81); unit = "C" }
      ∷ [];
}

abbrev temperature : NumericRule
temperature = record {
  id = "poc-temperature-high";
  name = "High temperature";
  metric_names = "temp" ∷ "temperature" ∷ [];
  at_least = true;
  warning_threshold = pos 50;
  critical_threshold = pos 70;
}

evaluate_numeric_rule-severity_example :
    severity_of numbers (evaluate_numeric_rule numbers (λ s. s) hot temperature)
    ≡ called_for numbers (λ s. s) hot temperature
evaluate_numeric_rule-severity_example =
    evaluate_numeric_rule-severity numbers numbers-IsOrdered (λ s. s) hot temperature

active_alerts-raised_example :
    any
      (λ a. a.device_id == "d1")
      (evaluate_company_poc_rules numbers (λ s. s) (hot ∷ [])).active_alerts
    ≡ any (raised_by numbers (λ s. s) (λ a. a.device_id == "d1") poc_rules) (hot ∷ [])
active_alerts-raised_example =
    active_alerts-raised numbers (λ s. s) (λ a. a.device_id == "d1") (hot ∷ [])

active_alerts-severities_example :
    (severities numbers
        (λ s. s)
        (evaluate_company_poc_rules numbers (λ s. s) (hot ∷ [])).active_alerts
      ≡ repeat (evaluate_company_poc_rules numbers (λ s. s) (hot ∷ [])).critical_count critical
        ++ repeat (evaluate_company_poc_rules numbers (λ s. s) (hot ∷ [])).warning_count warning)
    × ((evaluate_company_poc_rules numbers (λ s. s) (hot ∷ [])).critical_count
          + (evaluate_company_poc_rules numbers (λ s. s) (hot ∷ [])).warning_count
        ≡ (evaluate_company_poc_rules numbers (λ s. s) (hot ∷ [])).total_count)
active_alerts-severities_example = active_alerts-severities numbers (λ s. s) (hot ∷ [])

-- Floats as above, with NaN, which is neither less nor more than any of them.
abbrev nan_less : Option ℕ → Option ℕ → Bool
nan_less none y = false
nan_less (some x) none = false
nan_less (some x) (some y) = ltb x y

abbrev nan_at_most : Option ℕ → Option ℕ → Bool
nan_at_most none y = false
nan_at_most (some x) none = false
nan_at_most (some x) (some y) = leb x y

abbrev with_nan : Floats
with_nan = record {
  Float = Option ℕ;
  float = λ v. elim v [
    | number n ↦ some (some (magnitude n))
    | null ↦ none
    | flag b ↦ none
    | text s ↦ some none
    | array xs ↦ none
    | document fs ↦ none
  ];
  of_int = λ n. some (magnitude n);
  less = nan_less;
  at_most = nan_at_most;
}

abbrev with_reading : String → Device
with_reading first = record hot {
  metrics =
      record { name = "temp"; value = text first; unit = "C" }
      ∷ record { name = "temperature"; value = number (pos 81); unit = "C" }
      ∷ [];
}

-- A first reading of NaN hides one of 81.
nan_hides : evaluate_numeric_rule with_nan (λ s. s) (with_reading "nan") temperature ≡ none
unfolding evaluate_numeric_rule matches metric_leaf_name strip split before furthest graded
nan_hides = refl

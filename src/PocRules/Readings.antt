-- ===== src/PocRules/Readings.antt =====
-- Which readings make a rule on a metric raise an alert.
use iot_ops_agent.Prelude.{
  String, ◌≡◌, refl, ap, inl, inr, Bool, true, false, not, ◌&&◌, ◌||◌, Option, none, some, List, [],
  ◌∷◌, any, arith, Bool-cases, Option-cases, if◌then◌else◌,
}
use iot_ops_agent.Prelude.Int.{ℤ}
use iot_ops_agent.PocRules.{
  Floats, Severity, critical, warning, NumericRule, Metric, Device, Alert, numeric_value, reaches,
  further, furthest, graded, graded_furthest, is_accepted, matches, evaluate_numeric_rule,
}

-- The floats are in a total order, which NaN is not.
pub record IsOrdered (F : Floats) : Type 0 where
  pub total : (x y : F.Float) → F.at_most x y ≡ false → F.at_most y x ≡ true
  pub trans : (x y z : F.Float) → F.at_most x y ≡ true → F.at_most y z ≡ true → F.at_most x z ≡ true
  pub less_not : (x y : F.Float) → F.less x y ≡ not (F.at_most y x)

-- A metric whose value passes.
abbrev value_passes : (F : Floats) → (F.Float → Bool) → Option F.Float → Bool
value_passes F p none = false
value_passes F p (some value) = p value

abbrev pub any_reading :
    (F : Floats) → (lower : String → String) → NumericRule → Device → (F.Float → Bool) → Bool
any_reading F lower rule device p =
    any (λ m. is_accepted F lower rule m && value_passes F p (numeric_value F m.value))
      device.metrics

-- What a device's readings call for, whichever is furthest out.
abbrev pub called_for :
    (F : Floats) → (lower : String → String) → Device → NumericRule → Option Severity
called_for F lower device rule =
    if any_reading F lower rule device (reaches F rule.at_least rule.critical_threshold)
    then some critical
    else if any_reading F lower rule device (reaches F rule.at_least rule.warning_threshold)
    then some warning
    else none

abbrev pub severity_of : (F : Floats) → Option (Alert F) → Option Severity
severity_of F none = none
severity_of F (some alert) = some alert.severity

module _ (F : Floats) (ordered : IsOrdered F) where
  reaches-further :
      (up : Bool) (t : ℤ) (value best : F.Float)
      → reaches F up t (if further F up value best then value else best)
        ≡ (reaches F up t best || reaches F up t value)
  reaches-further true t value best = ground (
    arith,
    ordered.less_not best value,
    ordered.total value best,
    ordered.trans (F.of_int t) best value,
    ordered.trans (F.of_int t) value best,
  )
  reaches-further false t value best = ground (
    arith,
    ordered.less_not value best,
    ordered.total best value,
    ordered.trans value best (F.of_int t),
    ordered.trans best value (F.of_int t),
  )

  reaches-furthest :
      (up : Bool) (t : ℤ) (m : Metric × F.Float) (ms : List (Metric × F.Float))
      → reaches F up t (furthest F up m ms).1 ≡ any (λ x. reaches F up t x.1) (m ∷ ms)
  unfolding furthest
  reaches-furthest up t m [] = ground arith
  reaches-furthest up t m (x ∷ ms) =
      let out = reaches-further up t x.1 m.1 in
      elim (Bool-cases (further F up x.1 m.1)) [
        | inl further_out ↦
            rw (furthest, further_out)
              (ground (arith, reaches-furthest up t x ms, (rw further_out at out)))
        | inr not_further ↦
            rw (furthest, not_further)
              (ground (arith, reaches-furthest up t m ms, (rw not_further at out)))
      ]

  module _ (lower : String → String) where
    any-matches :
        (rule : NumericRule) (p : F.Float → Bool) (metrics : List Metric)
        → any (λ (x : Metric × F.Float). p x.1) (matches F lower rule metrics)
          ≡ any
              (λ m. is_accepted F lower rule m && value_passes F p (numeric_value F m.value))
              metrics
    unfolding matches
    any-matches rule p [] = refl
    any-matches rule p (m ∷ metrics) = elim (Bool-cases (is_accepted F lower rule m)) [
      | inr other ↦ rw other (any-matches rule p metrics)
      | inl accepted ↦ elim (Option-cases (numeric_value F m.value)) [
        | inl no_number ↦ rw (accepted, no_number) (any-matches rule p metrics)
        | inr (v, e) ↦ rw (accepted, e) (ap (λ b. p v || b) (any-matches rule p metrics))
      ]
    ]

    graded-severity :
        (device : Device) (rule : NumericRule) (m : Metric × F.Float)
        → severity_of F (graded F device rule m) ≡ (
            if reaches F rule.at_least rule.critical_threshold m.1
            then some critical
            else if reaches F rule.at_least rule.warning_threshold m.1
            then some warning
            else none)
    unfolding graded
    graded-severity device rule (m, v) = ground arith

    graded_furthest-severity :
        (device : Device) (rule : NumericRule) (ms : List (Metric × F.Float))
        → severity_of F (graded_furthest F device rule ms) ≡ (
            if any (λ x. reaches F rule.at_least rule.critical_threshold x.1) ms
            then some critical
            else if any (λ x. reaches F rule.at_least rule.warning_threshold x.1) ms
            then some warning
            else none)
    graded_furthest-severity device rule [] = refl
    graded_furthest-severity device rule (m ∷ ms) =
        let up = rule.at_least in
        rw
          (
            ← reaches-furthest up rule.critical_threshold m ms,
            ← reaches-furthest up rule.warning_threshold m ms,
          )
          (graded-severity device rule (furthest F up m ms))

    -- Where floats are in a total order, the alert of a rule on a metric is critical exactly if some
    -- reading of an accepted metric is past the critical threshold, a warning exactly if none is and
    -- some reading is past the warning threshold, and otherwise there is none.
    pub evaluate_numeric_rule-severity :
        (device : Device) (rule : NumericRule)
        → severity_of F (evaluate_numeric_rule F lower device rule) ≡ called_for F lower device rule
    unfolding evaluate_numeric_rule
    evaluate_numeric_rule-severity device rule =
        rw
          (
            ← any-matches rule (reaches F rule.at_least rule.critical_threshold) device.metrics,
            ← any-matches rule (reaches F rule.at_least rule.warning_threshold) device.metrics,
          )
          (graded_furthest-severity device rule (matches F lower rule device.metrics))

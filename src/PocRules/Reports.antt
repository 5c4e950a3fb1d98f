-- ===== src/PocRules/Reports.antt =====
-- What a report lists: every alert that a rule raises, the critical ones first.
use iot_ops_agent.Prelude.{
  ℕ, zero, suc, ◌+◌, String, ◌≡◌, refl, ap, ◌∙◌, inl, inr, Bool, true, false, not, ◌&&◌, ◌||◌,
  Option, none, some, List, [], ◌∷◌, ◌++◌, map, any, any-append, length, select, insert_by, sort_by,
  arith, Option-cases, ◌⊎◌,
}
use iot_ops_agent.PocRules.{
  Floats, Severity, critical, warning, Rule, poc_rules, Device, Alert, evaluate_rule, alerts_of,
  all_alerts, is_critical, shown_before, evaluate_company_poc_rules,
}

-- Sorting keeps what is in a list.
module _ {A : Type 0} (before : A → A → Bool) (p : A → Bool) where
  any-insert_by : (x : A) (ys : List A) → any p (insert_by before x ys) ≡ (p x || any p ys)
  any-insert_by x [] = refl
  any-insert_by x (y ∷ ys) = ground (arith, any-insert_by x ys)

  any-sort_by : (xs : List A) → any p (sort_by before xs) ≡ any p xs
  unfolding sort_by
  any-sort_by [] = refl
  any-sort_by (x ∷ xs) = ground (arith, any-insert_by x (sort_by before xs), any-sort_by xs)

abbrev pub repeat : {A : Type 0} → ℕ → A → List A
repeat zero x = []
repeat (suc n) x = x ∷ repeat n x

module _ (F : Floats) (lower : String → String) where
  -- An alert that passes.
  abbrev pub alert_passes : (Alert F → Bool) → Option (Alert F) → Bool
  alert_passes p none = false
  alert_passes p (some alert) = p alert

  abbrev pub raised_by : (Alert F → Bool) → List Rule → Device → Bool
  raised_by p rules device = any (λ r. alert_passes p (evaluate_rule F lower device r)) rules

  any-alerts_of :
      (p : Alert F → Bool) (device : Device) (rules : List Rule)
      → any p (alerts_of F lower device rules) ≡ raised_by p rules device
  any-alerts_of p device [] = refl
  any-alerts_of p device (r ∷ rules) = elim (Option-cases (evaluate_rule F lower device r)) [
    | inl nothing ↦ rw nothing (any-alerts_of p device rules)
    | inr (a, e) ↦ rw e (ap (λ b. p a || b) (any-alerts_of p device rules))
  ]

  any-all_alerts :
      (p : Alert F → Bool) (devices : List Device)
      → any p (all_alerts F lower devices) ≡ any (raised_by p poc_rules) devices
  any-all_alerts p [] = refl
  any-all_alerts p (device ∷ devices) =
      rw
        (
          any-append p (alerts_of F lower device poc_rules) (all_alerts F lower devices),
          any-alerts_of p device poc_rules,
          any-all_alerts p devices,
        )
        refl

  -- Whatever is asked of an alert, an active alert of the report passes exactly if one of the rules
  -- raises one that does for one of the devices.
  pub active_alerts-raised :
      (p : Alert F → Bool) (devices : List Device)
      → any p (evaluate_company_poc_rules F lower devices).active_alerts
        ≡ any (raised_by p poc_rules) devices
  unfolding evaluate_company_poc_rules
  active_alerts-raised p devices =
      any-sort_by (shown_before F lower) p (all_alerts F lower devices) ∙ any-all_alerts p devices

  abbrev severe : Alert F → Bool
  severe = is_critical F lower

  -- No critical alert stands behind a warning.
  abbrev all_warnings : List (Alert F) → Bool
  all_warnings [] = true
  all_warnings (a ∷ alerts) = not (severe a) && all_warnings alerts

  abbrev grouped : List (Alert F) → Bool
  grouped [] = true
  grouped (a ∷ alerts) = (severe a && grouped alerts) || (not (severe a) && all_warnings alerts)

  warnings-insert :
      (x : Alert F) (ys : List (Alert F))
      → severe x ≡ false
      → all_warnings ys ≡ true
      → all_warnings (insert_by (shown_before F lower) x ys) ≡ true
  warnings-insert x [] w h = ground arith
  warnings-insert x (y ∷ ys) w h = ground (arith, warnings-insert x ys w)

  grouped-insert :
      (x : Alert F) (ys : List (Alert F))
      → grouped ys ≡ true
      → grouped (insert_by (shown_before F lower) x ys) ≡ true
  grouped-insert x [] h = ground arith
  grouped-insert x (y ∷ ys) h = ground (arith, grouped-insert x ys, warnings-insert x ys)

  grouped-sort : (xs : List (Alert F)) → grouped (sort_by (shown_before F lower) xs) ≡ true
  unfolding sort_by
  grouped-sort [] = refl
  grouped-sort (x ∷ xs) = grouped-insert x (sort_by (shown_before F lower) xs) (grouped-sort xs)

  severity-cases :
      (a : Alert F)
      → ((a.severity ≡ critical) × (severe a ≡ true))
        ⊎ ((a.severity ≡ warning) × (severe a ≡ false))
  severity-cases a = elim (values a.severity) [
    | inl s ↦ inl (s, rw s refl)
    | inr s ↦ inr (s, rw s refl)
  ]
    where
      values : (s : Severity) → (s ≡ critical) ⊎ (s ≡ warning)
      values critical = inl refl
      values warning = inr refl

  abbrev pub severities : List (Alert F) → List Severity
  severities alerts = map (λ a. a.severity) alerts

  severities-warnings :
      (xs : List (Alert F))
      → all_warnings xs ≡ true
      → (severities xs ≡ repeat (length (select (λ a. not (severe a)) xs)) warning)
        × (length (select severe xs) ≡ 0)
  severities-warnings [] h = (refl, refl)
  severities-warnings (x ∷ xs) h = elim (severity-cases x) [
    | inl (s, c) ↦ absurd (ground arith)
    | inr (s, c) ↦
        let (rest, none_) = severities-warnings xs (ground arith) in
        rw s (ap (λ l. warning ∷ l) rest, none_)
  ]

  severities-grouped :
      (xs : List (Alert F))
      → grouped xs ≡ true
      → severities xs
        ≡ repeat (length (select severe xs)) critical
          ++ repeat (length (select (λ a. not (severe a)) xs)) warning
  severities-grouped [] h = refl
  severities-grouped (x ∷ xs) h = elim (severity-cases x) [
    | inl (s, c) ↦ rw s (ap (λ l. critical ∷ l) (severities-grouped xs (ground arith)))
    | inr (s, c) ↦
        let (rest, none_) = severities-warnings xs (ground arith) in
        rw (s, none_) (ap (λ l. warning ∷ l) rest)
  ]

  counts-add :
      (xs : List (Alert F))
      → length (select severe xs) + length (select (λ a. not (severe a)) xs) ≡ length xs
  counts-add [] = omega arith
  counts-add (x ∷ xs) = ground (arith, counts-add xs)

  -- The active alerts are the critical ones and then the warnings, each as many as the report counts,
  -- and the two counts add up to the total.
  pub active_alerts-severities :
      (devices : List Device)
      → let report = evaluate_company_poc_rules F lower devices in
        (severities report.active_alerts
          ≡ repeat report.critical_count critical ++ repeat report.warning_count warning)
        × (report.critical_count + report.warning_count ≡ report.total_count)
  unfolding evaluate_company_poc_rules
  active_alerts-severities devices =
      let alerts = sort_by (shown_before F lower) (all_alerts F lower devices) in
      (severities-grouped alerts (grouped-sort (all_alerts F lower devices)), counts-add alerts)

-- ===== src/IoaV3/Planner/Keys.antt =====
-- The names of the parameters that a planned workflow gets.
use iot_ops_agent.Prelude.{
  String, ◌≡◌, inl, inr, Bool, true, false, ◌&&◌, Option, none, some, List, [], ◌∷◌, All,
  Bool-cases, Option-cases, ◌==◌, string_eq, eq_iff, if◌then◌else◌,
}
use iot_ops_agent.Prelude.Text.{is_empty}
use iot_ops_agent.MongoProxy.Documents.{Value, text, null, Fields, end, field}
use iot_ops_agent.IoaV3.Catalog.{Params, keys, put, get_or, contains}
use iot_ops_agent.IoaV3.Planner.Parameters.{
  PlannerRules, kept_param, filter_tool_params, has_key, set_default, set_found, with_identifiers,
  with_device, is_weak_device_identifier,
}

-- All names are among the allowed ones.
abbrev pub Within : List String → Params → Type 0
Within allowed params = All (λ key. contains allowed key ≡ true) (keys params)

abbrev pub identifier_names : List String
identifier_names = "device_id" ∷ "ae_id" ∷ "request_id" ∷ "time_range" ∷ "application_domain" ∷ []

module _ (allowed : List String) where
  put-Within :
      (key : String) (value : Value) (params : Params)
      → contains allowed key ≡ true
      → Within allowed params
      → Within allowed (put key value params)
  put-Within key value [] k h = (k, tt)
  put-Within key value ((name, v) ∷ params) k (n, h) = elim (Bool-cases (name == key)) [
    | inl e ↦ rw e (n, h)
    | inr e ↦ rw e (n, put-Within key value params k h)
  ]

  set_default-Within :
      (key : String) (value : Value) (params : Params)
      → contains allowed key ≡ true
      → Within allowed params
      → Within allowed (set_default key value params)
  set_default-Within key value params k h = elim (Bool-cases (has_key key params)) [
    | inl e ↦ rw e h
    | inr e ↦ rw e (put-Within key value params k h)
  ]

  pub set_found-Within :
      (key : String) (found : Option String) (params : Params)
      → contains allowed key ≡ true
      → Within allowed params
      → Within allowed (set_found key found params)
  set_found-Within key none params k h = h
  set_found-Within key (some s) params k h = elim (Bool-cases (is_empty s)) [
    | inl e ↦ rw e h
    | inr e ↦ rw e (set_default-Within key (text s) params k h)
  ]

  chosen-Within :
      (b : Bool) (some_params others : Params)
      → Within allowed some_params
      → Within allowed others
      → Within allowed (if b then some_params else others)
  chosen-Within true some_params others h k = h
  chosen-Within false some_params others h k = k

  pub with_identifiers-Within :
      (p : PlannerRules) (found params : Params)
      → Within allowed found
      → Within allowed params
      → Within allowed (with_identifiers p found params)
  unfolding with_identifiers
  with_identifiers-Within p [] params h k = k
  with_identifiers-Within p ((key, value) ∷ found) params (n, h) k =
      let weak = key == "device_id" && is_weak_device_identifier p (get_or key null params) in
      with_identifiers-Within p found _ h (
        chosen-Within weak (put key value params) (set_default key value params)
          (put-Within key value params n k) (set_default-Within key value params n k))

  pub with_device-Within :
      (p : PlannerRules) (found : Option String) (params : Params)
      → contains allowed "device_id" ≡ true
      → Within allowed params
      → Within allowed (with_device p found params)
  with_device-Within p none params k h = h
  with_device-Within p (some s) params k h =
      chosen-Within _ (put "device_id" (text s) params) params
        (put-Within "device_id" (text s) params k h) h

  pub filter_tool_params-Within :
      (p : PlannerRules) (fs : Fields) (user_input : String)
      → Within allowed (filter_tool_params p fs allowed user_input)
  unfolding filter_tool_params
  filter_tool_params-Within p end user_input = tt
  filter_tool_params-Within p (field key value fs) user_input =
      let rest = filter_tool_params-Within p fs user_input in
      elim (Bool-cases (contains allowed key)) [
        | inr e ↦ rw e rest
        | inl e ↦ elim (Option-cases (kept_param p (p.texts.lower user_input) key value)) [
          | inl o ↦ rw (e, o) rest
          | inr (v, o) ↦ rw (e, o) (e, rest)
        ]
      ]

  contains_within :
      (names : List String) (key : String)
      → All (λ name. contains allowed name ≡ true) names
      → contains names key ≡ true
      → contains allowed key ≡ true
  contains_within [] key h k = absurd (cc k)
  contains_within (name ∷ names) key (n, h) k = elim (Bool-cases (name == key)) [
    | inl e ↦ rw ((eq_iff name key).0 e) at n
    | inr e ↦ contains_within names key h (rw e at k)
  ]

  pub Within-names :
      (names : List String) (params : Params)
      → All (λ name. contains allowed name ≡ true) names
      → Within names params
      → Within allowed params
  Within-names names [] h k = tt
  Within-names names ((key, v) ∷ params) h (k, ks) =
      (contains_within names key h k, Within-names names params h ks)

-- ===== src/Evidence.antt =====
-- `sanitize_evidence` of agents/langgraph_agent.py, with its limits.
-- `levels` is what `max_depth - depth` is; a value that is no JSON is its text. Of two keys that are
-- the same after the cut, the first keeps its place and the last its value, as in a dict.
pub mod Bounds
use iot_ops_agent.Prelude.{ℕ, zero, suc, String, ◌==◌, string_eq, if◌then◌else◌}
use iot_ops_agent.Prelude.Text.{first_chars}
use iot_ops_agent.MongoProxy.Documents.{
  Value, null, flag, number, text, array, document, Items, nil, item, Fields, end, field,
}

abbrev pub max_evidence_items : ℕ
max_evidence_items = 100

abbrev pub max_evidence_depth : ℕ
max_evidence_depth = 6

abbrev pub max_evidence_string_chars : ℕ
max_evidence_string_chars = 2000

abbrev pub max_key_chars : ℕ
max_key_chars = 120

-- `fields[key] = value`
abbrev pub put_field : String → Value → Fields → Fields
put_field key value end = field key value end
put_field key value (field k v rest) =
    if k == key then field k value rest else field k v (put_field key value rest)

unfoldable mutual
  pub sanitize : (levels : ℕ) → Value → Value
  sanitize zero v = text "[truncated]"
  sanitize (suc l) null = null
  sanitize (suc l) (flag b) = flag b
  sanitize (suc l) (number n) = number n
  sanitize (suc l) (text s) = text (first_chars max_evidence_string_chars s)
  sanitize (suc l) (array xs) = array (sanitize_items l max_evidence_items xs)
  sanitize (suc l) (document fs) = document (sanitize_fields l max_evidence_items fs end)

  pub sanitize_items : (levels left : ℕ) → Items → Items
  sanitize_items l zero xs = nil
  sanitize_items l (suc n) nil = nil
  sanitize_items l (suc n) (item v vs) = item (sanitize l v) (sanitize_items l n vs)

  -- `done` is the dict so far.
  pub sanitize_fields : (levels left : ℕ) → Fields → (done : Fields) → Fields
  sanitize_fields l zero fs done = done
  sanitize_fields l (suc n) end done = done
  sanitize_fields l (suc n) (field key v fs) done =
      sanitize_fields l n fs (put_field (first_chars max_key_chars key) (sanitize l v) done)

unfoldable pub sanitize_evidence : Value → Value
unfolding sanitize
sanitize_evidence v = sanitize max_evidence_depth v

-- ===== src/DataSources.antt =====
-- The data-source policy of a user: the text in which it is stored and its normal form
-- (storage/relational_store.py; storage/sqlite_store.py holds copies of the first two functions).
pub mod Laws
use iot_ops_agent.Prelude.{
  String, Bool, not, List, [], ◌∷◌, map, discard, any, ◌==◌, string_eq, if◌then◌else◌,
}
use iot_ops_agent.Prelude.Text.{is_empty, strip, split, join}

-- What a caller passes: `None`, a text or a list of texts.
pub data Sources : Type 0 where
  nothing : Sources
  plain : String → Sources
  listed : List String → Sources

-- Every item stripped, the blank ones left out.
unfoldable pub clean : List String → List String
unfolding strip
clean xs = discard is_empty (map strip xs)

unfoldable pub deserialize_data_sources : String → List String
unfolding clean split
deserialize_data_sources value = clean (split b',' value)

-- `data_sources or ["simulator"]`
abbrev or_simulator : List String → List String
or_simulator [] = "simulator" ∷ []
or_simulator (x ∷ xs) = x ∷ xs

abbrev pub text_or : String → String → String
text_or s other = if is_empty s then other else s

unfoldable pub serialize_list : List String → String
unfolding clean join
serialize_list xs = text_or (join "," (clean (or_simulator xs))) "simulator"

unfoldable pub serialize_data_sources : Sources → String
unfolding serialize_list deserialize_data_sources
serialize_data_sources nothing = serialize_list []
serialize_data_sources (plain s) = serialize_list (deserialize_data_sources s)
serialize_data_sources (listed xs) = serialize_list xs

abbrev pub contains : String → List String → Bool
contains x xs = any (λ y. y == x) xs

abbrev pub with_simulator : List String → List String
with_simulator xs = if contains "simulator" xs then xs else "simulator" ∷ xs

-- `if "company" in allowed: …` and then `if default not in allowed: …`
abbrev pub pick_default : List String → String → String
pick_default allowed given =
    let chosen : String = if contains "company" allowed then "company" else given in
    if contains chosen allowed then chosen else "simulator"

unfoldable pub normalize_user_data_source_policy : Sources → String → List String × String
unfolding serialize_data_sources
normalize_user_data_source_policy allowed given =
    let sources = with_simulator (deserialize_data_sources (serialize_data_sources allowed)) in
    (sources, pick_default sources given)

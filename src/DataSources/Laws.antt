-- ===== src/DataSources/Laws.antt =====
-- The policy's normal form and its storage format.

use text.Mathlib.TextPositions.{eq_refl}
use text.Mathlib.TextLemmas.{cons-append}
use iot_ops_agent.Prelude.{
  String, ◌≡◌, refl, sym, ap, inl, inr, true, false, List, [], ◌∷◌, All, arith, string_eq,
  Bool-cases,
}
use iot_ops_agent.Prelude.Text.{is_empty, strip, split, join}
use iot_ops_agent.Prelude.Text.Laws.{Lacks, strip-Lacks, strip_idempotent, split-Lacks, split-join}
use iot_ops_agent.DataSources.{
  Sources, plain, listed, clean, deserialize_data_sources, serialize_list, serialize_data_sources,
  contains, with_simulator, pick_default, normalize_user_data_source_policy,
}

-- The name of one source: not blank, stripped and with no comma.
abbrev pub IsSource : String → Type 0
IsSource s = (is_empty s ≡ false) × (strip s ≡ s) × Lacks b',' s

clean-IsSource : (xs : List String) → All (Lacks b',') xs → All IsSource (clean xs)
unfolding clean
clean-IsSource [] h = tt
clean-IsSource (x ∷ xs) (h, hs) = elim (Bool-cases (is_empty (strip x))) [
  | inl e ↦ rw e (clean-IsSource xs hs)
  | inr e ↦ rw e ((e, strip_idempotent x, strip-Lacks b',' x h), clean-IsSource xs hs)
]

clean_of_IsSource : (xs : List String) → All IsSource xs → clean xs ≡ xs
unfolding clean
clean_of_IsSource [] h = refl
clean_of_IsSource (x ∷ xs) (h, hs) = rw (h.1, h.0) (ap (◌∷◌ x) (clean_of_IsSource xs hs))

pub deserialize-IsSource : (s : String) → All IsSource (deserialize_data_sources s)
unfolding deserialize_data_sources
deserialize-IsSource s = clean-IsSource (split b',' s) (split-Lacks b',' s)

Lacks-of_IsSource : (xs : List String) → All IsSource xs → All (Lacks b',') xs
Lacks-of_IsSource [] h = tt
Lacks-of_IsSource (x ∷ xs) (h, hs) = (h.2, Lacks-of_IsSource xs hs)

join-ne-empty : (x : String) (xs : List String) → IsSource x → is_empty (join "," (x ∷ xs)) ≡ false
unfolding join
join-ne-empty String.[] [] h = cc (h.0)
join-ne-empty (String.◌∷◌ c s) [] h = refl
join-ne-empty String.[] (y ∷ ys) h = cc (h.0)
join-ne-empty (String.◌∷◌ c s) (y ∷ ys) h = rw cons-append

-- Reading what was stored gives the sources back, for every list with a source in it.
deserialize-serialize :
    (x : String) (xs : List String)
    → All IsSource (x ∷ xs)
    → deserialize_data_sources (serialize_list (x ∷ xs)) ≡ x ∷ xs
unfolding deserialize_data_sources serialize_list
deserialize-serialize x xs h =
    rw (clean_of_IsSource (x ∷ xs) h, join-ne-empty x xs h.0)
      (rw (split-join "," x xs (Lacks-of_IsSource (x ∷ xs) h)) (clean_of_IsSource (x ∷ xs) h))

contains_eq : (x : String) (xs : List String) → contains x (x ∷ xs) ≡ true
contains_eq x xs = rw (eq_refl x)

-- The sources that a policy is stored with, and its default, are a normal form.
pub record IsPolicy (allowed : List String) (default : String) : Type 0 where
  pub sources : All IsSource allowed
  pub simulator : contains "simulator" allowed ≡ true
  pub member : contains default allowed ≡ true
  pub company : contains "company" allowed ≡ true → default ≡ "company"

simulator-IsSource : IsSource "simulator"
unfolding strip
simulator-IsSource = (refl, refl, omega arith)

with_simulator-IsSource : (xs : List String) → All IsSource xs → All IsSource (with_simulator xs)
with_simulator-IsSource xs h = ground (arith, simulator-IsSource)

with_simulator-contains : (xs : List String) → contains "simulator" (with_simulator xs) ≡ true
with_simulator-contains xs = ground (arith, contains_eq "simulator" xs)

pick_default-IsPolicy :
    (xs : List String) (d : String)
    → All IsSource xs
    → contains "simulator" xs ≡ true
    → IsPolicy xs (pick_default xs d)
pick_default-IsPolicy xs d h k = record {
  sources = h;
  simulator = k;
  member = ground arith;
  company = λ c. ground arith;
}

-- Whatever is passed for the sources and the default, the normal form lists clean source names with
-- "simulator" among them; the default is one of them, and is "company" if that is listed.
normalize_user_data_source_policy-IsPolicy :
    (allowed : Sources) (given : String)
    → IsPolicy
        (normalize_user_data_source_policy allowed given).0
        (normalize_user_data_source_policy allowed given).1
unfolding normalize_user_data_source_policy
normalize_user_data_source_policy-IsPolicy allowed given =
    let read = deserialize_data_sources (serialize_data_sources allowed) in
    pick_default-IsPolicy (with_simulator read) given
      (with_simulator-IsSource read (deserialize-IsSource (serialize_data_sources allowed)))
      (with_simulator-contains read)

with_simulator_of_contains :
    (xs : List String) → contains "simulator" xs ≡ true → with_simulator xs ≡ xs
with_simulator_of_contains xs h = rw h

pick_default_of_IsPolicy :
    (allowed : List String) (default : String)
    → IsPolicy allowed default
    → pick_default allowed default ≡ default
pick_default_of_IsPolicy allowed default p = elim (Bool-cases (contains "company" allowed)) [
  | inl e ↦ rw (e, e) (sym (p.company e))
  | inr e ↦ rw (e, p.member)
]

-- A policy in normal form that is stored as text, read back and normalised again is unchanged.
normalize-serialize :
    (allowed : List String) (default : String)
    → IsPolicy allowed default
    → normalize_user_data_source_policy (plain (serialize_data_sources (listed allowed))) default
      ≡ (allowed, default)
unfolding normalize_user_data_source_policy
normalize-serialize [] default p = absurd (cc (p.simulator))
normalize-serialize (x ∷ xs) default p =
    rw (deserialize-serialize x xs p.sources, deserialize-serialize x xs p.sources)
      (rw (with_simulator_of_contains (x ∷ xs) p.simulator)
        (rw (pick_default_of_IsPolicy (x ∷ xs) default p)))

-- ===== src/Prelude/Text/Words.antt =====
-- `str.split()`, `str.strip(chars)`, `in` and `len` of Python, over native texts.
use Prim.Native.Char.{Char, code}
use Prim.Native.String.{String, [], ◌∷◌}
use package.text.Mathlib.Text.{find?}
use mathlib.Core.Bool.{Bool}
use mathlib.Core.List.{List}
use Prim.Native.Nat.{ℕ, zero, suc}
use iot_ops_agent.Prelude.Lists.{any, discard}
use iot_ops_agent.Prelude.Tests.{◌==◌, nat_eq, if◌then◌else◌, is_some}
use native.Mathlib.Omega.{arith}
use mathlib.Core.Path.{◌≡◌, refl}
use Prim.Native.Nat.{◌≤◌}
use iot_ops_agent.Prelude.Text.{is_space, is_empty, push_head, first_chars}

-- `len(s)`
abbrev pub text_length : String → ℕ
text_length [] = zero
text_length (c ∷ s) = suc (text_length s)

pub text_length-first_chars : (n : ℕ) (s : String) → text_length (first_chars n s) ≤ n
unfolding first_chars
text_length-first_chars zero s = omega arith
text_length-first_chars (suc n) [] = omega arith
text_length-first_chars (suc n) (c ∷ s) = omega (arith, text_length-first_chars n s)

-- A text that is short enough is not cut.
pub first_chars_all : (n : ℕ) (s : String) → text_length s ≤ n → first_chars n s ≡ s
unfolding first_chars
first_chars_all zero [] h = refl
first_chars_all zero (c ∷ s) h = absurd (omega (arith, h))
first_chars_all (suc n) [] h = refl
first_chars_all (suc n) (c ∷ s) h = rw (first_chars_all n s (omega (arith, h)))

-- `part in s`
unfoldable pub holds : String → String → Bool
holds s part = is_some (find? s part)

-- `any(keyword in s for keyword in keywords)`
unfoldable pub holds_any : String → List String → Bool
unfolding holds
holds_any s keywords = any (holds s) keywords

-- The parts between characters that pass.
abbrev split_where : (Char → Bool) → String → List String
split_where p [] = List.◌∷◌ [] List.[]
split_where p (c ∷ s) =
    let rest = split_where p s in if p c then List.◌∷◌ [] rest else push_head c rest

-- `s.split()`
unfoldable pub words : String → List String
words s = discard is_empty (split_where is_space s)

-- Every character of `targets` replaced by a space.
abbrev pub blanked : (targets : List ℕ) → String → String
blanked targets [] = []
blanked targets (c ∷ s) =
    let rest = blanked targets s in
    let blank : Char = " " in if any (λ n. code c == n) targets then blank ∷ rest else c ∷ rest

abbrev pub drop_leading : (List ℕ) → String → String
drop_leading targets [] = []
drop_leading targets (c ∷ s) =
    if any (λ n. code c == n) targets then drop_leading targets s else c ∷ s

abbrev drop_trailing : (List ℕ) → String → String
drop_trailing targets [] = []
drop_trailing targets (c ∷ s) =
    let rest = drop_trailing targets s in
    if any (λ n. code c == n) targets then (if is_empty rest then [] else c ∷ rest) else c ∷ rest

-- `s.strip(targets)`
unfoldable pub strip_chars : (targets : List ℕ) → String → String
strip_chars targets s = drop_trailing targets (drop_leading targets s)

-- `text.partition(chr(n))[0]`
unfoldable pub before : ℕ → String → String
before n [] = []
before n (c ∷ s) = let rest = before n s in if code c == n then [] else c ∷ rest

-- `text.partition(chr(n))[2]`
unfoldable pub after : ℕ → String → String
after n [] = []
after n (c ∷ s) = let rest = after n s in if code c == n then s else rest

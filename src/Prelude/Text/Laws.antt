-- ===== src/Prelude/Text/Laws.antt =====
-- Laws of `strip`, `split` and `join`.
use Prim.Native.Char.{Char, code}
use Prim.Native.Nat.{ℕ}
use Prim.Native.String
use Prim.Native.String.{String, [], ◌∷◌}
use mathlib.Core.Path.{◌≡◌, refl, ap, ◌∙◌}
use mathlib.Core.Logic.{◌≢◌, inl, inr}
use mathlib.Core.Bool.{false, ◌&&◌}
use mathlib.Core.List.{List}
use native.Mathlib.Omega.{arith}
use text.Mathlib.TextLemmas.{nil-append, cons-append}
use iot_ops_agent.Prelude.Tests.{◌==◌, nat_eq, Bool-cases}
use iot_ops_agent.Prelude.Lists.{All}
use iot_ops_agent.Prelude.Text.{is_space, is_empty, lstrip, rstrip, strip, push_head, split, join}

-- No character of the text is `sep`.
abbrev pub Lacks : ℕ → String → Type 0
Lacks sep [] = Unit
Lacks sep (c ∷ s) = (code c ≢ sep) × Lacks sep s

lstrip-Lacks : (sep : ℕ) (s : String) → Lacks sep s → Lacks sep (lstrip s)
unfolding lstrip
lstrip-Lacks sep [] h = h
lstrip-Lacks sep (c ∷ s) (h, hs) = elim (Bool-cases (is_space c)) [
  | inl e ↦ rw e (lstrip-Lacks sep s hs)
  | inr e ↦ rw e (h, hs)
]

rstrip-Lacks : (sep : ℕ) (s : String) → Lacks sep s → Lacks sep (rstrip s)
unfolding rstrip
rstrip-Lacks sep [] h = h
rstrip-Lacks sep (c ∷ s) (h, hs) = elim (Bool-cases (is_space c && is_empty (rstrip s))) [
  | inl e ↦ rw e tt
  | inr e ↦ rw e (h, rstrip-Lacks sep s hs)
]

pub strip-Lacks : (sep : ℕ) (s : String) → Lacks sep s → Lacks sep (strip s)
unfolding strip
strip-Lacks sep s h = rstrip-Lacks sep (lstrip s) (lstrip-Lacks sep s h)

rstrip_idempotent : (s : String) → rstrip (rstrip s) ≡ rstrip s
unfolding rstrip
rstrip_idempotent [] = refl
rstrip_idempotent (c ∷ s) = elim (Bool-cases (is_space c && is_empty (rstrip s))) [
  | inl e ↦ rw e
  | inr e ↦ rw e (rw (rstrip_idempotent s, e))
]

-- A text that does not begin with white space.
abbrev NoLead : String → Type 0
NoLead [] = Unit
NoLead (c ∷ s) = is_space c ≡ false

lstrip-NoLead : (s : String) → NoLead (lstrip s)
unfolding lstrip
lstrip-NoLead [] = tt
lstrip-NoLead (c ∷ s) = elim (Bool-cases (is_space c)) [
  | inl e ↦ rw e (lstrip-NoLead s)
  | inr e ↦ rw e e
]

rstrip-NoLead : (s : String) → NoLead s → NoLead (rstrip s)
unfolding rstrip
rstrip-NoLead [] h = tt
rstrip-NoLead (c ∷ s) h = rw h h

lstrip_of_NoLead : (s : String) → NoLead s → lstrip s ≡ s
unfolding lstrip
lstrip_of_NoLead [] h = refl
lstrip_of_NoLead (c ∷ s) h = rw h

pub strip_idempotent : (s : String) → strip (strip s) ≡ strip s
unfolding strip
strip_idempotent s =
    rw (lstrip_of_NoLead (rstrip (lstrip s)) (rstrip-NoLead (lstrip s) (lstrip-NoLead s)))
      (rstrip_idempotent (lstrip s))

push_head-Lacks :
    (sep : ℕ) (c : Char) (ps : List String)
    → code c ≢ sep
    → All (Lacks sep) ps
    → All (Lacks sep) (push_head c ps)
push_head-Lacks sep c List.[] h hs = ((h, tt), tt)
push_head-Lacks sep c (List.◌∷◌ p ps) h hs = ((h, hs.0), hs.1)

pub split-Lacks : (sep : ℕ) (s : String) → All (Lacks sep) (split sep s)
unfolding split
split-Lacks sep [] = (tt, tt)
split-Lacks sep (c ∷ s) = elim (Bool-cases (code c == sep)) [
  | inl e ↦ rw e (tt, split-Lacks sep s)
  | inr e ↦ rw e (push_head-Lacks sep c (split sep s) (ground arith) (split-Lacks sep s))
]

split_single : (sep : ℕ) (p : String) → Lacks sep p → split sep p ≡ List.◌∷◌ p List.[]
unfolding split
split_single sep [] h = refl
split_single sep (c ∷ p) (h, hs) = ground (arith, split_single sep p hs)

split-append :
    (sep : Char) (p rest : String)
    → Lacks (code sep) p
    → split (code sep) (String.◌++◌ p (sep ∷ rest)) ≡ List.◌∷◌ p (split (code sep) rest)
unfolding split
split-append sep [] rest h = rw nil-append (ground arith)
split-append sep (c ∷ p) rest (h, hs) = rw cons-append (ground (arith, split-append sep p rest hs))

-- Splitting what was joined gives the parts back, if there is one and none holds the separator.
pub split-join :
    (sep : Char) (p : String) (ps : List String)
    → All (Lacks (code sep)) (List.◌∷◌ p ps)
    → split (code sep) (join (sep ∷ []) (List.◌∷◌ p ps)) ≡ List.◌∷◌ p ps
unfolding join
split-join sep p List.[] h = split_single (code sep) p h.0
split-join sep p (List.◌∷◌ q ps) h =
    rw (cons-append, nil-append)
      (split-append sep p (join (sep ∷ []) (List.◌∷◌ q ps)) h.0
        ∙ ap (List.◌∷◌ p) (split-join sep q ps h.1))

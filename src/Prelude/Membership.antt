-- ===== src/Prelude/Membership.antt =====
-- What `any` and `find` say of the elements of a list.
use mathlib.Core.Logic.{◌↔◌, ◌⊎◌, inl, inr}
use mathlib.Core.Path.{◌≡◌, refl, ap}
use mathlib.Core.Bool.{Bool, true, false}
use mathlib.Core.Option.{some}
use mathlib.Core.List.{List, [], ◌∷◌, ◌++◌}
use iot_ops_agent.Prelude.{any, find, All, Bool-cases}

-- An element of the list has the property.
abbrev pub Has {ℓ} : {A : Type ℓ} → (A → Type 0) → List A → Type 0
Has P [] = ⊥
Has P (x ∷ xs) = P x ⊎ Has P xs

-- `x` is the first element of the list that has the property.
pub record IsFirst {A : Type 0} (P : A → Type 0) (xs : List A) (x : A) : Type 0 where
  pub before : List A
  pub after : List A
  pub split : xs ≡ before ++ x ∷ after
  pub holds : P x
  pub none_before : All (λ y. ¬ P y) before

module _ {A : Type 0} (p : A → Bool) (P : A → Type 0) (test : (x : A) → (p x ≡ true) ↔ P x) where
  Has-any : (xs : List A) → any p xs ≡ true → Has P xs
  Has-any [] h = absurd (cc h)
  Has-any (x ∷ xs) h = elim (Bool-cases (p x)) [
    | inl e ↦ inl ((test x).0 e)
    | inr e ↦ inr (Has-any xs (rw e at h))
  ]

  any-Has : (xs : List A) → Has P xs → any p xs ≡ true
  any-Has [] h = absurd h
  any-Has (x ∷ xs) (inl h) = rw ((test x).1 h) refl
  any-Has (x ∷ xs) (inr h) = elim (Bool-cases (p x)) [
    | inl e ↦ rw e refl
    | inr e ↦ rw e (any-Has xs h)
  ]

  pub any_iff : (xs : List A) → (any p xs ≡ true) ↔ Has P xs
  any_iff xs = (Has-any xs, any-Has xs)

  refuted : (x : A) → p x ≡ false → ¬ P x
  refuted x e h = cc (e, (test x).1 h)

  IsFirst-find : (xs : List A) (x : A) → find p xs ≡ some x → IsFirst P xs x
  IsFirst-find [] x h = absurd (cc h)
  IsFirst-find (y ∷ ys) x h = elim (Bool-cases (p y)) [
    | inl e ↦
        let same : some y ≡ some x = rw e at h in
        let eq : y ≡ x = cc same in
        record {
          before = [];
          after = ys;
          split = rw eq refl;
          holds = rw (← eq) ((test y).0 e);
          none_before = tt;
        }
    | inr e ↦
        let f = IsFirst-find ys x (rw e at h) in
        record {
          before = y ∷ f.before;
          after = f.after;
          split = ap (λ l. y ∷ l) f.split;
          holds = f.holds;
          none_before = (refuted y e, f.none_before);
        }
  ]

  find-append :
      (before after : List A) (x : A)
      → All (λ y. ¬ P y) before
      → P x
      → find p (before ++ x ∷ after) ≡ some x
  find-append [] after x fails h = rw ((test x).1 h) refl
  find-append (y ∷ ys) after x (fails, rest) h = elim (Bool-cases (p y)) [
    | inl e ↦ absurd (fails ((test y).0 e))
    | inr e ↦ rw e (find-append ys after x rest h)
  ]

  pub find_iff : (xs : List A) (x : A) → (find p xs ≡ some x) ↔ IsFirst P xs x
  find_iff xs x =
      (IsFirst-find xs x, λ f. rw f.split (find-append f.before f.after x f.none_before f.holds))

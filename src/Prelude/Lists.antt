-- ===== src/Prelude/Lists.antt =====
-- Lists measured by native numbers, and the tests, selections and updates by which tables are read
-- and written.
use Prim.Native.Nat.{ℕ, zero, suc, ◌+◌, ◌≤◌}
use mathlib.Core.Path.{◌≡◌, refl}
use mathlib.Core.Bool.{Bool, true, false, ◌||◌}
use mathlib.Core.List.{List, [], ◌∷◌, ◌++◌}
use mathlib.Core.Option.{Option, none, some}
use native.Mathlib.Omega.{arith}
use iot_ops_agent.Prelude.Tests.{if◌then◌else◌}

module _ {ℓ} {A : Type ℓ} where
  abbrev pub length : List A → ℕ
  length [] = 0
  length (x ∷ xs) = suc (length xs)

  pub length-append : (xs ys : List A) → length (xs ++ ys) ≡ length xs + length ys
  length-append [] ys = omega arith
  length-append (x ∷ xs) ys = omega (arith, length-append xs ys)

  -- The items that pass a test, in order.
  abbrev pub select : (A → Bool) → List A → List A
  select p [] = []
  select p (x ∷ xs) = if p x then x ∷ select p xs else select p xs

  -- The items that do not pass.
  abbrev pub discard : (A → Bool) → List A → List A
  discard p [] = []
  discard p (x ∷ xs) = if p x then discard p xs else x ∷ discard p xs

  -- `f` at the items that pass.
  abbrev pub update : (A → Bool) → (A → A) → List A → List A
  update p f [] = []
  update p f (x ∷ xs) = (if p x then f x else x) ∷ update p f xs

  abbrev pub any : (A → Bool) → List A → Bool
  any p [] = false
  any p (x ∷ xs) = p x || any p xs

  abbrev pub find : (A → Bool) → List A → Option A
  find p [] = none
  find p (x ∷ xs) = if p x then some x else find p xs

  abbrev pub All {κ} : (A → Type κ) → List A → Type κ
  All P [] = Unit
  All P (x ∷ xs) = P x × All P xs

  -- `xs[:n]`
  abbrev pub take : ℕ → List A → List A
  take zero xs = []
  take (suc n) [] = []
  take (suc n) (x ∷ xs) = x ∷ take n xs

  -- A stable sort; `before y x` puts `y` in front of `x`.
  abbrev pub insert_by : (A → A → Bool) → A → List A → List A
  insert_by before x [] = x ∷ []
  insert_by before x (y ∷ ys) = if before y x then y ∷ insert_by before x ys else x ∷ y ∷ ys

  unfoldable pub sort_by : (A → A → Bool) → List A → List A
  sort_by before [] = []
  sort_by before (x ∷ xs) = insert_by before x (sort_by before xs)

module _ {ℓ} {A : Type ℓ} where
  -- Where two tests never hold together, discarding by one leaves the selection by the other.
  pub select-discard :
      (p q : A → Bool)
      → ((x : A) → q x ≡ true → p x ≡ false)
      → (xs : List A) → select q (discard p xs) ≡ select q xs
  select-discard p q apart [] = refl
  select-discard p q apart (x ∷ xs) = ground (arith, apart x, select-discard p q apart xs)

  pub select-update :
      (p q : A → Bool) (f : A → A)
      → ((x : A) → q x ≡ true → p x ≡ false)
      → ((x : A) → q (f x) ≡ q x)
      → (xs : List A) → select q (update p f xs) ≡ select q xs
  select-update p q f apart keep [] = refl
  select-update p q f apart keep (x ∷ xs) =
      ground (arith, apart x, keep x, select-update p q f apart keep xs)

  pub select-append :
      (q : A → Bool) (xs ys : List A) → select q (xs ++ ys) ≡ select q xs ++ select q ys
  select-append q [] ys = refl
  select-append q (x ∷ xs) ys = ground (arith, select-append q xs ys)

  pub select-append_skip :
      (q : A → Bool) (xs : List A) (y : A) → q y ≡ false → select q (xs ++ y ∷ []) ≡ select q xs
  select-append_skip q [] y h = rw h
  select-append_skip q (x ∷ xs) y h = ground (arith, select-append_skip q xs y h)

  pub select-append_keep :
      (q : A → Bool) (xs : List A) (y : A)
      → q y ≡ true
      → select q (xs ++ y ∷ []) ≡ select q xs ++ y ∷ []
  select-append_keep q [] y h = rw h
  select-append_keep q (x ∷ xs) y h = ground (arith, select-append_keep q xs y h)

  pub any-append : (q : A → Bool) (xs ys : List A) → any q (xs ++ ys) ≡ (any q xs || any q ys)
  any-append q [] ys = refl
  any-append q (x ∷ xs) ys = ground (arith, any-append q xs ys)

  pub any-append_skip :
      (q : A → Bool) (xs : List A) (y : A) → q y ≡ false → any q (xs ++ y ∷ []) ≡ any q xs
  any-append_skip q [] y h = rw h
  any-append_skip q (x ∷ xs) y h = ground (arith, any-append_skip q xs y h)

  -- A test that never holds with `p` finds the same after a discard by `p`.
  pub any-discard_other :
      (p q : A → Bool)
      → ((x : A) → q x ≡ true → p x ≡ false)
      → (xs : List A) → any q (discard p xs) ≡ any q xs
  any-discard_other p q apart [] = refl
  any-discard_other p q apart (x ∷ xs) = ground (arith, apart x, any-discard_other p q apart xs)

  pub any-update :
      (p q : A → Bool) (f : A → A)
      → ((x : A) → q (f x) ≡ q x)
      → (xs : List A) → any q (update p f xs) ≡ any q xs
  any-update p q f same [] = refl
  any-update p q f same (x ∷ xs) = ground (arith, same x, any-update p q f same xs)

module _ {ℓ} {A : Type ℓ} where
  pub any_of_find : (p : A → Bool) (xs : List A) (x : A) → find p xs ≡ some x → any p xs ≡ true
  any_of_find p [] x h = cc
  any_of_find p (y ∷ ys) x h = ground (arith, any_of_find p ys x)

  pub any_of_find_none : (p : A → Bool) (xs : List A) → find p xs ≡ none → any p xs ≡ false
  any_of_find_none p [] h = refl
  any_of_find_none p (y ∷ ys) h = ground (arith, any_of_find_none p ys)

  -- What `find` returns passes the test.
  pub find-passes : (p : A → Bool) (xs : List A) (x : A) → find p xs ≡ some x → p x ≡ true
  find-passes p [] x h = cc
  find-passes p (y ∷ ys) x h = ground (arith, find-passes p ys x)

  pub find-update_self :
      (p : A → Bool) (f : A → A)
      → ((x : A) → p x ≡ true → p (f x) ≡ true)
      → (xs : List A) (x : A) → find p xs ≡ some x
      → find p (update p f xs) ≡ some (f x)
  find-update_self p f keep [] x h = cc
  find-update_self p f keep (y ∷ ys) x h = ground (arith, keep y, find-update_self p f keep ys x)

  pub find-update_other :
      (p q : A → Bool) (f : A → A)
      → ((x : A) → q x ≡ true → p x ≡ false)
      → ((x : A) → p x ≡ true → q (f x) ≡ false)
      → (xs : List A) → find q (update p f xs) ≡ find q xs
  find-update_other p q f apart keep [] = refl
  find-update_other p q f apart keep (x ∷ xs) =
      ground (arith, apart x, keep x, find-update_other p q f apart keep xs)

  pub find-append_none :
      (p : A → Bool) (xs : List A) (y : A)
      → find p xs ≡ none
      → find p (xs ++ y ∷ []) ≡ (if p y then some y else none)
  find-append_none p [] y h = refl
  find-append_none p (x ∷ xs) y h = ground (arith, find-append_none p xs y)

  pub find-append_skip :
      (p : A → Bool) (xs : List A) (y : A) → p y ≡ false → find p (xs ++ y ∷ []) ≡ find p xs
  find-append_skip p [] y h = rw h
  find-append_skip p (x ∷ xs) y h = ground (arith, find-append_skip p xs y h)

  pub length-take : (n : ℕ) (xs : List A) → length (take n xs) ≤ n
  length-take zero xs = omega arith
  length-take (suc n) [] = omega arith
  length-take (suc n) (x ∷ xs) = omega (arith, length-take n xs)

  pub length-select : (q : A → Bool) (xs : List A) → length (select q xs) ≤ length xs
  length-select q [] = omega arith
  length-select q (x ∷ xs) = ground (arith, length-select q xs)

module _ {ℓ κ} {A : Type ℓ} (P : A → Type κ) where
  pub All-append : (xs ys : List A) → All P xs → All P ys → All P (xs ++ ys)
  All-append [] ys h k = k
  All-append (x ∷ xs) ys (hx, h) k = (hx, All-append xs ys h k)

  pub All-select : (q : A → Bool) (xs : List A) → All P xs → All P (select q xs)
  All-select q [] h = tt
  All-select q (x ∷ xs) (hx, h) = ground (arith, All-select q xs h)

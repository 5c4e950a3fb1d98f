-- ===== src/Prelude/Result.antt =====
-- The result of code that may raise.
use mathlib.Core.Path.{◌≡◌, refl}
use mathlib.Core.Logic.{◌⊎◌, inl, inr}

pub data Result {ℓ} (E : Type 0) (A : Type ℓ) : Type ℓ where
  ok : A → Result E A
  err : E → Result E A

infixl 5 ◌>>=◌ ◌>>◌
abbrev pub ◌>>=◌ {ℓ κ} :
    {E : Type 0} {A : Type ℓ} {B : Type κ} → Result E A → (next : A → Result E B) → Result E B
err raised >>= next = err raised
ok got >>= next = next got

abbrev pub ◌>>◌ {ℓ} :
    {E : Type 0} {B : Type ℓ} → (check : Result E (Unit {0})) → (rest : Result E B) → Result E B
check >> rest = check >>= λ _. rest

-- A block that returned had a first step that returned.
pub >>=-eq-ok {ℓ κ} :
    {E : Type 0} {A : Type ℓ} {B : Type κ} (step : Result E A) (next : A → Result E B) {out : B}
    → (step >>= next) ≡ ok out
    → (got : A) × ((step ≡ ok got) × (next got ≡ ok out))
>>=-eq-ok (err raised) next returned = cc
>>=-eq-ok (ok got) next returned = (got, (refl, returned))

pub Result-cases {ℓ} :
    {E : Type 0} {A : Type ℓ} (r : Result E A) → ((a : A) × (r ≡ ok a)) ⊎ ((e : E) × (r ≡ err e))
Result-cases (ok a) = inl (a, refl)
Result-cases (err e) = inr (e, refl)

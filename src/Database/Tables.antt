-- ===== src/Database/Tables.antt =====
-- A table of storage/sqlite_store.py with an `INTEGER PRIMARY KEY AUTOINCREMENT` column: the rows in
-- the order of insertion, and the sequence, which holds the largest key ever given.
use iot_ops_agent.Prelude.{
  ℕ, ◌+◌, ◌≤◌, ◌<◌, ◌≡◌, Bool, List, [], ◌∷◌, ◌++◌, arith, select, discard, update, any, insert_by,
  sort_by, All, false, ◌&&◌, refl, ltb, ◌==◌, nat_eq,
}

pub record Table (Row : Type 0) : Type 0 where
  pub rows : List Row
  pub seq : ℕ

abbrev pub empty : {Row : Type 0} → Table Row
empty = record { rows = []; seq = 0 }

-- The key that the next insertion gives.
abbrev pub next_id : {Row : Type 0} → Table Row → ℕ
next_id t = t.seq + 1

abbrev pub insert : {Row : Type 0} → (ℕ → Row) → Table Row → Table Row
insert row t = record { rows = t.rows ++ row (t.seq + 1) ∷ []; seq = t.seq + 1 }

module _ {Row : Type 0} (key : Row → ℕ) where
  -- The keys strictly grow, from above `lo` up to `hi`.
  abbrev pub Ascending : ℕ → List Row → ℕ → Type 0
  Ascending lo [] hi = lo ≤ hi
  Ascending lo (x ∷ xs) hi = (lo < key x) × Ascending (key x) xs hi

  abbrev pub IsKeyed : Table Row → Type 0
  IsKeyed t = Ascending 0 t.rows t.seq

  pub Ascending-weaken :
      (lo lo' : ℕ) (xs : List Row) (hi : ℕ) → lo' ≤ lo → Ascending lo xs hi → Ascending lo' xs hi
  Ascending-weaken lo lo' [] hi w h = omega arith
  Ascending-weaken lo lo' (x ∷ xs) hi w (h, hs) = (omega arith, hs)

  pub Ascending-append :
      (lo : ℕ) (xs : List Row) (hi : ℕ) (x : Row)
      → key x ≡ hi + 1
      → Ascending lo xs hi
      → Ascending lo (xs ++ x ∷ []) (hi + 1)
  Ascending-append lo [] hi x e h = (omega arith, omega arith)
  Ascending-append lo (y ∷ ys) hi x e (h, hs) = (h, Ascending-append (key y) ys hi x e hs)

  pub Ascending-discard :
      (p : Row → Bool) (lo : ℕ) (xs : List Row) (hi : ℕ)
      → Ascending lo xs hi
      → Ascending lo (discard p xs) hi
  Ascending-discard p lo [] hi h = h
  Ascending-discard p lo (x ∷ xs) hi (h, hs) =
      ground
        (arith, Ascending-discard p (key x) xs hi hs, Ascending-weaken (key x) lo (discard p xs) hi)

  pub Ascending-update :
      (p : Row → Bool) (f : Row → Row)
      → ((x : Row) → key (f x) ≡ key x)
      → (lo : ℕ) (xs : List Row) (hi : ℕ) → Ascending lo xs hi
      → Ascending lo (update p f xs) hi
  Ascending-update p f same lo [] hi h = h
  Ascending-update p f same lo (x ∷ xs) hi (h, hs) =
      ground (arith, same x, Ascending-update p f same (key x) xs hi hs)

  pub Ascending-le : (lo : ℕ) (xs : List Row) (hi : ℕ) → Ascending lo xs hi → lo ≤ hi
  Ascending-le lo [] hi h = h
  Ascending-le lo (x ∷ xs) hi (h, hs) = omega (arith, Ascending-le (key x) xs hi hs)

  -- Every key lies between the bounds.
  pub Ascending-All :
      (lo : ℕ) (xs : List Row) (hi : ℕ)
      → Ascending lo xs hi
      → All (λ x. (lo < key x) × (key x ≤ hi)) xs
  Ascending-All lo [] hi h = tt
  Ascending-All lo (x ∷ xs) hi (h, hs) =
      ((h, Ascending-le (key x) xs hi hs), All-weaken xs (Ascending-All (key x) xs hi hs))
    where
      All-weaken :
          (ys : List Row)
          → All (λ y. (key x < key y) × (key y ≤ hi)) ys
          → All (λ y. (lo < key y) × (key y ≤ hi)) ys
      All-weaken [] a = tt
      All-weaken (y ∷ ys) (a, as_) = ((omega arith, a.1), All-weaken ys as_)

  pub Ascending-select :
      (p : Row → Bool) (lo : ℕ) (xs : List Row) (hi : ℕ)
      → Ascending lo xs hi
      → Ascending lo (select p xs) hi
  Ascending-select p lo [] hi h = h
  Ascending-select p lo (x ∷ xs) hi (h, hs) =
      ground
        (arith, Ascending-select p (key x) xs hi hs, Ascending-weaken (key x) lo (select p xs) hi)

  -- No row has a key up to the lower bound.
  pub any_below :
      (p : Row → Bool) (k lo : ℕ) (xs : List Row) (hi : ℕ)
      → k ≤ lo
      → Ascending lo xs hi
      → any (λ x. key x == k && p x) xs ≡ false
  any_below p k lo [] hi w h = refl
  any_below p k lo (x ∷ xs) hi w (h, hs) =
      ground (arith, any_below p k (key x) xs hi (omega arith) hs)

  insert_by_first :
      (x : Row) (xs : List Row) (hi : ℕ)
      → Ascending (key x) xs hi
      → insert_by (λ a b. ltb (key a) (key b)) x xs ≡ x ∷ xs
  insert_by_first x [] hi h = refl
  insert_by_first x (y ∷ ys) hi (h, hs) = ground arith

  -- ORDER BY the key changes nothing in rows whose keys grow.
  pub sort_by_of_Ascending :
      (lo : ℕ) (xs : List Row) (hi : ℕ)
      → Ascending lo xs hi
      → sort_by (λ a b. ltb (key a) (key b)) xs ≡ xs
  unfolding sort_by
  sort_by_of_Ascending lo [] hi h = refl
  sort_by_of_Ascending lo (x ∷ xs) hi (h, hs) =
      rw (sort_by_of_Ascending (key x) xs hi hs) (insert_by_first x xs hi hs)

-- ===== src/TelegramUpdates/Retention.antt =====
-- How long a processed update is kept: not past its time, and not past 2048 later ones.
use iot_ops_agent.Prelude.{
  ℕ, ◌+◌, ◌≤◌, ◌<◌, String, ◌≡◌, ◌≢◌, ◌⊎◌, ap, inl, inr, true, false, Option, none, some, List, [],
  ◌∷◌, arith, eq_iff, any, length, ltb, ◌==◌, string_eq, Bool-cases,
}
use iot_ops_agent.TelegramUpdates.{
  Updates, expire, max_processed, has_key, claim_telegram_update, put, evict,
  complete_telegram_update,
}
use iot_ops_agent.TelegramUpdates.Claims.{fresh}

length-expire :
    (retention m : ℕ) (xs : List (String × ℕ)) → length (expire retention m xs) ≤ length xs
unfolding expire
length-expire retention m [] = omega arith
length-expire retention m ((k, t) ∷ xs) = ground (arith, length-expire retention m xs)

length-put : (k : String) (m : ℕ) (xs : List (String × ℕ)) → length (put k m xs) ≤ length xs + 1
unfolding put
length-put k m [] = omega arith
length-put k m ((j, t) ∷ xs) = ground (arith, length-put k m xs)

module _ (retention now : ℕ) (key : String) where
  -- The key is processed, at a time that is not over at `now`, and at most `n` entries are younger.
  abbrev pub Held : ℕ → List (String × ℕ) → Type 0
  Held n [] = ⊥
  Held n (e ∷ xs) = ((fresh retention now key e ≡ true) × (length xs ≤ n)) ⊎ Held n xs

  pub Held-suc : (n : ℕ) (xs : List (String × ℕ)) → Held n xs → Held (n + 1) xs
  Held-suc n [] h = h
  Held-suc n (e ∷ xs) (inl (f, short)) = inl (f, omega (arith, short))
  Held-suc n (e ∷ xs) (inr h) = inr (Held-suc n xs h)

  Held-key : (n : ℕ) (xs : List (String × ℕ)) → Held n xs → any (has_key key) xs ≡ true
  Held-key n [] h = absurd h
  Held-key n (e ∷ xs) (inl (f, short)) = ground arith
  Held-key n (e ∷ xs) (inr h) = ground (arith, Held-key n xs h)

  expire-Held :
      (n m : ℕ) (xs : List (String × ℕ)) → m ≤ now → Held n xs → Held n (expire retention m xs)
  unfolding expire
  expire-Held n m [] early h = h
  expire-Held n m ((k, t) ∷ xs) early (inl (f, short)) =
      let kept : ltb (t + retention) m ≡ false = ground arith in
      rw kept (inl (f, omega (arith, short, length-expire retention m xs)))
  expire-Held n m ((k, t) ∷ xs) early (inr h) = elim (Bool-cases (ltb (t + retention) m)) [
    | inl old ↦ rw old (expire-Held n m xs early h)
    | inr young ↦ rw young (inr h)
  ]

  put-Held :
      (n m : ℕ) (k : String) (xs : List (String × ℕ))
      → k ≢ key
      → Held n xs
      → Held (n + 1) (put k m xs)
  unfolding put
  put-Held n m k [] other h = absurd h
  put-Held n m k ((j, t) ∷ xs) other (inl (f, short)) =
      let apart : (j == k) ≡ false = ground (arith, eq_iff j k, eq_iff j key) in
      rw apart (inl (f, omega (arith, short, length-put k m xs)))
  put-Held n m k ((j, t) ∷ xs) other (inr h) = elim (Bool-cases (j == k)) [
    | inl e ↦ rw e (inr (Held-suc n xs h))
    | inr e ↦ rw e (inr (put-Held n m k xs other h))
  ]

  evict-Held : (n : ℕ) (xs : List (String × ℕ)) → n < max_processed → Held n xs → Held n (evict xs)
  unfolding evict
  evict-Held n [] few h = h
  evict-Held n (e ∷ xs) few (inl (f, short)) =
      let fits : ltb max_processed (length (e ∷ xs)) ≡ false = ground arith in
      rw fits (inl (f, short))
  evict-Held n (e ∷ xs) few (inr h) = elim (Bool-cases (ltb max_processed (length (e ∷ xs)))) [
    | inl long ↦ rw long (evict-Held n xs few h)
    | inr fits ↦ rw fits (inr h)
  ]

  put-Held_new :
      (t : ℕ) (xs : List (String × ℕ))
      → now ≤ t + retention
      → any (has_key key) xs ≡ false
      → Held 0 (put key t xs)
  unfolding put
  put-Held_new t [] within h = inl (ground (arith, eq_iff key key), omega arith)
  put-Held_new t ((j, s) ∷ xs) within h =
      let apart : (j == key) ≡ false = ground arith in
      rw apart (inr (put-Held_new t xs within (ground arith)))

  pub claim-Held :
      (n m : ℕ) (k : Option String) (u : Updates)
      → m ≤ now
      → Held n u.processed
      → Held n (claim_telegram_update retention m k u).1.processed
  unfolding claim_telegram_update
  claim-Held n m none u early h = h
  claim-Held n m (some k) u early h =
      let kept = expire-Held n m u.processed early h in
      elim (Bool-cases (claim_telegram_update retention m (some k) u).0.1) [
        | inl granted ↦ ground (arith, kept)
        | inr refused ↦ ground (arith, kept)
      ]

  pub complete-Held :
      (n m : ℕ) (k : Option String) (u : Updates)
      → k ≢ some key
      → n + 1 < max_processed
      → Held n u.processed
      → Held (n + 1) (complete_telegram_update m k u).processed
  unfolding complete_telegram_update
  complete-Held n m none u other few h = Held-suc n u.processed h
  complete-Held n m (some k) u other few h =
      evict-Held (n + 1) (put k m u.processed) few
        (put-Held n m k u.processed (λ e. other (ap some e)) h)

  pub complete-Held_new :
      (t : ℕ) (u : Updates)
      → now ≤ t + retention
      → any (has_key key) u.processed ≡ false
      → Held 0 (complete_telegram_update t (some key) u).processed
  unfolding complete_telegram_update
  complete-Held_new t u within h =
      evict-Held 0 (put key t u.processed) (omega arith) (put-Held_new t u.processed within h)

  -- A key that is held is not claimed, at any time up to `now`.
  pub claim-refused :
      (n m : ℕ) (u : Updates)
      → m ≤ now
      → Held n u.processed
      → (claim_telegram_update retention m (some key) u).0.1 ≡ false
  unfolding claim_telegram_update
  claim-refused n m u early h =
      let seen =
        Held-key n (expire retention m u.processed) (expire-Held n m u.processed early h) in
      ground (arith, seen)

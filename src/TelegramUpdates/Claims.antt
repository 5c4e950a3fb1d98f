-- ===== src/TelegramUpdates/Claims.antt =====
-- An update is processed by one worker at a time, and not again soon after it was completed.
use iot_ops_agent.Prelude.{
  ℕ, ◌+◌, ◌≤◌, String, ◌≡◌, ◌≢◌, ap, inl, inr, Bool, true, false, ◌&&◌, Option, none, some, List,
  [], ◌∷◌, arith, eq_iff, discard, any, any-discard_other, length, ltb, leb, ◌==◌, string_eq,
  Bool-cases, All,
}
use iot_ops_agent.TelegramUpdates.{
  Updates, expire, max_processed, has_key, same, claim_telegram_update, put, evict,
  complete_telegram_update, release_telegram_update,
}

-- What workers do.
pub data Action : Type 0 where
  claim : (now : ℕ) → Option String → Action
  complete : (now : ℕ) → Option String → Action
  release : Option String → Action

abbrev pub perform : ℕ → Action → Updates → Updates
perform retention (claim now k) u = (claim_telegram_update retention now k u).1
perform retention (complete now k) u = complete_telegram_update now k u
perform retention (release k) u = release_telegram_update k u

abbrev pub perform_all : ℕ → List Action → Updates → Updates
perform_all retention [] u = u
perform_all retention (a ∷ as_) u = perform_all retention as_ (perform retention a u)

-- The action does not end the processing of `key`.
abbrev pub Spares : String → Action → Type 0
Spares key (claim now k) = Unit
Spares key (complete now k) = k ≢ some key
Spares key (release k) = k ≢ some key

abbrev Holds : String → Updates → Type 0
Holds key u = any (same key) u.inflight ≡ true

discard-other :
    (k key : String) (xs : List String)
    → k ≢ key
    → any (same key) (discard (same k) xs) ≡ any (same key) xs
discard-other k key xs ne =
    any-discard_other (same k) (same key) (λ x h. ground (arith, eq_iff x k, eq_iff x key)) xs

perform-Holds :
    (retention : ℕ) (key : String) (a : Action) (u : Updates)
    → Spares key a
    → Holds key u
    → Holds key (perform retention a u)
unfolding claim_telegram_update complete_telegram_update release_telegram_update
perform-Holds retention key (claim now none) u s h = h
perform-Holds retention key (claim now (some k)) u s h = ground arith
perform-Holds retention key (complete now none) u s h = h
perform-Holds retention key (complete now (some k)) u s h =
    rw (discard-other k key u.inflight (λ e. s (ap some e))) h
perform-Holds retention key (release none) u s h = h
perform-Holds retention key (release (some k)) u s h =
    rw (discard-other k key u.inflight (λ e. s (ap some e))) h

perform_all-Holds :
    (retention : ℕ) (key : String) (as_ : List Action) (u : Updates)
    → All (Spares key) as_
    → Holds key u
    → Holds key (perform_all retention as_ u)
perform_all-Holds retention key [] u s h = h
perform_all-Holds retention key (a ∷ as_) u (s, ss) h =
    perform_all-Holds retention key as_ (perform retention a u) ss
      (perform-Holds retention key a u s h)

claim-Holds :
    (retention now : ℕ) (key : String) (u : Updates)
    → (claim_telegram_update retention now (some key) u).0.1 ≡ true
    → Holds key (claim_telegram_update retention now (some key) u).1
unfolding claim_telegram_update
claim-Holds retention now key u h = ground (arith, eq_iff key key)

-- Between the claim of an update and its completion or release, whatever the workers do with other
-- updates and however much time passes, every other claim of it is refused.
pub claim_exclusive :
    (retention now later : ℕ) (key : String) (as_ : List Action) (u : Updates)
    → (claim_telegram_update retention now (some key) u).0.1 ≡ true
    → All (Spares key) as_
    → (claim_telegram_update retention later
        (some key)
        (perform_all retention as_ (claim_telegram_update retention now (some key) u).1)).0.1
      ≡ false
claim_exclusive retention now later key as_ u h s =
    let u' = perform_all retention as_ (claim_telegram_update retention now (some key) u).1 in
    let held =
      perform_all-Holds retention key as_ (claim_telegram_update retention now (some key) u).1 s
        (claim-Holds retention now key u h) in
    unfold claim_telegram_update in rw held

-- The key is processed, at a time that is not over at `now`.
abbrev pub fresh : ℕ → ℕ → String → String × ℕ → Bool
fresh retention now key e = has_key key e && leb now (e.1 + retention)

has_key_of_fresh :
    (retention now : ℕ) (key : String) (xs : List (String × ℕ))
    → any (fresh retention now key) xs ≡ true
    → any (has_key key) xs ≡ true
has_key_of_fresh retention now key [] h = h
has_key_of_fresh retention now key (e ∷ xs) h =
    ground (arith, has_key_of_fresh retention now key xs)

expire-fresh :
    (retention now : ℕ) (key : String) (xs : List (String × ℕ))
    → any (fresh retention now key) xs ≡ true
    → any (has_key key) (expire retention now xs) ≡ true
unfolding expire
expire-fresh retention now key [] h = h
expire-fresh retention now key ((k, t) ∷ xs) h = elim (Bool-cases (ltb (t + retention) now)) [
  | inl old ↦ rw old (expire-fresh retention now key xs (ground arith))
  | inr kept ↦ rw kept (has_key_of_fresh retention now key ((k, t) ∷ xs) h)
]

any_of_evict :
    (p : String × ℕ → Bool) (xs : List (String × ℕ)) → any p (evict xs) ≡ true → any p xs ≡ true
unfolding evict
any_of_evict p [] h = h
any_of_evict p (e ∷ xs) h = elim (Bool-cases (ltb max_processed (length (e ∷ xs)))) [
  | inl long ↦ ground (arith, any_of_evict p xs (rw long at h))
  | inr short ↦ rw short at h
]

fresh-put :
    (retention now t : ℕ) (key : String) (xs : List (String × ℕ))
    → now ≤ t + retention
    → any (has_key key) xs ≡ false
    → any (fresh retention now key) (evict (put key t xs)) ≡ true
unfolding put evict
fresh-put retention now t key [] w h = ground (arith, eq_iff key key)
fresh-put retention now t key ((k, s) ∷ xs) w h =
    let later = fresh-put retention now t key xs w (ground arith) in
    let deep = any_of_evict (fresh retention now key) (put key t xs) later in
    elim (Bool-cases (k == key)) [
      | inl e ↦ absurd (ground arith)
      | inr e ↦ rw e (elim (Bool-cases (ltb max_processed (length ((k, s) ∷ put key t xs)))) [
        | inl long ↦ rw long later
        | inr short ↦ rw short (ground (arith, deep))
      ])
    ]

-- After an update that was not among the processed ones is completed, a claim of it is refused for as
-- long as updates are retained.
claim_complete :
    (retention t now : ℕ) (key : String) (u : Updates)
    → any (has_key key) u.processed ≡ false
    → now ≤ t + retention
    → (claim_telegram_update retention now (some key) (complete_telegram_update t (some key) u)).0.1
      ≡ false
claim_complete retention t now key u h w =
    let seen =
      expire-fresh retention now key (evict (put key t u.processed))
        (fresh-put retention now t key u.processed w h) in
    unfold claim_telegram_update complete_telegram_update in ground (arith, seen)

length-evict : (xs : List (String × ℕ)) → length (evict xs) ≤ max_processed
unfolding evict
length-evict [] = omega arith
length-evict (x ∷ xs) = ground (arith, length-evict xs)

-- No completion leaves more than 2048 processed updates.
length_complete :
    (now : ℕ) (key : String) (u : Updates)
    → length (complete_telegram_update now (some key) u).processed ≤ max_processed
unfolding complete_telegram_update
length_complete now key u = length-evict (put key now u.processed)

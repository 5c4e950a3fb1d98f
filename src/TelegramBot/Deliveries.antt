-- ===== src/TelegramBot/Deliveries.antt =====
-- What the delivery of an update leaves of its claim.
use iot_ops_agent.Prelude.{
  ℕ, ◌+◌, ◌≤◌, String, ◌≡◌, ◌≢◌, refl, inl, inr, Bool, true, false, Option, some, List, [], ◌∷◌,
  arith, discard, any, string_eq, Bool-cases, Option-cases,
}
use iot_ops_agent.Prelude.Result.{ok, err, Result-cases}
use iot_ops_agent.TelegramUpdates.{
  Updates, expire, has_key, same, claim_telegram_update, complete_telegram_update,
  release_telegram_update,
}
use iot_ops_agent.TelegramUpdates.Retention.{Held, complete-Held_new}
use iot_ops_agent.TelegramBot.{
  Update, Message, extract_message, Outcome, ignored, duplicate, Times, Services,
}
use iot_ops_agent.TelegramBot.Turns.{respond}
use iot_ops_agent.TelegramBot.Webhook.{World, process_telegram_update}

expire-absent :
    (retention now : ℕ) (key : String) (xs : List (String × ℕ))
    → any (has_key key) xs ≡ false
    → any (has_key key) (expire retention now xs) ≡ false
unfolding expire
expire-absent retention now key [] h = h
expire-absent retention now key ((k, t) ∷ xs) h = ground (arith, expire-absent retention now key xs)

-- A claim that was granted leaves the key among those in flight only.
claim-absent :
    (retention now : ℕ) (key : String) (u : Updates)
    → (claim_telegram_update retention now (some key) u).0.1 ≡ true
    → any (has_key key) (claim_telegram_update retention now (some key) u).1.processed ≡ false
unfolding claim_telegram_update
claim-absent retention now key u h = ground arith

discard-absent : (key : String) (xs : List String) → any (same key) (discard (same key) xs) ≡ false
discard-absent key [] = refl
discard-absent key (x ∷ xs) = ground (arith, discard-absent key xs)

release-claimable :
    (retention later : ℕ) (key : String) (u : Updates)
    → any (has_key key) u.processed ≡ false
    → (claim_telegram_update retention later (some key) (release_telegram_update (some key) u)).0.1
      ≡ true
unfolding claim_telegram_update release_telegram_update
release-claimable retention later key u h =
    rw (discard-absent key u.inflight, expire-absent retention later key u.processed h) refl

pub claim-key :
    (retention now : ℕ) (key : String) (u : Updates)
    → (claim_telegram_update retention now (some key) u).0.0 ≡ some key
unfolding claim_telegram_update
claim-key retention now key u = ground arith

pub refused-duplicate :
    (e : Services) (t : Times) (update : Update) (key : String) (message : Message) (w : World)
    → update.update_id ≡ some key
    → extract_message update ≡ some message
    → (claim_telegram_update e.retention t.claimed (some key) w.updates).0.1 ≡ false
    → ((process_telegram_update e t update w).0 ≡ ok duplicate)
      × ((process_telegram_update e t update w).1.bot ≡ w.bot)
unfolding process_telegram_update
refused-duplicate e t update key message w has_id found refused =
    rw (found, has_id, refused) (refl, refl)

module _ (e : Services) (t : Times) (update : Update) (key : String) (w : World)
    (has_id : update.update_id ≡ some key) where
  abbrev granted : (Option String × Bool) × Updates
  granted = claim_telegram_update e.retention t.claimed (some key) w.updates

  -- The update had a message, was claimed, and the body returned.
  returned :
      (outcome : Outcome)
      → (process_telegram_update e t update w).0 ≡ ok outcome
      → outcome ≢ ignored
      → outcome ≢ duplicate
      → (message : Message) × (extract_message update ≡ some message)
        × (granted.0.1 ≡ true)
        × ((process_telegram_update e t update w).1.updates
            ≡ complete_telegram_update t.completed (some key) granted.1)
  unfolding process_telegram_update
  returned outcome h ni nd = elim (Option-cases (extract_message update)) [
    | inl none_ ↦ absurd (ni (cc (rw none_ at h)))
    | inr (message, found) ↦ elim (Bool-cases granted.0.1) [
      | inr refused ↦ absurd (nd (cc (rw (found, has_id, refused) at h)))
      | inl claimed ↦ elim (Result-cases (respond e t message w.bot).0) [
        | inl (o, done) ↦ (
          message,
          found,
          claimed,
          rw (found, has_id, claimed, done, claim-key e.retention t.claimed key w.updates) refl,
        )
        | inr (m, failed) ↦ absurd (cc (rw (found, has_id, claimed, failed) at h))
      ]
    ]
  ]

  -- The claim was granted, and the body raised.
  raised_in :
      (m : String)
      → (process_telegram_update e t update w).0 ≡ err m
      → (granted.0.1 ≡ true)
        × ((process_telegram_update e t update w).1.updates
            ≡ release_telegram_update (some key) granted.1)
  unfolding process_telegram_update
  raised_in m h = elim (Option-cases (extract_message update)) [
    | inl none_ ↦ absurd (cc (rw none_ at h))
    | inr (message, found) ↦ elim (Bool-cases granted.0.1) [
      | inr refused ↦ absurd (cc (rw (found, has_id, refused) at h))
      | inl claimed ↦ elim (Result-cases (respond e t message w.bot).0) [
        | inl (o, done) ↦ absurd (cc (rw (found, has_id, claimed, done) at h))
        | inr (m', failed) ↦ (
          claimed,
          rw (found, has_id, claimed, failed, claim-key e.retention t.claimed key w.updates) refl,
        )
      ]
    ]
  ]

  -- After an update was processed, its key is held for the time that updates are retained.
  pub returned-Held :
      (outcome : Outcome) (now : ℕ)
      → (process_telegram_update e t update w).0 ≡ ok outcome
      → outcome ≢ ignored
      → outcome ≢ duplicate
      → now ≤ t.completed + e.retention
      → ((message : Message) × (extract_message update ≡ some message))
        × Held e.retention now key 0 (process_telegram_update e t update w).1.updates.processed
  returned-Held outcome now h ni nd within =
      let (message, found, claimed, updates) = returned outcome h ni nd in
      let held =
        complete-Held_new e.retention now key t.completed granted.1 within
          (claim-absent e.retention t.claimed key w.updates claimed) in
      ((message, found), rw updates held)

  -- An update whose processing raised may be claimed again at any later time.
  pub claim-process_raised :
      (m : String) (later : ℕ)
      → (process_telegram_update e t update w).0 ≡ err m
      → (claim_telegram_update e.retention later
          (some key)
          (process_telegram_update e t update w).1.updates).0.1
        ≡ true
  claim-process_raised m later h =
      let (claimed, updates) = raised_in m h in
      rw updates (
        release-claimable e.retention later key granted.1
          (claim-absent e.retention t.claimed key w.updates claimed))

-- ===== src/TelegramBot/Redelivery.antt =====
-- What a second delivery of an update does, after other updates.
use iot_ops_agent.Prelude.{
  ℕ, ◌+◌, ◌≤◌, ◌<◌, String, ◌≡◌, ◌≢◌, inl, inr, true, Option, none, some, List, [], ◌∷◌, arith,
  length, All, Bool-cases, Option-cases, string_eq,
}
use iot_ops_agent.Prelude.Result.{ok, err}
use iot_ops_agent.TelegramUpdates.{
  Updates, max_processed, claim_telegram_update, release_telegram_update,
}
use iot_ops_agent.TelegramUpdates.Retention.{
  Held, Held-suc, claim-Held, complete-Held, claim-refused,
}
use iot_ops_agent.TelegramBot.{
  Update, extract_message, Outcome, ignored, duplicate, Bot, Times, Services,
}
use iot_ops_agent.Prelude.Result.{Result}
use iot_ops_agent.TelegramBot.Turns.{respond}
use iot_ops_agent.TelegramBot.Webhook.{World, settled, process_telegram_update}
use iot_ops_agent.TelegramBot.Deliveries.{returned-Held, refused-duplicate, claim-key}

-- Updates that are processed one after the other.
abbrev pub process_all : Services → List (Times × Update) → World → World
process_all e [] w = w
process_all e ((t, update) ∷ rest) w = process_all e rest (process_telegram_update e t update w).1

module _ (e : Services) (key : String) (now : ℕ) where
  abbrev Keeps : ℕ → World → Type 0
  Keeps n w = Held e.retention now key n w.updates.processed

  settled-Held :
      (n : ℕ) (t : Times) (k : Option String) (u : Updates) (r : Result String Outcome × Bot)
      → k ≢ some key
      → n + 1 < max_processed
      → Held e.retention now key n u.processed
      → Keeps (n + 1) (settled t k u r).1
  settled-Held n t k u (ok outcome, bot) other few h =
      complete-Held e.retention now key n t.completed k u other few h
  settled-Held n t none u (err raised, bot) other few h =
      unfold release_telegram_update in Held-suc e.retention now key n u.processed h
  settled-Held n t (some k) u (err raised, bot) other few h =
      unfold release_telegram_update in Held-suc e.retention now key n u.processed h

  -- A claim that is granted is not of a key that is held.
  granted-other :
      (n : ℕ) (t : Times) (k : Option String) (u : Updates)
      → t.claimed ≤ now
      → Held e.retention now key n u.processed
      → (claim_telegram_update e.retention t.claimed k u).0.1 ≡ true
      → (claim_telegram_update e.retention t.claimed k u).0.0 ≢ some key
  granted-other n t none u early h granted = unfold claim_telegram_update in λ same. cc same
  granted-other n t (some k) u early h granted = λ same.
      let eq : some k ≡ some key = rw (claim-key e.retention t.claimed k u) at same in
      let equal : k ≡ key = cc eq in
      let refused = claim-refused e.retention now key n t.claimed u early h in
      cc (refused, (rw equal at granted))

  process-Keeps :
      (n : ℕ) (t : Times) (update : Update) (w : World)
      → t.claimed ≤ now
      → n + 1 < max_processed
      → Keeps n w
      → Keeps (n + 1) (process_telegram_update e t update w).1
  unfolding process_telegram_update
  process-Keeps n t update w early few h = elim (Option-cases (extract_message update)) [
    | inl none_ ↦ rw none_ (Held-suc e.retention now key n w.updates.processed h)
    | inr (message, found) ↦
        let claim = claim_telegram_update e.retention t.claimed update.update_id w.updates in
        let kept = claim-Held e.retention now key n t.claimed update.update_id w.updates early h in
        rw found (elim (Bool-cases claim.0.1) [
          | inl granted ↦ rw granted (
              settled-Held n t claim.0.0 claim.1 (respond e t message w.bot)
                (granted-other n t update.update_id w.updates early h granted) few kept)
          | inr refused ↦ rw refused (Held-suc e.retention now key n claim.1.processed kept)
        ])
  ]

  process_all-Keeps :
      (n : ℕ) (ds : List (Times × Update)) (w : World)
      → All (λ d. d.0.claimed ≤ now) ds
      → n + length ds < max_processed
      → Keeps n w
      → Keeps (n + length ds) (process_all e ds w)
  process_all-Keeps n [] w early few h = let same : n + 0 ≡ n = omega arith in rw same h
  process_all-Keeps n ((t, update) ∷ ds) w (first, early) few h =
      let here = process-Keeps n t update w first (omega (arith, few)) h in
      let same : n + 1 + length ds ≡ n + length ((t, update) ∷ ds) = omega arith in
      let rest =
        process_all-Keeps (n + 1) ds (process_telegram_update e t update w).1 early
          (omega (arith, few)) here in
      rw same at rest

-- Once an update that has an id was processed, with any result but "ignored" or "duplicate", a second
-- delivery of it is answered as a duplicate, and nothing is posted, run, emitted or written for it:
-- if it comes while the first is retained, and after at most 2047 deliveries of any updates, none of
-- which is claimed later than it.
pub process_twice :
    (e : Services) (t t' : Times) (update : Update) (key : String) (w : World) (outcome : Outcome)
    (between : List (Times × Update))
    → update.update_id ≡ some key
    → (process_telegram_update e t update w).0 ≡ ok outcome
    → outcome ≢ ignored
    → outcome ≢ duplicate
    → t'.claimed ≤ t.completed + e.retention
    → length between < 2048
    → All (λ d. d.0.claimed ≤ t'.claimed) between
    → let w' = process_all e between (process_telegram_update e t update w).1 in
      let again = process_telegram_update e t' update w' in
      (again.0 ≡ ok duplicate) × (again.1.bot ≡ w'.bot)
process_twice e t t' update key w outcome between has_id h ni nd within few early =
    let w₁ = (process_telegram_update e t update w).1 in
    let w' = process_all e between w₁ in
    let ((message, found), held) =
      returned-Held e t update key w has_id outcome t'.claimed h ni nd within in
    let kept = process_all-Keeps e key t'.claimed 0 between w₁ early (omega (arith, few)) held in
    let refused =
      claim-refused e.retention t'.claimed key (0 + length between) t'.claimed w'.updates
        (omega arith) kept in
    refused-duplicate e t' update key message w' has_id found refused

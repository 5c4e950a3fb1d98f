-- ===== src/TelegramUpdates.antt =====
-- The claims of webhook updates in services/telegram_service.py. Each function holds the lock, so a
-- call is one step; `now` is `time.monotonic()`. The OrderedDict is a list, oldest first.
pub mod Claims
pub mod Retention
use iot_ops_agent.Prelude.{
  ℕ, ◌+◌, String, Bool, true, false, ◌||◌, Option, none, some, List, [], ◌∷◌, discard, any, length,
  ltb, leb, ◌==◌, string_eq, if◌then◌else◌,
}

pub record Updates : Type 0 where
  pub inflight : List String
  pub processed : List (String × ℕ)

abbrev pub max_processed : ℕ
max_processed = 2048

-- Entries older than `now - retention` go, from the front.
unfoldable pub expire : (retention now : ℕ) → List (String × ℕ) → List (String × ℕ)
expire retention now [] = []
expire retention now ((k, t) ∷ rest) =
    let later = expire retention now rest in
    if ltb (t + retention) now then later else (k, t) ∷ rest

abbrev pub has_key : String → String × ℕ → Bool
has_key k e = e.0 == k

abbrev pub same : String → String → Bool
same k j = j == k

-- `update_id` is `none` where the update carries none; the flag says whether to process it.
unfoldable pub claim_telegram_update :
    (retention now : ℕ) → (update_id : Option String) → Updates → (Option String × Bool) × Updates
claim_telegram_update retention now none u = ((none, true), u)
claim_telegram_update retention now (some key) u =
    let processed = expire retention now u.processed in
    if any (same key) u.inflight || any (has_key key) processed
    then ((some key, false), record u { processed = processed })
    else ((some key, true), record { inflight = key ∷ u.inflight; processed = processed })

-- `processed[key] = now`: a key that is there keeps its place.
unfoldable pub put : String → ℕ → List (String × ℕ) → List (String × ℕ)
put key now [] = (key, now) ∷ []
put key now ((k, t) ∷ rest) = if k == key then (key, now) ∷ rest else (k, t) ∷ put key now rest

-- `while len(processed) > 2048: processed.popitem(last=False)`
unfoldable pub evict : List (String × ℕ) → List (String × ℕ)
evict [] = []
evict (e ∷ rest) =
    let later = evict rest in if ltb max_processed (length (e ∷ rest)) then later else e ∷ rest

unfoldable pub complete_telegram_update : (now : ℕ) → Option String → Updates → Updates
complete_telegram_update now none u = u
complete_telegram_update now (some key) u = record {
  inflight = discard (same key) u.inflight;
  processed = evict (put key now u.processed);
}

unfoldable pub release_telegram_update : Option String → Updates → Updates
release_telegram_update none u = u
release_telegram_update (some key) u = record u { inflight = discard (same key) u.inflight }

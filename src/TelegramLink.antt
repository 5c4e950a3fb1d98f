-- ===== src/TelegramLink.antt =====
-- services/telegram_link_service.py, and `resolve_telegram_identity` of services/telegram_service.py.
-- Times count microseconds. What Python's Unicode tables, hashlib and datetime give are parameters.
pub mod Identities
pub mod Codes
pub mod Actions
pub mod Reuse
pub mod Ownership
pub mod Revocation
pub mod Effects
use Prim.Native.Char.{Char}
use Prim.Native.String
use iot_ops_agent.Prelude.{
  ℕ, ◌+◌, ◌*◌, String, Bool, true, false, not, Option, none, some, List, [], ◌∷◌, leb, any, ◌==◌,
  nat_eq, string_eq, if◌then◌else◌,
}
use iot_ops_agent.Prelude.Int.{ℤ}
use iot_ops_agent.Prelude.Text.{is_empty, strip, split}
use iot_ops_agent.Prelude.Result.{Result, ok, err}
use iot_ops_agent.RateLimiter.{positive_int_env}
use iot_ops_agent.DataSources.{listed, contains, text_or, deserialize_data_sources}
use iot_ops_agent.Database.{TelegramIdentity, LinkCode, Db}
use iot_ops_agent.Database.Users.{
  DbError, or_simulator, get_user_data_source_policy, update_user_data_source_policy,
}
use iot_ops_agent.Database.Links.{
  upsert_telegram_identity, get_telegram_identity, deactivate_telegram_identity,
  create_telegram_link_code, get_telegram_link_code, mark_telegram_link_code_used,
}

pub record Platform : Type 0 where
  pub upper : String → String
  pub is_alnum : Char → Bool
  pub sha256_hex : String → String
  -- `parse_iso_datetime` and `isoformat`, for times in UTC
  pub instant : String → ℕ
  pub isoformat : ℕ → String

abbrev keep_chars : (Char → Bool) → String → String
keep_chars p String.[] = String.[]
keep_chars p (String.◌∷◌ c s) = if p c then String.◌∷◌ c (keep_chars p s) else keep_chars p s

abbrev pub Reply : Type 0
Reply = Bool × String

abbrev pub default_role : Option TelegramIdentity → String
default_role none = "viewer"
default_role (some identity) = text_or identity.role "viewer"

abbrev pub belongs_elsewhere : ℕ → Option TelegramIdentity → Bool
belongs_elsewhere user_id none = false
belongs_elsewhere user_id (some identity) = not (identity.user_id == user_id)

module _ (p : Platform) where
  unfoldable pub normalize_link_code : String → String
  normalize_link_code code = keep_chars p.is_alnum (p.upper code)

  unfoldable pub hash_link_code : String → String
  hash_link_code code = p.sha256_hex (normalize_link_code code)

  unfoldable pub get_link_code_ttl_minutes : Option ℤ → ℕ
  unfolding positive_int_env
  get_link_code_ttl_minutes parsed = positive_int_env parsed 15

  -- `code` is what `generate_link_code` drew; `ttl` the parsed TELEGRAM_LINK_CODE_TTL_MINUTES.
  unfoldable pub create_link_code_for_user :
      (code : String) → (ttl : Option ℤ) → (now : ℕ) → ℕ → Db → Result DbError Db
  create_link_code_for_user code ttl now user_id db =
      let expires_at = now + get_link_code_ttl_minutes ttl * 60000000 in
      create_telegram_link_code (p.isoformat now) (hash_link_code code) user_id
        (p.isoformat expires_at) db

  -- After the code was marked as used.
  unfoldable pub link_account :
      (now : ℕ)
      → (telegram_user_id : String) → (telegram_username : Option String) → LinkCode
      → Db
      → Reply × Db
  link_account now telegram_user_id telegram_username link_code db =
      let existing = get_telegram_identity telegram_user_id db in
      let allowed = or_simulator (get_user_data_source_policy link_code.user_id db).0 in
      let default : String = if contains "company" allowed then "company" else "simulator" in
      let db₁ =
        upsert_telegram_identity (p.isoformat now) telegram_user_id link_code.user_id
          telegram_username (default_role existing) (listed allowed) true db in
      let db₂ = (update_user_data_source_policy link_code.user_id (listed allowed) default db₁).1 in
      if belongs_elsewhere link_code.user_id existing
      then ((false, "telegram_already_linked"), db)
      else ((true, "linked"), db₂)

  unfoldable pub redeem :
      (now : ℕ)
      → (telegram_user_id : String) → (telegram_username : Option String) → Option LinkCode
      → Db
      → Reply × Db
  redeem now telegram_user_id telegram_username none db = ((false, "invalid_code"), db)
  redeem now telegram_user_id telegram_username (some link_code) db =
      let marked = mark_telegram_link_code_used (p.isoformat now) link_code.code_hash db in
      let linked = link_account now telegram_user_id telegram_username link_code marked.1 in
      elim link_code.used_at [
        | some _ ↦ ((false, "code_already_used"), db)
        | none ↦
            (if leb (p.instant link_code.expires_at) now
              then ((false, "code_expired"), db)
              else if marked.0
              then linked
              else ((false, "code_already_used"), marked.1))
      ]

  unfoldable pub consume_link_code :
      (now : ℕ)
      → (code telegram_user_id : String) → (telegram_username : Option String) → Db
      → Reply × Db
  consume_link_code now code telegram_user_id telegram_username db =
      let normalized = normalize_link_code code in
      let found = get_telegram_link_code (hash_link_code normalized) db in
      if is_empty normalized
      then ((false, "invalid_code"), db)
      else redeem now telegram_user_id telegram_username found db

  abbrev unlinked : (now telegram_user_id : String) → Option TelegramIdentity → Db → Reply × Db
  unlinked now telegram_user_id none db = ((false, "telegram_identity_not_mapped"), db)
  unlinked now telegram_user_id (some identity) db =
      let (done, db') = deactivate_telegram_identity now telegram_user_id db in
      if identity.is_active
      then (if done
          then ((true, "unlinked"), db')
          else ((false, "telegram_identity_not_mapped"), db'))
      else ((false, "telegram_identity_inactive"), db)

  unfoldable pub unlink_telegram_identity : (now : ℕ) → Option String → Db → Reply × Db
  unlink_telegram_identity now none db = ((false, "missing_telegram_user_id"), db)
  unlink_telegram_identity now (some telegram_user_id) db =
      unlinked (p.isoformat now) telegram_user_id (get_telegram_identity telegram_user_id db) db

-- `get_allowed_telegram_user_ids`: `raw` is TELEGRAM_ALLOWED_USER_IDS, "" where it is not set.
unfoldable pub telegram_user_is_allowed : (raw telegram_user_id : String) → Bool
unfolding deserialize_data_sources
telegram_user_is_allowed raw telegram_user_id =
    let allowed = deserialize_data_sources (strip raw) in
    elim allowed [ [] ↦ true | x ∷ xs ↦ any (λ a. a == telegram_user_id) (x ∷ xs) ]

abbrev active_identity : Option TelegramIdentity → Result String TelegramIdentity
active_identity none = err "telegram_identity_not_mapped"
active_identity (some identity) =
    if identity.is_active then ok identity else err "telegram_identity_inactive"

unfoldable pub resolve_telegram_identity :
    (raw : String) → Option String → Db → Result String TelegramIdentity
resolve_telegram_identity raw none db = err "missing_telegram_user_id"
resolve_telegram_identity raw (some telegram_user_id) db =
    if telegram_user_is_allowed raw telegram_user_id
    then active_identity (get_telegram_identity telegram_user_id db)
    else err "telegram_user_not_allowlisted"

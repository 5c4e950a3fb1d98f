-- ===== src/TelegramLink/Codes.antt =====
-- What redeeming a link code requires, what it does, and that it does so once.
use iot_ops_agent.Prelude.{
  ℕ, ◌<◌, String, ◌≡◌, refl, ◌∙◌, inl, inr, Bool, true, false, Option, none, some, arith, string_eq,
  nat_eq, Option-cases,
}
use iot_ops_agent.DataSources.{listed, text_or}
use iot_ops_agent.Database.{TelegramIdentity, LinkCode, Db}
use iot_ops_agent.Database.Users.{
  or_simulator, get_user_data_source_policy, update_user_data_source_policy,
}
use iot_ops_agent.Database.Links.{
  get_telegram_identity, get_telegram_link_code, mark_telegram_link_code_used,
}
use iot_ops_agent.TelegramLink.{
  Platform, normalize_link_code, hash_link_code, link_account, redeem, consume_link_code,
  belongs_elsewhere, default_role,
}
use iot_ops_agent.TelegramLink.Identities.{get-upsert_self}

text_or_default : (o : Option TelegramIdentity) → text_or (default_role o) "viewer" ≡ default_role o
text_or_default none = refl
text_or_default (some i) = ground arith

module _ (p : Platform) where
  -- The code under which `code` is looked up.
  abbrev pub code_of : String → Db → Option LinkCode
  code_of code db = get_telegram_link_code (hash_link_code p (normalize_link_code p code)) db

  abbrev pub after_mark : ℕ → LinkCode → Db → Bool × Db
  after_mark now c db = mark_telegram_link_code_used (p.isoformat now) c.code_hash db

  pub redeem-linked :
      (now : ℕ) (t : String) (name : Option String) (c : LinkCode) (db : Db)
      → (redeem p now t name (some c) db).0 ≡ (true, "linked")
      → (c.used_at ≡ none)
        × (now < p.instant c.expires_at)
        × ((redeem p now t name (some c) db).1
            ≡ (link_account p now t name c (after_mark now c db).1).1)
        × (belongs_elsewhere c.user_id (get_telegram_identity t (after_mark now c db).1) ≡ false)
  unfolding redeem link_account
  redeem-linked now t name c db h = (ground arith, ground arith, ground arith, ground arith)

  pub consume-linked :
      (now : ℕ) (code t : String) (name : Option String) (db : Db)
      → (consume_link_code p now code t name db).0 ≡ (true, "linked")
      → (c : LinkCode) × (code_of code db ≡ some c)
        × (consume_link_code p now code t name db ≡ redeem p now t name (some c) db)
  unfolding consume_link_code
  consume-linked now code t name db h = elim (Option-cases (code_of code db)) [
    | inl e ↦ absurd (unfold redeem in ground arith)
    | inr (c, e) ↦ (c, e, ground arith)
  ]

  pub identity-after_mark :
      (now : ℕ) (t : String) (c : LinkCode) (db : Db)
      → get_telegram_identity t (after_mark now c db).1 ≡ get_telegram_identity t db
  unfolding get_telegram_identity mark_telegram_link_code_used
  identity-after_mark now t c db = refl

  -- What `link_account` writes, where it is not refused.
  pub identity-link_account :
      (now : ℕ) (t : String) (name : Option String) (c : LinkCode) (db : Db)
      → belongs_elsewhere c.user_id (get_telegram_identity t db) ≡ false
      → (i : TelegramIdentity) × (get_telegram_identity t (link_account p now t name c db).1
          ≡ some i)
        × (i.user_id ≡ c.user_id)
        × (i.is_active ≡ true)
        × (i.role ≡ default_role (get_telegram_identity t db))
  unfolding link_account
  identity-link_account now t name c db h =
      let (i, e, w) =
        get-upsert_self (p.isoformat now) t c.user_id name
          (default_role (get_telegram_identity t db))
          (listed (or_simulator (get_user_data_source_policy c.user_id db).0)) true db in
      (
        i,
        rw h (unfold update_user_data_source_policy get_telegram_identity in e),
        w.user,
        w.active_flag,
        w.role_of ∙ text_or_default (get_telegram_identity t db),
      )

  -- The identity that a successful redemption leaves.
  pub record IsLinked (now : ℕ) (code t : String) (before after : Db) : Type 0 where
    pub link_code : LinkCode
    pub found : code_of code before ≡ some link_code
    pub unused : link_code.used_at ≡ none
    pub in_time : now < p.instant link_code.expires_at
    pub identity : TelegramIdentity
    pub written : get_telegram_identity t after ≡ some identity
    pub user : identity.user_id ≡ link_code.user_id
    pub active : identity.is_active ≡ true
    pub role : identity.role ≡ default_role (get_telegram_identity t before)

  -- A redemption that answers "linked" was of a stored code, unused and not expired, and leaves an
  -- active identity that belongs to the user who made the code, with the role the identity had, or
  -- "viewer" if there was none.
  pub consume_link_code-IsLinked :
      (now : ℕ) (code t : String) (name : Option String) (db : Db)
      → (consume_link_code p now code t name db).0 ≡ (true, "linked")
      → IsLinked now code t db (consume_link_code p now code t name db).1
  consume_link_code-IsLinked now code t name db h =
      let (c, found, same) = consume-linked now code t name db h in
      let (unused, in_time, result, mine) = redeem-linked now t name c db (rw same at h) in
      let (i, written, user, active, role) =
        identity-link_account now t name c (after_mark now c db).1 mine in
      record {
        link_code = c;
        found = found;
        unused = unused;
        in_time = in_time;
        identity = i;
        written = rw (same, result) written;
        user = user;
        active = active;
        role = rw (← identity-after_mark now t c db) role;
      }

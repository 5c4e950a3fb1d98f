-- ===== src/TelegramLink/Identities.antt =====
-- Reading an identity after it was written.
use iot_ops_agent.Prelude.{
  ℕ, ◌+◌, Bool-cases, String, ◌≡◌, ◌≢◌, refl, inl, inr, Bool, true, false, Option, some, arith,
  eq_iff, any, find, any_of_find, any_of_find_none, find-passes, find-update_self,
  find-update_other, find-append_none, find-append_skip, ◌==◌, string_eq, Option-cases,
}
use iot_ops_agent.DataSources.{Sources, text_or}
use iot_ops_agent.Database.{TelegramIdentity, Db}
use iot_ops_agent.Database.Links.{
  has_telegram_id, overwritten, identity_row, upsert_telegram_identity, get_telegram_identity,
  deactivate_telegram_identity,
}

has_refl : (t : String) → (t == t) ≡ true
has_refl t = (eq_iff t t).1 refl

module _ (now t : String) (user_id : ℕ) (username : Option String) (role : String)
    (sources : Sources) (active : Bool) (db : Db) where
  abbrev row : TelegramIdentity
  row = identity_row now t user_id username role sources active 0

  pub get-upsert_other :
      (t' : String)
      → t ≢ t'
      → get_telegram_identity t'
          (upsert_telegram_identity now t user_id username role sources active db)
        ≡ get_telegram_identity t' db
  unfolding get_telegram_identity upsert_telegram_identity
  get-upsert_other t' ne = elim (Bool-cases (any (has_telegram_id t) db.telegram_identities.rows)) [
    | inl e ↦ rw e (
        find-update_other (has_telegram_id t) (has_telegram_id t') (overwritten row)
          (λ i h. ground (arith, eq_iff i.telegram_user_id t, eq_iff i.telegram_user_id t'))
          (λ i h. ground (arith, eq_iff t t')) db.telegram_identities.rows)
    | inr e ↦ rw e (
        find-append_skip (has_telegram_id t') db.telegram_identities.rows _
          (ground (arith, eq_iff t t')))
  ]

  pub record IsWritten (i : TelegramIdentity) : Type 0 where
    pub user : i.user_id ≡ user_id
    pub active_flag : i.is_active ≡ active
    pub role_of : i.role ≡ text_or role "viewer"

  pub get-upsert_self :
      (i : TelegramIdentity) × (get_telegram_identity t
          (upsert_telegram_identity now t user_id username role sources active db)
        ≡ some i)
      × IsWritten i
  unfolding get_telegram_identity upsert_telegram_identity
  get-upsert_self = elim (Option-cases (find (has_telegram_id t) db.telegram_identities.rows)) [
    | inr (old, e) ↦ rw (any_of_find (has_telegram_id t) db.telegram_identities.rows old e) (
      overwritten row old,
      find-update_self (has_telegram_id t) (overwritten row) (λ i h. has_refl t)
          db.telegram_identities.rows old e,
      record { user = refl; active_flag = refl; role_of = refl },
    )
    | inl e ↦ rw (any_of_find_none (has_telegram_id t) db.telegram_identities.rows e) (
      identity_row now t user_id username role sources active (db.telegram_identities.seq + 1),
      rw (find-append_none (has_telegram_id t) db.telegram_identities.rows _ e, has_refl t),
      record { user = refl; active_flag = refl; role_of = refl },
    )
  ]

-- Deactivating leaves the identity in place, with its flag down.
pub get-deactivate_self :
    (now t : String) (db : Db) (i : TelegramIdentity)
    → get_telegram_identity t db ≡ some i
    → (j : TelegramIdentity) × (get_telegram_identity t (deactivate_telegram_identity now t db).1
        ≡ some j)
      × (j.is_active ≡ false)
unfolding get_telegram_identity deactivate_telegram_identity
get-deactivate_self now t db i e = (
  record i { is_active = false; updated_at = now },
  find-update_self (has_telegram_id t) _ (λ x h. h) db.telegram_identities.rows i e,
  refl,
)

pub get-telegram_user_id :
    (t : String) (db : Db) (i : TelegramIdentity)
    → get_telegram_identity t db ≡ some i
    → i.telegram_user_id ≡ t
unfolding get_telegram_identity
get-telegram_user_id t db i e =
    (eq_iff i.telegram_user_id t).0
      (find-passes (has_telegram_id t) db.telegram_identities.rows i e)

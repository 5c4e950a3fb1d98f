-- ===== src/TelegramLink/Revocation.antt =====
-- Who may act through Telegram, and who not after an identity was unlinked.
use iot_ops_agent.Prelude.{
  ℕ, String, ◌≡◌, ◌↔◌, ◌⊎◌, refl, inl, inr, true, some, List, [], ◌∷◌, arith, any, ◌==◌, string_eq,
  eq_iff, Bool-cases, Option-cases,
}
use iot_ops_agent.Prelude.Membership.{Has, IsFirst, any_iff, find_iff}
use iot_ops_agent.Prelude.Text.{strip}
use iot_ops_agent.Prelude.Result.{ok, err}
use iot_ops_agent.DataSources.{deserialize_data_sources}
use iot_ops_agent.Database.{TelegramIdentity, Db}
use iot_ops_agent.Database.Links.{get_telegram_identity, has_telegram_id}
use iot_ops_agent.TelegramLink.{
  Platform, unlink_telegram_identity, telegram_user_is_allowed, resolve_telegram_identity,
}
use iot_ops_agent.TelegramLink.Identities.{get-deactivate_self}

-- TELEGRAM_ALLOWED_USER_IDS lists nobody, or the Telegram user.
abbrev Listed : (raw telegram_user_id : String) → Type 0
Listed raw t =
    (deserialize_data_sources (strip raw) ≡ [])
    ⊎ Has (λ a. a ≡ t) (deserialize_data_sources (strip raw))

listed_iff :
    (t : String) (allowed : List String)
    → ((elim allowed [ [] ↦ true | x ∷ xs ↦ any (λ a. a == t) (x ∷ xs) ]) ≡ true)
      ↔ ((allowed ≡ []) ⊎ Has (λ a. a ≡ t) allowed)
listed_iff t [] = (λ h. inl refl, λ h. refl)
listed_iff t (x ∷ xs) =
    let (to, from) = any_iff (λ a. a == t) (λ a. a ≡ t) (λ a. eq_iff a t) (x ∷ xs) in
    (λ h. inr (to h), λ h. elim h [ inl e ↦ absurd (cc e) | inr has ↦ from has ])

telegram_user_is_allowed_iff :
    (raw t : String) → (telegram_user_is_allowed raw t ≡ true) ↔ Listed raw t
unfolding telegram_user_is_allowed
telegram_user_is_allowed_iff raw t = listed_iff t (deserialize_data_sources (strip raw))

get_telegram_identity_iff :
    (t : String) (db : Db) (i : TelegramIdentity)
    → (get_telegram_identity t db ≡ some i)
      ↔ IsFirst (λ (j : TelegramIdentity). j.telegram_user_id ≡ t) db.telegram_identities.rows i
unfolding get_telegram_identity
get_telegram_identity_iff t db i =
    find_iff (has_telegram_id t) (λ (j : TelegramIdentity). j.telegram_user_id ≡ t)
      (λ j. eq_iff j.telegram_user_id t) db.telegram_identities.rows i

resolve-parts :
    (raw t : String) (db : Db) (i : TelegramIdentity)
    → (resolve_telegram_identity raw (some t) db ≡ ok i) ↔ (
        (telegram_user_is_allowed raw t ≡ true)
        × (get_telegram_identity t db ≡ some i)
        × (i.is_active ≡ true))
unfolding resolve_telegram_identity
resolve-parts raw t db i = ground arith

-- A Telegram user is resolved to an identity exactly if the allow list is empty or has an entry that
-- is the user's Telegram id, the identity is the first row of the table that has this id, and it is
-- active.
pub resolve_telegram_identity_iff :
    (raw t : String) (db : Db) (i : TelegramIdentity)
    → (resolve_telegram_identity raw (some t) db ≡ ok i) ↔ (
        ((deserialize_data_sources (strip raw) ≡ [])
          ⊎ Has (λ a. a ≡ t) (deserialize_data_sources (strip raw)))
        × IsFirst (λ (j : TelegramIdentity). j.telegram_user_id ≡ t) db.telegram_identities.rows i
        × (i.is_active ≡ true))
resolve_telegram_identity_iff raw t db i =
    let (parts, whole) = resolve-parts raw t db i in
    let (listed_, allowed) = telegram_user_is_allowed_iff raw t in
    let (row, found) = get_telegram_identity_iff t db i in
    (
      λ h. (listed_ (parts h).0, row (parts h).1, (parts h).2),
      λ (l, r, a). whole (allowed l, found r, a),
    )

-- After `unlink_telegram_identity` answers "unlinked", the Telegram user is not resolved, whatever
-- the allow list is.
resolve-unlink :
    (p : Platform) (now : ℕ) (raw t : String) (db : Db)
    → (unlink_telegram_identity p now (some t) db).0 ≡ (true, "unlinked")
    → (e : String) × (resolve_telegram_identity raw
          (some t)
          (unlink_telegram_identity p now (some t) db).1
        ≡ err e)
unfolding unlink_telegram_identity resolve_telegram_identity
resolve-unlink p now raw t db h = elim (Option-cases (get_telegram_identity t db)) [
  | inl e ↦ absurd (ground arith)
  | inr (i, e) ↦
      let (j, after, down) = get-deactivate_self (p.isoformat now) t db i e in
      elim (Bool-cases (telegram_user_is_allowed raw t)) [
        | inl a ↦ ("telegram_identity_inactive", ground (arith, after, down))
        | inr a ↦ ("telegram_user_not_allowlisted", ground (arith, a))
      ]
]

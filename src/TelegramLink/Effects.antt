-- ===== src/TelegramLink/Effects.antt =====
-- Linking and unlinking leave chats and messages alone.
use iot_ops_agent.Prelude.{
  ℕ, String, ◌≡◌, refl, inl, inr, Bool, true, Option, none, some, nat_eq, any, leb, Bool-cases,
  Option-cases,
}
use iot_ops_agent.Prelude.Text.{is_empty}
use iot_ops_agent.Database.{LinkCode, Db}
use iot_ops_agent.Database.Users.{
  update_user_data_source_policy, or_simulator, get_user_data_source_policy,
}
use iot_ops_agent.DataSources.{Sources, listed}
use iot_ops_agent.Database.Links.{
  get_telegram_identity, has_telegram_id, upsert_telegram_identity, deactivate_telegram_identity,
  mark_telegram_link_code_used,
}
use iot_ops_agent.TelegramLink.{
  Platform, default_role, belongs_elsewhere, normalize_link_code, link_account, redeem,
  consume_link_code, unlink_telegram_identity,
}

-- Chats and messages are the same.
pub record SameChats (before after : Db) : Type 0 where
  pub chats : after.chats ≡ before.chats
  pub messages : after.messages ≡ before.messages

pub same_chats : (db : Db) → SameChats db db
same_chats db = record { chats = refl; messages = refl }

upsert-SameChats :
    (now t : String) (user_id : ℕ) (name : Option String) (role : String) (sources : Sources)
    (active : Bool) (db : Db)
    → SameChats db (upsert_telegram_identity now t user_id name role sources active db)
unfolding upsert_telegram_identity
upsert-SameChats now t user_id name role sources active db =
    elim (Bool-cases (any (has_telegram_id t) db.telegram_identities.rows)) [
      | inl e ↦ rw e (record { chats = refl; messages = refl })
      | inr e ↦ rw e (record { chats = refl; messages = refl })
    ]

module _ (p : Platform) (now : ℕ) where
  link_account-SameChats :
      (t : String) (name : Option String) (c : LinkCode) (db : Db)
      → SameChats db (link_account p now t name c db).1
  unfolding link_account update_user_data_source_policy
  link_account-SameChats t name c db =
      elim (Bool-cases (belongs_elsewhere c.user_id (get_telegram_identity t db))) [
        | inl elsewhere ↦ rw elsewhere (same_chats db)
        | inr mine ↦
            let written =
              upsert-SameChats (p.isoformat now) t c.user_id name
                (default_role (get_telegram_identity t db))
                (listed (or_simulator (get_user_data_source_policy c.user_id db).0)) true db in
            rw mine (record { chats = written.chats; messages = written.messages })
      ]

  redeem-SameChats :
      (t : String) (name : Option String) (c : Option LinkCode) (db : Db)
      → SameChats db (redeem p now t name c db).1
  unfolding redeem mark_telegram_link_code_used
  redeem-SameChats t name none db = same_chats db
  redeem-SameChats t name (some c) db =
      let marked = mark_telegram_link_code_used (p.isoformat now) c.code_hash db in
      let linked = link_account-SameChats t name c marked.1 in
      elim (Option-cases c.used_at) [
        | inr (at, used) ↦ rw used (same_chats db)
        | inl unused ↦ simp unused (elim (Bool-cases (leb (p.instant c.expires_at) now)) [
          | inl late ↦ rw late (same_chats db)
          | inr in_time ↦ rw in_time (elim (Bool-cases marked.0) [
            | inl first ↦ rw first (record { chats = linked.chats; messages = linked.messages })
            | inr second ↦ rw second (record { chats = refl; messages = refl })
          ])
        ])
      ]

  pub consume-SameChats :
      (code t : String) (name : Option String) (db : Db)
      → SameChats db (consume_link_code p now code t name db).1
  unfolding consume_link_code
  consume-SameChats code t name db = elim (Bool-cases (is_empty (normalize_link_code p code))) [
    | inl e ↦ rw e (same_chats db)
    | inr e ↦ rw e (redeem-SameChats t name _ db)
  ]

  pub unlink-SameChats :
      (t : Option String) (db : Db) → SameChats db (unlink_telegram_identity p now t db).1
  unfolding unlink_telegram_identity deactivate_telegram_identity
  unlink-SameChats none db = same_chats db
  unlink-SameChats (some t) db = elim (Option-cases (get_telegram_identity t db)) [
    | inl unknown ↦ rw unknown (same_chats db)
    | inr (i, e) ↦ rw e (elim (Bool-cases i.is_active) [
      | inr inactive ↦ rw inactive (same_chats db)
      | inl active ↦
          rw active (elim (Bool-cases (any (has_telegram_id t) db.telegram_identities.rows)) [
            | inl found ↦ rw found (record { chats = refl; messages = refl })
            | inr lost ↦ rw lost (record { chats = refl; messages = refl })
          ])
    ])
  ]

-- ===== src/TelegramLink/Ownership.antt =====
-- Nothing that is done with codes and identities moves an identity to another user.
use iot_ops_agent.Prelude.{String, ◌≡◌, some, string_eq, nat_eq}
use iot_ops_agent.Database.{TelegramIdentity, Db}
use iot_ops_agent.Database.Links.{get_telegram_identity}
use iot_ops_agent.TelegramLink.{Platform}

module _ (p : Platform) where
  -- In `db` the Telegram user is still linked to the user of `i`.
  abbrev StaysWith : String → TelegramIdentity → Db → Type 0
  StaysWith t i db =
      (j : TelegramIdentity) × (get_telegram_identity t db ≡ some j) × (j.user_id ≡ i.user_id)

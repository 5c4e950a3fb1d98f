-- ===== src/Tests/Telegram.antt =====
-- A link code of user 1, redeemed by a Telegram user.
use iot_ops_agent.Prelude.{
  ◌≡◌, ◌↔◌, refl, true, false, none, some, List, [], ◌∷◌, arith, All, eq_iff, ◌⊎◌,
}
use iot_ops_agent.Prelude.Membership.{Has, IsFirst}
use iot_ops_agent.Prelude.Text.{strip}
use iot_ops_agent.DataSources.{deserialize_data_sources}
use iot_ops_agent.Prelude.Result.{ok}
use iot_ops_agent.Database.{TelegramIdentity, LinkCode, Db, init_db}
use iot_ops_agent.Database.Users.{delete_user_account}
use iot_ops_agent.Database.Links.{
  get_telegram_identity, deactivate_telegram_identity, get_telegram_link_code,
  mark_telegram_link_code_used,
}
use iot_ops_agent.TelegramLink.{
  Platform, normalize_link_code, hash_link_code, link_account, redeem, consume_link_code,
  unlink_telegram_identity, telegram_user_is_allowed, resolve_telegram_identity,
}
use iot_ops_agent.TelegramLink.Codes.{IsLinked, consume_link_code-IsLinked}
use iot_ops_agent.TelegramLink.Actions.{LinkAction, consume, create, unlink, delete, act_all}
use iot_ops_agent.TelegramLink.Reuse.{consume_link_code_once}
use iot_ops_agent.TelegramLink.Revocation.{resolve_telegram_identity_iff}
use iot_ops_agent.TelegramUpdates.{Updates, expire, claim_telegram_update}
use iot_ops_agent.TelegramUpdates.Claims.{
  Action, claim, complete, perform_all, Spares, claim_exclusive,
}

abbrev plain_platform : Platform
plain_platform = record {
  upper = λ s. s;
  is_alnum = λ _. true;
  sha256_hex = λ s. s;
  instant = λ _. 100;
  isoformat = λ _. "now";
}

abbrev code : LinkCode
code = record {
  id = 1;
  code_hash = "AB12";
  user_id = 1;
  expires_at = "later";
  used_at = none;
  created_at = "before";
}

abbrev identity : TelegramIdentity
identity = record {
  id = 1;
  telegram_user_id = "77";
  user_id = 1;
  telegram_username = none;
  role = "admin";
  allowed_data_sources = "simulator";
  is_active = true;
  created_at = "before";
  updated_at = "before";
}

-- The code is stored, and Telegram user 77 is linked.
abbrev offered : Db
offered = record init_db {
  telegram_link_codes = record { rows = code ∷ []; seq = 1 };
  telegram_identities = record { rows = identity ∷ []; seq = 1 };
}

linked : (consume_link_code plain_platform 5 "AB12" "88" none offered).0 ≡ (true, "linked")
unfolding consume_link_code redeem link_account normalize_link_code hash_link_code
    get_telegram_link_code mark_telegram_link_code_used get_telegram_identity
linked = refl

taken : (consume_link_code plain_platform 200 "AB12" "88" none offered).0 ≡ (false, "code_expired")
unfolding consume_link_code redeem normalize_link_code hash_link_code get_telegram_link_code
taken = refl

consume_link_code-IsLinked_example :
    IsLinked plain_platform 5 "AB12" "88" offered
      (consume_link_code plain_platform 5 "AB12" "88" none offered).1
consume_link_code-IsLinked_example =
    consume_link_code-IsLinked plain_platform 5 "AB12" "88" none offered linked

abbrev meanwhile : List LinkAction
meanwhile =
    unlink 6 (some "88") ∷ create "CD34" none 6 1 ∷ delete 1 ∷ consume 7 "CD34" "99" none ∷ []

consume_link_code_once_example :
    (consume_link_code plain_platform 8 "AB12" "99" none (
      act_all plain_platform meanwhile
        (consume_link_code plain_platform 5 "AB12" "88" none offered).1)).0
    ≡ (false, "code_already_used")
consume_link_code_once_example =
    consume_link_code_once plain_platform 5 8 "AB12" "88" "99" none none meanwhile offered linked

abbrev changes : List LinkAction
changes = create "CD34" none 6 2 ∷ consume 7 "CD34" "77" none ∷ unlink 8 (some "77") ∷ delete 1 ∷ []

resolve_telegram_identity_iff_example :
    (resolve_telegram_identity "77, 88" (some "77") offered ≡ ok identity) ↔ (
      ((deserialize_data_sources (strip "77, 88") ≡ [])
        ⊎ Has (λ a. a ≡ "77") (deserialize_data_sources (strip "77, 88")))
      × IsFirst
          (λ (j : TelegramIdentity). j.telegram_user_id ≡ "77")
          offered.telegram_identities.rows
          identity
      × (identity.is_active ≡ true))
resolve_telegram_identity_iff_example = resolve_telegram_identity_iff "77, 88" "77" offered identity

unlinked : (unlink_telegram_identity plain_platform 5 (some "77") offered).0 ≡ (true, "unlinked")
unfolding unlink_telegram_identity get_telegram_identity deactivate_telegram_identity
unlinked = refl

-- After its account is deleted, Telegram user 77 is still resolved.
deleted_resolved :
    resolve_telegram_identity "" (some "77") (delete_user_account 1 offered).1 ≡ ok identity
unfolding resolve_telegram_identity delete_user_account telegram_user_is_allowed
    get_telegram_identity
deleted_resolved = refl

abbrev idle : Updates
idle = record { inflight = []; processed = [] }

abbrev others : List Action
others = claim 3 (some "u2") ∷ complete 4 (some "u2") ∷ []

claimed : (claim_telegram_update 60 1 (some "u1") idle).0.1 ≡ true
unfolding claim_telegram_update expire
claimed = refl

others-Spares : All (Spares "u1") others
others-Spares = (tt, (ground (arith, eq_iff "u2" "u1"), tt))

claim_exclusive_example :
    (claim_telegram_update 60 9
      (some "u1")
      (perform_all 60 others (claim_telegram_update 60 1 (some "u1") idle).1)).0.1
    ≡ false
claim_exclusive_example = claim_exclusive 60 1 9 "u1" others idle claimed others-Spares

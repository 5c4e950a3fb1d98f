-- ===== src/TelegramLink/Actions.antt =====
-- What is done with codes and identities in the course of time, and what it leaves of a code.
use iot_ops_agent.Prelude.{
  ℕ, String, ◌≡◌, refl, inl, inr, Option, none, some, List, [], ◌∷◌, arith, find, any, ◌++◌,
  string_eq, nat_eq, Bool-cases, Option-cases,
}
use iot_ops_agent.Prelude.Int.{ℤ}
use iot_ops_agent.Prelude.Result.{Result, ok, err}
use iot_ops_agent.Database.{LinkCode, Db}
use iot_ops_agent.Database.Users.{DbError, delete_user_account}
use iot_ops_agent.Database.Links.{
  get_telegram_identity, get_telegram_link_code, has_hash, has_telegram_id,
  create_telegram_link_code, deactivate_telegram_identity,
}
use iot_ops_agent.TelegramLink.{
  Platform, hash_link_code, consume_link_code, create_link_code_for_user, unlink_telegram_identity,
}

-- What is done with codes and identities in the meantime.
pub data LinkAction : Type 0 where
  consume :
      (now : ℕ)
      → (code telegram_user_id : String) → (telegram_username : Option String) → LinkAction
  create : (code : String) → (ttl : Option ℤ) → (now user_id : ℕ) → LinkAction
  unlink : (now : ℕ) → (telegram_user_id : Option String) → LinkAction
  delete : (user_id : ℕ) → LinkAction

abbrev stored : Db → Result DbError Db → Db
stored db (ok db') = db'
stored db (err e) = db

abbrev pub act : Platform → LinkAction → Db → Db
act p (consume now code t name) db = (consume_link_code p now code t name db).1
act p (create code ttl now user_id) db =
    stored db (create_link_code_for_user p code ttl now user_id db)
act p (unlink now t) db = (unlink_telegram_identity p now t db).1
act p (delete user_id) db = (delete_user_account user_id db).1

abbrev pub act_all : Platform → List LinkAction → Db → Db
act_all p [] db = db
act_all p (a ∷ as_) db = act_all p as_ (act p a db)

pub code-delete :
    (h : String) (user_id : ℕ) (db : Db)
    → get_telegram_link_code h (delete_user_account user_id db).1 ≡ get_telegram_link_code h db
unfolding get_telegram_link_code delete_user_account
code-delete h user_id db = refl

find-append_found :
    (h : String) (rows : List LinkCode) (c new : LinkCode)
    → find (has_hash h) rows ≡ some c
    → find (has_hash h) (rows ++ new ∷ []) ≡ some c
find-append_found h [] c new e = cc
find-append_found h (x ∷ xs) c new e = ground (arith, find-append_found h xs c new)

module _ (p : Platform) where
  pub code-create :
      (h code : String) (ttl : Option ℤ) (now user_id : ℕ) (c : LinkCode) (db : Db)
      → get_telegram_link_code h db ≡ some c
      → get_telegram_link_code h (act p (create code ttl now user_id) db) ≡ some c
  unfolding get_telegram_link_code create_link_code_for_user create_telegram_link_code
  code-create h code ttl now user_id c db e =
      elim (Bool-cases (any (has_hash (hash_link_code p code)) db.telegram_link_codes.rows)) [
        | inl taken ↦ rw taken e
        | inr new ↦ rw new (find-append_found h db.telegram_link_codes.rows c _ e)
      ]

  pub code-unlink :
      (h : String) (now : ℕ) (t : Option String) (db : Db)
      → get_telegram_link_code h (unlink_telegram_identity p now t db).1
        ≡ get_telegram_link_code h db
  unfolding get_telegram_link_code unlink_telegram_identity deactivate_telegram_identity
  code-unlink h now none db = refl
  code-unlink h now (some t) db = elim (Option-cases (get_telegram_identity t db)) [
    | inl unknown ↦ rw unknown
    | inr (i, e) ↦ rw e (elim (Bool-cases i.is_active) [
      | inr inactive ↦ rw inactive
      | inl active ↦
          rw active (elim (Bool-cases (any (has_telegram_id t) db.telegram_identities.rows)) [
            | inl found ↦ rw found
            | inr lost ↦ rw lost
          ])
    ])
  ]

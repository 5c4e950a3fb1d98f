-- ===== src/TelegramLink/Reuse.antt =====
-- A code links once, whatever is done with codes and identities afterwards.
use iot_ops_agent.Prelude.{
  ℕ, String, ◌≡◌, refl, ◌∙◌, inl, inr, true, false, Option, none, some, List, [], ◌∷◌, arith,
  eq_iff, find, update, leb, is_some, find-passes, ◌==◌, string_eq, nat_eq, Bool-cases,
  Option-cases,
}
use iot_ops_agent.Prelude.Text.{is_empty}
use iot_ops_agent.Database.{LinkCode, Db}
use iot_ops_agent.Database.Users.{update_user_data_source_policy}
use iot_ops_agent.Database.Links.{
  get_telegram_link_code, mark_telegram_link_code_used, has_hash, is_unused, set_used,
  upsert_telegram_identity,
}
use iot_ops_agent.TelegramLink.{
  Platform, normalize_link_code, hash_link_code, link_account, redeem, consume_link_code,
}
use iot_ops_agent.TelegramLink.Actions.{
  LinkAction, consume, create, unlink, delete, act, act_all, code-delete, code-create, code-unlink,
}
use iot_ops_agent.TelegramLink.Codes.{code_of, after_mark, redeem-linked, consume-linked}

used_after :
    (now h : String) (rows : List LinkCode) (c : LinkCode)
    → find (has_hash h) rows ≡ some c
    → (c' : LinkCode) × (find (has_hash h) (update (is_unused h) (set_used now) rows) ≡ some c')
      × (is_some c'.used_at ≡ true)
used_after now h [] c e = cc
used_after now h (x ∷ xs) c e = elim (Bool-cases (x.code_hash == h)) [
  | inr other ↦
      let (c', found, used) = used_after now h xs c (rw other at e) in
      (c', rw (other, other) found, used)
  | inl same ↦ elim (Option-cases x.used_at) [
    | inl unused ↦ (set_used now x, ground arith, refl)
    | inr (at, used) ↦ (x, ground arith, rw used)
  ]
]

-- A used code stays used, whatever code is marked.
still_used :
    (h h' now : String) (rows : List LinkCode) (c : LinkCode)
    → find (has_hash h) rows ≡ some c
    → is_some c.used_at ≡ true
    → (c' : LinkCode) × (find (has_hash h) (update (is_unused h') (set_used now) rows) ≡ some c')
      × (is_some c'.used_at ≡ true)
still_used h h' now [] c e u = cc
still_used h h' now (x ∷ xs) c e u = elim (Bool-cases (x.code_hash == h)) [
  | inr other ↦
      let (c', found, used) = still_used h h' now xs c (rw other at e) u in
      (c', ground (arith, found), used)
  | inl same ↦ (c, ground (arith, e), u)
]

module _ (p : Platform) where
  mark-used :
      (now : ℕ) (h : String) (c : LinkCode) (db : Db)
      → get_telegram_link_code h db ≡ some c
      → (c' : LinkCode) × (get_telegram_link_code h (after_mark p now c db).1 ≡ some c')
        × (is_some c'.used_at ≡ true)
  unfolding get_telegram_link_code mark_telegram_link_code_used
  mark-used now h c db e =
      let same =
        (eq_iff c.code_hash h).0 (find-passes (has_hash h) db.telegram_link_codes.rows c e) in
      rw same (used_after (p.isoformat now) h db.telegram_link_codes.rows c e)

  code-link_account :
      (h : String) (now : ℕ) (t : String) (name : Option String) (c : LinkCode) (db : Db)
      → get_telegram_link_code h (link_account p now t name c db).1 ≡ get_telegram_link_code h db
  unfolding get_telegram_link_code link_account update_user_data_source_policy
      upsert_telegram_identity
  code-link_account h now t name c db = ground arith

  redeem-used :
      (now : ℕ) (t : String) (name : Option String) (c : LinkCode) (db : Db)
      → is_some c.used_at ≡ true
      → (redeem p now t name (some c) db).0 ≡ (false, "code_already_used")
  unfolding redeem
  redeem-used now t name c db h = ground arith

  consume-redeem :
      (now : ℕ) (code t : String) (name : Option String) (db : Db)
      → is_empty (normalize_link_code p code) ≡ false
      → consume_link_code p now code t name db ≡ redeem p now t name (code_of p code db) db
  unfolding consume_link_code
  consume-redeem now code t name db h = rw h

  -- The code is stored, and used.
  abbrev Used : (code_hash : String) → Db → Type 0
  Used h db = (c : LinkCode) × (get_telegram_link_code h db ≡ some c) × (is_some c.used_at ≡ true)

  linked-Used :
      (now : ℕ) (code t : String) (name : Option String) (db : Db)
      → (consume_link_code p now code t name db).0 ≡ (true, "linked")
      → Used
          (hash_link_code p (normalize_link_code p code))
          (consume_link_code p now code t name db).1
  linked-Used now code t name db h =
      let (c, found, same) = consume-linked p now code t name db h in
      let (_, _, result, _) = redeem-linked p now t name c db (rw same at h) in
      let key = hash_link_code p (normalize_link_code p code) in
      let marked = (after_mark p now c db).1 in
      let (c', found', used) = mark-used now key c db found in
      (c', rw (same, result) (code-link_account key now t name c marked ∙ found'), used)

  mark-Used :
      (h now h' : String) (db : Db) → Used h db → Used h (mark_telegram_link_code_used now h' db).1
  unfolding get_telegram_link_code mark_telegram_link_code_used
  mark-Used h now h' db (c, found, used) =
      still_used h h' now db.telegram_link_codes.rows c found used

  redeem-Used :
      (h : String) (now : ℕ) (t : String) (name : Option String) (o : Option LinkCode) (db : Db)
      → Used h db
      → Used h (redeem p now t name o db).1
  unfolding redeem
  redeem-Used h now t name none db u = u
  redeem-Used h now t name (some c) db u =
      let marked = mark-Used h (p.isoformat now) c.code_hash db u in
      let (k, found, used) = marked in
      elim (Option-cases c.used_at) [
        | inr (at, e) ↦ rw e u
        | inl unused ↦ simp unused (elim (Bool-cases (leb (p.instant c.expires_at) now)) [
          | inl late ↦ rw late u
          | inr early ↦ rw early (elim (Bool-cases (after_mark p now c db).0) [
            | inl first ↦
                rw first
                  (k, code-link_account h now t name c (after_mark p now c db).1 ∙ found, used)
            | inr second ↦ rw second marked
          ])
        ])
      ]

  consume-Used :
      (h : String) (now : ℕ) (code t : String) (name : Option String) (db : Db)
      → Used h db
      → Used h (consume_link_code p now code t name db).1
  unfolding consume_link_code
  consume-Used h now code t name db u = elim (Bool-cases (is_empty (normalize_link_code p code))) [
    | inl e ↦ rw e u
    | inr e ↦ rw e (redeem-Used h now t name (code_of p code db) db u)
  ]

  act-Used : (h : String) (a : LinkAction) (db : Db) → Used h db → Used h (act p a db)
  act-Used h (consume now code t name) db u = consume-Used h now code t name db u
  act-Used h (create code ttl now user_id) db (c, found, used) =
      (c, code-create p h code ttl now user_id c db found, used)
  act-Used h (unlink now t) db (c, found, used) = (c, code-unlink p h now t db ∙ found, used)
  act-Used h (delete user_id) db (c, found, used) = (c, code-delete h user_id db ∙ found, used)

  act_all-Used :
      (h : String) (as_ : List LinkAction) (db : Db) → Used h db → Used h (act_all p as_ db)
  act_all-Used h [] db u = u
  act_all-Used h (a ∷ as_) db u = act_all-Used h as_ (act p a db) (act-Used h a db u)

  -- In the SQLite store, once a code has linked an identity, every later redemption of it answers
  -- "code_already_used": at any time, by any Telegram user, and after any redemptions, new codes,
  -- unlinkings and deletions of accounts in between.
  pub consume_link_code_once :
      (now later : ℕ) (code t t' : String) (name name' : Option String) (as_ : List LinkAction)
      (db : Db)
      → (consume_link_code p now code t name db).0 ≡ (true, "linked")
      → (consume_link_code p later code t' name'
          (act_all p as_ (consume_link_code p now code t name db).1)).0
        ≡ (false, "code_already_used")
  consume_link_code_once now later code t t' name name' as_ db h =
      let key = hash_link_code p (normalize_link_code p code) in
      let after = act_all p as_ (consume_link_code p now code t name db).1 in
      let (c, found, used) =
        act_all-Used key as_ (consume_link_code p now code t name db).1
          (linked-Used now code t name db h) in
      elim (Bool-cases (is_empty (normalize_link_code p code))) [
        | inl e ↦ absurd (unfold consume_link_code in ground arith)
        | inr e ↦
            rw (consume-redeem later code t' name' after e)
              (rw found (redeem-used later t' name' c after used))
      ]

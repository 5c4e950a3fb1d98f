-- ===== src/AuthService/Accounts.antt =====
-- What registering, renaming and deleting an account do.
use iot_ops_agent.Prelude.{
  ℕ, ◌+◌, String, ◌≡◌, ◌≢◌, ◌↔◌, refl, inl, inr, Bool, true, false, Bool-cases, not, ◌&&◌, Option,
  Option-cases, none, some, List, [], ◌∷◌, arith, eq_iff, ◌==◌, string_eq, nat_eq, is_some, any,
  find, discard, update, any_of_find_none, find-append_none, sym, ap,
}
use iot_ops_agent.Prelude.Result.{Result, ok, err, Result-cases}
use iot_ops_agent.Database.{User, Db}
use iot_ops_agent.Database.Users.{
  PasswordHash, DbError, create_user, get_user_by_username, verify_user, update_username, has_name,
  has_id, delete_user_account, set_name, set_users,
}
use iot_ops_agent.Database.Chats.{owned}
use iot_ops_agent.AuthService.{
  Reply, username_exists, registered, unable, username_updated, account_deleted, register_user,
  change_username, delete_account,
}

-- A name that no row has is taken by no other row.
untaken :
    (name : String) (user_id : ℕ) (rows : List User)
    → any (has_name name) rows ≡ false
    → any (λ u. has_name name u && not (has_id user_id u)) rows ≡ false
untaken name user_id [] h = refl
untaken name user_id (u ∷ us) h = ground (arith, untaken name user_id us)

-- Changing a name never raises: a name that is taken is refused before the write.
change_username-returns :
    (user_id : ℕ) (new_username : String) (db : Db)
    → (out : Reply × Db) × (change_username user_id new_username db ≡ ok out)
unfolding change_username get_user_by_username update_username
change_username-returns user_id new_username db =
    elim (Option-cases (find (has_name new_username) db.users.rows)) [
      | inr (u, found) ↦ ((username_exists, db), rw found)
      | inl missing ↦ elim (Bool-cases (any (has_id user_id) db.users.rows)) [
        | inl e ↦ (
          (
            username_updated,
            set_users db (update (has_id user_id) (set_name new_username) db.users.rows),
          ),
          rw (
            missing,
            e,
            untaken new_username user_id db.users.rows
                (any_of_find_none (has_name new_username) db.users.rows missing),
          ),
        )
        | inr e ↦ (
          (unable, set_users db (update (has_id user_id) (set_name new_username) db.users.rows)),
          rw (missing, e),
        )
      ]
    ]

any-discard : {A : Type 0} (p : A → Bool) (xs : List A) → any p (discard p xs) ≡ false
any-discard p [] = refl
any-discard p (x ∷ xs) = ground (arith, any-discard p xs)

-- A deletion that reports success came with the right password for the name given, and leaves no
-- account of the id and no chat of the account.
delete_account-deleted :
    (h : PasswordHash) (user_id : ℕ) (username password : String) (db db' : Db)
    → delete_account h user_id username password db ≡ (account_deleted, db')
    → (is_some (verify_user h username password db) ≡ true)
      × (any (has_id user_id) db'.users.rows ≡ false)
      × (any (owned user_id) db'.chats.rows ≡ false)
unfolding delete_account delete_user_account
delete_account-deleted h user_id username password db db' e =
    elim (Bool-cases (is_some (verify_user h username password db))) [
      | inl v ↦ elim (Bool-cases (any (has_id user_id) db.users.rows)) [
        | inl k ↦
            let same = ap (λ o. o.1) (sym (rw (v, k) at e)) in
            (
              v,
              rw (same, any-discard (has_id user_id) db.users.rows),
              rw (same, any-discard (owned user_id) db.chats.rows),
            )
        | inr k ↦ absurd (cc (ap (λ o. o.0) (rw (v, k) at e)))
      ]
      | inr v ↦ absurd (cc (ap (λ o. o.0) (rw v at e)))
    ]

find-none : {A : Type 0} (p : A → Bool) (xs : List A) → any p xs ≡ false → find p xs ≡ none
find-none p [] h = refl
find-none p (x ∷ xs) h = ground (arith, find-none p xs)

after : Db → Result DbError Db → Db
after db (ok db') = db'
after db (err e) = db

-- Whoever has just been created can log in with that name and password.
verify-create_user :
    (h : PasswordHash) (salt now username password : String) (db db' : Db)
    → h.check (h.generate salt password) password ≡ true
    → create_user h salt now username password db ≡ ok db'
    → (u : User) × (verify_user h username password db' ≡ some u)
      × (u.username ≡ username)
      × (u.allowed_data_sources ≡ "simulator")
unfolding create_user get_user_by_username verify_user after
verify-create_user h salt now username password db db' accepts e =
    elim (Bool-cases (any (has_name username) db.users.rows)) [
      | inl t ↦ absurd (cc (rw t at e))
      | inr t ↦
          let same = ap (after db) (sym (rw t at e)) in
          let u : User = record {
            id = db.users.seq + 1;
            username = username;
            password_hash = h.generate salt password;
            created_at = now;
            allowed_data_sources = "simulator";
            default_data_source = "simulator";
          } in
          let none_had = find-none (has_name username) db.users.rows t in
          let found = find-append_none (has_name username) db.users.rows u none_had in
          let self = eq_iff username username in
          (u, rw (same, found, self.1 refl, accepts), refl, refl)
    ]

-- Registration succeeds just when the server has an access code, the code given is that one and is
-- not empty, and no account has the name.
register_user_iff :
    (h : PasswordHash) (required_code : Option String)
    (salt now username password access_code : String) (db : Db)
    → ((register_user h required_code salt now username password access_code db).0 ≡ registered) ↔ (
        (access_code ≢ "")
        × (required_code ≡ some access_code)
        × (any (has_name username) db.users.rows ≡ false))
unfolding register_user create_user
register_user_iff h none salt now username password access_code db =
    (λ e. absurd (cc e), λ (_, c, _). absurd (cc c))
register_user_iff h (some required) salt now username password access_code db =
    elim (Bool-cases (required == "")) [
      | inl e ↦
          (λ k. absurd (cc (rw e at k)), λ (x, c, _). absurd (ground (arith, eq_iff required "")))
      | inr e ↦ elim (Bool-cases (access_code == required)) [
        | inr f ↦ (
          λ k. absurd (cc (rw (e, f) at k)),
          λ (x, c, _). absurd (ground (arith, eq_iff access_code required)),
        )
        | inl f ↦ elim (Bool-cases (any (has_name username) db.users.rows)) [
          | inl t ↦ (λ k. absurd (cc (rw (e, f, t) at k)), λ (x, c, n). absurd (cc))
          | inr t ↦ (
            λ k. (
              λ x. absurd (ground (arith, eq_iff access_code required, eq_iff required "")),
              ground (arith, eq_iff access_code required),
              t,
            ),
            λ _. rw (e, f, t),
          )
        ]
      ]
    ]

-- Whoever has just registered can log in with that name and password, and the account reads the
-- simulator's data only. The password check accepts the hash of a password.
authenticate-register :
    (h : PasswordHash) (required_code : Option String)
    (salt now username password access_code : String) (db db' : Db)
    → h.check (h.generate salt password) password ≡ true
    → register_user h required_code salt now username password access_code db ≡ (registered, db')
    → (u : User) × (verify_user h username password db' ≡ some u)
      × (u.username ≡ username)
      × (u.allowed_data_sources ≡ "simulator")
unfolding register_user
authenticate-register h none salt now username password access_code db db' accepts e =
    absurd (cc (ap (λ o. o.0) e))
authenticate-register h (some required) salt now username password access_code db db' accepts e =
    elim (Bool-cases (required == "")) [
      | inl r ↦ absurd (cc (ap (λ o. o.0) (rw r at e)))
      | inr r ↦ elim (Bool-cases (access_code == required)) [
        | inr f ↦ absurd (cc (ap (λ o. o.0) (rw (r, f) at e)))
        | inl f ↦ elim (Result-cases (create_user h salt now username password db)) [
          | inl (new, k) ↦
              verify-create_user h salt now username password db db' accepts
                (rw (k, ap (λ o. o.1) (rw (r, f, k) at e)))
          | inr (x, k) ↦ absurd (cc (ap (λ o. o.0) (rw (r, f, k) at e)))
        ]
      ]
    ]

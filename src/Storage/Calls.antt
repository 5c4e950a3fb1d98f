-- ===== src/Storage/Calls.antt =====
-- How often an operation is sent to each backend.
use iot_ops_agent.Prelude.{
  ℕ, ◌+◌, ◌≤◌, String, ◌≡◌, ◌⊎◌, refl, inl, inr, true, false, not, ◌&&◌, Option, none, some, arith,
  Bool-cases,
}
use iot_ops_agent.Prelude.Result.{Result, ok, err}
use iot_ops_agent.Storage.{
  Exception, Config, Circuit, Operation, Outcome, looks_like_stale_postgres_connection,
  looks_like_postgres_timeout, plain, rescued, retried, by_mysql, postgres_circuit_is_open,
  postgres_retry_allowed, with_fallback,
}

-- How often each backend was asked.
pub record Calls : Type 0 where
  pub postgres : ℕ
  pub sqlite : ℕ
  pub mysql : ℕ

abbrev no_calls : Calls
no_calls = record { postgres = 0; sqlite = 0; mysql = 0 }

abbrev closing : {W : Type 0} → (W → W) → W × Calls → W × Calls
closing close_pool (w, n) = (close_pool w, n)

module _ {W A : Type 0} where
  -- An operation that is counted.
  abbrev counted : (Calls → Calls) → Operation W A → Operation (W × Calls) A
  counted count op (w, n) = let (r, w') = op w in (r, (w', count n))

  abbrev counted_postgres : Operation W A → Operation (W × Calls) A
  counted_postgres = counted (λ (n : Calls). record n { postgres = n.postgres + 1 })

  abbrev counted_sqlite : Operation W A → Operation (W × Calls) A
  counted_sqlite = counted (λ (n : Calls). record n { sqlite = n.sqlite + 1 })

  abbrev counted_mysql : Option (Operation W A) → Option (Operation (W × Calls) A)
  counted_mysql none = none
  counted_mysql (some mysql) =
      some (counted (λ (n : Calls). record n { mysql = n.mysql + 1 }) mysql)

  -- `with_fallback`, with its calls counted.
  abbrev pub with_calls :
      Config
      → (now : ℕ) → (operation_name : String) → (close_pool : W → W)
      → (postgres sqlite : Operation W A) → (mysql : Option (Operation W A)) → W
      → Circuit
      → Outcome (W × Calls) A
  with_calls cfg now name close_pool postgres sqlite mysql w c =
      with_fallback cfg now name (closing close_pool) (counted_postgres postgres)
        (counted_sqlite sqlite) (counted_mysql mysql) (w, no_calls) c

  -- The operation is one that may be retried, and the connection it met was stale and not just slow.
  pub record IsRetried (name : String) (postgres : Operation W A) (w : W) : Type 0 where
    pub allowed : postgres_retry_allowed name ≡ true
    pub error : Exception
    pub raised : (postgres w).0 ≡ err error
    pub stale : looks_like_stale_postgres_connection error ≡ true
    pub not_slow : looks_like_postgres_timeout error ≡ false

  pub record IsBounded (cfg : Config) (name : String) (postgres : Operation W A)
      (mysql : Option (Operation W A)) (w : W) (o : Outcome (W × Calls) A) : Type 0 where
    pub postgres_once : (o.1.1.postgres ≤ 1) ⊎ ((o.1.1.postgres ≡ 2) × IsRetried name postgres w)
    pub sqlite_once : o.1.1.sqlite ≤ 1
    pub mysql_once : o.1.1.mysql ≤ 1
    pub one_server : (o.1.1.mysql ≡ 0) ⊎ (o.1.1.postgres ≡ 0)
    -- An error is returned only where SQLite was asked, or the fallback is off, or MySQL is chosen
    -- and the operation is not given for it.
    pub rescued_error :
        ((a : A) × (o.0 ≡ ok a))
        ⊎ (o.1.1.sqlite ≡ 1)
        ⊎ (cfg.fallback_enabled ≡ false)
        ⊎ ((cfg.using_mysql ≡ true) × (mysql ≡ none))

  -- A server was asked, and SQLite was not yet.
  record IsPending (name : String) (postgres : Operation W A) (w : W) (n : Calls) : Type 0 where
    once : (n.postgres ≤ 1) ⊎ ((n.postgres ≡ 2) × IsRetried name postgres w)
    no_sqlite : n.sqlite ≡ 0
    one_mysql : n.mysql ≤ 1
    one : (n.mysql ≡ 0) ⊎ (n.postgres ≡ 0)

  module _ (cfg : Config) (now : ℕ) (name : String) (close_pool : W → W)
      (postgres sqlite : Operation W A) (mysql : Option (Operation W A)) (w : W) (c : Circuit) where
    rescued-IsBounded :
        (o : Outcome (W × Calls) A)
        → IsPending name postgres w o.1.1
        → IsBounded cfg name postgres mysql w (rescued cfg now name (counted_sqlite sqlite) o)
    rescued-IsBounded (ok a, (v, n), c') h = record {
      postgres_once = h.once;
      sqlite_once = omega (arith, h.no_sqlite);
      mysql_once = h.one_mysql;
      one_server = h.one;
      rescued_error = inl (a, refl);
    }
    rescued-IsBounded (err e, (v, n), c') h = elim (Bool-cases cfg.fallback_enabled) [
      | inl f ↦ simp f (record {
        postgres_once = h.once;
        sqlite_once = omega (arith, h.no_sqlite);
        mysql_once = h.one_mysql;
        one_server = h.one;
        rescued_error = inr (inl (omega (arith, h.no_sqlite)));
      })
      | inr f ↦ simp f (record {
        postgres_once = h.once;
        sqlite_once = omega (arith, h.no_sqlite);
        mysql_once = h.one_mysql;
        one_server = h.one;
        rescued_error = inr (inr (inl f));
      })
    ]

    sqlite-IsBounded :
        IsBounded cfg name postgres mysql w (plain (counted_sqlite sqlite) (w, no_calls) c)
    sqlite-IsBounded = record {
      postgres_once = inl (omega arith);
      sqlite_once = omega arith;
      mysql_once = omega arith;
      one_server = inl refl;
      rescued_error = inr (inl refl);
    }

    asked_once : IsPending name postgres w (record { postgres = 1; sqlite = 0; mysql = 0 })
    asked_once = record {
      once = inl (omega arith);
      no_sqlite = refl;
      one_mysql = omega arith;
      one = inl refl;
    }

    asked_twice :
        IsRetried name postgres w
        → IsPending name postgres w (record { postgres = 2; sqlite = 0; mysql = 0 })
    asked_twice h = record {
      once = inr (refl, h);
      no_sqlite = refl;
      one_mysql = omega arith;
      one = inl refl;
    }

    retried-IsPending :
        (r : Result Exception A)
        → (postgres w).0 ≡ r
        → IsPending name postgres w
            (retried name
              (closing close_pool)
              (counted_postgres postgres)
              (r, ((postgres w).1, record { postgres = 1; sqlite = 0; mysql = 0 }), c)).1.1
    retried-IsPending (ok a) e = asked_once
    retried-IsPending (err x) e =
        elim (Bool-cases (
          postgres_retry_allowed name
          && (looks_like_stale_postgres_connection x && not (looks_like_postgres_timeout x)))) [
            | inl again ↦ rw again (
                asked_twice (record {
                  allowed = ground arith;
                  error = x;
                  raised = e;
                  stale = ground arith;
                  not_slow = ground arith;
                }))
            | inr given_up ↦ rw given_up asked_once
          ]

    by_mysql-IsBounded :
        (m : Option (Operation W A))
        → mysql ≡ m
        → cfg.using_mysql ≡ true
        → IsBounded cfg name postgres mysql w
            (by_mysql cfg now name (counted_sqlite sqlite) (counted_mysql m) (w, no_calls) c)
    by_mysql-IsBounded none none_ chosen = record {
      postgres_once = inl (omega arith);
      sqlite_once = omega arith;
      mysql_once = omega arith;
      one_server = inl refl;
      rescued_error = inr (inr (inr (chosen, none_)));
    }
    by_mysql-IsBounded (some op) given chosen = rescued-IsBounded _ (record {
      once = inl (omega arith);
      no_sqlite = refl;
      one_mysql = omega arith;
      one = inr refl;
    })

    -- Whatever the backends answer: an operation is sent to SQLite and to MySQL at most once, never to
    -- both MySQL and Postgres, and to Postgres at most once, or twice if the operation is one that may
    -- be retried and the first error tells of a stale connection and not of a timeout; and an error is
    -- returned only if SQLite was asked, or the fallback is off, or MySQL is chosen and the operation
    -- is not given for it.
    pub with_calls-IsBounded :
        IsBounded cfg name postgres mysql w
          (with_calls cfg now name close_pool postgres sqlite mysql w c)
    unfolding with_fallback
    with_calls-IsBounded = elim (Bool-cases cfg.using_mysql) [
      | inl m ↦ simp m (by_mysql-IsBounded mysql refl m)
      | inr m ↦ simp m (elim (Bool-cases cfg.using_postgres) [
        | inr p ↦ simp p sqlite-IsBounded
        | inl p ↦
            simp p (elim (Bool-cases (cfg.fallback_enabled && postgres_circuit_is_open now c)) [
              | inl open_ ↦ simp open_ sqlite-IsBounded
              | inr closed ↦
                  simp closed (rescued-IsBounded _ (retried-IsPending (postgres w).0 refl))
            ])
      ])
    ]

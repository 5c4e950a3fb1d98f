-- ===== src/RateLimiter/Grants.antt =====
-- Sequences of calls of `check`, with the times at which each key was let through.
use iot_ops_agent.Prelude.{
  ℕ, ◌*◌, ◌≤◌, ◌<◌, String, ◌≡◌, ◌↔◌, refl, sym, ap, ◌∙◌, Option, List, [], ◌∷◌, ◌++◌, arith,
  length, length-append, ◌==◌, string_eq, eq_iff, if◌then◌else◌,
}
use iot_ops_agent.Prelude.Result.{Result, ok, err}
use iot_ops_agent.RateLimiter.{Limiter, Env, limit_of, window_of, CheckError, expire, check}
use iot_ops_agent.RateLimiter.Window.{
  expire-expire, expire_twice, Rising, Rising-later, Rising-append, in_window, expire-eq-in_window,
}

-- A limiter, when each key was let through so far, and the time of the last call.
pub record History : Type 0 where
  pub limiter : Limiter
  pub granted : String → List ℕ
  pub clock : ℕ

abbrev pub fresh : Option ℕ → Option ℕ → History
fresh requests window_seconds = record {
  limiter = record { requests = requests; window_seconds = window_seconds; request_log = λ _. [] };
  granted = λ _. [];
  clock = 0;
}

-- Calls in the order of the clock.
abbrev pub OnTime : ℕ → List (String × ℕ) → Type 0
OnTime clock [] = Unit
OnTime clock ((key, now) ∷ calls) = (clock ≤ now) × OnTime now calls

abbrev pub grant : Result CheckError (Unit {0}) → String → ℕ → (String → List ℕ) → String → List ℕ
grant (ok _) key now granted = λ j. if key == j then granted j ++ now ∷ [] else granted j
grant (err _) key now granted = granted

module _ (scale : ℕ) (env : Env) where
  abbrev pub call : String → ℕ → History → History
  call key now h =
      let (r, l) = check scale env key now h.limiter in
      record { limiter = l; granted = grant r key now h.granted; clock = now }

  unfoldable pub run : List (String × ℕ) → History → History
  run [] h = h
  run ((key, now) ∷ calls) h = run calls (call key now h)

  -- The deque and the granted times look the same from now on; no deque is longer than the limit.
  pub record IsFaithful (h : History) : Type 0 where
    pub agrees :
        (k : String) (n : ℕ)
        → h.clock ≤ n
        → expire (window_of env h.limiter * scale) n (h.limiter.request_log k)
          ≡ expire (window_of env h.limiter * scale) n (h.granted k)
    pub rising : (k : String) → Rising 0 (h.granted k) h.clock
    pub bounded : (k : String) → length (h.limiter.request_log k) ≤ limit_of env h.limiter

  fresh-IsFaithful : (r w : Option ℕ) → IsFaithful (fresh r w)
  fresh-IsFaithful r w = record {
    agrees = λ k n h. refl;
    rising = λ k. omega arith;
    bounded = λ k. omega arith;
  }

  agrees-append :
      (window now n : ℕ) (xs ys zs : List ℕ)
      → now ≤ n
      → expire window n xs ≡ expire window n ys
      → expire window n (expire window now xs ++ zs) ≡ expire window n (ys ++ zs)
  agrees-append window now n xs ys zs h e =
      expire-expire window now n xs zs h
      ∙ sym (expire-expire window n n xs zs (omega arith))
      ∙ ap (λ l. expire window n (l ++ zs)) e
      ∙ expire-expire window n n ys zs (omega arith)

  length-expire : (window now : ℕ) (xs : List ℕ) → length (expire window now xs) ≤ length xs
  unfolding expire
  length-expire window now [] = omega arith
  length-expire window now (x ∷ xs) = ground (arith, length-expire window now xs)

  call-IsFaithful :
      (key : String) (now : ℕ) (h : History)
      → h.clock ≤ now
      → IsFaithful h
      → IsFaithful (call key now h)
  unfolding check
  call-IsFaithful key now h w f =
      let window = window_of env h.limiter * scale in
      record {
        agrees = λ k n le. ground (
          arith,
          eq_iff key k,
          f.agrees k n (omega arith),
          expire_twice window now n (h.limiter.request_log k) le,
          agrees-append window now n (h.limiter.request_log k) (h.granted k) (now ∷ []) le,
        );
        rising = λ k. ground (
          arith,
          eq_iff key k,
          Rising-later 0 (h.granted k) h.clock now w (f.rising k),
          Rising-append 0 (h.granted k) h.clock now w (f.rising k),
        );
        bounded = λ k. ground (
          arith,
          eq_iff key k,
          f.bounded k,
          length-expire window now (h.limiter.request_log k),
          length-append (expire window now (h.limiter.request_log k)) (now ∷ []),
        );
      }

  run-IsFaithful :
      (calls : List (String × ℕ)) (h : History)
      → OnTime h.clock calls
      → IsFaithful h
      → IsFaithful (run calls h)
  unfolding run
  run-IsFaithful [] h t f = f
  run-IsFaithful ((key, now) ∷ calls) h (w, t) f =
      run-IsFaithful calls (call key now h) t (call-IsFaithful key now h w f)

  -- How often a key was let through in the window that ends at `now`.
  abbrev pub recent : History → String → ℕ → ℕ
  recent h key now = length (in_window (window_of env h.limiter * scale) now (h.granted key))

  recent-eq-length :
      (h : History) (key : String) (now : ℕ)
      → h.clock ≤ now
      → IsFaithful h
      → recent h key now
        ≡ length (expire (window_of env h.limiter * scale) now (h.limiter.request_log key))
  recent-eq-length h key now w f =
      let window = window_of env h.limiter * scale in
      ap length (
        sym (expire-eq-in_window window now 0 (h.granted key) h.clock (f.rising key))
        ∙ sym (f.agrees key now w))

  -- After any calls in the order of the clock, from a fresh limiter and with an environment that stays
  -- the same: in the window that ends at any time from the last call on, no key was let through more
  -- often than the limit.
  pub recent-le-limit :
      (requests window_seconds : Option ℕ) (calls : List (String × ℕ)) (key : String) (now : ℕ)
      → OnTime 0 calls
      → (run calls (fresh requests window_seconds)).clock ≤ now
      → recent (run calls (fresh requests window_seconds)) key now
        ≤ limit_of env (run calls (fresh requests window_seconds)).limiter
  recent-le-limit requests window_seconds calls key now t w =
      let h = run calls (fresh requests window_seconds) in
      let f =
        run-IsFaithful calls (fresh requests window_seconds) t
          (fresh-IsFaithful requests window_seconds) in
      omega (
        arith,
        recent-eq-length h key now w f,
        f.bounded key,
        length-expire (window_of env h.limiter * scale) now (h.limiter.request_log key),
      )

  -- After any calls in the order of the clock, from a fresh limiter and with an environment that
  -- stays the same, the next call lets the key through exactly if the key was let through less
  -- often than the limit in the window that ends with the call.
  pub check_iff :
      (requests window_seconds : Option ℕ) (calls : List (String × ℕ)) (key : String) (now : ℕ)
      → OnTime 0 calls
      → (run calls (fresh requests window_seconds)).clock ≤ now
      → ((check scale env key now (run calls (fresh requests window_seconds)).limiter).0 ≡ ok tt)
        ↔ (recent (run calls (fresh requests window_seconds)) key now
            < limit_of env (run calls (fresh requests window_seconds)).limiter)
  unfolding check
  check_iff requests window_seconds calls key now t w =
      let h = run calls (fresh requests window_seconds) in
      let f =
        run-IsFaithful calls (fresh requests window_seconds) t
          (fresh-IsFaithful requests window_seconds) in
      ground (arith, recent-eq-length h key now w f)

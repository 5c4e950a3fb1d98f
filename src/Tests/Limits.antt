-- ===== src/Tests/Limits.antt =====
-- A limiter of two calls in ten seconds, with a clock of one tick to the second.
use iot_ops_agent.Prelude.{ℕ, ◌≤◌, ◌<◌, String, ◌≡◌, ◌↔◌, refl, none, some, List, [], ◌∷◌, arith}
use iot_ops_agent.Prelude.Result.{ok, err}
use iot_ops_agent.RateLimiter.{Env, limit_of, check, expire, positive_int_env, rate_limited}
use iot_ops_agent.RateLimiter.Grants.{fresh, OnTime, run, recent, recent-le-limit, check_iff}

abbrev unset : Env
unset = record { rate_limit_requests = none; rate_limit_window_seconds = none }

abbrev three_calls : List (String × ℕ)
three_calls = ("find", 1) ∷ ("find", 4) ∷ ("find", 5) ∷ []

three_calls-OnTime : OnTime 0 three_calls
three_calls-OnTime = (omega arith, (omega arith, (omega arith, tt)))

clock-le : (run 1 unset three_calls (fresh (some 2) (some 10))).clock ≤ 9
unfolding run
clock-le = omega arith

third_refused :
    (check 1 unset "find" 9 (run 1 unset three_calls (fresh (some 2) (some 10))).limiter).0
    ≡ err (rate_limited 2)
unfolding run check expire positive_int_env
third_refused = refl

recent-le-limit_example :
    recent 1 unset (run 1 unset three_calls (fresh (some 2) (some 10))) "find" 9
    ≤ limit_of unset (run 1 unset three_calls (fresh (some 2) (some 10))).limiter
recent-le-limit_example =
    recent-le-limit 1 unset (some 2) (some 10) three_calls "find" 9 three_calls-OnTime clock-le

check_iff_example :
    ((check 1 unset "find" 9 (run 1 unset three_calls (fresh (some 2) (some 10))).limiter).0
      ≡ ok tt)
    ↔ (recent 1 unset (run 1 unset three_calls (fresh (some 2) (some 10))) "find" 9
        < limit_of unset (run 1 unset three_calls (fresh (some 2) (some 10))).limiter)
check_iff_example =
    check_iff 1 unset (some 2) (some 10) three_calls "find" 9 three_calls-OnTime clock-le

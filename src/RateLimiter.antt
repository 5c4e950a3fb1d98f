-- ===== src/RateLimiter.antt =====
-- `SlidingWindowRateLimiter` of services/company_mongo_proxy.py. The clock counts ticks, `scale` of
-- them to a second, and is an argument of `check`; the lock makes each call of `check` one step.
pub mod Window
pub mod Grants
use Prim.Native.Nat.{◌/◌}
use iot_ops_agent.Prelude.{
  ℕ, zero, suc, ◌+◌, ◌-◌, ◌*◌, max, String, Option, none, some, List, [], ◌∷◌, ◌++◌, length, leb,
  ◌==◌, string_eq, if◌then◌else◌,
}
use iot_ops_agent.Prelude.Int.{ℤ, pos, negsuc}
use iot_ops_agent.Prelude.Result.{Result, ok, err}

abbrev pub default_rate_limit_requests : ℕ
default_rate_limit_requests = 120

abbrev pub default_rate_limit_window_seconds : ℕ
default_rate_limit_window_seconds = 60

-- `parsed` is the value of `int(os.getenv(…))`, `none` where that raises.
unfoldable pub positive_int_env : (parsed : Option ℤ) → (default : ℕ) → ℕ
positive_int_env (some (pos (suc n))) default = suc n
positive_int_env (some (pos zero)) default = default
positive_int_env (some (negsuc n)) default = default
positive_int_env none default = default

-- `self.requests or …`: zero counts as not given.
abbrev pub given_or : Option ℕ → ℕ → ℕ
given_or none other = other
given_or (some zero) other = other
given_or (some (suc n)) other = suc n

-- `_request_log`, a defaultdict of deques, is a function.
pub record Limiter : Type 0 where
  pub requests : Option ℕ
  pub window_seconds : Option ℕ
  pub request_log : String → List ℕ

-- What the environment holds at the time of a call.
pub record Env : Type 0 where
  pub rate_limit_requests : Option ℤ
  pub rate_limit_window_seconds : Option ℤ

abbrev pub limit_of : Env → Limiter → ℕ
limit_of env l =
    given_or l.requests (positive_int_env env.rate_limit_requests default_rate_limit_requests)

abbrev pub window_of : Env → Limiter → ℕ
window_of env l =
    given_or l.window_seconds
      (positive_int_env env.rate_limit_window_seconds default_rate_limit_window_seconds)

pub data CheckError : Type 0 where
  rate_limited : (retry_after : ℕ) → CheckError
  index_error : CheckError

-- `while request_times and request_times[0] <= now - window: request_times.popleft()`
unfoldable pub expire : (window now : ℕ) → List ℕ → List ℕ
expire window now [] = []
expire window now (t ∷ ts) =
    let rest = expire window now ts in if leb (t + window) now then rest else t ∷ ts

abbrev pub store : String → List ℕ → Limiter → Limiter
store key times l = record l { request_log = λ j. if key == j then times else l.request_log j }

-- `request_times[0]` is read where the deque is full.
abbrev pub refused : (scale window_seconds now : ℕ) → List ℕ → CheckError
refused scale window_seconds now [] = index_error
refused scale window_seconds now (t ∷ ts) =
    rate_limited (max 1 ((window_seconds * scale + t - now) / scale))

-- What is dropped from the deque stays dropped where the call raises.
unfoldable pub check :
    (scale : ℕ)
    → Env
    → (key : String) → (now : ℕ) → Limiter
    → Result CheckError (Unit {0}) × Limiter
check scale env key now l =
    let window = window_of env l in
    let times = expire (window * scale) now (l.request_log key) in
    if leb (limit_of env l) (length times)
    then (err (refused scale window now times), store key times l)
    else (ok tt, store key (times ++ now ∷ []) l)

unfoldable pub clear : Limiter → Limiter
clear l = record l { request_log = λ _. [] }

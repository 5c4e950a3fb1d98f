-- ===== src/McpProxy/Retries.antt =====
-- Which attempt a call of the MCP proxy ends with.
use iot_ops_agent.Prelude.{
  ℕ, zero, suc, ◌+◌, ◌≤◌, ◌<◌, ◌≡◌, ◌⊎◌, refl, sym, inl, inr, true, false, some, List, [], ◌∷◌,
  arith, Bool-cases, Option-cases,
}
use iot_ops_agent.Prelude.Result.{Result, ok, err}
use iot_ops_agent.MongoProxy.Documents.{Value}
use iot_ops_agent.Storage.{Exception}
use iot_ops_agent.McpProxy.{
  Client, Action, request, reopen, sleep, Run, is_retryable_mcp_error, retried, asked, settled,
  attempts_from, call_mcp_read_tool,
}

abbrev pub requests : List Action → ℕ
requests [] = 0
requests (request ∷ actions) = suc (requests actions)
requests (reopen ∷ actions) = requests actions
requests (sleep n ∷ actions) = requests actions

-- An error after which there is another attempt.
abbrev pub Retryable : Client → Result Exception Value → Type 0
Retryable c (ok v) = ⊥
Retryable c (err e) = is_retryable_mcp_error c e ≡ true

-- A result, or an error after which there is no other attempt.
abbrev pub IsFinal : Client → Result Exception Value → Type 0
IsFinal c (ok v) = Unit
IsFinal c (err e) = is_retryable_mcp_error c e ≡ false

-- The run ends with attempt `k`: with what the attempt gave, or with what opening the session again
-- after it raised.
pub EndsWith : Client → (last k : ℕ) → Result Exception Value → Type 0
EndsWith c last k r =
    ((r ≡ c.call k) × ((k ≡ last) ⊎ IsFinal c (c.call k)))
    ⊎ ((c.custom_tool_caller ≡ false)
        × (e : Exception) × (c.reopen_session k ≡ some e)
        × (r ≡ err e))

-- Attempts from one to another were made, and all before the last one were retryable.
pub IsSettled : Client → (first last : ℕ) → Run → Type 0
IsSettled c first last r =
    (k : ℕ) × (first ≤ k)
    × (k ≤ last)
    × ((j : ℕ) → first ≤ j → j < k → Retryable c (c.call j))
    × (requests r.1 + first ≡ suc k)
    × EndsWith c last k r.0

least : (a j : ℕ) → a ≤ j → (a ≡ j) ⊎ (suc a ≤ j)
least a j h = ground (arith, h)

module _ (c : Client) where
  stop :
      (attempt last : ℕ) (o : Result Exception Value)
      → c.call attempt ≡ o
      → attempt ≤ last
      → (attempt ≡ last) ⊎ IsFinal c o
      → IsSettled c attempt last (o, request ∷ [])
  unfolding IsSettled EndsWith
  stop attempt last o same h end = (
    attempt,
    omega arith,
    h,
    λ j a b. absurd (omega (arith, a, b)),
    omega arith,
    inl (sym same, (rw same end)),
  )

  -- An attempt after which the others follow.
  later :
      (attempt last : ℕ) (r : Run) (actions : List Action)
      → Retryable c (c.call attempt)
      → IsSettled c (suc attempt) last r
      → requests actions ≡ suc (requests r.1)
      → IsSettled c attempt last (r.0, actions)
  unfolding IsSettled
  later attempt last r actions h (k, low, high, before, count, end) n = (
    k,
    omega (arith, low),
    high,
    λ j a b. elim (least attempt j a) [ inl same ↦ rw (← same) h | inr more ↦ before j more b ],
    omega (arith, count, n),
    end,
  )

  stuck :
      (attempt last : ℕ) (e : Exception)
      → attempt ≤ last
      → c.custom_tool_caller ≡ false
      → c.reopen_session attempt ≡ some e
      → IsSettled c attempt last (err e, request ∷ reopen ∷ [])
  unfolding IsSettled EndsWith
  stuck attempt last e h own raised = (
    attempt,
    omega arith,
    h,
    λ j a b. absurd (omega (arith, a, b)),
    omega arith,
    inr (own, e, raised, refl),
  )

  retried-IsSettled :
      (attempt last : ℕ) (rest : Run)
      → attempt ≤ last
      → Retryable c (c.call attempt)
      → IsSettled c (suc attempt) last rest
      → IsSettled c attempt last (asked (retried c attempt rest))
  retried-IsSettled attempt last rest h again k = elim (Bool-cases c.custom_tool_caller) [
    | inl own ↦ simp own (later attempt last rest _ again k refl)
    | inr own ↦ elim (Option-cases (c.reopen_session attempt)) [
      | inl none_raised ↦ simp (own, none_raised) (later attempt last rest _ again k refl)
      | inr (e, raised) ↦ simp (own, raised) (stuck attempt last e h own raised)
    ]
  ]

  same-Retryable : (o o' : Result Exception Value) → o ≡ o' → Retryable c o' → Retryable c o
  same-Retryable o o' same h = rw same h

  last-IsSettled :
      (attempt : ℕ) (o : Result Exception Value) (rest : Run)
      → c.call attempt ≡ o
      → IsSettled c attempt (attempt + 0) (settled c 0 attempt o rest)
  last-IsSettled attempt (ok v) rest same =
      stop attempt (attempt + 0) (ok v) same (omega arith) (inr tt)
  last-IsSettled attempt (err e) rest same =
      stop attempt (attempt + 0) (err e) same (omega arith) (inl (omega arith))

  settled-IsSettled :
      (left attempt : ℕ) (o : Result Exception Value) (rest : Run)
      → c.call attempt ≡ o
      → IsSettled c (suc attempt) (attempt + suc left) rest
      → IsSettled c attempt (attempt + suc left) (settled c (suc left) attempt o rest)
  settled-IsSettled left attempt (ok v) rest same h =
      stop attempt (attempt + suc left) (ok v) same (omega arith) (inr tt)
  settled-IsSettled left attempt (err e) rest same h =
      elim (Bool-cases (is_retryable_mcp_error c e)) [
        | inl again ↦ simp again (
            retried-IsSettled attempt (attempt + suc left) rest (omega arith)
              (same-Retryable (c.call attempt) (err e) same again) h)
        | inr final ↦
            simp final (stop attempt (attempt + suc left) (err e) same (omega arith) (inr final))
      ]

  sum-IsSettled :
      (first last other : ℕ) (r : Run)
      → last ≡ other
      → IsSettled c first last r
      → IsSettled c first other r
  sum-IsSettled first last other r same h = rw same at h

  attempts_from-IsSettled :
      (left attempt : ℕ) → IsSettled c attempt (attempt + left) (attempts_from c (suc left) attempt)
  unfolding attempts_from
  attempts_from-IsSettled zero attempt =
      last-IsSettled attempt (c.call attempt) (attempts_from c zero (suc attempt)) refl
  attempts_from-IsSettled (suc left) attempt =
      settled-IsSettled left attempt (c.call attempt) (attempts_from c (suc left) (suc attempt))
        refl
        (sum-IsSettled (suc attempt) (suc attempt + left) (attempt + suc left) _ (omega arith)
          (attempts_from-IsSettled left (suc attempt)))

-- A read is requested once to three times, and again only after an error that is retryable. It ends
-- with what the last request gave, which is a result, an error that is not retryable or the third
-- outcome, or with an error that opening the session again raised, where no caller was given.
pub call_mcp_read_tool-IsSettled : (c : Client) → IsSettled c 0 2 (call_mcp_read_tool c)
unfolding call_mcp_read_tool
call_mcp_read_tool-IsSettled c = attempts_from-IsSettled c 2 0

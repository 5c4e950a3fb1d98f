-- ===== src/RateLimiter/Window.antt =====
-- The deque and the window: dropping from the front keeps what lies in the window.
use iot_ops_agent.Prelude.{ℕ, ◌+◌, ◌≤◌, ◌≡◌, refl, List, [], ◌∷◌, ◌++◌, arith, select, ltb, true}
use iot_ops_agent.RateLimiter.{expire}

-- Times that never fall, none after `hi`.
abbrev pub Rising : ℕ → List ℕ → ℕ → Type 0
Rising lo [] hi = lo ≤ hi
Rising lo (x ∷ xs) hi = (lo ≤ x) × Rising x xs hi

pub Rising-le : (lo : ℕ) (xs : List ℕ) (hi : ℕ) → Rising lo xs hi → lo ≤ hi
Rising-le lo [] hi h = h
Rising-le lo (x ∷ xs) hi (h, hs) = omega (arith, Rising-le x xs hi hs)

pub Rising-later :
    (lo : ℕ) (xs : List ℕ) (hi hi' : ℕ) → hi ≤ hi' → Rising lo xs hi → Rising lo xs hi'
Rising-later lo [] hi hi' w h = omega arith
Rising-later lo (x ∷ xs) hi hi' w (h, hs) = (h, Rising-later x xs hi hi' w hs)

pub Rising-append :
    (lo : ℕ) (xs : List ℕ) (hi now : ℕ)
    → hi ≤ now
    → Rising lo xs hi
    → Rising lo (xs ++ now ∷ []) now
Rising-append lo [] hi now w h = (omega arith, omega arith)
Rising-append lo (x ∷ xs) hi now w (h, hs) = (h, Rising-append x xs hi now w hs)

module _ (window : ℕ) where
  -- Dropping more later drops the same as dropping at once, whatever was added behind.
  pub expire-expire :
      (now later : ℕ) (xs ys : List ℕ)
      → now ≤ later
      → expire window later (expire window now xs ++ ys) ≡ expire window later (xs ++ ys)
  unfolding expire
  expire-expire now later [] ys h = refl
  expire-expire now later (x ∷ xs) ys h = ground (arith, expire-expire now later xs ys h)

  pub expire_twice :
      (now later : ℕ) (xs : List ℕ)
      → now ≤ later
      → expire window later (expire window now xs) ≡ expire window later xs
  unfolding expire
  expire_twice now later [] h = refl
  expire_twice now later (x ∷ xs) h = ground (arith, expire_twice now later xs h)

  -- The times after `now - window`.
  abbrev pub in_window : ℕ → List ℕ → List ℕ
  in_window now xs = select (λ t. ltb now (t + window)) xs

  in_window_all :
      (now lo : ℕ) (xs : List ℕ) (hi : ℕ)
      → ltb now (lo + window) ≡ true
      → Rising lo xs hi
      → in_window now xs ≡ xs
  in_window_all now lo [] hi w h = refl
  in_window_all now lo (x ∷ xs) hi w (h, hs) =
      ground (arith, in_window_all now x xs hi (ground arith) hs)

  pub expire-eq-in_window :
      (now lo : ℕ) (xs : List ℕ) (hi : ℕ)
      → Rising lo xs hi
      → expire window now xs ≡ in_window now xs
  unfolding expire
  expire-eq-in_window now lo [] hi h = refl
  expire-eq-in_window now lo (x ∷ xs) hi (h, hs) =
      ground (arith, expire-eq-in_window now x xs hi hs, in_window_all now x xs hi)

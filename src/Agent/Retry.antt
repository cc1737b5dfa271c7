-- ===== src/Agent/Retry.antt =====
-- How often a session asks for a connection before it gives up.
use netcwmp_xo.Base.{
  ℕ, zero, suc, ◌+◌, ◌*◌, ◌≤◌, ◌<◌, ◌≡◌, refl, sym, ap, ◌∙◌, true, false, some, List, [], ◌∷◌,
  arith, length, cwmp_ok, cwmp_timeout,
}
use netcwmp_xo.Agent.{
  Agent, World, Status, st_start, st_retry, st_exit, step_at, retry, retried, retry_session, exit,
  run, max_session_retry,
}

-- The outside refuses the connection in each of its rounds.
abbrev pub AreUnreachable : List World → Type 0
AreUnreachable [] = Unit {0}
AreUnreachable (w ∷ ws) = (w.connected ≡ false) × AreUnreachable ws

-- A session in the given state, with its count of retries
abbrev at : Agent → Status → ℕ → Agent
at a st n = record a { status = st; retry_count = n }

at_start : (a : Agent) → a.status ≡ st_start → a.retry_count ≡ 0 → a ≡ at a st_start 0
at_start a st n = rw (sym st, sym n) refl

retry_session-below : (n : ℕ) → n ≤ max_session_retry → retry_session n ≡ (cwmp_ok, n + 1)
unfolding retry_session
retry_session-below n h = ground arith

retry_session-above : (n : ℕ) → max_session_retry < n → retry_session n ≡ (cwmp_timeout, 0)
unfolding retry_session
retry_session-above n h = ground arith

pub retry_below :
    (a : Agent) (n : ℕ) → n ≤ max_session_retry → retry (at a st_retry n) ≡ at a st_start (n + 1)
unfolding retry retried
retry_below a n h = ap (λ r. retried r (at a st_retry n)) (retry_session-below n h)

pub retry_above :
    (a : Agent) (n : ℕ) → max_session_retry < n → retry (at a st_retry n) ≡ at a st_exit 0
unfolding retry retried
retry_above a n h = ap (λ r. retried r (at a st_retry n)) (retry_session-above n h)

module _ (a : Agent) (still : a.closed ≡ false) (once : a.reconnect ≡ false) where
  -- The session when it has given up
  abbrev given_up : Agent
  given_up = record a { status = st_exit; retry_count = 0; closed = true }

  refused :
      (w : World) (ws : List World) (n : ℕ)
      → w.connected ≡ false
      → run (w ∷ ws) (at a st_start n) ≡ run ws (at a st_retry n)
  unfolding step_at run
  refused w ws n h = rw (still, h) refl

  tried :
      (w : World) (ws : List World) (n : ℕ)
      → n ≤ max_session_retry
      → run (w ∷ ws) (at a st_retry n) ≡ run ws (at a st_start (n + 1))
  unfolding step_at run
  tried w ws n h = rw (retry_below a n h, still) refl

  tired :
      (w : World) (ws : List World) (n : ℕ)
      → max_session_retry < n
      → run (w ∷ ws) (at a st_retry n) ≡ run ws (at a st_exit 0)
  unfolding step_at run
  tired w ws n h = rw (retry_above a n h, still) refl

  left : (w : World) (ws : List World) → run (w ∷ ws) (at a st_exit 0) ≡ some given_up
  unfolding step_at run exit
  left w [] = rw (still, once) refl
  left w (v ∷ ws) = rw (still, once) refl

  -- With `k` retries left, so many rounds are enough.
  gives_up :
      (k n : ℕ) (ws : List World)
      → AreUnreachable ws
      → n + k ≡ max_session_retry + 1
      → 2 * k + 3 ≤ length ws
      → run ws (at a st_start n) ≡ some given_up
  gives_up k n [] u h l = absurd (omega arith)
  gives_up k n (v ∷ []) u h l = absurd (omega arith)
  gives_up zero n (v ∷ w ∷ []) u h l = absurd (omega arith)
  gives_up zero n (v ∷ w ∷ x ∷ ws) u h l =
      refused v (w ∷ x ∷ ws) n u.0 ∙ tired w (x ∷ ws) n (omega arith) ∙ left x ws
  gives_up (suc k) n (v ∷ w ∷ ws) u h l =
      refused v (w ∷ ws) n u.0
      ∙ tried w ws n (omega arith)
      ∙ gives_up k (n + 1) ws u.1.1 (omega arith) (omega arith)

-- A session that is not to reconnect asks an ACS that is out of reach five times: after 11 rounds
-- or more the loop is left, the count of retries starts again at 0, and nothing else has changed,
-- so no event is lost.
pub unreachable_gives_up :
    (a : Agent) (ws : List World)
    → a.status ≡ st_start
    → a.closed ≡ false
    → a.reconnect ≡ false
    → a.retry_count ≡ 0
    → AreUnreachable ws
    → 11 ≤ length ws
    → run ws a ≡ some (record a { status = st_exit; retry_count = 0; closed = true })
unreachable_gives_up a ws st still once n u l =
    ap (λ b. run ws b) (at_start a st n) ∙ gives_up a still once 4 0 ws u refl l

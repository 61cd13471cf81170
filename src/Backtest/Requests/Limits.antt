-- ===== src/Backtest/Requests/Limits.antt =====
-- The limiter spaces the requests.
use hyperliquid_rust_bot.Prelude.{ℕ, ◌+◌, ◌≤◌, ◌≡◌, subst, List, [], ◌∷◌, Option, none, some, arith}
use hyperliquid_rust_bot.Backtest.Requests.{RequestLimiter, acquire}

abbrev pub waited : Option ℕ → ℕ
waited none = 0
waited (some wait) = wait

-- When the requests that come at these times are let through, one after the other.
abbrev pub let_through : RequestLimiter → List ℕ → List ℕ
unfolding acquire
let_through l [] = []
let_through l (now ∷ rest) =
    let (next, wait) = acquire now l in (now + waited wait) ∷ let_through next rest

-- Each time is no earlier than the bound, which lies an interval after the time before it.
abbrev pub Spaced : (interval bound : ℕ) → List ℕ → Type 0
Spaced interval bound [] = Unit
Spaced interval bound (t ∷ ts) = (bound ≤ t) × Spaced interval (t + interval) ts

acquire_lem :
    (now : ℕ) (l : RequestLimiter)
    → let (next, wait) = acquire now l in
      (next.interval ≡ l.interval)
      × (next.next_allowed ≡ now + waited wait + l.interval)
      × (l.next_allowed ≤ now + waited wait)
unfolding acquire
acquire_lem now l = ground arith

-- However the requests come in, the limiter lets the first one through no earlier than allowed, and each
-- further one at least an interval after the one before it.
pub let_through-Spaced :
    (l : RequestLimiter) (nows : List ℕ) → Spaced l.interval l.next_allowed (let_through l nows)
unfolding acquire
let_through-Spaced l [] = tt
let_through-Spaced l (now ∷ rest) =
    let (same, next, ready) = acquire_lem now l in
    (
      ready,
      subst
          (λ i.
            Spaced i (now + waited (acquire now l).1 + l.interval)
              (let_through (acquire now l).0 rest))
          same
          (subst (λ b. Spaced (acquire now l).0.interval b (let_through (acquire now l).0 rest))
            next (let_through-Spaced (acquire now l).0 rest)),
    )

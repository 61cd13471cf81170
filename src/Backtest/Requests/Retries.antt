-- ===== src/Backtest/Requests/Retries.antt =====
-- The retries of a request.
use Prim.Native.String.{String}
use native.Mathlib.Nat.{one-le-pow}
use hyperliquid_rust_bot.Prelude.{
  ℕ, min, zero, suc, ◌+◌, ◌≤◌, ◌<◌, ◌≡◌, refl, ◌∙◌, ap, Bool, true, not, Bool-cases, inl, inr, ◌==◌,
  ◌&&◌, Option, none, some, [], All, length, Result, ok, arith,
}
use hyperliquid_rust_bot.Backtest.Requests.{
  HttpAnswer, transport_error, answer, Requested, retry_delay_for_attempt, Attempt, answered, retry,
  judge, attempts, request_body, is_success, should_retry, retry_after_ms, slept, RequestError,
}

retry_delay_bounds :
    (nanos attempt : ℕ) (after : Option ℕ)
    → let d = retry_delay_for_attempt nanos attempt (retry_after_ms after) in
      (500 ≤ d) × (d ≤ 120_000)
unfolding retry_delay_for_attempt
retry_delay_bounds nanos attempt none =
    (omega (arith, one-le-pow (min attempt 8) 2 (omega arith)), omega arith)
retry_delay_bounds nanos attempt (some secs) = ground arith

judge-retry :
    (nanos attempt : ℕ) (a : HttpAnswer) (d : ℕ)
    → judge nanos attempt a ≡ retry d
    → (attempt < 5) × (500 ≤ d) × (d ≤ 120_000)
unfolding judge
judge-retry nanos attempt transport_error d e = grind (arith, retry_delay_bounds nanos attempt none)
judge-retry nanos attempt (answer status after body) d e =
    grind (arith, retry_delay_bounds nanos attempt after)

-- The requests that are sent, and the delays between them.
abbrev pub IsBounded : (left attempt : ℕ) → Requested → Type 0
IsBounded left attempt r =
    (attempt + length r.delays + 1 ≡ r.sent)
    × (r.sent ≤ attempt + left)
    × All (λ d. (500 ≤ d) × (d ≤ 120_000)) r.delays

attempts-answered :
    (nanos : ℕ → ℕ) (server : ℕ → HttpAnswer) (left attempt : ℕ) (r : Result RequestError String)
    → judge (nanos attempt) attempt (server attempt) ≡ answered r
    → attempts nanos server (suc left) attempt
      ≡ record { result = r; sent = suc attempt; delays = [] }
unfolding attempts
attempts-answered nanos server left attempt r e = rw (e, attempts) refl

attempts-retry :
    (nanos : ℕ → ℕ) (server : ℕ → HttpAnswer) (left attempt d : ℕ)
    → judge (nanos attempt) attempt (server attempt) ≡ retry d
    → attempts nanos server (suc left) attempt ≡ slept d (attempts nanos server left (suc attempt))
unfolding attempts
attempts-retry nanos server left attempt d e = rw (e, attempts) refl

-- The rounds that are left are those to the sixth.
attempts-IsBounded :
    (nanos : ℕ → ℕ) (server : ℕ → HttpAnswer) (left attempt : ℕ)
    → attempt + left ≡ 5
    → IsBounded (suc left) attempt (attempts nanos server (suc left) attempt)
attempts-IsBounded nanos server zero attempt h =
    by_verdict (judge (nanos attempt) attempt (server attempt)) refl
  where
    by_verdict :
        (v : Attempt)
        → judge (nanos attempt) attempt (server attempt) ≡ v
        → IsBounded 1 attempt (attempts nanos server 1 attempt)
    by_verdict (answered r) e =
        rw (attempts-answered nanos server 0 attempt r e) (omega arith, omega arith, tt)
    by_verdict (retry d) e =
        let (lt, _, _) = judge-retry (nanos attempt) attempt (server attempt) d e in
        let bad : ⊥ = omega (arith, lt, h) in elim bad [ ]
attempts-IsBounded nanos server (suc left) attempt h =
    by_verdict (attempts-IsBounded nanos server left (suc attempt) (omega (arith, h)))
      (judge (nanos attempt) attempt (server attempt)) refl
  where
    by_verdict :
        IsBounded (suc left) (suc attempt) (attempts nanos server (suc left) (suc attempt))
        → (v : Attempt) → judge (nanos attempt) attempt (server attempt) ≡ v
        → IsBounded (suc (suc left)) attempt (attempts nanos server (suc (suc left)) attempt)
    by_verdict (count, few, apart) (answered r) e =
        rw (attempts-answered nanos server (suc left) attempt r e) (omega arith, omega arith, tt)
    by_verdict (count, few, apart) (retry d) e =
        let (_, lo, hi) = judge-retry (nanos attempt) attempt (server attempt) d e in
        rw (attempts-retry nanos server (suc left) attempt d e)
          (omega (arith, count), omega (arith, few), ((lo, hi), apart))

-- `request_body` sends one to six requests and sleeps once between two of them, each time for half a
-- second to two minutes.
pub request_body_bounds :
    (nanos : ℕ → ℕ) (server : ℕ → HttpAnswer) → IsBounded 6 0 (request_body nanos server)
unfolding request_body
request_body_bounds nanos server = attempts-IsBounded nanos server 5 0 refl

-- The answer has the code try again.
abbrev pub is_retriable : HttpAnswer → Bool
is_retriable transport_error = true
is_retriable (answer status _ _) = not (is_success status) && should_retry status

judge-retriable :
    (nanos attempt : ℕ) (a : HttpAnswer)
    → is_retriable a ≡ true
    → attempt < 5
    → (d : ℕ) × (judge nanos attempt a ≡ retry d)
unfolding judge
judge-retriable nanos attempt transport_error h lt =
    (retry_delay_for_attempt nanos attempt none, ground arith)
judge-retriable nanos attempt (answer status after body) h lt =
    (retry_delay_for_attempt nanos attempt (retry_after_ms after), grind arith)

judge-success :
    (nanos attempt status : ℕ) (after : Option ℕ) (body : String)
    → is_success status ≡ true
    → judge nanos attempt (answer status after (some body)) ≡ answered (ok body)
unfolding judge
judge-success nanos attempt status after body h = rw (h) refl

success_now :
    (nanos : ℕ → ℕ) (server : ℕ → HttpAnswer) (left attempt status : ℕ) (after : Option ℕ)
    (body : String)
    → server attempt ≡ answer status after (some body)
    → is_success status ≡ true
    → (attempts nanos server (suc left) attempt).result ≡ ok body
success_now nanos server left attempt status after body good s =
    ap (λ r. r.result)
      (attempts-answered nanos server left attempt (ok body) (
        ap (judge (nanos attempt) attempt) good
        ∙ judge-success (nanos attempt) attempt status after body s))

attempts-success :
    (nanos : ℕ → ℕ) (server : ℕ → HttpAnswer) (left attempt k status : ℕ) (after : Option ℕ)
    (body : String)
    → attempt + left ≡ 5
    → attempt ≤ k
    → k ≤ 5
    → ((j : ℕ) → j < k → is_retriable (server j) ≡ true)
    → server k ≡ answer status after (some body)
    → is_success status ≡ true
    → (attempts nanos server (suc left) attempt).result ≡ ok body
attempts-success nanos server zero attempt k status after body h from le failing good s =
    let same : attempt ≡ k = omega (arith, h, from, le) in
    success_now nanos server 0 attempt status after body (ap server same ∙ good) s
attempts-success nanos server (suc left) attempt k status after body h from le failing good s =
    elim (Bool-cases (attempt == k)) [
      | inl here ↦
          let same : attempt ≡ k = ground arith in
          success_now nanos server (suc left) attempt status after body (ap server same ∙ good) s
      | inr later ↦
          let before : attempt < k = ground arith in
          let (d, e) =
            judge-retriable (nanos attempt) attempt (server attempt) (failing attempt before)
              (omega (arith, h)) in
          ap (λ r. r.result) (attempts-retry nanos server (suc left) attempt d e)
          ∙ attempts-success nanos server left (suc attempt) k status after body (omega (arith, h))
              before le failing good s
    ]

-- If one of the first six answers is a success whose body can be read, and those before it are failures
-- that may pass, `request_body` returns that body.
pub request_body-success :
    (nanos : ℕ → ℕ) (server : ℕ → HttpAnswer) (k status : ℕ) (after : Option ℕ) (body : String)
    → k ≤ 5
    → ((j : ℕ) → j < k → is_retriable (server j) ≡ true)
    → server k ≡ answer status after (some body)
    → is_success status ≡ true
    → (request_body nanos server).result ≡ ok body
unfolding request_body
request_body-success nanos server k status after body le failing good s =
    attempts-success nanos server 5 0 k status after body refl (omega arith) le failing good s

-- ===== src/Backtest/Requests.antt =====
-- src/backtest/fetcher.rs: `RequestLimiter`, and `request_body` with its retries. The answers of the
-- server, the clock and the fraction of a second that the jitter is made of are parameters.
pub mod Limits
pub mod Retries
use Prim.Native.String.{String}
use hyperliquid_rust_bot.Prelude.{
  ℕ, zero, suc, ◌+◌, ◌-◌, ◌*◌, ◌%◌, ◌^◌, Bool, ◌&&◌, ◌||◌, Option, none, some, List, [], ◌∷◌, ◌++◌,
  min, max, ltb, leb, ◌==◌, if◌then◌else◌, Result, ok, err,
}
use hyperliquid_rust_bot.Prelude.Words.{saturating_add, saturating_mul}

-- Times in nanoseconds.
pub record RequestLimiter : Type 0 where
  pub interval : ℕ
  pub next_allowed : ℕ

-- The limiter after a request at `now`, and how long the request waits.
unfoldable pub acquire : (now : ℕ) → RequestLimiter → RequestLimiter × Option ℕ
acquire now l =
    if leb l.next_allowed now
    then (record l { next_allowed = now + l.interval }, none)
    else (record l { next_allowed = l.next_allowed + l.interval }, some (l.next_allowed - now))

abbrev pub max_http_retries : ℕ
max_http_retries = 5

abbrev pub retry_base_delay_ms : ℕ
retry_base_delay_ms = 500

abbrev pub retry_max_delay_ms : ℕ
retry_max_delay_ms = 20_000

abbrev pub retry_jitter_ms : ℕ
retry_jitter_ms = 250

-- What the server answers: nothing, or a status, the seconds of its Retry-After header and the body, if
-- that can be read.
pub data HttpAnswer : Type 0 where
  transport_error : HttpAnswer
  answer : (status : ℕ) → (retry_after : Option ℕ) → (body : Option String) → HttpAnswer

pub data RequestError : Type 0 where
  no_answer unreadable_body no_attempt : RequestError
  bad_status : ℕ → RequestError

-- `parse_retry_after_header`, in milliseconds.
abbrev pub retry_after_ms : Option ℕ → Option ℕ
retry_after_ms none = none
retry_after_ms (some secs) = some (max 1 (min secs 120) * 1000)

abbrev pub jitter_ms : (nanos max_ms : ℕ) → ℕ
jitter_ms nanos max_ms = if max_ms == 0 then 0 else nanos % max_ms

unfoldable pub retry_delay_for_attempt : (nanos attempt : ℕ) → Option ℕ → ℕ
retry_delay_for_attempt nanos attempt (some delay) = delay
retry_delay_for_attempt nanos attempt none =
    saturating_add (min (saturating_mul retry_base_delay_ms (2 ^ min attempt 8)) retry_max_delay_ms)
      (jitter_ms nanos retry_jitter_ms)

abbrev pub is_success : ℕ → Bool
is_success status = leb 200 status && ltb status 300

abbrev pub should_retry : ℕ → Bool
should_retry status = (status == 429) || (leb 500 status && ltb status 600)

pub data Attempt : Type 0 where
  answered : Result RequestError String → Attempt
  retry : (delay_ms : ℕ) → Attempt

abbrev pub read_body : Option String → Result RequestError String
read_body none = err unreadable_body
read_body (some body) = ok body

-- One round of the loop.
unfoldable pub judge : (nanos attempt : ℕ) → HttpAnswer → Attempt
unfolding retry_delay_for_attempt
judge nanos attempt transport_error =
    if ltb attempt max_http_retries
    then retry (retry_delay_for_attempt nanos attempt none)
    else answered (err no_answer)
judge nanos attempt (answer status retry_after body) =
    if is_success status
    then answered (read_body body)
    else if should_retry status && ltb attempt max_http_retries
    then retry (retry_delay_for_attempt nanos attempt (retry_after_ms retry_after))
    else answered (err (bad_status status))

-- The result, the number of requests sent, and the delays slept between them.
pub record Requested : Type 0 where
  pub result : Result RequestError String
  pub sent : ℕ
  pub delays : List ℕ

abbrev pub slept : ℕ → Requested → Requested
slept delay r = record r { delays = delay ∷ r.delays }

-- `for attempt in ..`, with the rounds that are left.
unfoldable pub attempts :
    (nanos : ℕ → ℕ) → (server : ℕ → HttpAnswer) → (left attempt : ℕ) → Requested
unfolding judge
attempts nanos server zero attempt = record { result = err no_attempt; sent = attempt; delays = [] }
attempts nanos server (suc left) attempt = elim (judge (nanos attempt) attempt (server attempt)) [
  | answered r ↦ record { result = r; sent = suc attempt; delays = [] }
  | retry delay ↦ slept delay (attempts nanos server left (suc attempt))
]

unfoldable pub request_body : (nanos : ℕ → ℕ) → (server : ℕ → HttpAnswer) → Requested
unfolding attempts
request_body nanos server = attempts nanos server (suc max_http_retries) 0

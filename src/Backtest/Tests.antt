-- ===== src/Backtest/Tests.antt =====
-- The theorems on src/backtest at concrete files and answers.
use hyperliquid_rust_bot.Prelude.{
  Bool, false, ℕ, ◌+◌, ◌<◌, ◌≡◌, refl, subst, ap, ◌||◌, true, none, some, List, [], ◌∷◌, All,
  Result, ok, err, arith, ◌==◌, if◌then◌else◌,
}
use hyperliquid_rust_bot.Prelude.Int.{pos}
use hyperliquid_rust_bot.Prelude.Words.{u64_max}
use hyperliquid_rust_bot.Prelude.Maps.{nat_eq, mem}
use hyperliquid_rust_bot.Float.{Sample, num, sample_float}
use hyperliquid_rust_bot.Price.{Price, times}
use hyperliquid_rust_bot.TimeFrame.{min1, min3, day3}
use mathlib.Core.List.{Perm}
use hyperliquid_rust_bot.Backtest.CandleStore.{
  MissingSegment, written, CacheLookup, find_missing, lookup_range, insert_many,
}
use hyperliquid_rust_bot.Backtest.CandleStore.Missing.{
  Exact, IsCount, IsLookup, find_missing_lem, lookup_range_lem,
}
use hyperliquid_rust_bot.Backtest.CandleStore.Insert.{
  IsIncreasing, IsDistinct, IsIncreasing-insert_many,
}
use hyperliquid_rust_bot.Backtest.CandleStore.Merged.{candles_at, insert_many_lem}
use hyperliquid_rust_bot.Backtest.Source.{
  htx, binance, spot, futures, DataSource, FetchError, IntervalPlan, interval_plan,
}
use hyperliquid_rust_bot.Backtest.Source.Plans.{IsPlan, interval_plan_lem}
use hyperliquid_rust_bot.Backtest.Ranges.Laws.{IsWhole}
use hyperliquid_rust_bot.Backtest.Pages.{Exchanges}
use hyperliquid_rust_bot.Backtest.Pages.Turns.{IsDated}
use hyperliquid_rust_bot.Backtest.Aggregate.{aggregate_prices}
use hyperliquid_rust_bot.Backtest.Aggregate.Grouping.{buckets_of, aggregate_prices_lem}
use hyperliquid_rust_bot.Backtest.Fetcher.{
  Segment, Session, World, fetch_segment, fetch_with_progress,
}
use hyperliquid_rust_bot.Backtest.Fetcher.Segments.{IsOrdered, fetch_segment_lem}
use hyperliquid_rust_bot.Backtest.Fetcher.Store.{IsSafe}
use hyperliquid_rust_bot.Backtest.Fetcher.Whole.{Answer, fetch_with_progress_lem}
use hyperliquid_rust_bot.Backtest.Requests.{HttpAnswer, answer, request_body}
use hyperliquid_rust_bot.Backtest.Requests.Limits.{Spaced, let_through, let_through-Spaced}
use hyperliquid_rust_bot.Backtest.Requests.Retries.{
  IsBounded, is_retriable, request_body_bounds, request_body-success,
}

abbrev candle : ℕ → Price Sample
candle t = record {
  open_px = num (pos 10);
  high = num (pos 12);
  low = num (pos 9);
  close_px = num (pos 11);
  open_time = t;
  close_time = t + 60_000;
  vlm = num (pos 1);
}

-- A file of three candles of a minute, with a gap after the first.
abbrev file : List (Price Sample)
file = candle 60_000 ∷ candle 180_000 ∷ candle 240_000 ∷ []

abbrev two_new : List (Price Sample)
two_new = candle 180_000 ∷ candle 120_000 ∷ []

file-IsIncreasing : IsIncreasing file
file-IsIncreasing = ground arith

new-IsDistinct : IsDistinct two_new
unfolding mem
new-IsDistinct = (refl, (refl, tt))

-- A sort that puts the later candle of one time first.
abbrev new_first : Price Sample → Price Sample → Bool
new_first p q = false

find_missing_example :
    (missing : List MissingSegment) × (count : ℕ) × (find_missing file 60_000 300_000 60_000
      ≡ some (missing, count))
    × Exact file 60_000 300_000 60_000 missing
    × IsCount file 60_000 300_000 count
find_missing_example = find_missing_lem file 60_000 300_000 60_000 (omega arith) (omega arith)

lookup_range_example :
    (l : CacheLookup Sample) × (lookup_range file 60_000 300_000 60_000 ≡ some l)
    × IsLookup file 60_000 300_000 60_000 l
lookup_range_example = lookup_range_lem file 60_000 300_000 60_000 (omega arith) (omega arith)

IsIncreasing-insert_many_example : IsIncreasing (insert_many (written new_first) file two_new)
IsIncreasing-insert_many_example =
    IsIncreasing-insert_many new_first file two_new file-IsIncreasing new-IsDistinct

insert_many_example :
    Perm
      (candles_at 120_000 (insert_many (written new_first) file two_new))
      (if mem (times file) 120_000 then candles_at 120_000 file else candles_at 120_000 two_new)
    × (mem (times (insert_many (written new_first) file two_new)) 120_000
        ≡ mem (times file) 120_000 || mem (times two_new) 120_000)
insert_many_example = insert_many_lem new_first file two_new 120_000

abbrev htx_spot : DataSource
htx_spot = record { exchange = htx; market = spot; quote_asset = "USDT" }

abbrev binance_futures : DataSource
binance_futures = record { exchange = binance; market = futures; quote_asset = "USDT" }

interval_plan_example :
    (p : IntervalPlan) × (interval_plan htx_spot day3 ≡ ok p) × IsPlan htx_spot day3 p
interval_plan_example = interval_plan_lem htx_spot day3

abbrev whole : IsWhole 70_000 290_000 60_000 (60_000, 300_000)
whole = record {
  first = 1;
  last = 5;
  begins = refl;
  ends = refl;
  nonempty = omega arith;
  from_start = omega arith;
  near_start = omega arith;
  to_end = omega arith;
  near_end = omega arith;
}

aggregate_prices_example :
    IsIncreasing (aggregate_prices file 180_000)
    × ((t : ℕ) → mem (times (aggregate_prices file 180_000)) t ≡ mem (buckets_of 180_000 file) t)
aggregate_prices_example = aggregate_prices_lem file 180_000 (omega arith) file-IsIncreasing

-- An exchange that always answers with one candle.
abbrev one_candle : Exchanges Sample
one_candle tick start end = ok (candle 120_000 ∷ [])

one_candle-IsDated : IsDated one_candle
one_candle-IsDated tick start end ps e =
    subst (All (λ p. p.open_time < u64_max)) (ap value e) (omega arith, tt)
  where
    value : Result FetchError (List (Price Sample)) → List (Price Sample)
    value (ok page) = page
    value (err x) = ps

fetch_segment_example :
    (g : Segment Sample) × (fetch_segment one_candle htx_spot min3 0 60_000 300_000 ≡ some g)
    × IsOrdered g.result
fetch_segment_example =
    fetch_segment_lem one_candle htx_spot min3 0 60_000 300_000 one_candle-IsDated

abbrev world : World Sample
world = record { exchanges = one_candle; write_outcome = λ n. written new_first }

abbrev session : Session Sample
session = record { file = file; tick = 0; writes = 0; loaded = 0; progress = []; sent = [] }

world-IsSafe : IsSafe world
world-IsSafe = (one_candle-IsDated, λ n. ground arith)

fetch_with_progress_example :
    (r : Result FetchError (List (Price Sample)) × Session Sample) × (fetch_with_progress world
        binance_futures "BTC" min1 900_000 60_000 300_000 session
      ≡ some r)
    × Answer "BTC" min1 900_000 60_000 300_000 session r
fetch_with_progress_example =
    fetch_with_progress_lem world binance_futures "BTC" min1 900_000 60_000 300_000 session
      world-IsSafe file-IsIncreasing

let_through-Spaced_example :
    Spaced 100 0 (let_through (record { interval = 100; next_allowed = 0 }) (5 ∷ 6 ∷ 7 ∷ []))
let_through-Spaced_example =
    let_through-Spaced (record { interval = 100; next_allowed = 0 }) (5 ∷ 6 ∷ 7 ∷ [])

-- A server that fails once.
abbrev fails_once : ℕ → HttpAnswer
fails_once n = if n == 0 then answer 503 none none else answer 200 none (some "[]")

request_body_bounds_example : IsBounded 6 0 (request_body (λ n. 0) fails_once)
request_body_bounds_example = request_body_bounds (λ n. 0) fails_once

fails_once_first : (j : ℕ) → j < 1 → is_retriable (fails_once j) ≡ true
fails_once_first j h = ground arith

request_body-success_example : (request_body (λ n. 0) fails_once).result ≡ ok "[]"
request_body-success_example =
    request_body-success (λ n. 0) fails_once 1 200 none "[]" (omega arith) fails_once_first refl
      refl

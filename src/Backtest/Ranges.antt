-- ===== src/Backtest/Ranges.antt =====
-- src/backtest/fetcher.rs: the range of a request, in whole intervals.
pub mod Laws
use hyperliquid_rust_bot.Prelude.{ℕ, ◌+◌, ◌-◌, ◌/◌, ◌%◌, min, max, leb, ◌==◌, if◌then◌else◌}
use hyperliquid_rust_bot.Prelude.Words.{saturating_add, saturating_mul}

unfoldable pub div_ceil : (value divisor : ℕ) → ℕ
div_ceil value divisor =
    if divisor == 0 then 0 else value / divisor + (if value % divisor == 0 then 0 else 1)

unfoldable pub normalize_range : (start_ms end_ms candle_interval_ms : ℕ) → ℕ × ℕ
unfolding div_ceil
normalize_range start_ms end_ms interval =
    let start = start_ms - start_ms % interval in
    (
      start,
      max (saturating_add start interval) (saturating_mul (div_ceil end_ms interval) interval),
    )

unfoldable pub estimate_points_in_range : (start end step : ℕ) → ℕ
unfolding div_ceil
estimate_points_in_range start end step =
    if leb end start then 0 else max 1 (div_ceil (end - start) step)

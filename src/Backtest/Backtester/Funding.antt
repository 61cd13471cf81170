-- ===== src/Backtest/Backtester/Funding.antt =====
-- src/backtest/backtester.rs: the funding that an open position pays or gets every eight hours.
pub mod Due
use hyperliquid_rust_bot.Prelude.{
  ℕ, zero, suc, ◌+◌, ◌*◌, Bool, true, false, not, ◌&&◌, Option, none, some, leb, if◌then◌else◌,
}
use hyperliquid_rust_bot.Prelude.Words.{saturating_add}
use hyperliquid_rust_bot.Float.{Float}
use hyperliquid_rust_bot.Price.{Price}
use hyperliquid_rust_bot.Exec.Types.{Side, long, short}
use hyperliquid_rust_bot.Backtest.Backtester.State.{PositionState, Backtester, next_time_boundary}

abbrev pub funding_window_ms : ℕ
funding_window_ms = 8 * 60 * 60 * 1000

module _ {F : Type 0} ⦃f : Float F⦄ where
  abbrev pub signed : Side → F
  signed long = f.neg (f.of_nat 1)
  signed short = f.of_nat 1

  -- What the position gets at one funding time.
  abbrev pub funding_for : PositionState F → (rate_bps open_px : F) → F
  funding_for p rate_bps open_px =
      f.mul (f.mul (f.mul p.size open_px) (f.div rate_bps (f.of_nat 10_000))) (signed p.side)

module _ {F I V K S : Type 0} ⦃f : Float F⦄ where
  abbrev pub fund_position :
      Option (PositionState F) → F → Backtester F I V K S → Backtester F I V K S
  fund_position none open_px b = b
  fund_position (some p) open_px b =
      let rate_bps = b.config.funding_rate_bps_per_8h in
      let funding = funding_for p rate_bps open_px in
      if f.eq rate_bps (f.of_nat 0) then b else record b {
        position = some (record p { funding = f.add p.funding funding });
        balance = f.add b.balance funding;
      }

  -- The loop, with the next funding time; `none` if the fuel runs out.
  unfoldable pub fund_until :
      (fuel : ℕ) → Price F → (next : ℕ) → Backtester F I V K S → Option (ℕ × Backtester F I V K S)
  fund_until zero candle next b = none
  fund_until (suc fuel) candle next b =
      let rest =
        fund_until fuel candle (saturating_add next funding_window_ms)
          (fund_position b.position candle.open_px b) in
      if leb next candle.open_time then rest else some (next, b)

  abbrev pub funded : Option (ℕ × Backtester F I V K S) → Option (Backtester F I V K S)
  funded none = none
  funded (some (next, b)) = some (record b { next_funding_time = some next })

  abbrev pub fund_from : Option ℕ → Price F → Backtester F I V K S → Option (Backtester F I V K S)
  unfolding fund_until
  fund_from none candle b = some b
  fund_from (some next) candle b = funded (fund_until (suc (suc candle.open_time)) candle next b)

  unfoldable pub apply_funding_if_due :
      Price F → Backtester F I V K S → Option (Backtester F I V K S)
  unfolding fund_from
  apply_funding_if_due candle b = fund_from b.next_funding_time candle b

  unfoldable pub init_funding : ℕ → Backtester F I V K S → Backtester F I V K S
  unfolding next_time_boundary
  init_funding first_ts b = record b {
    next_funding_time = some (next_time_boundary first_ts funding_window_ms);
  }

-- ===== src/Backtest/Backtester/Liquidation.antt =====
-- src/backtest/backtester.rs: the price at which a position is liquidated.
use hyperliquid_rust_bot.Prelude.{Bool, ◌&&◌, ◌||◌, Option, none, some, if◌then◌else◌}
use hyperliquid_rust_bot.Float.{Float}
use hyperliquid_rust_bot.Price.{Price}
use hyperliquid_rust_bot.Exec.Types.{Side, long, short}
use hyperliquid_rust_bot.Backtest.Backtester.State.{BacktestConfig, PositionState, epsilon}

module _ {F : Type 0} ⦃f : Float F⦄ where
  abbrev pub if_positive : F → Option F
  if_positive price = if f.is_finite price && f.lt (f.of_nat 0) price then some price else none

  abbrev pub over : F → F → Option F
  over num denom = if f.le denom epsilon then none else if_positive (f.div num denom)

  abbrev pub liquidation_by : Side → PositionState F → (balance fee_rate : F) → Option F
  liquidation_by long p balance fee_rate =
      over (f.sub p.entry_px (f.div balance p.size)) (f.sub (f.of_nat 1) fee_rate)
  liquidation_by short p balance fee_rate =
      over (f.add p.entry_px (f.div balance p.size)) (f.add (f.of_nat 1) fee_rate)

  unfoldable pub liquidation_price : BacktestConfig F → (balance : F) → PositionState F → Option F
  liquidation_price c balance p =
      if f.le p.size epsilon || f.le p.entry_px (f.of_nat 0)
      then none
      else liquidation_by p.side p balance (f.div (f.of_nat c.taker_fee_bps) (f.of_nat 10_000))

  abbrev pub touched : Side → Price F → F → Bool
  touched long candle liq_px = f.le candle.low liq_px
  touched short candle liq_px = f.le liq_px candle.high

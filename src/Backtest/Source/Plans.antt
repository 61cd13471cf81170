-- ===== src/Backtest/Source/Plans.antt =====
-- What an exchange's plan for a timeframe promises.
use Prim.Native.String.{String}
use text.Mathlib.Text.{◌==◌ as str_eq}
use hyperliquid_rust_bot.Prelude.{
  ℕ, ◌*◌, ◌%◌, ◌≡◌, refl, Bool, true, not, ◌&&◌, ◌||◌, List, [], ◌∷◌, ltb, leb, ◌==◌, any, ok,
}
use hyperliquid_rust_bot.TimeFrame.{
  TimeFrame, to_secs, tf_beq, min1, min3, min5, min15, min30, hour1, hour2, hour4, hour12, day1,
  day3, week, month,
}
use hyperliquid_rust_bot.Backtest.Source.{
  Exchange, binance, bybit, htx, MarketType, DataSource, IntervalPlan, interval_map, interval_plan,
}

-- No candidate that divides the target is longer than the base.
abbrev pub longest : (target base : ℕ) → List (TimeFrame × String) → Bool
longest target base [] = true
longest target base ((c, _) ∷ cs) =
    (not (target % to_secs c == 0) || ltb target (to_secs c) || leb (to_secs c) base)
    && longest target base cs

-- What the plan `p` is for `tf`.
abbrev pub IsPlan : DataSource → TimeFrame → IntervalPlan → Type 0
IsPlan s tf p =
    (to_secs p.base_tf * p.group_size ≡ to_secs tf)
    × (any (λ c. tf_beq c.0 p.base_tf && str_eq c.1 p.interval) (interval_map s.exchange) ≡ true)
    × (longest (to_secs tf) (to_secs p.base_tf) (interval_map s.exchange) ≡ true)

abbrev source : Exchange → MarketType → String → DataSource
source e m q = record { exchange = e; market = m; quote_asset = q }

planned :
    (e : Exchange) (tf : TimeFrame) (m : MarketType) (q : String)
    → (p : IntervalPlan) × (interval_plan (source e m q) tf ≡ ok p) × IsPlan (source e m q) tf p
unfolding interval_plan interval_map to_secs
planned binance min1 m q = (_, refl, (refl, refl, refl))
planned binance min3 m q = (_, refl, (refl, refl, refl))
planned binance min5 m q = (_, refl, (refl, refl, refl))
planned binance min15 m q = (_, refl, (refl, refl, refl))
planned binance min30 m q = (_, refl, (refl, refl, refl))
planned binance hour1 m q = (_, refl, (refl, refl, refl))
planned binance hour2 m q = (_, refl, (refl, refl, refl))
planned binance hour4 m q = (_, refl, (refl, refl, refl))
planned binance hour12 m q = (_, refl, (refl, refl, refl))
planned binance day1 m q = (_, refl, (refl, refl, refl))
planned binance day3 m q = (_, refl, (refl, refl, refl))
planned binance week m q = (_, refl, (refl, refl, refl))
planned binance month m q = (_, refl, (refl, refl, refl))
planned bybit min1 m q = (_, refl, (refl, refl, refl))
planned bybit min3 m q = (_, refl, (refl, refl, refl))
planned bybit min5 m q = (_, refl, (refl, refl, refl))
planned bybit min15 m q = (_, refl, (refl, refl, refl))
planned bybit min30 m q = (_, refl, (refl, refl, refl))
planned bybit hour1 m q = (_, refl, (refl, refl, refl))
planned bybit hour2 m q = (_, refl, (refl, refl, refl))
planned bybit hour4 m q = (_, refl, (refl, refl, refl))
planned bybit hour12 m q = (_, refl, (refl, refl, refl))
planned bybit day1 m q = (_, refl, (refl, refl, refl))
planned bybit day3 m q = (_, refl, (refl, refl, refl))
planned bybit week m q = (_, refl, (refl, refl, refl))
planned bybit month m q = (_, refl, (refl, refl, refl))
planned htx min1 m q = (_, refl, (refl, refl, refl))
planned htx min3 m q = (_, refl, (refl, refl, refl))
planned htx min5 m q = (_, refl, (refl, refl, refl))
planned htx min15 m q = (_, refl, (refl, refl, refl))
planned htx min30 m q = (_, refl, (refl, refl, refl))
planned htx hour1 m q = (_, refl, (refl, refl, refl))
planned htx hour2 m q = (_, refl, (refl, refl, refl))
planned htx hour4 m q = (_, refl, (refl, refl, refl))
planned htx hour12 m q = (_, refl, (refl, refl, refl))
planned htx day1 m q = (_, refl, (refl, refl, refl))
planned htx day3 m q = (_, refl, (refl, refl, refl))
planned htx week m q = (_, refl, (refl, refl, refl))
planned htx month m q = (_, refl, (refl, refl, refl))

-- Every source has a plan for every timeframe: the exchange offers the base under the interval's name,
-- the group of base candles is as long as the timeframe, and no base that the exchange offers and whose
-- length divides the timeframe's is longer.
pub interval_plan_lem :
    (s : DataSource) (tf : TimeFrame)
    → (p : IntervalPlan) × (interval_plan s tf ≡ ok p) × IsPlan s tf p
interval_plan_lem s tf = planned s.exchange tf s.market s.quote_asset

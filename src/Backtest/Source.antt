-- ===== src/Backtest/Source.antt =====
-- src/backtest/fetcher.rs: `DataSource`, what one exchange offers and how a timeframe is built from it.
-- The texts of URLs and the JSON of answers are not modelled.
pub mod Plans
use Prim.Native.String.{String}
use hyperliquid_rust_bot.Prelude.{
  ℕ, ◌+◌, ◌-◌, ◌/◌, ◌%◌, ◌≤◌, Bool, true, not, ◌||◌, Option, none, some, List, [], ◌∷◌, min, max,
  ltb, leb, ◌==◌, if◌then◌else◌, find?, Result, ok, err,
}
use hyperliquid_rust_bot.Prelude.Words.{u64_max, saturating_add}
use hyperliquid_rust_bot.TimeFrame.{
  TimeFrame, min1, min3, min5, min15, min30, hour1, hour2, hour4, hour12, day1, day3, week, month,
  to_secs, tf_beq,
}

pub data MarketType : Type 0 where
  spot futures : MarketType

pub data Exchange : Type 0 where
  binance bybit htx : Exchange

pub record DataSource : Type 0 where
  pub exchange : Exchange
  pub market : MarketType
  pub quote_asset : String

-- The errors of a fetch. The text of a failed request is left open.
pub data FetchError : Type 0 where
  unsupported : TimeFrame → FetchError
  invalid_range outside_history : FetchError
  request_failed : String → FetchError

-- The exchange's own intervals with the names it gives them.
unfoldable pub interval_map : Exchange → List (TimeFrame × String)
interval_map binance =
    (min1, "1m")
    ∷ (min3, "3m")
    ∷ (min5, "5m")
    ∷ (min15, "15m")
    ∷ (min30, "30m")
    ∷ (hour1, "1h")
    ∷ (hour2, "2h")
    ∷ (hour4, "4h")
    ∷ (hour12, "12h")
    ∷ (day1, "1d")
    ∷ (day3, "3d")
    ∷ (week, "1w")
    ∷ (month, "1M")
    ∷ []
interval_map bybit =
    (min1, "1")
    ∷ (min3, "3")
    ∷ (min5, "5")
    ∷ (min15, "15")
    ∷ (min30, "30")
    ∷ (hour1, "60")
    ∷ (hour2, "120")
    ∷ (hour4, "240")
    ∷ (hour12, "720")
    ∷ (day1, "D")
    ∷ (week, "W")
    ∷ (month, "M")
    ∷ []
interval_map htx =
    (min1, "1min")
    ∷ (min5, "5min")
    ∷ (min15, "15min")
    ∷ (min30, "30min")
    ∷ (hour1, "60min")
    ∷ (hour4, "4hour")
    ∷ (day1, "1day")
    ∷ (week, "1week")
    ∷ (month, "1mon")
    ∷ []

pub record IntervalPlan : Type 0 where
  pub interval : String
  pub base_tf : TimeFrame
  pub group_size : ℕ

-- `best` after one more candidate.
abbrev pub better :
    (target : ℕ) → Option (TimeFrame × String) → TimeFrame × String → Option (TimeFrame × String)
better target none (candidate, interval) = some (candidate, interval)
better target (some (best, name)) (candidate, interval) =
    if ltb (to_secs best) (to_secs candidate) then some (candidate, interval) else some (best, name)

-- The loop over the candidates: the longest that divides the target.
unfoldable pub best_base :
    (target : ℕ)
    → Option (TimeFrame × String)
    → List (TimeFrame × String)
    → Option (TimeFrame × String)
best_base target best [] = best
best_base target best ((candidate, interval) ∷ rest) =
    let secs = to_secs candidate in
    let next =
      if ltb target secs || not (target % secs == 0)
      then best
      else better target best (candidate, interval) in
    best_base target next rest

unfoldable pub interval_plan : DataSource → TimeFrame → Result FetchError IntervalPlan
unfolding interval_map best_base to_secs
interval_plan s tf =
    let offered = interval_map s.exchange in
    let target = to_secs tf in
    elim (find? (λ c. tf_beq c.0 tf) offered) [
      | some (_, interval) ↦ ok (record { interval = interval; base_tf = tf; group_size = 1 })
      | none ↦ elim (best_base target none offered) [
        | none ↦ err (unsupported tf)
        | some (base, interval) ↦
            ok (record { interval = interval; base_tf = base; group_size = target / to_secs base })
      ]
    ]

unfoldable pub request_limit : DataSource → Option ℕ
request_limit s = limit_of s.exchange s.market
  where
    limit_of : Exchange → MarketType → Option ℕ
    limit_of binance spot = some 1000
    limit_of binance futures = some 1500
    limit_of bybit _ = some 1000
    limit_of htx _ = none

-- `checked_add`.
abbrev checked_add : ℕ → ℕ → Option ℕ
checked_add a b = if leb (a + b) u64_max then some (a + b) else none

abbrev rounds_up : Option ℕ → ℕ → ℕ
rounds_up none base = 1
rounds_up (some v) base = v / base

unfoldable pub calc_htx_size : (start end base_interval_ms : ℕ) → ℕ
calc_htx_size start end base =
    let size = rounds_up (checked_add (end - start) (base - 1)) base in
    max 1 (min (saturating_add size 10) 2000)

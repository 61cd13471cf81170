-- ===== src/Backtest/Backtester/Tests.antt =====
-- A backtest on concrete candles and orders.
use hyperliquid_rust_bot.Prelude.{
  ℕ, suc, ◌*◌, ◌+◌, ◌<◌, ◌≤◌, ◌≡◌, refl, false, none, some, List, [], ◌∷◌, arith, max,
}
use hyperliquid_rust_bot.Prelude.Int.{pos}
use hyperliquid_rust_bot.Prelude.Maps.{nat_eq, get}
use hyperliquid_rust_bot.Float.{Sample, num, sample_float, Sample-IsFloat}
use hyperliquid_rust_bot.Exec.Types.{long, open_long, market, client_limit, gtc}
use hyperliquid_rust_bot.Signal.Tests.{candle, counter, engine, script}
use hyperliquid_rust_bot.Backtest.Backtester.State.{resting_open, RestingOrder, Backtester}
use hyperliquid_rust_bot.Backtest.Backtester.Orders.{fill_resting_orders}
use hyperliquid_rust_bot.Backtest.Backtester.Orders.LookAhead.{fill_resting_orders-Rests}
use hyperliquid_rust_bot.Backtest.Backtester.Run.{process_candle}
use hyperliquid_rust_bot.Backtest.Backtester.Run.Candles.{Adds, process_candle-Adds}
use hyperliquid_rust_bot.Backtest.Backtester.Funding.{funding_window_ms, apply_funding_if_due}
use hyperliquid_rust_bot.Backtest.Backtester.Funding.Due.{
  fund_times, apply_funding_if_due-fund_times,
}
use hyperliquid_rust_bot.Backtest.Backtester.Windows.{FetchWindow, build_fetch_windows}
use hyperliquid_rust_bot.Backtest.Backtester.Windows.Cover.{IsCut, build_fetch_windows-IsCut}
use hyperliquid_rust_bot.TimeFrame.{min1}
use hyperliquid_rust_bot.Backtest.Backtester.Merge.{BacktestSeries, SeriesEvent, batches}
use hyperliquid_rust_bot.Backtest.Backtester.Merge.Steps.{left}
use hyperliquid_rust_bot.Backtest.Backtester.Merge.Counts.{events_of}
use hyperliquid_rust_bot.Backtest.Backtester.Merge.Order.{IsChronological, batches_lem}
use hyperliquid_rust_bot.Backtest.Backtester.Simulate.{Sim, simulate}
use hyperliquid_rust_bot.Backtest.Backtester.Simulate.Returns.{AtStop, simulate-AtStop}

-- An order that opens a long position at 10 or below.
abbrev resting : ℕ → RestingOrder Sample
resting placed_at = record {
  order = record {
    action = open_long;
    size = num (pos 2);
    limit = some (record { limit_px = num (pos 10); order_type = client_limit gtc });
  };
  kind = resting_open none;
  placed_at = placed_at;
}

-- A long position with one order placed before the candle at 60,000 and one placed on it.
abbrev backtest : Backtester Sample ℕ ℕ ℕ ℕ
backtest = record {
  config = record {
    margin = num (pos 100);
    lev = 2;
    taker_fee_bps = 0;
    maker_fee_bps = 0;
    funding_rate_bps_per_8h = num (pos 1);
  };
  engine = engine;
  next_order_id = 3;
  next_snapshot_id = 1;
  balance = num (pos 100);
  position = some (record {
    side = long;
    size = num (pos 2);
    entry_px = num (pos 11);
    open_time = 0;
    fees = num (pos 0);
    funding = num (pos 0);
    realised_pnl = num (pos 0);
    fill_type = market;
  });
  resting_orders = (1, resting 0) ∷ (2, resting 60_000) ∷ [];
  trades = [];
  equity_curve = [];
  snapshots = [];
  next_funding_time = some funding_window_ms;
}

fill_resting_orders-Rests_example :
    get (fill_resting_orders (candle 60_000) backtest).1.resting_orders 2 ≡ some (resting 60_000)
unfolding get
fill_resting_orders-Rests_example =
    fill_resting_orders-Rests 2 (resting 60_000) refl (candle 60_000) backtest (omega arith) refl
      (omega arith) (omega arith)

process_candle-Adds_example :
    Adds backtest.equity_curve (candle 60_000) (process_candle counter (candle 60_000) backtest)
process_candle-Adds_example = process_candle-Adds counter Sample-IsFloat (candle 60_000) backtest

apply_funding_if_due-fund_times_example :
    (n : ℕ) × (apply_funding_if_due (candle 60_000_000) backtest
      ≡ some (record (fund_times n (num (pos 10)) backtest) {
        next_funding_time = some (funding_window_ms + n * funding_window_ms);
      }))
    × (60_000_000 < funding_window_ms + n * funding_window_ms)
    × (funding_window_ms + n * funding_window_ms
        ≤ max funding_window_ms (60_000_000 + funding_window_ms))
apply_funding_if_due-fund_times_example =
    apply_funding_if_due-fund_times (candle 60_000_000) backtest funding_window_ms refl
      (omega arith)

build_fetch_windows-IsCut_example :
    (ws : List FetchWindow) × (build_fetch_windows 100 350 100 ≡ some ws) × IsCut 100 350 100 0 ws
build_fetch_windows-IsCut_example =
    build_fetch_windows-IsCut 100 350 100 (omega arith) (omega arith)

-- A series of two candles, and one of one candle at the time of the second.
abbrev series : List (BacktestSeries Sample)
series =
    record {
      asset = "BTC";
      tf = min1;
      prices = candle 60_000 ∷ candle 120_000 ∷ [];
      first_sim_idx = 0;
    }
    ∷ record { asset = "ETH"; tf = min1; prices = candle 120_000 ∷ []; first_sim_idx = 0 }
    ∷ []

batches_lem_example :
    (bs : List (List (SeriesEvent Sample))) × (batches
        (suc (left series (0 ∷ 0 ∷ [])))
        series
        (0 ∷ 0 ∷ [])
      ≡ some bs)
    × IsChronological 0 bs
    × (events_of bs ≡ left series (0 ∷ 0 ∷ []))
batches_lem_example =
    batches_lem series (0 ∷ 0 ∷ []) (((omega arith, tt), (tt, tt)), ((tt, tt), tt))

abbrev sim : Sim Sample ℕ ℕ ℕ ℕ
sim = record {
  bt = backtest;
  sim_started = false;
  sim_processed = 0;
  last_sim_candle = none;
  current_execution_candle = none;
  stopped_by_liquidation = false;
}

simulate-AtStop_example :
    (st : Sim Sample ℕ ℕ ℕ ℕ) × (simulate counter script 4 series 0 (0 ∷ 0 ∷ []) sim ≡ some st)
    × AtStop st.stopped_by_liquidation st.bt
simulate-AtStop_example =
    simulate-AtStop counter script Sample-IsFloat 4 series 0 (0 ∷ 0 ∷ []) sim
      ((omega arith, (omega arith, tt)), ((omega arith, tt), tt)) (omega arith) refl

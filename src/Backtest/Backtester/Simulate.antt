-- ===== src/Backtest/Backtester/Simulate.antt =====
-- src/backtest/backtester.rs: the loop of `run_with_progress` over the merged candles.
pub mod Early
pub mod Returns
use hyperliquid_rust_bot.Prelude.{
  ℕ, zero, suc, ◌==◌, Bool, true, false, Option, none, some, List, [], ◌∷◌, get_elem?,
  if◌then◌else◌,
}
use hyperliquid_rust_bot.Prelude.Maps.{Eq}
use hyperliquid_rust_bot.Prelude.Words.{saturating_add}
use hyperliquid_rust_bot.Float.{Float}
use hyperliquid_rust_bot.Price.{Price}
use hyperliquid_rust_bot.Signal.Tracker.{Indicator}
use hyperliquid_rust_bot.Signal.Engine.{Strat}
use hyperliquid_rust_bot.Signal.Replay.{tick_backtest}
use hyperliquid_rust_bot.Backtest.Backtester.State.{Backtester}
use hyperliquid_rust_bot.Backtest.Backtester.Run.{
  sync_engine_position, apply_engine_actions, process_candle, finalize_open_position_at_end,
}
use hyperliquid_rust_bot.Backtest.Backtester.Funding.{apply_funding_if_due, init_funding}
use hyperliquid_rust_bot.Backtest.Backtester.Merge.{BacktestSeries, SeriesEvent, next_event_batch}

-- The variables of the loop.
pub record Sim (F I V K S : Type 0) : Type 0 where
  pub bt : Backtester F I V K S
  pub sim_started : Bool
  pub sim_processed : ℕ
  pub last_sim_candle : Option (Price F)
  pub current_execution_candle : Option (Price F)
  pub stopped_by_liquidation : Bool

-- The candle of the series that the orders are executed on.
unfoldable pub primary_candle : {F : Type 0} → ℕ → List (SeriesEvent F) → Option (Price F)
primary_candle primary [] = none
primary_candle primary (e ∷ es) =
    let rest = primary_candle primary es in if e.series_idx == primary then some e.price else rest

module _ {F I V K S : Type 0} ⦃f : Float F⦄ where
  abbrev pub started_by : Price F → Sim F I V K S → Backtester F I V K S
  unfolding init_funding
  started_by candle st = if st.sim_started then st.bt else init_funding candle.open_time st.bt

  abbrev pub synced :
      Price F → Sim F I V K S → Option (Backtester F I V K S) → Option (Sim F I V K S)
  unfolding sync_engine_position
  synced candle st none = none
  synced candle st (some b) = some (record st {
    bt = sync_engine_position b;
    sim_started = true;
    current_execution_candle = some candle;
  })

  -- Before the events of a batch.
  unfoldable pub begin_batch : Option (Price F) → Sim F I V K S → Option (Sim F I V K S)
  unfolding apply_funding_if_due synced started_by
  begin_batch none st = some st
  begin_batch (some candle) st =
      synced candle st (apply_funding_if_due candle (started_by candle st))

module _ {F I V K S : Type 0} ⦃f : Float F⦄ ⦃k : Eq K⦄ (ind : Indicator F I V K) where
  -- After the events of a batch.
  unfoldable pub end_batch : Option (Price F) → Sim F I V K S → Sim F I V K S
  unfolding process_candle
  end_batch none st = st
  end_batch (some candle) st =
      let (liquidated, b) = process_candle ind candle st.bt in
      record st { bt = b; last_sim_candle = some candle; stopped_by_liquidation = liquidated }

  -- After the loop, a position that is still open is closed, unless a liquidation stopped the run; `none`
  -- where no candle was simulated.
  unfoldable pub end_run : Sim F I V K S → Option (Backtester F I V K S)
  unfolding finalize_open_position_at_end
  end_run st =
      if st.sim_started
      then some (
          if st.stopped_by_liquidation
          then st.bt
          else finalize_open_position_at_end ind st.last_sim_candle st.bt)
      else none

module _ {F I V K C S : Type 0} ⦃f : Float F⦄ ⦃k : Eq K⦄ (ind : Indicator F I V K)
    (strat : Strat F V K C S) where
  abbrev pub tick_event :
      Option (BacktestSeries F) → (price execution : Price F) → Sim F I V K S → Sim F I V K S
  unfolding tick_backtest apply_engine_actions
  tick_event none price execution st = st
  tick_event (some s) price execution st =
      let (actions, engine) = tick_backtest ind strat s.asset s.tf price execution st.bt.engine in
      record st {
        bt = apply_engine_actions ind actions execution (record st.bt { engine = engine });
        sim_processed = saturating_add st.sim_processed 1;
      }

  unfoldable pub tick_events :
      List (BacktestSeries F) → List (SeriesEvent F) → Price F → Sim F I V K S → Sim F I V K S
  unfolding tick_event
  tick_events ss [] execution st = st
  tick_events ss (e ∷ es) execution st =
      tick_events ss es execution (tick_event (get_elem? ss e.series_idx) e.price execution st)

  abbrev pub run_batch :
      Option (Price F)
      → List (BacktestSeries F)
      → List (SeriesEvent F)
      → Option (Price F)
      → Sim F I V K S
      → Sim F I V K S
  unfolding tick_events end_batch
  run_batch none ss batch primary st = st
  run_batch (some execution) ss batch primary st =
      end_batch ind primary (tick_events ss batch execution st)

  -- The body of the loop; `none` where the funding runs out of fuel.
  unfoldable pub sim_batch :
      List (BacktestSeries F)
      → (primary : ℕ) → List (SeriesEvent F)
      → Sim F I V K S
      → Option (Sim F I V K S)
  unfolding primary_candle begin_batch run_batch
  sim_batch ss primary batch st =
      let candle = primary_candle primary batch in
      elim (begin_batch candle st) [
        | none ↦ none
        | some st1 ↦ some (run_batch st1.current_execution_candle ss batch candle st1)
      ]

  -- The loop; `none` if the fuel runs out.
  unfoldable pub simulate :
      (fuel : ℕ)
      → List (BacktestSeries F)
      → (primary : ℕ) → List ℕ
      → Sim F I V K S
      → Option (Sim F I V K S)
  unfolding next_event_batch sim_batch
  simulate zero ss primary is st = none
  simulate (suc fuel) ss primary is st = elim (next_event_batch ss is) [
    | none ↦ some st
    | some (batch, is') ↦ elim (sim_batch ss primary batch st) [
      | none ↦ none
      | some st1 ↦ elim st1.stopped_by_liquidation [
        | true ↦ some st1
        | false ↦ simulate fuel ss primary is' st1
      ]
    ]
  ]

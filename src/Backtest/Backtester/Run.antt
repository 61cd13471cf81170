-- ===== src/Backtest/Backtester/Run.antt =====
-- src/backtest/backtester.rs: a candle of the simulation, liquidation, funding and the end of the run.
pub mod Candles
use Prim.Native.String.{String}
use hyperliquid_rust_bot.Prelude.{
  ℕ, suc, ◌+◌, Bool, true, false, not, ◌&&◌, ◌||◌, ◌==◌, Option, none, some, List, [], ◌∷◌, ◌++◌,
  is_some, leb, ltb, if◌then◌else◌,
}
use hyperliquid_rust_bot.Prelude.Maps.{Eq}
use hyperliquid_rust_bot.Prelude.Words.{saturating_add}
use hyperliquid_rust_bot.Float.{Float}
use hyperliquid_rust_bot.Price.{Price}
use hyperliquid_rust_bot.Exec.Types.{Side, long, short, market, liquidation, OpenPositionLocal}
use hyperliquid_rust_bot.Signal.Params.{OpenPosInfo}
use hyperliquid_rust_bot.Signal.Tracker.{Indicator}
use hyperliquid_rust_bot.Signal.Engine.{Strat, view, get_indicators_data}
use hyperliquid_rust_bot.Signal.Replay.{reset_for_backtest}
use hyperliquid_rust_bot.Signal.Actions.{
  BtIntent, bt_open, bt_reduce, bt_flatten, BtAction, submit_order, force_taker_order,
  cancel_all_resting, force_close_market,
}
use hyperliquid_rust_bot.Backtest.Backtester.State.{
  BacktestConfig, PositionState, SnapshotReason, opened, reduced, flattened, force_closed,
  cancelled_resting, filled, Backtester, to_open_pos_info, to_open_position_local, epsilon, pnl_at,
}
use hyperliquid_rust_bot.Backtest.Backtester.Fills.{fill_close_at_px}
use hyperliquid_rust_bot.Backtest.Backtester.Liquidation.{liquidation_price, touched}
use hyperliquid_rust_bot.Backtest.Backtester.Orders.{no_resting, apply_action, fill_resting_orders}

abbrev pub reason_of : BtIntent → SnapshotReason
reason_of bt_open = opened
reason_of bt_reduce = reduced
reason_of bt_flatten = flattened

abbrev pub snapshot_reason_from_action : {F : Type 0} → BtAction F → Option SnapshotReason
snapshot_reason_from_action (submit_order _ intent) = some (reason_of intent)
snapshot_reason_from_action (force_taker_order _ intent) = some (reason_of intent)
snapshot_reason_from_action cancel_all_resting = some cancelled_resting
snapshot_reason_from_action force_close_market = some force_closed

module _ {F : Type 0} where
  abbrev pub pos_info : Option (PositionState F) → Option (OpenPosInfo F)
  pos_info none = none
  pos_info (some p) = some (to_open_pos_info p)

  abbrev pub pos_local : Option (PositionState F) → Option (OpenPositionLocal F)
  pos_local none = none
  pos_local (some p) = some (to_open_position_local p)

module _ {F I V K S : Type 0} ⦃f : Float F⦄ where
  unfoldable pub sync_engine_position : Backtester F I V K S → Backtester F I V K S
  sync_engine_position b = record b {
    engine = record b.engine {
      exec_params = record b.engine.exec_params {
        open_pos = pos_info b.position;
        margin = f.fmax b.balance (f.of_nat 0);
      };
    };
  }

  unfoldable pub push_equity_point : Price F → Backtester F I V K S → Backtester F I V K S
  push_equity_point candle b =
      let upnl = pnl_at b.position candle.close_px in
      record b {
        equity_curve =
            b.equity_curve
            ++ record {
              ts = candle.close_time;
              equity = f.add b.balance upnl;
              balance = b.balance;
              upnl = upnl;
            }
              ∷ [];
      }

module _ {F I V K S : Type 0} ⦃f : Float F⦄ ⦃k : Eq K⦄ (ind : Indicator F I V K) where
  unfoldable pub capture_snapshot :
      Price F → SnapshotReason → Backtester F I V K S → Backtester F I V K S
  unfolding get_indicators_data
  capture_snapshot candle reason b =
      let upnl = pnl_at b.position candle.close_px in
      record b {
        next_snapshot_id = saturating_add b.next_snapshot_id 1;
        snapshots =
            b.snapshots
            ++ record {
              id = b.next_snapshot_id;
              ts = candle.open_time;
              candle = candle;
              upnl = upnl;
              balance = b.balance;
              equity = f.add b.balance upnl;
              reason = reason;
              engine_state = view b.engine.state;
              indicators = get_indicators_data ind b.engine.trackers;
              position = pos_local b.position;
            }
              ∷ [];
      }

  abbrev pub capture_for :
      Price F → Option SnapshotReason → Backtester F I V K S → Backtester F I V K S
  unfolding capture_snapshot
  capture_for candle none b = b
  capture_for candle (some reason) b = capture_snapshot candle reason b

  unfoldable pub apply_engine_actions :
      List (BtAction F) → Price F → Backtester F I V K S → Backtester F I V K S
  unfolding apply_action sync_engine_position capture_for
  apply_engine_actions [] candle b = b
  apply_engine_actions (a ∷ actions) candle b = apply_engine_actions actions candle (
      capture_for candle (snapshot_reason_from_action a)
        (sync_engine_position (apply_action a candle b)))

  -- A close that ends the position is recorded.
  abbrev pub record_close : Price F → Backtester F I V K S → Backtester F I V K S
  unfolding sync_engine_position capture_snapshot push_equity_point
  record_close candle b =
      push_equity_point candle (capture_snapshot candle force_closed (sync_engine_position b))

  abbrev pub liquidate : F → Price F → Backtester F I V K S → Bool × Backtester F I V K S
  unfolding fill_close_at_px
  liquidate liq_px candle b =
      let (trade, b') = fill_close_at_px none liq_px candle.open_time liquidation (no_resting b) in
      if is_some trade
      then (
        true,
        record_close candle (record b' {
          balance = if f.lt b'.balance (f.of_nat 0) then f.of_nat 0 else b'.balance;
        }),
      )
      else (false, b')

  abbrev pub liquidate_at :
      Option F → Side → Price F → Backtester F I V K S → Bool × Backtester F I V K S
  unfolding liquidate
  liquidate_at none side candle b = (false, b)
  liquidate_at (some liq_px) side candle b =
      if touched side candle liq_px then liquidate liq_px candle b else (false, b)

  abbrev pub liquidate_of :
      Option (PositionState F) → Price F → Backtester F I V K S → Bool × Backtester F I V K S
  unfolding liquidation_price liquidate_at
  liquidate_of none candle b = (false, b)
  liquidate_of (some p) candle b =
      liquidate_at (liquidation_price b.config b.balance p) p.side candle b

  unfoldable pub apply_liquidation_if_touched :
      Price F → Backtester F I V K S → Bool × Backtester F I V K S
  unfolding liquidate_of
  apply_liquidation_if_touched candle b = liquidate_of b.position candle b

  -- Whether the run stops.
  unfoldable pub process_candle : Price F → Backtester F I V K S → Bool × Backtester F I V K S
  unfolding fill_resting_orders sync_engine_position capture_snapshot apply_liquidation_if_touched
      push_equity_point
  process_candle candle b =
      let (fills, b1) = fill_resting_orders candle b in
      let b2 =
        if ltb 0 fills then capture_snapshot candle filled (sync_engine_position b1) else b1 in
      let (stopped, b3) = apply_liquidation_if_touched candle b2 in
      if stopped then (true, b3) else (false, push_equity_point candle (sync_engine_position b3))

  abbrev pub finalize_at : Price F → Backtester F I V K S → Backtester F I V K S
  unfolding fill_close_at_px record_close
  finalize_at candle b =
      let (trade, b') = fill_close_at_px none candle.close_px candle.close_time market b in
      no_resting (if is_some trade then record_close candle b' else b')

  unfoldable pub finalize_open_position_at_end :
      Option (Price F) → Backtester F I V K S → Backtester F I V K S
  unfolding finalize_at
  finalize_open_position_at_end none b = b
  finalize_open_position_at_end (some candle) b =
      if is_some b.position then finalize_at candle b else no_resting b

module _ {F I V K C S : Type 0} ⦃f : Float F⦄ ⦃k : Eq K⦄ (ind : Indicator F I V K)
    (strat : Strat F V K C S) where
  unfoldable pub reset_runtime : Backtester F I V K S → Backtester F I V K S
  unfolding reset_for_backtest
  reset_runtime b = record {
    config = b.config;
    engine = reset_for_backtest ind strat b.engine;
    next_order_id = 1;
    next_snapshot_id = 1;
    balance = b.config.margin;
    position = none;
    resting_orders = [];
    trades = [];
    equity_curve = [];
    snapshots = [];
    next_funding_time = none;
  }

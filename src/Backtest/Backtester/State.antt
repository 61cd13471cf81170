-- ===== src/Backtest/Backtester/State.antt =====
-- src/backtest/backtester.rs and types.rs: the state of a backtest.
use hyperliquid_rust_bot.Prelude.{
  ℕ, ◌+◌, ◌-◌, ◌%◌, ◌^◌, ◌==◌, Bool, true, false, Option, none, some, List, is_some, if◌then◌else◌,
}
use hyperliquid_rust_bot.Float.{Float}
use hyperliquid_rust_bot.Price.{Price}
use hyperliquid_rust_bot.Exec.Types.{
  Side, long, short, FillType, market, limit, trigger, liquidation, TriggerKind, tp, sl,
  EngineOrder, TradeInfo, OpenPositionLocal,
}
use hyperliquid_rust_bot.Exec.Orders.{is_tpsl}
use hyperliquid_rust_bot.Signal.Intent.{Triggers}
use hyperliquid_rust_bot.Signal.Params.{OpenPosInfo}
use hyperliquid_rust_bot.Signal.Tracker.{IndicatorData}
use hyperliquid_rust_bot.Signal.Engine.{SignalEngine, EngineView}

-- The fields of the configuration that the simulation reads.
pub record BacktestConfig (F : Type 0) : Type 0 where
  pub margin : F
  pub lev : ℕ
  pub taker_fee_bps : ℕ
  pub maker_fee_bps : ℕ
  pub funding_rate_bps_per_8h : F

pub record PositionState (F : Type 0) : Type 0 where
  pub side : Side
  pub size : F
  pub entry_px : F
  pub open_time : ℕ
  pub fees : F
  pub funding : F
  pub realised_pnl : F
  pub fill_type : FillType

-- The constructors are the source's `Open` and `Close`.
pub data RestingKind (F : Type 0) : Type 0 where
  resting_open : Option (Triggers F) → RestingKind F
  resting_close : RestingKind F

pub record RestingOrder (F : Type 0) : Type 0 where
  pub order : EngineOrder F
  pub kind : RestingKind F
  pub placed_at : ℕ

pub record EquityPoint (F : Type 0) : Type 0 where
  pub ts : ℕ
  pub equity : F
  pub balance : F
  pub upnl : F

pub data SnapshotReason : Type 0 where
  opened reduced flattened force_closed cancelled_resting filled : SnapshotReason

-- The candle is the `CandlePoint` with the fields of a `Price`.
pub record PositionSnapshot (F V K : Type 0) : Type 0 where
  pub id : ℕ
  pub ts : ℕ
  pub candle : Price F
  pub upnl : F
  pub balance : F
  pub equity : F
  pub reason : SnapshotReason
  pub engine_state : EngineView
  pub indicators : List (IndicatorData V K)
  pub position : Option (OpenPositionLocal F)

-- Without the store of candles, the required series and what the simulation does not read of the request.
pub record Backtester (F I V K S : Type 0) : Type 0 where
  pub config : BacktestConfig F
  pub engine : SignalEngine F I V K S
  pub next_order_id : ℕ
  pub next_snapshot_id : ℕ
  pub balance : F
  pub position : Option (PositionState F)
  pub resting_orders : List (ℕ × RestingOrder F)
  pub trades : List (TradeInfo F)
  pub equity_curve : List (EquityPoint F)
  pub snapshots : List (PositionSnapshot F V K)
  pub next_funding_time : Option ℕ

abbrev pub type_of : Option TriggerKind → Bool → FillType
type_of (some t) has_limit = trigger t
type_of none true = limit
type_of none false = market

module _ {F : Type 0} where
  abbrev pub to_open_pos_info : PositionState F → OpenPosInfo F
  to_open_pos_info p = record {
    side = p.side;
    size = p.size;
    entry_px = p.entry_px;
    open_time = p.open_time;
  }

  abbrev pub to_open_position_local : PositionState F → OpenPositionLocal F
  to_open_position_local p = record {
    open_time = p.open_time;
    size = p.size;
    entry_px = p.entry_px;
    side = p.side;
    fees = p.fees;
    funding = p.funding;
    realised_pnl = p.realised_pnl;
    fill_type = p.fill_type;
  }

  unfoldable pub order_fill_type : EngineOrder F → FillType
  unfolding is_tpsl
  order_fill_type order = type_of (is_tpsl order.limit) (is_some order.limit)

abbrev pub trigger_above : Side → TriggerKind → Bool
trigger_above long tp = true
trigger_above long sl = false
trigger_above short tp = false
trigger_above short sl = true

module _ {F : Type 0} ⦃f : Float F⦄ where
  abbrev pub epsilon : F
  epsilon = f.div (f.of_nat 1) (f.of_nat (10 ^ 12))

  unfoldable pub trigger_hit : Price F → (limit_px : F) → (is_above_market : Bool) → Bool
  trigger_hit candle limit_px above =
      if above then f.le limit_px candle.high else f.le candle.low limit_px

  -- If the candle opens past the trigger, it fills at the open.
  unfoldable pub trigger_fill_px : Price F → (limit_px : F) → (is_above_market : Bool) → F
  trigger_fill_px candle limit_px above =
      if above
      then (if f.le limit_px candle.open_px then candle.open_px else limit_px)
      else (if f.le candle.open_px limit_px then candle.open_px else limit_px)

  abbrev pub limit_above : EngineOrder F → F → Bool
  limit_above order candle_open = elim order.limit [
    | none ↦ false
    | some l ↦ f.le candle_open l.limit_px
  ]

  abbrev pub above_by : Option TriggerKind → Option Side → EngineOrder F → F → Bool
  above_by (some t) (some side) order candle_open = trigger_above side t
  above_by none side order candle_open = limit_above order candle_open
  above_by (some t) none order candle_open = limit_above order candle_open

  unfoldable pub is_trigger_above_market : EngineOrder F → Option Side → F → Bool
  unfolding is_tpsl
  is_trigger_above_market order pos_side candle_open =
      above_by (is_tpsl order.limit) pos_side order candle_open

  abbrev pub fee_bps : BacktestConfig F → FillType → ℕ
  fee_bps c market = c.taker_fee_bps
  fee_bps c liquidation = c.taker_fee_bps
  fee_bps c limit = c.maker_fee_bps
  fee_bps c (trigger tp) = c.maker_fee_bps
  fee_bps c (trigger sl) = c.taker_fee_bps

  unfoldable pub calc_fee : BacktestConfig F → (px size : F) → FillType → F
  calc_fee c px size fill_type =
      f.mul (f.mul px size) (f.div (f.of_nat (fee_bps c fill_type)) (f.of_nat 10_000))

  -- The difference of two prices, in favour of a side.
  abbrev pub price_diff : Side → (px entry_px : F) → F
  price_diff long px entry_px = f.sub px entry_px
  price_diff short px entry_px = f.sub entry_px px

  abbrev pub pnl_at : Option (PositionState F) → F → F
  pnl_at none mark_px = f.of_nat 0
  pnl_at (some p) mark_px = f.mul (price_diff p.side mark_px p.entry_px) p.size

unfoldable pub next_time_boundary : (ts step_ms : ℕ) → ℕ
next_time_boundary ts step_ms =
    if step_ms == 0 then ts else if ts % step_ms == 0 then ts else ts + (step_ms - ts % step_ms)

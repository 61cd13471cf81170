-- ===== src/Backtest/Backtester/Orders.antt =====
-- src/backtest/backtester.rs: the engine's actions, and the resting orders that a candle fills.
pub mod Kinds
pub mod LookAhead
use hyperliquid_rust_bot.Prelude.{
  ℕ, suc, ◌+◌, Bool, true, false, not, ◌&&◌, ◌||◌, Option, none, some, List, [], ◌∷◌, is_some, leb,
  if◌then◌else◌,
}
use hyperliquid_rust_bot.Prelude.Maps.{nat_eq, get, remove}
use hyperliquid_rust_bot.Float.{Float}
use hyperliquid_rust_bot.Price.{Price}
use hyperliquid_rust_bot.Exec.Types.{
  PositionOp, op_eq, Side, FillType, market, Limit, EngineOrder, TradeInfo,
}
use hyperliquid_rust_bot.Exec.Orders.{is_tpsl}
use hyperliquid_rust_bot.Signal.Actions.{
  OpenOrder, CloseOrder, BtOrder, opens, closes, BtAction, submit_order, force_taker_order,
  cancel_all_resting, force_close_market,
}
use hyperliquid_rust_bot.Backtest.Backtester.State.{
  PositionState, RestingKind, resting_open, resting_close, RestingOrder, Backtester,
  order_fill_type, trigger_hit, trigger_fill_px, is_trigger_above_market,
}
use hyperliquid_rust_bot.Backtest.Backtester.Fills.{
  rest_order, fill_open_at_px, fill_close_at_px, attach_some,
}

module _ {F : Type 0} where
  abbrev pub is_forced_out : PositionOp → RestingOrder F → Bool
  unfolding is_tpsl
  is_forced_out action r = not (is_some (is_tpsl r.order.limit)) && op_eq r.order.action action

  -- `retain` of the orders that a forced order does not replace.
  unfoldable pub keep_unforced : PositionOp → List (ℕ × RestingOrder F) → List (ℕ × RestingOrder F)
  keep_unforced action [] = []
  keep_unforced action ((id, r) ∷ rs) =
      let rest = keep_unforced action rs in if is_forced_out action r then rest else (id, r) ∷ rest

  abbrev pub ids_of : List (ℕ × RestingOrder F) → List ℕ
  ids_of [] = []
  ids_of ((id, r) ∷ rs) = id ∷ ids_of rs

  abbrev pub position_side : Option (PositionState F) → Option Side
  position_side none = none
  position_side (some p) = some p.side

module _ {F : Type 0} where
  abbrev pub one_if_some : Option (TradeInfo F) → ℕ
  one_if_some none = 0
  one_if_some (some t) = 1

module _ {F I V K S : Type 0} ⦃f : Float F⦄ where
  unfoldable pub submit_open_order :
      OpenOrder F → Price F → Backtester F I V K S → Backtester F I V K S
  unfolding fill_open_at_px attach_some
  submit_open_order o candle b =
      if is_some o.order.limit
      then rest_order
          (record { order = o.order; kind = resting_open o.triggers; placed_at = candle.open_time })
          b
      else attach_some o.triggers o.order.size candle.close_time
          (fill_open_at_px o.order candle.close_px candle.close_time market b)

  unfoldable pub submit_close_order :
      CloseOrder F → Price F → Backtester F I V K S → Backtester F I V K S
  unfolding fill_close_at_px
  submit_close_order c candle b =
      if is_some c.order.limit
      then rest_order
          (record { order = c.order; kind = resting_close; placed_at = candle.open_time }) b
      else (fill_close_at_px (some c.order) candle.close_px candle.close_time market b).1

  abbrev pub unforced : PositionOp → Backtester F I V K S → Backtester F I V K S
  unfolding keep_unforced
  unforced action b = record b { resting_orders = keep_unforced action b.resting_orders }

  abbrev pub no_resting : Backtester F I V K S → Backtester F I V K S
  no_resting b = record b { resting_orders = [] }

  unfoldable pub apply_action : BtAction F → Price F → Backtester F I V K S → Backtester F I V K S
  unfolding submit_open_order submit_close_order unforced fill_close_at_px
  apply_action (submit_order (opens o) intent) candle b = submit_open_order o candle b
  apply_action (submit_order (closes c) intent) candle b = submit_close_order c candle b
  apply_action (force_taker_order (opens o) intent) candle b =
      let b' = unforced o.order.action b in
      if is_some b'.position then b' else submit_open_order o candle b'
  apply_action (force_taker_order (closes c) intent) candle b =
      submit_close_order c candle (unforced c.order.action b)
  apply_action cancel_all_resting candle b = no_resting b
  apply_action force_close_market candle b =
      (fill_close_at_px none candle.close_px candle.close_time market (no_resting b)).1

  -- The fill of a resting order, already removed: the number of fills it counts as.
  abbrev pub fill_kind :
      RestingKind F
      → EngineOrder F
      → (px : F) → (ts : ℕ) → FillType
      → Backtester F I V K S
      → ℕ × Backtester F I V K S
  unfolding fill_open_at_px attach_some fill_close_at_px
  fill_kind (resting_open triggers) order px ts fill_type b =
      (1, attach_some triggers order.size ts (fill_open_at_px order px ts fill_type b))
  fill_kind resting_close order px ts fill_type b =
      let (trade, b') = fill_close_at_px (some order) px ts fill_type b in (one_if_some trade, b')

  abbrev pub fill_hit :
      ℕ → RestingOrder F → (px : F) → Price F → Backtester F I V K S → ℕ × Backtester F I V K S
  unfolding fill_kind order_fill_type
  fill_hit id r px candle b =
      fill_kind r.kind r.order px candle.open_time (order_fill_type r.order)
        (record b { resting_orders = remove b.resting_orders id })

  abbrev pub fill_limit :
      Option (Limit F)
      → ℕ
      → RestingOrder F
      → Price F
      → Backtester F I V K S
      → ℕ × Backtester F I V K S
  unfolding fill_hit trigger_hit trigger_fill_px is_trigger_above_market
  fill_limit none id r candle b = (0, b)
  fill_limit (some l) id r candle b =
      let above = is_trigger_above_market r.order (position_side b.position) candle.open_px in
      if leb candle.open_time r.placed_at || not (trigger_hit candle l.limit_px above)
      then (0, b)
      else fill_hit id r (trigger_fill_px candle l.limit_px above) candle b

  -- The round of the loop for one id.
  abbrev pub fill_resting :
      Option (RestingOrder F) → ℕ → Price F → Backtester F I V K S → ℕ × Backtester F I V K S
  unfolding fill_limit
  fill_resting none id candle b = (0, b)
  fill_resting (some r) id candle b = fill_limit r.order.limit id r candle b

  unfoldable pub fill_ids : List ℕ → Price F → Backtester F I V K S → ℕ × Backtester F I V K S
  unfolding fill_resting get
  fill_ids [] candle b = (0, b)
  fill_ids (id ∷ ids) candle b =
      let (n, b1) = fill_resting (get b.resting_orders id) id candle b in
      let (m, b2) = fill_ids ids candle b1 in (n + m, b2)

  unfoldable pub fill_resting_orders : Price F → Backtester F I V K S → ℕ × Backtester F I V K S
  unfolding fill_ids
  fill_resting_orders candle b = fill_ids (ids_of b.resting_orders) candle b

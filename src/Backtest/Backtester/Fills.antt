-- ===== src/Backtest/Backtester/Fills.antt =====
-- src/backtest/backtester.rs: orders submitted and filled.
pub mod Stable
pub mod Rests
pub mod Closed
use hyperliquid_rust_bot.Prelude.{
  ℕ, suc, ◌+◌, Bool, true, false, not, ◌&&◌, ◌||◌, ◌==◌, Option, none, some, List, [], ◌∷◌, ◌++◌,
  is_some, leb, if◌then◌else◌,
}
use hyperliquid_rust_bot.Prelude.Maps.{nat_eq, get, insert, remove}
use hyperliquid_rust_bot.Prelude.Words.{saturating_add}
use hyperliquid_rust_bot.Float.{Float}
use hyperliquid_rust_bot.Price.{Price}
use hyperliquid_rust_bot.Exec.Types.{
  PositionOp, open_long, open_short, close, Side, long, short, side_eq, FillType, market, Limit,
  EngineOrder, TradeInfo, TriggerKind, tp, sl,
}
use hyperliquid_rust_bot.Exec.Orders.{new_tp, new_sl}
use hyperliquid_rust_bot.Signal.Intent.{Triggers}
use hyperliquid_rust_bot.Signal.Checks.{calc_trigger_px}
use hyperliquid_rust_bot.Signal.Orders.{trigger_order}
use hyperliquid_rust_bot.Signal.Actions.{OpenOrder, CloseOrder}
use hyperliquid_rust_bot.Backtest.Backtester.State.{
  PositionState, RestingKind, resting_open, resting_close, RestingOrder, Backtester, epsilon,
  order_fill_type, trigger_hit, trigger_fill_px, is_trigger_above_market, calc_fee, price_diff,
}
use hyperliquid_rust_bot.Backtest.Backtester.Positions.{
  is_resting_open, keep_opening, opening_side, clamped, reconcile, grown, requested_size, shrunk,
  closed_trade,
}

module _ {F I V K S : Type 0} where
  -- `next_id`, and the insertion of an order under it.
  abbrev pub rest_order : RestingOrder F → Backtester F I V K S → Backtester F I V K S
  rest_order r b = record b {
    resting_orders = insert b.resting_orders b.next_order_id r;
    next_order_id = saturating_add b.next_order_id 1;
  }

module _ {F I V K S : Type 0} ⦃f : Float F⦄ where
  abbrev pub fill_open_side :
      Option Side → (size px : F) → ℕ → FillType → Backtester F I V K S → Backtester F I V K S
  unfolding calc_fee
  fill_open_side none size px ts fill_type b = b
  fill_open_side (some side) size px ts fill_type b =
      let fee = calc_fee b.config px size fill_type in
      if f.le size epsilon then b else record b {
        balance = f.sub b.balance fee;
        position = grown b.position side size px fee ts fill_type;
      }

  unfoldable pub fill_open_at_px :
      EngineOrder F → (px : F) → (ts : ℕ) → FillType → Backtester F I V K S → Backtester F I V K S
  unfolding fill_open_side
  fill_open_at_px order px ts fill_type b =
      fill_open_side (opening_side order.action) (f.fmax order.size (f.of_nat 0)) px ts fill_type b

  -- The fill of a part of the position, or of all of it, with the trade where that closed it.
  abbrev pub fill_part :
      PositionState F
      → (close_size px : F) → (ts : ℕ) → FillType
      → Backtester F I V K S
      → Option (TradeInfo F) × Backtester F I V K S
  unfolding calc_fee keep_opening reconcile
  fill_part pos close_size px ts fill_type b =
      let fee = calc_fee b.config px close_size fill_type in
      let pos' = shrunk pos close_size px fee in
      let paid =
        f.add b.balance (f.sub (f.mul (price_diff pos.side px pos.entry_px) close_size) fee) in
      if f.lt epsilon pos'.size
      then (
        none,
        record b {
          balance = paid;
          position = some pos';
          resting_orders = reconcile pos'.size b.resting_orders;
        },
      )
      else (
        some (closed_trade pos' close_size px ts fill_type),
        record b {
          balance = paid;
          trades = b.trades ++ closed_trade pos' close_size px ts fill_type ∷ [];
          position = none;
          resting_orders = keep_opening b.resting_orders;
        },
      )

  abbrev pub fill_close_of :
      Option (PositionState F)
      → Option (EngineOrder F)
      → (px : F) → (ts : ℕ) → FillType
      → Backtester F I V K S
      → Option (TradeInfo F) × Backtester F I V K S
  unfolding fill_part
  fill_close_of none order px ts fill_type b = (none, b)
  fill_close_of (some pos) order px ts fill_type b =
      let close_size = f.fmax (f.fmin (requested_size order pos) pos.size) (f.of_nat 0) in
      if f.le close_size epsilon then (none, b) else fill_part pos close_size px ts fill_type b

  -- The trade, where the fill closed the position, and the state after it.
  unfoldable pub fill_close_at_px :
      Option (EngineOrder F)
      → (px : F) → (ts : ℕ) → FillType
      → Backtester F I V K S
      → Option (TradeInfo F) × Backtester F I V K S
  unfolding fill_close_of
  fill_close_at_px order px ts fill_type b = fill_close_of b.position order px ts fill_type b

  abbrev pub attach_trigger :
      TriggerKind
      → Option F
      → PositionState F
      → (size : F) → (placed_at : ℕ) → Backtester F I V K S
      → Backtester F I V K S
  unfolding calc_trigger_px new_tp new_sl
  attach_trigger kind none pos size placed_at b = b
  attach_trigger kind (some delta) pos size placed_at b =
      let trigger_px = calc_trigger_px pos.side kind delta pos.entry_px b.config.lev in
      rest_order
        (record {
          order = trigger_order kind size trigger_px;
          kind = resting_close;
          placed_at = placed_at;
        })
        b

  abbrev pub attach_to :
      Option (PositionState F)
      → Triggers F
      → (size : F) → (placed_at : ℕ) → Backtester F I V K S
      → Backtester F I V K S
  unfolding attach_trigger
  attach_to none t size placed_at b = b
  attach_to (some pos) t size placed_at b =
      attach_trigger sl t.sl pos size placed_at (attach_trigger tp t.tp pos size placed_at b)

  unfoldable pub attach_triggers_after_open :
      Triggers F
      → (trigger_size : F) → (placed_at : ℕ) → Backtester F I V K S
      → Backtester F I V K S
  unfolding attach_to
  attach_triggers_after_open t size placed_at b = attach_to b.position t size placed_at b

  unfoldable pub attach_some :
      Option (Triggers F)
      → (trigger_size : F) → (placed_at : ℕ) → Backtester F I V K S
      → Backtester F I V K S
  unfolding attach_triggers_after_open
  attach_some none size placed_at b = b
  attach_some (some t) size placed_at b = attach_triggers_after_open t size placed_at b

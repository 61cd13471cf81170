-- ===== src/Backtest/Backtester/Positions.antt =====
-- src/backtest/backtester.rs: the position and the resting orders after a fill.
use hyperliquid_rust_bot.Prelude.{
  ℕ, Bool, true, false, not, ◌||◌, Option, none, some, List, [], ◌∷◌, if◌then◌else◌,
}
use hyperliquid_rust_bot.Prelude.Maps.{nat_eq}
use hyperliquid_rust_bot.Float.{Float}
use hyperliquid_rust_bot.Exec.Types.{
  PositionOp, open_long, open_short, close, Side, long, short, side_eq, FillType, EngineOrder,
  TradeInfo,
}
use hyperliquid_rust_bot.Backtest.Backtester.State.{
  PositionState, RestingKind, resting_open, resting_close, RestingOrder, epsilon, price_diff,
}

abbrev pub is_resting_open : {F : Type 0} → RestingKind F → Bool
is_resting_open (resting_open _) = true
is_resting_open resting_close = false

module _ {F : Type 0} where
  -- `retain` of the orders that open a position.
  unfoldable pub keep_opening : List (ℕ × RestingOrder F) → List (ℕ × RestingOrder F)
  keep_opening [] = []
  keep_opening ((id, r) ∷ rs) =
      let rest = keep_opening rs in if is_resting_open r.kind then (id, r) ∷ rest else rest

abbrev pub opening_side : PositionOp → Option Side
opening_side open_long = some long
opening_side open_short = some short
opening_side close = none

module _ {F : Type 0} ⦃f : Float F⦄ where
  abbrev pub clamped : F → RestingOrder F → RestingOrder F
  clamped max_size r = record r { order = record r.order { size = f.fmin r.order.size max_size } }

  -- `reconcile_close_order_sizes`.
  unfoldable pub reconcile : F → List (ℕ × RestingOrder F) → List (ℕ × RestingOrder F)
  reconcile max_size [] = []
  reconcile max_size ((id, r) ∷ rs) =
      (id, if is_resting_open r.kind then r else clamped max_size r) ∷ reconcile max_size rs

  -- The position after an opening fill; one of the other side is left as it is.
  abbrev pub grown :
      Option (PositionState F) → Side → (size px fee : F) → ℕ → FillType → Option (PositionState F)
  grown none side size px fee ts fill_type = some (record {
    side = side;
    size = size;
    entry_px = px;
    open_time = ts;
    fees = fee;
    funding = f.of_nat 0;
    realised_pnl = f.neg fee;
    fill_type = fill_type;
  })
  grown (some pos) side size px fee ts fill_type =
      let new_size = f.add pos.size size in
      if not (side_eq pos.side side) || f.le new_size epsilon
      then some pos
      else some (record pos {
        entry_px = f.div (f.add (f.mul pos.entry_px pos.size) (f.mul px size)) new_size;
        size = new_size;
        realised_pnl = f.sub pos.realised_pnl fee;
        fees = f.add pos.fees fee;
      })

module _ {F : Type 0} where
  abbrev pub requested_size : Option (EngineOrder F) → PositionState F → F
  requested_size none pos = pos.size
  requested_size (some o) pos = o.size

module _ {F : Type 0} ⦃f : Float F⦄ where
  -- The position with a part closed.
  abbrev pub shrunk : PositionState F → (close_size px fee : F) → PositionState F
  shrunk pos close_size px fee =
      let net = f.sub (f.mul (price_diff pos.side px pos.entry_px) close_size) fee in
      record pos {
        realised_pnl = f.add pos.realised_pnl net;
        size = f.sub pos.size close_size;
        fees = f.add pos.fees fee;
      }

  abbrev pub closed_trade :
      PositionState F → (close_size px : F) → (ts : ℕ) → FillType → TradeInfo F
  closed_trade pos close_size px ts fill_type = record {
    side = pos.side;
    size = close_size;
    pnl = f.add pos.realised_pnl pos.funding;
    total_pnl = f.add pos.realised_pnl pos.funding;
    fees = pos.fees;
    funding = pos.funding;
    opening = record { time = pos.open_time; price = pos.entry_px; fill_type = pos.fill_type };
    closing = record { time = ts; price = px; fill_type = fill_type };
    strategy = none;
  }

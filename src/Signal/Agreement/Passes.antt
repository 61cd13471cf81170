-- ===== src/Signal/Agreement/Passes.antt =====
-- The orders of live trading pass into a backtest as they are.
use hyperliquid_rust_bot.Prelude.{◌≡◌, refl, Option, none, some, arith}
use hyperliquid_rust_bot.Float.{Float}
use hyperliquid_rust_bot.Price.{Price}
use hyperliquid_rust_bot.Exec.Types.{Side, long, short, order}
use hyperliquid_rust_bot.Exec.Orders.{
  is_tpsl, new_market_open, market_close, new_limit_open, new_limit_close,
}
use hyperliquid_rust_bot.Signal.Intent.{
  Intent, Order, ReduceOrder, LiqSide, taker, maker, Triggers, get_ttl, is_market_order,
  default_timeout,
}
use hyperliquid_rust_bot.Signal.Params.{OpenPosInfo, ExecParams}
use hyperliquid_rust_bot.Signal.Checks.{PendingOrder, to_open, to_close}
use hyperliquid_rust_bot.Signal.Engine.{EngineState}
use hyperliquid_rust_bot.Signal.Orders.{
  opening_order, reducing_order, flattening_order, triggers_of, flattened,
}
use hyperliquid_rust_bot.Signal.Ticks.{main_order, waiting_state}
use hyperliquid_rust_bot.Signal.Actions.{
  submit_order, bt_open, bt_reduce, bt_flatten, BtIntent, action_of, bt_order_from_pending,
  submitted_state,
}
use hyperliquid_rust_bot.Signal.Agreement.{own, commands_of}

module _ {F : Type 0} where
  -- The states after an order are the same.
  pub waiting-submitted :
      (intent : Intent F) (price : Price F) {s t : EngineState F}
      → s ≡ t
      → waiting_state intent price s ≡ submitted_state intent price t
  unfolding waiting_state submitted_state is_market_order default_timeout get_ttl
  waiting-submitted intent price h = ground (arith, h)

  -- An order passes into the backtest as it is.
  abbrev pub Passes : PendingOrder F → BtIntent → Type 0
  unfolding bt_order_from_pending
  Passes pending intent =
      commands_of (action_of submit_order (bt_order_from_pending pending) (some intent))
      ≡ own (order (main_order pending))

  market_open-Passes :
      (side : Side) (size : F) (t : Option (Triggers F))
      → Passes (to_open (record { order = new_market_open side size; tpsl = t })) bt_open
  unfolding bt_order_from_pending new_market_open is_tpsl
  market_open-Passes long size t = refl
  market_open-Passes short size t = refl

  limit_open-Passes :
      (side : Side) (size px : F) (t : Option (Triggers F))
      → Passes (to_open (record { order = new_limit_open side size px none; tpsl = t })) bt_open
  unfolding bt_order_from_pending new_limit_open is_tpsl
  limit_open-Passes long size px t = refl
  limit_open-Passes short size px t = refl

  market_close-Passes : (size : F) (i : BtIntent) → Passes (to_close (market_close size)) i
  unfolding bt_order_from_pending market_close is_tpsl
  market_close-Passes size i = refl

  limit_close-Passes :
      (size px : F) (i : BtIntent) → Passes (to_close (new_limit_close size px none)) i
  unfolding bt_order_from_pending new_limit_close is_tpsl
  limit_close-Passes size px i = refl

module _ {F : Type 0} ⦃f : Float F⦄ where
  pub opening-Passes :
      (params : ExecParams F) (o : Order F) (liq : LiqSide F) (price : Price F)
      → Passes
          (to_open (record { order = opening_order params o liq price; tpsl = triggers_of o }))
          bt_open
  unfolding bt_order_from_pending
  opening-Passes params o taker price = market_open-Passes o.side _ (triggers_of o)
  opening-Passes params o (maker l) price = limit_open-Passes o.side _ l.limit_px (triggers_of o)

  pub reducing-Passes :
      (params : ExecParams F) (o : ReduceOrder F) (liq : LiqSide F) (price : Price F)
      → Passes (to_close (reducing_order params o liq price)) bt_reduce
  unfolding bt_order_from_pending
  reducing-Passes params o taker price = market_close-Passes _ bt_reduce
  reducing-Passes params o (maker l) price = limit_close-Passes _ l.limit_px bt_reduce

  flattening-Passes :
      (size : F) (liq : LiqSide F) → Passes (to_close (flattening_order size liq)) bt_flatten
  unfolding bt_order_from_pending
  flattening-Passes size taker = market_close-Passes size bt_flatten
  flattening-Passes size (maker l) = limit_close-Passes size l.limit_px bt_flatten

  abbrev pub PassesSome : Option (PendingOrder F) → BtIntent → Type 0
  unfolding bt_order_from_pending
  PassesSome none i = Unit {0}
  PassesSome (some pending) i = Passes pending i

  pub flattened-Passes :
      (pos : Option (OpenPosInfo F)) (liq : LiqSide F) → PassesSome (flattened pos liq) bt_flatten
  unfolding bt_order_from_pending
  flattened-Passes none liq = tt
  flattened-Passes (some pos) liq = flattening-Passes pos.size liq

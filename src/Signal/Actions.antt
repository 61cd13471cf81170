-- ===== src/Signal/Actions.antt =====
-- src/signal/engine.rs: the actions of a backtest, and the state after them.
use hyperliquid_rust_bot.Prelude.{Option, none, some, List, [], ◌∷◌, is_some, if◌then◌else◌}
use hyperliquid_rust_bot.Prelude.Maps.{string_eq, pair_eq}
use hyperliquid_rust_bot.Prelude.Words.{wrapping_add}
use hyperliquid_rust_bot.Float.{Float}
use hyperliquid_rust_bot.Price.{Price}
use hyperliquid_rust_bot.TimeFrame.{tf_eq}
use hyperliquid_rust_bot.Exec.Types.{PositionOp, open_long, open_short, close, EngineOrder}
use hyperliquid_rust_bot.Signal.Intent.{
  OnTimeout, force, cancel, TimeoutInfo, Intent, open_order, reduce, flatten, arm, disarm, abort,
  Triggers, LiveTimeoutInfo, get_ttl, is_market_order, default_timeout,
}
use hyperliquid_rust_bot.Signal.Params.{ExecParams}
use hyperliquid_rust_bot.Signal.Checks.{PendingOpen, PendingOrder, to_open, to_close}
use hyperliquid_rust_bot.Signal.Engine.{EngineState, opening, closing}
use hyperliquid_rust_bot.Signal.Orders.{force_as_taker_order}

pub data BtIntent : Type 0 where
  bt_open bt_reduce bt_flatten : BtIntent

pub record OpenOrder (F : Type 0) : Type 0 where
  pub order : EngineOrder F
  pub triggers : Option (Triggers F)

pub record CloseOrder (F : Type 0) : Type 0 where
  pub order : EngineOrder F

pub data BtOrder (F : Type 0) : Type 0 where
  opens : OpenOrder F → BtOrder F
  closes : CloseOrder F → BtOrder F

pub data BtAction (F : Type 0) : Type 0 where
  submit_order force_taker_order : BtOrder F → BtIntent → BtAction F
  cancel_all_resting force_close_market : BtAction F

module _ {F : Type 0} where
  unfoldable pub from_intent : Intent F → Option BtIntent
  from_intent (open_order _) = some bt_open
  from_intent (reduce _) = some bt_reduce
  from_intent (flatten _) = some bt_flatten
  from_intent (arm _) = none
  from_intent disarm = none
  from_intent abort = none

  -- `OpenOrder::try_new` and `CloseOrder::try_new`, by the order's action.
  abbrev pub try_open : PositionOp → EngineOrder F → Option (Triggers F) → Option (BtOrder F)
  try_open close order triggers = none
  try_open open_long order triggers = some (opens (record { order = order; triggers = triggers }))
  try_open open_short order triggers = some (opens (record { order = order; triggers = triggers }))

  abbrev pub try_close : PositionOp → EngineOrder F → Option (BtOrder F)
  try_close close order = some (closes (record { order = order }))
  try_close open_long order = none
  try_close open_short order = none

  unfoldable pub bt_order_from_pending : PendingOrder F → Option (BtOrder F)
  bt_order_from_pending (to_open p) = try_open p.order.action p.order p.tpsl
  bt_order_from_pending (to_close o) = try_close o.action o

  abbrev pub bt_order_by : PositionOp → EngineOrder F → Option (BtOrder F)
  bt_order_by close order = try_close order.action order
  bt_order_by open_long order = try_open order.action order none
  bt_order_by open_short order = try_open order.action order none

  unfoldable pub bt_order_from_engine_order : EngineOrder F → Option (BtOrder F)
  bt_order_from_engine_order order = bt_order_by order.action order

  -- An action, where both its order and its intent are there.
  abbrev pub action_of :
      (BtOrder F → BtIntent → BtAction F) → Option (BtOrder F) → Option BtIntent → List (BtAction F)
  action_of act (some order) (some intent) = act order intent ∷ []
  action_of act _ _ = []

  abbrev pub order_of : Option (EngineOrder F) → Option (BtOrder F)
  unfolding bt_order_from_engine_order
  order_of none = none
  order_of (some o) = bt_order_from_engine_order o

module _ {F : Type 0} ⦃f : Float F⦄ where
  abbrev pub forced : ExecParams F → Intent F → Price F → List (BtAction F)
  unfolding order_of force_as_taker_order from_intent
  forced params (flatten _) price = force_close_market ∷ []
  forced params intent price =
      action_of force_taker_order (order_of (force_as_taker_order params intent price))
        (from_intent intent)

  abbrev pub timed_out : ExecParams F → OnTimeout → Intent F → Price F → List (BtAction F)
  unfolding forced
  timed_out params force intent price = forced params intent price
  timed_out params cancel intent price = force_close_market ∷ []

module _ {F : Type 0} where
  abbrev pub timeout_from : TimeoutInfo → Intent F → Price F → LiveTimeoutInfo F
  timeout_from ttl intent price = record {
    expire_at = wrapping_add price.open_time ttl.duration;
    timeout_info = ttl;
    intent = intent;
  }

  abbrev pub busy_as : Intent F → Option (LiveTimeoutInfo F) → EngineState F → EngineState F
  busy_as (open_order _) timeout s = opening timeout
  busy_as (reduce _) timeout s = closing timeout
  busy_as (flatten _) timeout s = closing timeout
  busy_as (arm _) timeout s = s
  busy_as disarm timeout s = s
  busy_as abort timeout s = s

  -- The state after a submitted order: by the intent's timeout, the default one, or none.
  unfoldable pub submitted_state : Intent F → Price F → EngineState F → EngineState F
  unfolding get_ttl is_market_order default_timeout
  submitted_state intent price s = elim (get_ttl intent) [
    | some ttl ↦ busy_as intent (some (timeout_from ttl intent price)) s
    | none ↦
        if is_market_order intent
        then busy_as intent (some (timeout_from default_timeout intent price)) s
        else busy_as intent none s
  ]

  -- The pending order after a submission: an opening order with triggers waits for its position.
  abbrev pub pending_after :
      Option (BtOrder F) → Option BtIntent → Option (PendingOpen F) → Option (PendingOpen F)
  pending_after (some (opens o)) (some _) before =
      if is_some o.triggers then some (record { order = o.order; tpsl = o.triggers }) else before
  pending_after _ _ before = before

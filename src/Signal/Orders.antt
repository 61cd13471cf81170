-- ===== src/Signal/Orders.antt =====
-- src/signal/engine.rs: intents turned into orders, and the triggers that wait for a position.
use hyperliquid_rust_bot.Prelude.{
  Bool, false, ◌||◌, Option, none, some, is_some, if◌then◌else◌, ok, err,
}
use hyperliquid_rust_bot.Float.{Float}
use hyperliquid_rust_bot.Price.{Price}
use hyperliquid_rust_bot.Exec.Types.{TriggerKind, tp, sl, EngineOrder, order, control, force_close}
use hyperliquid_rust_bot.Exec.Orders.{
  new_market_open, market_close, new_limit_open, new_limit_close, new_tp, new_sl,
}
use hyperliquid_rust_bot.Signal.Intent.{
  LiqSide, taker, maker, Order, ReduceOrder, Intent, open_order, reduce, flatten, arm, disarm,
  abort, Triggers, SizeSpec, get_size,
}
use hyperliquid_rust_bot.Signal.Params.{OpenPosInfo, ExecParams, free_margin}
use hyperliquid_rust_bot.Signal.Checks.{
  PendingOpen, PendingOrder, to_open, to_close, validate_trigger_price, calc_trigger_px,
}
use hyperliquid_rust_bot.Signal.Engine.{Channels, SignalEngine, queue_exec_command}

-- `PendingOpen::has_trigger`.
abbrev pub has_any : {F : Type 0} → Option (Triggers F) → Bool
has_any none = false
has_any (some t) = is_some t.tp || is_some t.sl

module _ {F : Type 0} ⦃f : Float F⦄ where
  -- The size of an order at a price, by the engine's parameters.
  abbrev pub sized : ExecParams F → SizeSpec F → (ref_px : F) → F
  sized params size ref_px = get_size size (f.of_nat params.lev) (free_margin params) ref_px

  abbrev pub opening_order : ExecParams F → Order F → LiqSide F → Price F → EngineOrder F
  opening_order params o taker last_price =
      new_market_open o.side (sized params o.size last_price.close_px)
  opening_order params o (maker l) last_price =
      new_limit_open o.side (sized params o.size l.limit_px) l.limit_px none

  abbrev pub reducing_order : ExecParams F → ReduceOrder F → LiqSide F → Price F → EngineOrder F
  reducing_order params o taker last_price = market_close (sized params o.size last_price.close_px)
  reducing_order params o (maker l) last_price =
      new_limit_close (sized params o.size l.limit_px) l.limit_px none

  abbrev pub flattening_order : (size : F) → LiqSide F → EngineOrder F
  flattening_order size taker = market_close size
  flattening_order size (maker l) = new_limit_close size l.limit_px none

  abbrev pub triggers_of : Order F → Option (Triggers F)
  triggers_of o =
      if is_some o.tp || is_some o.sl then some (record { tp = o.tp; sl = o.sl }) else none

  abbrev pub flattened : Option (OpenPosInfo F) → LiqSide F → Option (PendingOrder F)
  flattened none liq = none
  flattened (some pos) liq = some (to_close (flattening_order pos.size liq))

  unfoldable pub translate_intent : ExecParams F → Intent F → Price F → Option (PendingOrder F)
  unfolding get_size free_margin
  translate_intent params (open_order o) last_price = some (
      to_open
        (record { order = opening_order params o o.liq_side last_price; tpsl = triggers_of o }))
  translate_intent params (reduce o) last_price =
      some (to_close (reducing_order params o o.liq_side last_price))
  translate_intent params (flatten liq) last_price = flattened params.open_pos liq
  translate_intent params (arm _) last_price = none
  translate_intent params disarm last_price = none
  translate_intent params abort last_price = none

  unfoldable pub force_as_taker_order : ExecParams F → Intent F → Price F → Option (EngineOrder F)
  unfolding get_size free_margin new_market_open market_close
  force_as_taker_order params (open_order o) last_price =
      some (new_market_open o.side (sized params o.size last_price.close_px))
  force_as_taker_order params (reduce o) last_price =
      some (market_close (sized params o.size last_price.close_px))
  force_as_taker_order params (flatten _) last_price = none
  force_as_taker_order params (arm _) last_price = none
  force_as_taker_order params disarm last_price = none
  force_as_taker_order params abort last_price = none

abbrev pub trigger_order : {F : Type 0} → TriggerKind → (size trigger_px : F) → EngineOrder F
unfolding new_tp new_sl
trigger_order tp size trigger_px = new_tp size trigger_px
trigger_order sl size trigger_px = new_sl size trigger_px

module _ {F I V K S : Type 0} ⦃f : Float F⦄ (ch : Channels) where
  unfoldable pub force_close_exec : SignalEngine F I V K S → SignalEngine F I V K S
  unfolding queue_exec_command
  force_close_exec e = (queue_exec_command ch (control force_close) e).1

  -- One trigger of `queue_pending_tpsl`.
  unfoldable pub queue_trigger :
      TriggerKind
      → Option F
      → (size : F) → OpenPosInfo F
      → SignalEngine F I V K S
      → SignalEngine F I V K S
  unfolding trigger_order validate_trigger_price calc_trigger_px queue_exec_command
  queue_trigger trigger none size pos e = e
  queue_trigger trigger (some delta) size pos e =
      let trigger_px = calc_trigger_px pos.side trigger delta pos.entry_px e.exec_params.lev in
      elim (validate_trigger_price trigger_px) [
        | err _ ↦ e
        | ok _ ↦ (queue_exec_command ch (order (trigger_order trigger size trigger_px)) e).1
      ]

  -- The triggers of the pending order, with that order taken.
  abbrev pub queue_triggers :
      Option (Triggers F)
      → (size : F) → OpenPosInfo F
      → SignalEngine F I V K S
      → SignalEngine F I V K S
  unfolding queue_trigger
  queue_triggers none size pos e = e
  queue_triggers (some t) size pos e =
      queue_trigger sl t.sl size pos (queue_trigger tp t.tp size pos e)

  abbrev pub queue_pending :
      Option (PendingOpen F) → OpenPosInfo F → SignalEngine F I V K S → SignalEngine F I V K S
  unfolding queue_triggers
  queue_pending none pos e = e
  queue_pending (some p) pos e =
      queue_triggers p.tpsl p.order.size pos (record e { pending_orders = none })

  unfoldable pub queue_pending_tpsl :
      OpenPosInfo F → SignalEngine F I V K S → SignalEngine F I V K S
  unfolding queue_pending
  queue_pending_tpsl pos e = queue_pending e.pending_orders pos e

-- ===== src/Signal/Replay.antt =====
-- src/signal/engine.rs: the engine in a backtest. Its orders are actions returned to the backtester.
use Prim.Native.String.{String}
use hyperliquid_rust_bot.Prelude.{
  not, ◌&&◌, Option, none, some, List, [], ◌∷◌, ◌++◌, leb, if◌then◌else◌, ok, err,
}
use hyperliquid_rust_bot.Prelude.Maps.{Eq, string_eq, pair_eq, get, insert}
use hyperliquid_rust_bot.Prelude.Words.{wrapping_add}
use hyperliquid_rust_bot.Float.{Float}
use hyperliquid_rust_bot.Price.{Price}
use hyperliquid_rust_bot.TimeFrame.{TimeFrame, tf_eq}
use hyperliquid_rust_bot.Signal.Intent.{Intent, arm, disarm, abort, LiveTimeoutInfo}
use hyperliquid_rust_bot.Signal.Params.{OpenPosInfo}
use hyperliquid_rust_bot.Signal.Checks.{PendingOrder, validate_trade}
use hyperliquid_rust_bot.Signal.Tracker.{Indicator, digest_price}
use hyperliquid_rust_bot.Signal.Engine.{
  EngineState, idle, armed, in_position, opening, closing, Strat, SignalEngine, is_idle, is_busy,
  is_abort, get_active_values, reset,
}
use hyperliquid_rust_bot.Signal.Orders.{translate_intent, force_as_taker_order}
use hyperliquid_rust_bot.Signal.Ticks.{strat_tick}
use hyperliquid_rust_bot.Signal.Actions.{
  BtAction, submit_order, force_close_market, from_intent, bt_order_from_pending,
  bt_order_from_engine_order, action_of, timed_out, submitted_state, pending_after,
}

module _ {F I V K S : Type 0} ⦃f : Float F⦄ where
  unfoldable pub expire_backtest :
      Option (LiveTimeoutInfo F)
      → Price F
      → SignalEngine F I V K S
      → List (BtAction F) × SignalEngine F I V K S
  unfolding bt_order_from_engine_order force_as_taker_order from_intent
  expire_backtest none price e = ([], e)
  expire_backtest (some t) price e =
      if leb t.expire_at price.open_time
      then (
        timed_out e.exec_params t.timeout_info.action t.intent price,
        record e { state = idle; pending_orders = none },
      )
      else ([], e)

  abbrev pub refresh_backtest :
      EngineState F
      → Option (OpenPosInfo F)
      → Price F
      → SignalEngine F I V K S
      → List (BtAction F) × SignalEngine F I V K S
  unfolding expire_backtest
  refresh_backtest (opening ttl) (some pos) price e = ([], record e { state = in_position pos })
  refresh_backtest (opening ttl) none price e = expire_backtest ttl price e
  refresh_backtest (closing ttl) none price e = ([], record e { state = idle })
  refresh_backtest (closing ttl) (some pos) price e = expire_backtest ttl price e
  refresh_backtest (armed expire_at) pos price e =
      ([], if leb expire_at price.open_time then record e { state = idle } else e)
  refresh_backtest idle none price e = ([], e)
  refresh_backtest idle (some pos) price e = ([], record e { state = in_position pos })
  refresh_backtest (in_position _) none price e = ([], record e { state = idle })
  refresh_backtest (in_position _) (some pos) price e =
      ([], record e { state = in_position pos; pending_orders = none })

  unfoldable pub refresh_state_backtest :
      Price F → SignalEngine F I V K S → List (BtAction F) × SignalEngine F I V K S
  unfolding refresh_backtest
  refresh_state_backtest price e = refresh_backtest e.state e.exec_params.open_pos price e

module _ {F I V K S : Type 0} ⦃f : Float F⦄ where
  unfoldable pub submit_backtest :
      Intent F
      → (price execution_price : Price F) → PendingOrder F
      → SignalEngine F I V K S
      → List (BtAction F) × SignalEngine F I V K S
  unfolding validate_trade bt_order_from_pending from_intent submitted_state
  submit_backtest intent price execution_price pending e =
      elim (validate_trade e.exec_params pending execution_price.close_px) [
        | err _ ↦ ([], e)
        | ok _ ↦ (
          action_of submit_order (bt_order_from_pending pending) (from_intent intent),
          record e {
            pending_orders =
                pending_after (bt_order_from_pending pending) (from_intent intent) e.pending_orders;
            state = submitted_state intent price e.state;
          },
        )
      ]

  abbrev pub submit_some_backtest :
      Intent F
      → (price execution_price : Price F) → Option (PendingOrder F)
      → SignalEngine F I V K S
      → List (BtAction F) × SignalEngine F I V K S
  unfolding submit_backtest
  submit_some_backtest intent price execution_price none e = ([], e)
  submit_some_backtest intent price execution_price (some pending) e =
      submit_backtest intent price execution_price pending e

  abbrev pub disarm_backtest : EngineState F → SignalEngine F I V K S → SignalEngine F I V K S
  disarm_backtest (armed _) e = record e { state = idle }
  disarm_backtest _ e = e

  abbrev pub on_intent_backtest :
      Intent F
      → (price execution_price : Price F) → SignalEngine F I V K S
      → List (BtAction F) × SignalEngine F I V K S
  unfolding submit_some_backtest translate_intent
  on_intent_backtest abort price execution_price e =
      (force_close_market ∷ [], record e { pending_orders = none; state = idle })
  on_intent_backtest (arm duration) price execution_price e = (
    [],
    if is_idle e.state
        then record e { state = armed (wrapping_add price.open_time duration) }
        else e,
  )
  on_intent_backtest disarm price execution_price e = ([], disarm_backtest e.state e)
  on_intent_backtest intent price execution_price e =
      submit_some_backtest intent price execution_price
        (translate_intent e.exec_params intent execution_price) e

  unfoldable pub act_on_backtest :
      Option (Intent F)
      → (price execution_price : Price F) → SignalEngine F I V K S
      → List (BtAction F) × SignalEngine F I V K S
  unfolding on_intent_backtest
  act_on_backtest none price execution_price e = ([], e)
  act_on_backtest (some intent) price execution_price e =
      if is_busy e.state && not (is_abort intent)
      then ([], e)
      else on_intent_backtest intent price execution_price e

module _ {F I V K C S : Type 0} ⦃f : Float F⦄ ⦃k : Eq K⦄ (ind : Indicator F I V K)
    (strat : Strat F V K C S) where
  unfoldable pub reset_for_backtest : SignalEngine F I V K S → SignalEngine F I V K S
  unfolding reset
  reset_for_backtest e = record (reset ind e) {
    state = idle;
    pending_orders = none;
    strategy = strat.reset_scope e.strategy;
  }

  -- `tick_backtest` after the tracker of the candle's timeframe has taken the candle.
  unfoldable pub decide_backtest :
      (price execution_price : Price F)
      → SignalEngine F I V K S
      → List (BtAction F) × SignalEngine F I V K S
  unfolding refresh_state_backtest get_active_values strat_tick act_on_backtest
  decide_backtest price execution_price e =
      let (before, e1) = refresh_state_backtest price e in
      let (intent, e2) = strat_tick strat price (get_active_values ind e1.trackers) e1 in
      let (after, e3) = act_on_backtest intent price execution_price e2 in (before ++ after, e3)

  unfoldable pub tick_backtest :
      String
      → TimeFrame
      → (price execution_price : Price F) → SignalEngine F I V K S
      → List (BtAction F) × SignalEngine F I V K S
  unfolding digest_price decide_backtest
  tick_backtest asset tf price execution_price e =
      let digested : SignalEngine F I V K S = elim (get e.trackers (asset, tf)) [
        | none ↦ e
        | some t ↦ record e { trackers = insert e.trackers (asset, tf) (digest_price ind price t) }
      ] in
      if e.paused then ([], digested) else decide_backtest price execution_price digested

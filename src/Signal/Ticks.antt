-- ===== src/Signal/Ticks.antt =====
-- src/signal/engine.rs: the refresh of the state before a tick, and the tick of the strategy.
use hyperliquid_rust_bot.Prelude.{not, ◌&&◌, Option, none, some, List, leb, if◌then◌else◌, ok, err}
use hyperliquid_rust_bot.Prelude.Maps.{Eq}
use hyperliquid_rust_bot.Prelude.Words.{wrapping_add}
use hyperliquid_rust_bot.Float.{Float}
use hyperliquid_rust_bot.Price.{Price}
use hyperliquid_rust_bot.Exec.Types.{EngineOrder, order, force_taker}
use hyperliquid_rust_bot.Signal.Intent.{
  OnTimeout, force, cancel, TimeoutInfo, Intent, open_order, reduce, flatten, arm, disarm, abort,
  LiveTimeoutInfo, BusyType, get_ttl, is_market_order, default_timeout,
}
use hyperliquid_rust_bot.Signal.Params.{OpenPosInfo, ExecParams, free_margin}
use hyperliquid_rust_bot.Signal.Checks.{
  PendingOpen, PendingOrder, to_open, to_close, validate_trade,
}
use hyperliquid_rust_bot.Signal.Tracker.{Indicator, IndexId, TimedValue}
use hyperliquid_rust_bot.Signal.Engine.{
  EngineState, idle, armed, in_position, opening, closing, StratContext, Strat, Channels,
  SignalEngine, is_idle, is_busy, is_abort, queue_exec_command, get_active_values,
}
use hyperliquid_rust_bot.Signal.Orders.{
  has_any, translate_intent, force_as_taker_order, force_close_exec, queue_pending_tpsl,
}

module _ {F I V K S : Type 0} ⦃f : Float F⦄ (ch : Channels) where
  abbrev pub queue_force : Option (EngineOrder F) → SignalEngine F I V K S → SignalEngine F I V K S
  unfolding queue_exec_command
  queue_force none e = e
  queue_force (some o) e = (queue_exec_command ch (force_taker o) e).1

  abbrev pub force_intent : Intent F → Price F → SignalEngine F I V K S → SignalEngine F I V K S
  unfolding force_close_exec queue_force force_as_taker_order
  force_intent (flatten _) price e = force_close_exec ch e
  force_intent intent price e = queue_force (force_as_taker_order e.exec_params intent price) e

  abbrev pub on_timeout :
      OnTimeout → Intent F → Price F → SignalEngine F I V K S → SignalEngine F I V K S
  unfolding force_close_exec force_intent
  on_timeout force intent price e = force_intent intent price e
  on_timeout cancel intent price e = force_close_exec ch e

  -- A busy state whose timeout may have expired.
  unfoldable pub expire :
      Option (LiveTimeoutInfo F) → Price F → SignalEngine F I V K S → SignalEngine F I V K S
  unfolding on_timeout
  expire none price e = e
  expire (some t) price e =
      if leb t.expire_at price.open_time
      then record (on_timeout t.timeout_info.action t.intent price e) {
        state = idle;
        pending_orders = none;
      }
      else e

  -- `Open` is entered with the triggers of the pending order queued.
  abbrev pub enter_position : OpenPosInfo F → SignalEngine F I V K S → SignalEngine F I V K S
  unfolding queue_pending_tpsl
  enter_position pos e = queue_pending_tpsl ch pos (record e { state = in_position pos })

  abbrev pub refresh :
      EngineState F
      → Option (OpenPosInfo F)
      → Price F
      → SignalEngine F I V K S
      → SignalEngine F I V K S
  unfolding expire enter_position
  refresh (opening ttl) (some pos) price e = enter_position pos e
  refresh (opening ttl) none price e = expire ttl price e
  refresh (closing ttl) none price e = record e { state = idle }
  refresh (closing ttl) (some pos) price e = expire ttl price e
  refresh (armed expire_at) pos price e =
      if leb expire_at price.open_time then record e { state = idle } else e
  refresh idle none price e = e
  refresh idle (some pos) price e = enter_position pos e
  refresh (in_position _) none price e = record e { state = idle }
  refresh (in_position _) (some pos) price e = enter_position pos e

  unfoldable pub refresh_state : Price F → SignalEngine F I V K S → SignalEngine F I V K S
  unfolding refresh
  refresh_state price e = refresh e.state e.exec_params.open_pos price e

module _ {F : Type 0} where
  abbrev pub live_timeout : TimeoutInfo → Intent F → Price F → LiveTimeoutInfo F
  live_timeout ttl intent price = record {
    expire_at = wrapping_add price.open_time ttl.duration;
    timeout_info = ttl;
    intent = intent;
  }

  abbrev pub or_market_timeout :
      Option TimeoutInfo → Intent F → Price F → Option (LiveTimeoutInfo F)
  unfolding is_market_order default_timeout
  or_market_timeout (some ttl) intent price = some (live_timeout ttl intent price)
  or_market_timeout none intent price =
      if is_market_order intent then some (live_timeout default_timeout intent price) else none

  -- The state after the order of an intent.
  unfoldable pub waiting_state : Intent F → Price F → EngineState F → EngineState F
  unfolding or_market_timeout get_ttl
  waiting_state (open_order o) price s =
      opening (or_market_timeout (get_ttl (open_order o)) (open_order o) price)
  waiting_state (reduce o) price s =
      closing (or_market_timeout (get_ttl (reduce o)) (reduce o) price)
  waiting_state (flatten l) price s =
      closing (or_market_timeout (get_ttl (flatten l)) (flatten l) price)
  waiting_state (arm _) price s = s
  waiting_state disarm price s = s
  waiting_state abort price s = s

  abbrev pub main_order : PendingOrder F → EngineOrder F
  main_order (to_open p) = p.order
  main_order (to_close o) = o

  abbrev pub pending_open : PendingOrder F → Option (PendingOpen F)
  pending_open (to_open p) = if has_any p.tpsl then some p else none
  pending_open (to_close o) = none

module _ {F V K C S : Type 0} (strat : Strat F V K C S) where
  abbrev pub ask : EngineState F → StratContext F V K → S → Option (Intent F) × S
  ask idle ctx s = strat.on_idle ctx none s
  ask (armed expiry) ctx s = strat.on_idle ctx (some expiry) s
  ask (opening timeout) ctx s = strat.on_busy ctx (BusyType.opening timeout) s
  ask (closing timeout) ctx s = strat.on_busy ctx (BusyType.closing timeout) s
  ask (in_position pos) ctx s = strat.on_open ctx pos s

module _ {F V K : Type 0} ⦃f : Float F⦄ where
  abbrev pub context : Price F → List (IndexId K × TimedValue V) → ExecParams F → StratContext F V K
  unfolding free_margin
  context price values params = record {
    free_margin = free_margin params;
    lev = params.lev;
    last_price = price;
    indicators = values;
  }

module _ {F I V K C S : Type 0} ⦃f : Float F⦄ (strat : Strat F V K C S) where
  -- The strategy is asked, and its own state goes on.
  unfoldable pub strat_tick :
      Price F
      → List (IndexId K × TimedValue V)
      → SignalEngine F I V K S
      → Option (Intent F) × SignalEngine F I V K S
  unfolding free_margin
  strat_tick price values e =
      let (intent, s) = ask strat e.state (context price values e.exec_params) e.strategy in
      (intent, record e { strategy = s })

module _ {F : Type 0} where
  abbrev pub disarmed : EngineState F → EngineState F
  disarmed (armed _) = idle
  disarmed s = s

module _ {F I V K S : Type 0} ⦃f : Float F⦄ (ch : Channels) where
  -- An order that the intent stands for: validated, queued, and waited for.
  unfoldable pub submit :
      Intent F → Price F → PendingOrder F → SignalEngine F I V K S → SignalEngine F I V K S
  unfolding validate_trade queue_exec_command waiting_state
  submit intent price pending e = elim (validate_trade e.exec_params pending price.close_px) [
    | err _ ↦ e
    | ok _ ↦
        let (queued, e') = queue_exec_command ch (order (main_order pending)) e in
        if queued
        then record e' {
          pending_orders = pending_open pending;
          state = waiting_state intent price e'.state;
        }
        else e'
  ]

  abbrev pub submit_some :
      Intent F → Price F → Option (PendingOrder F) → SignalEngine F I V K S → SignalEngine F I V K S
  unfolding submit
  submit_some intent price none e = e
  submit_some intent price (some pending) e = submit intent price pending e

  -- What an intent does, if the engine is not busy or the intent is to abort.
  abbrev pub on_intent : Intent F → Price F → SignalEngine F I V K S → SignalEngine F I V K S
  unfolding force_close_exec submit_some translate_intent
  on_intent abort price e = record (force_close_exec ch e) { pending_orders = none; state = idle }
  on_intent (arm duration) price e = record e {
    state = if is_idle e.state then armed (wrapping_add price.open_time duration) else e.state;
  }
  on_intent disarm price e = record e { state = disarmed e.state }
  on_intent intent price e =
      submit_some intent price (translate_intent e.exec_params intent price) e

  unfoldable pub act_on :
      Option (Intent F) → Price F → SignalEngine F I V K S → SignalEngine F I V K S
  unfolding on_intent
  act_on none price e = e
  act_on (some intent) price e =
      if is_busy e.state && not (is_abort intent) then e else on_intent intent price e

module _ {F I V K C S : Type 0} ⦃f : Float F⦄ ⦃k : Eq K⦄ (ind : Indicator F I V K)
    (strat : Strat F V K C S) (ch : Channels) where
  unfoldable pub process_strategy_tick : Price F → SignalEngine F I V K S → SignalEngine F I V K S
  unfolding get_active_values refresh_state strat_tick act_on
  process_strategy_tick price e =
      let values = get_active_values ind e.trackers in
      let (intent, e') = strat_tick strat price values (refresh_state ch price e) in
      act_on ch intent price e'

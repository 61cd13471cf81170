-- ===== src/Signal/Loop/Runs.antt =====
-- Every order that the engine sends, over all the commands that it receives.
use Prim.Native.String.{String}
use hyperliquid_rust_bot.Prelude.{
  Bool, true, false, not, ◌&&◌, Option, none, some, List, [], ◌∷◌, Bool-cases, inl, inr,
}
use hyperliquid_rust_bot.Prelude.Maps.{Eq}
use hyperliquid_rust_bot.Float.{Float}
use hyperliquid_rust_bot.Price.{Price}
use hyperliquid_rust_bot.Exec.Types.{control, force_close}
use hyperliquid_rust_bot.Signal.Intent.{Intent, open_order, reduce, flatten, arm, disarm, abort}
use hyperliquid_rust_bot.Signal.Params.{OpenPosInfo, ExecParam, set_margin, set_lev, open_position}
use hyperliquid_rust_bot.Signal.Checks.{PendingOrder}
use hyperliquid_rust_bot.Signal.Tracker.{Indicator}
use hyperliquid_rust_bot.Signal.Engine.{
  EngineState, idle, opening, closing, armed, in_position, Strat, Channels, SignalEngine,
  queue_exec_command, queue_market_command, state_eq, is_busy, is_abort, get_active_values,
  get_indicators_data,
}
use hyperliquid_rust_bot.Signal.Orders.{queue_pending_tpsl, force_close_exec, translate_intent}
use hyperliquid_rust_bot.Signal.Ticks.{
  refresh_state, submit, submit_some, on_intent, act_on, strat_tick, process_strategy_tick,
}
use hyperliquid_rust_bot.Signal.Live.{
  single, bulk, EngineCommand, update_price, update_strategy, edit_indicators, update_exec_params,
  exec_pause, exec_resume, stop, apply_exec_param, apply_open_position_update, apply_position,
  position_gone, still_closing, stage_live_strategy_candle, stage_live_strategy_bulk,
}
use hyperliquid_rust_bot.Signal.Loop.{
  handle, start, on_single, tick_on, digest_single, send_data, edit_all, load_some,
}
use hyperliquid_rust_bot.Signal.Loop.Frames.{
  Leaves-trans, queue_market_command-Leaves, stage_candle-Leaves, stage_bulk-Leaves,
  tell_state-Leaves, edit_all-Leaves, load_some-Leaves, send_data-Leaves, digest_single-Leaves,
  digest_all-Leaves,
}
use hyperliquid_rust_bot.Signal.Loop.Sends.{
  IsSound-Leaves, restate-IsSound, refresh-IsSound, submit-IsSound,
}
use hyperliquid_rust_bot.Signal.Loop.Sound.{IsSound, queue-IsSound, queue_pending_tpsl-IsSound}

module _ {F I V K S : Type 0} ⦃f : Float F⦄ (ch : Channels) where
  submit_some-IsSound :
      (intent : Intent F) (price : Price F) (x : Option (PendingOrder F))
      (e : SignalEngine F I V K S)
      → IsSound e
      → IsSound (submit_some ch intent price x e)
  unfolding submit
  submit_some-IsSound intent price none e h = h
  submit_some-IsSound intent price (some pending) e h = submit-IsSound ch intent price pending e h

  on_intent-IsSound :
      (intent : Intent F) (price : Price F) (e : SignalEngine F I V K S)
      → IsSound e
      → IsSound (on_intent ch intent price e)
  unfolding submit force_close_exec translate_intent queue_exec_command
  on_intent-IsSound abort price e h = record {
    sent = queue-IsSound ch (control force_close) e tt h.sent;
    waiting = tt;
  }
  on_intent-IsSound (arm d) price e h = restate-IsSound ch _ e h
  on_intent-IsSound disarm price e h = restate-IsSound ch _ e h
  on_intent-IsSound (open_order o) price e h =
      submit_some-IsSound (open_order o) price (translate_intent e.exec_params (open_order o) price)
        e h
  on_intent-IsSound (reduce o) price e h =
      submit_some-IsSound (reduce o) price (translate_intent e.exec_params (reduce o) price) e h
  on_intent-IsSound (flatten l) price e h =
      submit_some-IsSound (flatten l) price (translate_intent e.exec_params (flatten l) price) e h

  act_on-IsSound :
      (intent : Option (Intent F)) (price : Price F) (e : SignalEngine F I V K S)
      → IsSound e
      → IsSound (act_on ch intent price e)
  unfolding act_on
  act_on-IsSound none price e h = h
  act_on-IsSound (some intent) price e h =
      elim (Bool-cases (is_busy e.state && not (is_abort intent))) [
        | inl q ↦ rw q h
        | inr q ↦ rw q (on_intent-IsSound intent price e h)
      ]

  position_gone-IsSound :
      (s : EngineState F) (e : SignalEngine F I V K S) → IsSound e → IsSound (position_gone ch s e)
  position_gone-IsSound (in_position _) e h = record { sent = h.sent; waiting = tt }
  position_gone-IsSound (closing _) e h = record { sent = h.sent; waiting = tt }
  position_gone-IsSound idle e h = h
  position_gone-IsSound (armed _) e h = h
  position_gone-IsSound (opening _) e h = h

  apply_position-IsSound :
      (pos previous : Option (OpenPosInfo F)) (e : SignalEngine F I V K S)
      → IsSound e
      → IsSound (apply_position ch pos previous e)
  unfolding queue_pending_tpsl
  apply_position-IsSound none previous e h = position_gone-IsSound e.state e h
  apply_position-IsSound (some pos) previous e h =
      elim (Bool-cases (still_closing e.state previous pos)) [
        | inl q ↦ rw q h
        | inr q ↦
            rw q (queue_pending_tpsl-IsSound ch pos _ (restate-IsSound ch (in_position pos) e h))
      ]

  apply_exec_param-IsSound :
      (param : ExecParam F) (e : SignalEngine F I V K S)
      → IsSound e
      → IsSound (apply_exec_param ch param e)
  unfolding apply_exec_param apply_open_position_update
  apply_exec_param-IsSound (set_margin m) e h = record { sent = h.sent; waiting = h.waiting }
  apply_exec_param-IsSound (set_lev l) e h = record { sent = h.sent; waiting = h.waiting }
  apply_exec_param-IsSound (open_position pos) e h = elim (Bool-cases e.paused) [
    | inl q ↦ rw q (record { sent = h.sent; waiting = h.waiting })
    | inr q ↦ rw q (
        apply_position-IsSound pos e.exec_params.open_pos
          (record e { paused = false; exec_params = record e.exec_params { open_pos = pos } })
          (record { sent = h.sent; waiting = h.waiting }))
  ]

module _ {F I V K C S : Type 0} ⦃f : Float F⦄ ⦃k : Eq K⦄ (ind : Indicator F I V K)
    (strat : Strat F V K C S) (ch : Channels) where
  tick-IsSound :
      (price : Price F) (e : SignalEngine F I V K S)
      → IsSound e
      → IsSound (process_strategy_tick ind strat ch price e)
  unfolding process_strategy_tick strat_tick refresh_state
  tick-IsSound price e h =
      let r = refresh-IsSound ch e.state e.exec_params.open_pos price e h in
      let values = get_active_values ind e.trackers in
      let (intent, e') = strat_tick strat price values (refresh_state ch price e) in
      act_on-IsSound ch intent price e' (record { sent = r.sent; waiting = r.waiting })

  tick_on-IsSound :
      (paused : Bool) (candle : Option (Price F)) (e : SignalEngine F I V K S)
      → IsSound e
      → IsSound (tick_on ind strat ch paused candle e)
  unfolding process_strategy_tick
  tick_on-IsSound true none e h = h
  tick_on-IsSound true (some p) e h = h
  tick_on-IsSound false none e h = h
  tick_on-IsSound false (some p) e h = tick-IsSound p e h

  on_single-IsSound :
      (asset : String) (p : Price F) (e : SignalEngine F I V K S)
      → IsSound e
      → IsSound (on_single ind strat ch asset p e)
  unfolding on_single process_strategy_tick queue_market_command state_eq
  on_single-IsSound asset p e h =
      let (candle, staged) = stage_live_strategy_candle asset p e in
      let ticked = tick_on ind strat ch staged.paused candle staged in
      let digested = digest_single ind asset p ticked in
      let sent = send_data ind ch (get_indicators_data ind digested.trackers) digested in
      IsSound-Leaves ticked _
        (tick_on-IsSound staged.paused candle staged
          (IsSound-Leaves e staged h (stage_candle-Leaves asset p e)))
        (Leaves-trans ticked digested _ (digest_single-Leaves ind asset p ticked) (
          Leaves-trans digested sent _ (send_data-Leaves ind ch _ digested)
            (tell_state-Leaves ch e.state sent)))

  handle-IsSound :
      (cmd : EngineCommand F K C) (e : SignalEngine F I V K S)
      → IsSound e
      → IsSound (handle ind strat ch cmd e)
  unfolding handle queue_market_command state_eq
  handle-IsSound (update_price asset (single p)) e h = on_single-IsSound asset p e h
  handle-IsSound (update_price asset (bulk ps)) e h =
      let staged = stage_live_strategy_bulk asset ps e in
      IsSound-Leaves e _ h (
        Leaves-trans e staged _ (stage_bulk-Leaves asset ps e)
          (digest_all-Leaves ind asset ps staged))
  handle-IsSound (update_strategy compiled indicators) e h = record {
    sent = h.sent;
    waiting = h.waiting;
  }
  handle-IsSound (edit_indicators entries page) e h =
      let edited = edit_all ind entries e in
      let loaded = load_some ind page edited in
      IsSound-Leaves e _ h (
        Leaves-trans e edited _ (edit_all-Leaves ind entries e) (
          Leaves-trans edited loaded _ (load_some-Leaves ind page edited)
            (queue_market_command-Leaves ch _ loaded)))
  handle-IsSound (update_exec_params param) e h =
      IsSound-Leaves (apply_exec_param ch param e) _ (apply_exec_param-IsSound ch param e h)
        (tell_state-Leaves ch e.state (apply_exec_param ch param e))
  handle-IsSound exec_pause e h =
      let paused = record e { paused = true; state = idle; pending_orders = none } in
      IsSound-Leaves paused _ (record { sent = h.sent; waiting = tt })
        (queue_market_command-Leaves ch _ paused)
  handle-IsSound exec_resume e h = record { sent = h.sent; waiting = h.waiting }
  handle-IsSound stop e h = h

  -- In every engine whose sent and pending orders are sound, as one that has sent none, whatever commands
  -- it receives and whatever the script asks: each order that it sends the executor as an `Order` has a
  -- size, and a limit or trigger price if any, that is finite and positive; and each order that it sends
  -- as a `ForceTaker` is a market order, with no limit and no trigger. Nothing is claimed of the size of
  -- the latter, which the code does not check.
  pub start-IsSound :
      (cmds : List (EngineCommand F K C)) (e : SignalEngine F I V K S)
      → IsSound e
      → IsSound (start ind strat ch cmds e)
  unfolding start
  start-IsSound [] e h = h
  start-IsSound (stop ∷ cmds) e h = h
  start-IsSound (exec_resume ∷ cmds) e h = start-IsSound cmds _ (handle-IsSound exec_resume e h)
  start-IsSound (update_price a d ∷ cmds) e h =
      start-IsSound cmds _ (handle-IsSound (update_price a d) e h)
  start-IsSound (update_strategy c i ∷ cmds) e h =
      start-IsSound cmds _ (handle-IsSound (update_strategy c i) e h)
  start-IsSound (edit_indicators i d ∷ cmds) e h =
      start-IsSound cmds _ (handle-IsSound (edit_indicators i d) e h)
  start-IsSound (update_exec_params p ∷ cmds) e h =
      start-IsSound cmds _ (handle-IsSound (update_exec_params p) e h)
  start-IsSound (exec_pause ∷ cmds) e h = start-IsSound cmds _ (handle-IsSound exec_pause e h)

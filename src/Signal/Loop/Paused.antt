-- ===== src/Signal/Loop/Paused.antt =====
-- The paused engine.
use Prim.Native.String.{String}
use hyperliquid_rust_bot.Prelude.{
  ◌≡◌, refl, ◌∙◌, Bool, true, false, Option, none, some, List, [], ◌∷◌,
}
use hyperliquid_rust_bot.Prelude.Maps.{Eq}
use hyperliquid_rust_bot.Float.{Float}
use hyperliquid_rust_bot.Price.{Price}
use hyperliquid_rust_bot.Exec.Types.{ExecCommand}
use hyperliquid_rust_bot.Signal.Params.{ExecParam, set_margin, set_lev, open_position}
use hyperliquid_rust_bot.Signal.Tracker.{Indicator}
use hyperliquid_rust_bot.Signal.Engine.{
  state_eq, queue_market_command, get_indicators_data, idle, Strat, Channels, SignalEngine,
}
use hyperliquid_rust_bot.Signal.Live.{
  single, bulk, EngineCommand, update_price, update_strategy, edit_indicators, update_exec_params,
  exec_pause, exec_resume, stop, apply_exec_param, apply_open_position_update,
  stage_live_strategy_candle, stage_live_strategy_bulk,
}
use hyperliquid_rust_bot.Signal.Loop.{
  handle, start, on_single, tick_on, digest_single, send_data, edit_all, load_some,
}
use hyperliquid_rust_bot.Signal.Ticks.{process_strategy_tick}
use hyperliquid_rust_bot.Signal.Loop.Frames.{
  Leaves, Leaves-trans, queue_market_command-Leaves, stage_candle-Leaves, stage_bulk-Leaves,
  tell_state-Leaves, edit_all-Leaves, load_some-Leaves, send_data-Leaves, digest_single-Leaves,
  digest_all-Leaves,
}

-- A paused engine is idle, with no order pending, and has sent the commands of `log`.
pub record IsPaused {F I V K S : Type 0} (log : List (ExecCommand F)) (e : SignalEngine F I V K S)
    : Type 0 where
  pub paused_yes : e.paused ≡ true
  pub state_idle : e.state ≡ idle
  pub nothing_pending : e.pending_orders ≡ none
  pub log_same : e.exec_log ≡ log

abbrev pub has_resume : {F K C : Type 0} → List (EngineCommand F K C) → Bool
has_resume [] = false
has_resume (exec_resume ∷ cmds) = true
has_resume (_ ∷ cmds) = has_resume cmds

module _ {F I V K S : Type 0} where
  IsPaused-Leaves :
      (log : List (ExecCommand F)) (a b : SignalEngine F I V K S)
      → IsPaused log a
      → Leaves a b
      → IsPaused log b
  IsPaused-Leaves log a b p l = record {
    paused_yes = l.same_paused ∙ p.paused_yes;
    state_idle = l.same_state ∙ p.state_idle;
    nothing_pending = l.same_pending ∙ p.nothing_pending;
    log_same = l.same_log ∙ p.log_same;
  }

module _ {F I V K C S : Type 0} ⦃f : Float F⦄ ⦃k : Eq K⦄ (ind : Indicator F I V K)
    (strat : Strat F V K C S) (ch : Channels) where
  -- A paused engine does not tick.
  tick_on_paused :
      (paused : Bool) (candle : Option (Price F)) (e : SignalEngine F I V K S)
      → paused ≡ true
      → tick_on ind strat ch paused candle e ≡ e
  unfolding process_strategy_tick
  tick_on_paused true none e q = refl
  tick_on_paused true (some p) e q = refl
  tick_on_paused false candle e q = cc

  on_single-Leaves :
      (asset : String) (p : Price F) (e : SignalEngine F I V K S)
      → e.paused ≡ true
      → Leaves e (on_single ind strat ch asset p e)
  unfolding on_single process_strategy_tick queue_market_command state_eq
  on_single-Leaves asset p e q =
      let (candle, staged) = stage_live_strategy_candle asset p e in
      let l = stage_candle-Leaves asset p e in
      rw (tick_on_paused staged.paused candle staged (l.same_paused ∙ q)) (
        let digested = digest_single ind asset p staged in
        let sent = send_data ind ch (get_indicators_data ind digested.trackers) digested in
        Leaves-trans e staged _ l (
          Leaves-trans staged digested _ (digest_single-Leaves ind asset p staged) (
            Leaves-trans digested sent _ (send_data-Leaves ind ch _ digested)
              (tell_state-Leaves ch e.state sent))))

  IsPaused-param :
      (param : ExecParam F) (log : List (ExecCommand F)) (e : SignalEngine F I V K S)
      → IsPaused log e
      → IsPaused log (apply_exec_param ch param e)
  unfolding apply_exec_param apply_open_position_update
  IsPaused-param (set_margin m) log e p = record {
    paused_yes = p.paused_yes;
    state_idle = p.state_idle;
    nothing_pending = p.nothing_pending;
    log_same = p.log_same;
  }
  IsPaused-param (set_lev l) log e p = record {
    paused_yes = p.paused_yes;
    state_idle = p.state_idle;
    nothing_pending = p.nothing_pending;
    log_same = p.log_same;
  }
  IsPaused-param (open_position pos) log e p = rw (p.paused_yes) (record {
    paused_yes = refl;
    state_idle = p.state_idle;
    nothing_pending = p.nothing_pending;
    log_same = p.log_same;
  })

  pause-IsPaused :
      (e : SignalEngine F I V K S) → IsPaused e.exec_log (handle ind strat ch exec_pause e)
  unfolding handle queue_market_command
  pause-IsPaused e =
      let paused = record e { paused = true; state = idle; pending_orders = none } in
      IsPaused-Leaves e.exec_log paused _
        (record { paused_yes = refl; state_idle = refl; nothing_pending = refl; log_same = refl })
        (queue_market_command-Leaves ch _ paused)

  handle-IsPaused :
      (cmd : EngineCommand F K C) (log : List (ExecCommand F)) (e : SignalEngine F I V K S)
      → has_resume (cmd ∷ []) ≡ false
      → IsPaused log e
      → IsPaused log (handle ind strat ch cmd e)
  unfolding handle queue_market_command state_eq
  handle-IsPaused (update_price asset (single p)) log e r h =
      IsPaused-Leaves log e _ h (on_single-Leaves asset p e h.paused_yes)
  handle-IsPaused (update_price asset (bulk ps)) log e r h =
      let staged = stage_live_strategy_bulk asset ps e in
      IsPaused-Leaves log e _ h (
        Leaves-trans e staged _ (stage_bulk-Leaves asset ps e)
          (digest_all-Leaves ind asset ps staged))
  handle-IsPaused (update_strategy compiled indicators) log e r h = record {
    paused_yes = h.paused_yes;
    state_idle = refl;
    nothing_pending = h.nothing_pending;
    log_same = h.log_same;
  }
  handle-IsPaused (edit_indicators entries page) log e r h =
      let edited = edit_all ind entries e in
      let loaded = load_some ind page edited in
      IsPaused-Leaves log e _ h (
        Leaves-trans e edited _ (edit_all-Leaves ind entries e) (
          Leaves-trans edited loaded _ (load_some-Leaves ind page edited)
            (queue_market_command-Leaves ch _ loaded)))
  handle-IsPaused (update_exec_params param) log e r h =
      IsPaused-Leaves log (apply_exec_param ch param e) _ (IsPaused-param param log e h)
        (tell_state-Leaves ch e.state (apply_exec_param ch param e))
  handle-IsPaused exec_pause log e r h =
      let p = pause-IsPaused e in
      record {
        paused_yes = p.paused_yes;
        state_idle = p.state_idle;
        nothing_pending = p.nothing_pending;
        log_same = p.log_same ∙ h.log_same;
      }
  handle-IsPaused exec_resume log e r h = cc
  handle-IsPaused stop log e r h = h

  start-IsPaused :
      (cmds : List (EngineCommand F K C)) (log : List (ExecCommand F)) (e : SignalEngine F I V K S)
      → has_resume cmds ≡ false
      → IsPaused log e
      → IsPaused log (start ind strat ch cmds e)
  unfolding start
  start-IsPaused [] log e r h = h
  start-IsPaused (stop ∷ cmds) log e r h = h
  start-IsPaused (exec_resume ∷ cmds) log e r h = cc
  start-IsPaused (update_price a d ∷ cmds) log e r h =
      start-IsPaused cmds log _ r (handle-IsPaused (update_price a d) log e refl h)
  start-IsPaused (update_strategy c i ∷ cmds) log e r h =
      start-IsPaused cmds log _ r (handle-IsPaused (update_strategy c i) log e refl h)
  start-IsPaused (edit_indicators i d ∷ cmds) log e r h =
      start-IsPaused cmds log _ r (handle-IsPaused (edit_indicators i d) log e refl h)
  start-IsPaused (update_exec_params p ∷ cmds) log e r h =
      start-IsPaused cmds log _ r (handle-IsPaused (update_exec_params p) log e refl h)
  start-IsPaused (exec_pause ∷ cmds) log e r h =
      start-IsPaused cmds log _ r (handle-IsPaused exec_pause log e refl h)

  -- Once the engine is told to pause, it is idle with no order pending, and whatever it receives but a
  -- command to resume, it stays so and sends the executor no command.
  pub start_pause :
      (cmds : List (EngineCommand F K C)) (e : SignalEngine F I V K S)
      → has_resume cmds ≡ false
      → IsPaused e.exec_log (start ind strat ch (exec_pause ∷ cmds) e)
  unfolding start
  start_pause cmds e r =
      start-IsPaused cmds e.exec_log (handle ind strat ch exec_pause e) r (pause-IsPaused e)

-- ===== src/Signal/Loop.antt =====
-- src/signal/engine.rs: `start`, over the commands that the engine receives.
pub mod Frames
pub mod Paused
pub mod Sound
pub mod Sends
pub mod Runs
pub mod Scene
pub mod Asked
use Prim.Native.String.{String}
use hyperliquid_rust_bot.Prelude.{
  Bool, true, false, Option, none, some, List, [], ◌∷◌, map, if◌then◌else◌,
}
use hyperliquid_rust_bot.Prelude.Maps.{Eq, string_eq, pair_eq, get, insert}
use hyperliquid_rust_bot.Float.{Float}
use hyperliquid_rust_bot.Price.{Price}
use hyperliquid_rust_bot.TimeFrame.{TimeFrame, tf_eq}
use hyperliquid_rust_bot.Signal.Tracker.{
  Indicator, Tracker, IndexId, IndicatorData, digest_price, digest_bulk, load,
}
use hyperliquid_rust_bot.Signal.Engine.{
  idle, view, state_eq, Strat, update_indicator_data, engine_state_change, Channels, SignalEngine,
  queue_market_command, add_indicator, remove_indicator, get_indicators_data,
}
use hyperliquid_rust_bot.Signal.Ticks.{process_strategy_tick}
use hyperliquid_rust_bot.Signal.Live.{
  single, bulk, add, remove, EditType, Entry, EngineCommand, update_price, update_strategy,
  edit_indicators, update_exec_params, exec_pause, exec_resume, stop, replace_self_with_asset,
  stage_live_strategy_candle, stage_live_strategy_bulk, apply_exec_param, tell_state,
}

module _ {F I V K S : Type 0} ⦃k : Eq K⦄ (ind : Indicator F I V K) where
  -- The trackers of an asset take a candle.
  unfoldable pub digest_single : String → Price F → SignalEngine F I V K S → SignalEngine F I V K S
  digest_single asset p e = record e {
    trackers =
        map (λ t. if string_eq.beq t.0.0 asset then (t.0, digest_price ind p t.1) else t)
          e.trackers;
  }

  unfoldable pub digest_all :
      String → List (Price F) → SignalEngine F I V K S → SignalEngine F I V K S
  digest_all asset ps e = record e {
    trackers =
        map (λ t. if string_eq.beq t.0.0 asset then (t.0, digest_bulk ind ps t.1) else t)
          e.trackers;
  }

  abbrev pub edit_one : EditType → IndexId K → SignalEngine F I V K S → SignalEngine F I V K S
  unfolding add_indicator remove_indicator
  edit_one add id e = add_indicator ind id e
  edit_one remove id e = remove_indicator ind id e

  unfoldable pub edit_all : List (Entry K) → SignalEngine F I V K S → SignalEngine F I V K S
  unfolding edit_one
  edit_all [] e = e
  edit_all (entry ∷ rest) e = edit_all rest (edit_one entry.edit entry.id e)

  abbrev pub load_one :
      Option (Tracker I K)
      → String × TimeFrame
      → List (Price F)
      → SignalEngine F I V K S
      → SignalEngine F I V K S
  unfolding load
  load_one none id prices e = e
  load_one (some t) id prices e = record e { trackers = insert e.trackers id (load ind prices t) }

  -- The price data of an edit are loaded into the trackers that are there.
  unfoldable pub load_all :
      List ((String × TimeFrame) × List (Price F)) → SignalEngine F I V K S → SignalEngine F I V K S
  unfolding load
  load_all [] e = e
  load_all ((id, prices) ∷ rest) e = load_all rest (load_one (get e.trackers id) id prices e)

  abbrev pub load_some :
      Option (List ((String × TimeFrame) × List (Price F)))
      → SignalEngine F I V K S
      → SignalEngine F I V K S
  unfolding load_all
  load_some none e = e
  load_some (some page) e = load_all page e

  abbrev pub send_data :
      Channels → List (IndicatorData V K) → SignalEngine F I V K S → SignalEngine F I V K S
  unfolding queue_market_command
  send_data ch [] e = e
  send_data ch (d ∷ ds) e = queue_market_command ch (update_indicator_data (d ∷ ds)) e

module _ {F I V K C S : Type 0} ⦃f : Float F⦄ ⦃k : Eq K⦄ (ind : Indicator F I V K)
    (strat : Strat F V K C S) (ch : Channels) where
  abbrev pub tick_on : Bool → Option (Price F) → SignalEngine F I V K S → SignalEngine F I V K S
  unfolding process_strategy_tick
  tick_on false (some p) e = process_strategy_tick ind strat ch p e
  tick_on _ _ e = e

  -- `UpdatePrice` of one candle.
  unfoldable pub on_single : String → Price F → SignalEngine F I V K S → SignalEngine F I V K S
  unfolding stage_live_strategy_candle process_strategy_tick digest_single get_indicators_data
      queue_market_command state_eq
  on_single asset p e =
      let (candle, staged) = stage_live_strategy_candle asset p e in
      let digested = digest_single ind asset p (tick_on staged.paused candle staged) in
      tell_state ch e.state (send_data ind ch (get_indicators_data ind digested.trackers) digested)

  unfoldable pub handle : EngineCommand F K C → SignalEngine F I V K S → SignalEngine F I V K S
  unfolding on_single stage_live_strategy_bulk digest_all replace_self_with_asset edit_all load_all
      get_indicators_data queue_market_command apply_exec_param state_eq
  handle (update_price asset (single p)) e = on_single asset p e
  handle (update_price asset (bulk ps)) e =
      digest_all ind asset ps (stage_live_strategy_bulk asset ps e)
  handle (update_strategy compiled indicators) e = record e {
    strategy = strat.new_strategy compiled (replace_self_with_asset e.asset indicators);
    state = idle;
    pending_strategy_candle = none;
  }
  handle (edit_indicators entries page) e =
      let edited = load_some ind page (edit_all ind entries e) in
      queue_market_command ch (update_indicator_data (get_indicators_data ind edited.trackers))
        edited
  handle (update_exec_params param) e = tell_state ch e.state (apply_exec_param ch param e)
  handle exec_pause e =
      let paused = record e { paused = true; state = idle; pending_orders = none } in
      queue_market_command ch (engine_state_change (view paused.state)) paused
  handle exec_resume e = record e { paused = false }
  handle stop e = e

  -- The commands after a `Stop` are not read.
  unfoldable pub start :
      List (EngineCommand F K C) → SignalEngine F I V K S → SignalEngine F I V K S
  unfolding handle
  start [] e = e
  start (stop ∷ cmds) e = e
  start (cmd ∷ cmds) e = start cmds (handle cmd e)

-- ===== src/Signal/Loop/Frames.antt =====
-- What the handling of indicators, candles and messages leaves alone.
use Prim.Native.String.{String}
use hyperliquid_rust_bot.Prelude.{◌≡◌, refl, ◌∙◌, Option, none, some, List, [], ◌∷◌, arith}
use hyperliquid_rust_bot.Prelude.Maps.{Eq, string_eq, pair_eq, get}
use hyperliquid_rust_bot.Float.{Float}
use hyperliquid_rust_bot.Price.{Price}
use hyperliquid_rust_bot.TimeFrame.{TimeFrame, tf_eq}
use hyperliquid_rust_bot.Signal.Tracker.{load, Indicator, Tracker, IndexId, IndicatorData}
use hyperliquid_rust_bot.Signal.Engine.{
  EngineState, MarketCommand, Channels, SignalEngine, queue_market_command, add_indicator,
  remove_indicator, state_eq,
}
use hyperliquid_rust_bot.Signal.Live.{
  EditType, add, remove, Entry, stage_live_strategy_candle, stage_live_strategy_bulk, tell_state,
}
use hyperliquid_rust_bot.Signal.Loop.{
  digest_single, digest_all, edit_one, edit_all, load_one, load_all, load_some, send_data,
}

-- The parts of the engine that trading goes by.
pub record Leaves {F I V K S : Type 0} (a b : SignalEngine F I V K S) : Type 0 where
  pub same_state : b.state ≡ a.state
  pub same_pending : b.pending_orders ≡ a.pending_orders
  pub same_paused : b.paused ≡ a.paused
  pub same_log : b.exec_log ≡ a.exec_log

module _ {F I V K S : Type 0} where
  pub Leaves-self : (e : SignalEngine F I V K S) → Leaves e e
  Leaves-self e = record {
    same_state = refl;
    same_pending = refl;
    same_paused = refl;
    same_log = refl;
  }

  pub Leaves-trans : (a b c : SignalEngine F I V K S) → Leaves a b → Leaves b c → Leaves a c
  Leaves-trans a b c p q = record {
    same_state = q.same_state ∙ p.same_state;
    same_pending = q.same_pending ∙ p.same_pending;
    same_paused = q.same_paused ∙ p.same_paused;
    same_log = q.same_log ∙ p.same_log;
  }

  pub queue_market_command-Leaves :
      (ch : Channels) (cmd : MarketCommand V K) (e : SignalEngine F I V K S)
      → Leaves e (queue_market_command ch cmd e)
  unfolding queue_market_command
  queue_market_command-Leaves ch cmd e = ground arith

  pub stage_candle-Leaves :
      (asset : String) (p : Price F) (e : SignalEngine F I V K S)
      → Leaves e (stage_live_strategy_candle asset p e).1
  unfolding stage_live_strategy_candle
  stage_candle-Leaves asset p e = ground arith

  pub stage_bulk-Leaves :
      (asset : String) (ps : List (Price F)) (e : SignalEngine F I V K S)
      → Leaves e (stage_live_strategy_bulk asset ps e)
  unfolding stage_live_strategy_bulk
  stage_bulk-Leaves asset ps e = ground arith

module _ {F I V K S : Type 0} ⦃f : Float F⦄ (ch : Channels) where
  pub tell_state-Leaves :
      (before : EngineState F) (e : SignalEngine F I V K S) → Leaves e (tell_state ch before e)
  unfolding state_eq queue_market_command
  tell_state-Leaves before e = ground arith

module _ {F I V K S : Type 0} ⦃k : Eq K⦄ (ind : Indicator F I V K) where
  edit_one-Leaves :
      (edit : EditType) (id : IndexId K) (e : SignalEngine F I V K S)
      → Leaves e (edit_one ind edit id e)
  unfolding add_indicator remove_indicator
  edit_one-Leaves add (asset, kind, tf) e = ground arith
  edit_one-Leaves remove (asset, kind, tf) e = ground arith

  pub edit_all-Leaves :
      (entries : List (Entry K)) (e : SignalEngine F I V K S) → Leaves e (edit_all ind entries e)
  unfolding edit_all
  edit_all-Leaves [] e = Leaves-self e
  edit_all-Leaves (entry ∷ rest) e =
      Leaves-trans e (edit_one ind entry.edit entry.id e) _ (edit_one-Leaves entry.edit entry.id e)
        (edit_all-Leaves rest (edit_one ind entry.edit entry.id e))

  load_one-Leaves :
      (x : Option (Tracker I K)) (id : String × TimeFrame) (prices : List (Price F))
      (e : SignalEngine F I V K S)
      → Leaves e (load_one ind x id prices e)
  unfolding load
  load_one-Leaves none id prices e = Leaves-self e
  load_one-Leaves (some t) id prices e = ground arith

  load_all-Leaves :
      (page : List ((String × TimeFrame) × List (Price F))) (e : SignalEngine F I V K S)
      → Leaves e (load_all ind page e)
  unfolding load_all load
  load_all-Leaves [] e = Leaves-self e
  load_all-Leaves ((id, prices) ∷ rest) e =
      let x = get e.trackers id in
      Leaves-trans e (load_one ind x id prices e) _ (load_one-Leaves x id prices e)
        (load_all-Leaves rest (load_one ind x id prices e))

  pub load_some-Leaves :
      (page : Option (List ((String × TimeFrame) × List (Price F)))) (e : SignalEngine F I V K S)
      → Leaves e (load_some ind page e)
  unfolding load_all load
  load_some-Leaves none e = Leaves-self e
  load_some-Leaves (some page) e = load_all-Leaves page e

  pub send_data-Leaves :
      (ch : Channels) (ds : List (IndicatorData V K)) (e : SignalEngine F I V K S)
      → Leaves e (send_data ind ch ds e)
  unfolding queue_market_command
  send_data-Leaves ch [] e = Leaves-self e
  send_data-Leaves ch (d ∷ ds) e = ground arith

  pub digest_single-Leaves :
      (asset : String) (p : Price F) (e : SignalEngine F I V K S)
      → Leaves e (digest_single ind asset p e)
  unfolding digest_single
  digest_single-Leaves asset p e = ground arith

  pub digest_all-Leaves :
      (asset : String) (ps : List (Price F)) (e : SignalEngine F I V K S)
      → Leaves e (digest_all ind asset ps e)
  unfolding digest_all
  digest_all-Leaves asset ps e = ground arith

-- ===== src/Signal/Engine.antt =====
-- src/signal/engine.rs: the state of the engine. The script of a strategy runs in a library's engine: it
-- is given by the operations of the trait `Strat`. Whether a channel takes a command is a function of the
-- number of commands offered to it before.
use Prim.Native.String.{String}
use hyperliquid_rust_bot.Prelude.{
  ℕ, suc, Bool, true, false, ◌==◌, Option, none, some, List, [], ◌∷◌, ◌++◌, map, if◌then◌else◌,
}
use hyperliquid_rust_bot.Prelude.Maps.{Eq, string_eq, pair_eq, get, insert}
use hyperliquid_rust_bot.Float.{Float}
use hyperliquid_rust_bot.Price.{Price}
use hyperliquid_rust_bot.TimeFrame.{TimeFrame, tf_eq}
use hyperliquid_rust_bot.Exec.Types.{ExecCommand}
use hyperliquid_rust_bot.Signal.Intent.{Intent, abort, LiveTimeoutInfo, BusyType}
use hyperliquid_rust_bot.Signal.Params.{OpenPosInfo, ExecParams, pos_eq}
use hyperliquid_rust_bot.Signal.Equality.{opt_eq, live_eq}
use hyperliquid_rust_bot.Signal.Checks.{PendingOpen}
use hyperliquid_rust_bot.Signal.Tracker.{
  Indicator, Tracker, IndexId, TimedValue, IndicatorData, new_tracker, add_kind, remove_kind,
  toggle_kind, values_of, data_of, reset_tracker,
}

-- The constructor `in_position` is the source's `Open`.
pub data EngineState (F : Type 0) : Type 0 where
  idle : EngineState F
  armed : ℕ → EngineState F
  in_position : OpenPosInfo F → EngineState F
  opening closing : Option (LiveTimeoutInfo F) → EngineState F

pub data EngineView : Type 0 where
  idle_view armed_view opening_view closing_view open_view : EngineView

-- `From<EngineState>`.
abbrev pub view : {F : Type 0} → EngineState F → EngineView
view idle = idle_view
view (armed _) = armed_view
view (opening _) = opening_view
view (closing _) = closing_view
view (in_position _) = open_view

pub record StratContext (F V K : Type 0) : Type 0 where
  pub free_margin : F
  pub lev : ℕ
  pub last_price : Price F
  pub indicators : List (IndexId K × TimedValue V)

-- The trait `Strat`, with the script's state `S`, made from a compiled strategy `C`.
pub record Strat (F V K C S : Type 0) : Type 0 where
  pub new_strategy : C → List (IndexId K) → S
  pub on_idle : StratContext F V K → Option ℕ → S → Option (Intent F) × S
  pub on_busy : StratContext F V K → BusyType F → S → Option (Intent F) × S
  pub on_open : StratContext F V K → OpenPosInfo F → S → Option (Intent F) × S
  pub reset_scope : S → S

-- The commands to the market that the engine sends.
pub data MarketCommand (V K : Type 0) : Type 0 where
  update_indicator_data : List (IndicatorData V K) → MarketCommand V K
  engine_state_change : EngineView → MarketCommand V K

pub record Channels : Type 0 where
  pub trade_takes : ℕ → Bool
  pub data_takes : ℕ → Bool

-- `exec_log` and `market_log` have the commands taken; `data_tx` tells whether there is a market.
pub record SignalEngine (F I V K S : Type 0) : Type 0 where
  pub asset : String
  pub data_tx : Bool
  pub trackers : List ((String × TimeFrame) × Tracker I K)
  pub strategy : S
  pub exec_params : ExecParams F
  pub state : EngineState F
  pub pending_orders : Option (PendingOpen F)
  pub pending_strategy_candle : Option (Price F)
  pub paused : Bool
  pub exec_offered : ℕ
  pub exec_log : List (ExecCommand F)
  pub market_offered : ℕ
  pub market_log : List (MarketCommand V K)

abbrev pub is_idle : {F : Type 0} → EngineState F → Bool
is_idle idle = true
is_idle _ = false

-- `matches!(state, Opening(_) | Closing(_))`.
abbrev pub is_busy : {F : Type 0} → EngineState F → Bool
is_busy (opening _) = true
is_busy (closing _) = true
is_busy _ = false

abbrev pub is_abort : {F : Type 0} → Intent F → Bool
is_abort abort = true
is_abort _ = false

module _ {F I V K S : Type 0} where
  -- `queue_exec_command`: whether the executor's channel took the command.
  unfoldable pub queue_exec_command :
      Channels → ExecCommand F → SignalEngine F I V K S → Bool × SignalEngine F I V K S
  queue_exec_command ch cmd e =
      let taken = ch.trade_takes e.exec_offered in
      (
        taken,
        record e {
          exec_offered = suc e.exec_offered;
          exec_log = if taken then e.exec_log ++ cmd ∷ [] else e.exec_log;
        },
      )

  -- `queue_market_command` where the engine has a market.
  unfoldable pub queue_market_command :
      Channels → MarketCommand V K → SignalEngine F I V K S → SignalEngine F I V K S
  queue_market_command ch cmd e =
      if e.data_tx
      then record e {
        market_offered = suc e.market_offered;
        market_log =
            if ch.data_takes e.market_offered then e.market_log ++ cmd ∷ [] else e.market_log;
      }
      else e

module _ {F I V K : Type 0} ⦃k : Eq K⦄ (ind : Indicator F I V K) where
  unfoldable pub get_active_values :
      List ((String × TimeFrame) × Tracker I K) → List (IndexId K × TimedValue V)
  unfolding values_of
  get_active_values [] = []
  get_active_values ((_, t) ∷ ts) = values_of ind t t.indicators ++ get_active_values ts

  unfoldable pub get_indicators_data :
      List ((String × TimeFrame) × Tracker I K) → List (IndicatorData V K)
  unfolding data_of
  get_indicators_data [] = []
  get_indicators_data ((_, t) ∷ ts) = data_of ind t ++ get_indicators_data ts

module _ {F I V K S : Type 0} ⦃k : Eq K⦄ (ind : Indicator F I V K) where
  unfoldable pub add_indicator : IndexId K → SignalEngine F I V K S → SignalEngine F I V K S
  unfolding add_kind new_tracker
  add_indicator (asset, kind, tf) e = elim (get e.trackers (asset, tf)) [
    | some t ↦ record e { trackers = insert e.trackers (asset, tf) (add_kind ind kind t) }
    | none ↦ record e {
      trackers = insert e.trackers (asset, tf) (add_kind ind kind (new_tracker asset tf));
    }
  ]

  unfoldable pub remove_indicator : IndexId K → SignalEngine F I V K S → SignalEngine F I V K S
  unfolding remove_kind
  remove_indicator (asset, kind, tf) e = elim (get e.trackers (asset, tf)) [
    | some t ↦ record e { trackers = insert e.trackers (asset, tf) (remove_kind ind kind t) }
    | none ↦ e
  ]

  unfoldable pub toggle_indicator : IndexId K → SignalEngine F I V K S → SignalEngine F I V K S
  unfolding toggle_kind
  toggle_indicator (asset, kind, tf) e = elim (get e.trackers (asset, tf)) [
    | some t ↦ record e { trackers = insert e.trackers (asset, tf) (toggle_kind ind kind t) }
    | none ↦ e
  ]

  unfoldable pub reset : SignalEngine F I V K S → SignalEngine F I V K S
  unfolding reset_tracker
  reset e = record e {
    trackers = map (λ t. (t.0, reset_tracker ind t.1)) e.trackers;
    pending_strategy_candle = none;
  }

unfoldable pub set_trading_enabled :
    {F I V K S : Type 0} → (enabled : Bool) → SignalEngine F I V K S → SignalEngine F I V K S
set_trading_enabled enabled e =
    if enabled
    then record e { paused = false }
    else record e { paused = true; state = idle; pending_orders = none }

module _ {F : Type 0} ⦃f : Float F⦄ where
  -- Equality of states, as the source derives it.
  unfoldable pub state_eq : EngineState F → EngineState F → Bool
  state_eq idle idle = true
  state_eq (armed a) (armed b) = a == b
  state_eq (in_position a) (in_position b) = pos_eq a b
  state_eq (opening a) (opening b) = opt_eq live_eq a b
  state_eq (closing a) (closing b) = opt_eq live_eq a b
  state_eq _ _ = false

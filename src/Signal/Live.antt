-- ===== src/Signal/Live.antt =====
-- src/signal/engine.rs: live candles, and the loop of the engine.
pub mod Candles
use Prim.Native.String.{String}
use hyperliquid_rust_bot.Prelude.{
  ℕ, ◌-◌, Bool, false, ◌==◌, Option, none, some, List, map, last?, ltb, leb, if◌then◌else◌,
}
use hyperliquid_rust_bot.Prelude.Maps.{string_eq, pair_eq}
use hyperliquid_rust_bot.Float.{Float}
use hyperliquid_rust_bot.Price.{Price}
use hyperliquid_rust_bot.TimeFrame.{TimeFrame, tf_eq}
use hyperliquid_rust_bot.Signal.Params.{
  OpenPosInfo, ExecParam, set_margin, set_lev, open_position, pos_eq,
}
use hyperliquid_rust_bot.Signal.Tracker.{IndexId}
use hyperliquid_rust_bot.Signal.Engine.{
  EngineState, idle, in_position, closing, view, engine_state_change, Channels, SignalEngine,
  queue_market_command, state_eq,
}
use hyperliquid_rust_bot.Signal.Orders.{queue_pending_tpsl}

pub data PriceData (F : Type 0) : Type 0 where
  single : Price F → PriceData F
  bulk : List (Price F) → PriceData F

pub data EditType : Type 0 where
  add remove : EditType

pub record Entry (K : Type 0) : Type 0 where
  pub id : IndexId K
  pub edit : EditType

pub data EngineCommand (F K C : Type 0) : Type 0 where
  update_price : String → PriceData F → EngineCommand F K C
  update_strategy : C → List (IndexId K) → EngineCommand F K C
  edit_indicators :
      List (Entry K) → Option (List ((String × TimeFrame) × List (Price F))) → EngineCommand F K C
  update_exec_params : ExecParam F → EngineCommand F K C
  exec_pause exec_resume stop : EngineCommand F K C

-- `LIVE_STRATEGY_INTERVAL_MS`.
abbrev pub live_strategy_interval_ms : ℕ
live_strategy_interval_ms = 60_000

module _ {F : Type 0} where
  -- `stage_live_strategy_candle` of the traded asset: the candle to tick on, and the candle kept.
  unfoldable pub stage : Option (Price F) → Price F → Option (Price F) × Option (Price F)
  stage none price = (none, some price)
  stage (some previous) price =
      if price.close_time == previous.close_time
      then (none, some price)
      else if ltb previous.close_time price.close_time
      then (
        if leb (price.close_time - previous.close_time) live_strategy_interval_ms
            then some previous
            else none,
        some price,
      )
      else (none, some previous)

abbrev pub replace_self : {K : Type 0} → String → IndexId K → IndexId K
replace_self market_asset (asset, kind, tf) =
    (if string_eq.beq asset "self" then market_asset else asset, kind, tf)

unfoldable pub replace_self_with_asset : {K : Type 0} → String → List (IndexId K) → List (IndexId K)
replace_self_with_asset market_asset = map (replace_self market_asset)

module _ {F : Type 0} where
  abbrev pub or_pending : Option (Price F) → Option (Price F) → Option (Price F)
  or_pending none kept = kept
  or_pending (some last) kept = some last

module _ {F I V K S : Type 0} where
  unfoldable pub stage_live_strategy_candle :
      String → Price F → SignalEngine F I V K S → Option (Price F) × SignalEngine F I V K S
  unfolding stage
  stage_live_strategy_candle asset price e =
      let (tick, kept) = stage e.pending_strategy_candle price in
      if string_eq.beq e.asset asset
      then (tick, record e { pending_strategy_candle = kept })
      else (none, e)

  unfoldable pub stage_live_strategy_bulk :
      String → List (Price F) → SignalEngine F I V K S → SignalEngine F I V K S
  stage_live_strategy_bulk asset prices e =
      if string_eq.beq e.asset asset
      then record e {
        pending_strategy_candle = or_pending (last? prices) e.pending_strategy_candle;
      }
      else e

module _ {F : Type 0} ⦃f : Float F⦄ where
  -- `matches!(state, Closing(_)) && previous_pos == Some(open_pos)`.
  abbrev pub still_closing : EngineState F → Option (OpenPosInfo F) → OpenPosInfo F → Bool
  still_closing (closing _) (some previous) pos = pos_eq previous pos
  still_closing _ _ _ = false

module _ {F I V K S : Type 0} ⦃f : Float F⦄ (ch : Channels) where
  abbrev pub position_gone : EngineState F → SignalEngine F I V K S → SignalEngine F I V K S
  position_gone (in_position _) e = record e { state = idle; pending_orders = none }
  position_gone (closing _) e = record e { state = idle; pending_orders = none }
  position_gone _ e = e

  abbrev pub apply_position :
      Option (OpenPosInfo F)
      → (previous : Option (OpenPosInfo F)) → SignalEngine F I V K S
      → SignalEngine F I V K S
  unfolding queue_pending_tpsl
  apply_position none previous e = position_gone e.state e
  apply_position (some pos) previous e =
      if still_closing e.state previous pos
      then e
      else queue_pending_tpsl ch pos (record e { state = in_position pos })

  unfoldable pub apply_open_position_update :
      Option (OpenPosInfo F) → SignalEngine F I V K S → SignalEngine F I V K S
  unfolding apply_position
  apply_open_position_update pos e =
      let previous = e.exec_params.open_pos in
      let e' = record e { exec_params = record e.exec_params { open_pos = pos } } in
      if e.paused then e' else apply_position pos previous e'

  unfoldable pub apply_exec_param : ExecParam F → SignalEngine F I V K S → SignalEngine F I V K S
  unfolding apply_open_position_update
  apply_exec_param (set_margin m) e = record e { exec_params = record e.exec_params { margin = m } }
  apply_exec_param (set_lev l) e = record e { exec_params = record e.exec_params { lev = l } }
  apply_exec_param (open_position pos) e = apply_open_position_update pos e

  -- The market is told of a state that has changed.
  abbrev pub tell_state : (before : EngineState F) → SignalEngine F I V K S → SignalEngine F I V K S
  unfolding state_eq queue_market_command
  tell_state before e =
      if state_eq before e.state
      then e
      else queue_market_command ch (engine_state_change (view e.state)) e

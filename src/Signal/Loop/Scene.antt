-- ===== src/Signal/Loop/Scene.antt =====
-- What a tick, and the handling of indicators and messages, leave alone: what the choice of the candle to
-- ask the script on goes by.
use Prim.Native.String.{String}
use hyperliquid_rust_bot.Prelude.{
  ◌≡◌, refl, ◌∙◌, Bool, Option, none, some, List, [], ◌∷◌, arith, leb, Bool-cases, inl, inr, not,
  ◌&&◌,
}
use hyperliquid_rust_bot.Prelude.Maps.{Eq, string_eq}
use hyperliquid_rust_bot.Float.{Float}
use hyperliquid_rust_bot.Price.{Price}
use hyperliquid_rust_bot.Exec.Types.{ExecCommand, TriggerKind, tp, sl}
use hyperliquid_rust_bot.Signal.Intent.{
  OnTimeout, force, cancel, Intent, open_order, reduce, flatten, arm, disarm, abort,
  LiveTimeoutInfo, Triggers,
}
use hyperliquid_rust_bot.Signal.Params.{OpenPosInfo}
use hyperliquid_rust_bot.Signal.Checks.{PendingOpen, PendingOrder}
use hyperliquid_rust_bot.Signal.Tracker.{Indicator, IndicatorData}
use hyperliquid_rust_bot.Signal.Engine.{
  EngineState, idle, opening, closing, armed, in_position, Channels, SignalEngine,
  queue_exec_command, queue_market_command, MarketCommand, state_eq, is_busy, is_abort,
}
use hyperliquid_rust_bot.Signal.Orders.{
  queue_trigger, queue_triggers, queue_pending, queue_pending_tpsl, force_close_exec,
  force_as_taker_order, translate_intent,
}
use hyperliquid_rust_bot.Signal.Ticks.{
  on_timeout, expire, refresh, submit, submit_some, on_intent, act_on,
}
use hyperliquid_rust_bot.Signal.Live.{tell_state}
use hyperliquid_rust_bot.Signal.Loop.{digest_single, send_data}

module _ {F I V K S : Type 0} where
  -- What decides on which candle the script is asked, and the script's state.
  abbrev pub frame : SignalEngine F I V K S → String × S × Bool × Option (Price F)
  frame e = (e.asset, e.strategy, e.paused, e.pending_strategy_candle)

  queue_exec-frame :
      (ch : Channels) (cmd : ExecCommand F) (e : SignalEngine F I V K S)
      → frame (queue_exec_command ch cmd e).1 ≡ frame e
  unfolding queue_exec_command
  queue_exec-frame ch cmd e = refl

  queue_market-frame :
      (ch : Channels) (cmd : MarketCommand V K) (e : SignalEngine F I V K S)
      → frame (queue_market_command ch cmd e) ≡ frame e
  unfolding queue_market_command
  queue_market-frame ch cmd e = ground arith

module _ {F I V K S : Type 0} ⦃f : Float F⦄ (ch : Channels) where
  queue_trigger-frame :
      (trigger : TriggerKind) (delta : Option F) (size : F) (pos : OpenPosInfo F)
      (e : SignalEngine F I V K S)
      → frame (queue_trigger ch trigger delta size pos e) ≡ frame e
  unfolding queue_trigger queue_exec_command
  queue_trigger-frame trigger none size pos e = refl
  queue_trigger-frame trigger (some delta) size pos e = ground arith

  queue_triggers-frame :
      (t : Option (Triggers F)) (size : F) (pos : OpenPosInfo F) (e : SignalEngine F I V K S)
      → frame (queue_triggers ch t size pos e) ≡ frame e
  unfolding queue_trigger
  queue_triggers-frame none size pos e = refl
  queue_triggers-frame (some t) size pos e =
      queue_trigger-frame sl t.sl size pos (queue_trigger ch tp t.tp size pos e)
      ∙ queue_trigger-frame tp t.tp size pos e

  queue_pending-frame :
      (x : Option (PendingOpen F)) (pos : OpenPosInfo F) (e : SignalEngine F I V K S)
      → frame (queue_pending ch x pos e) ≡ frame e
  unfolding queue_trigger
  queue_pending-frame none pos e = refl
  queue_pending-frame (some p) pos e =
      queue_triggers-frame p.tpsl p.order.size pos (record e { pending_orders = none })

  queue_pending_tpsl-frame :
      (pos : OpenPosInfo F) (e : SignalEngine F I V K S)
      → frame (queue_pending_tpsl ch pos e) ≡ frame e
  unfolding queue_pending_tpsl queue_trigger
  queue_pending_tpsl-frame pos e = queue_pending-frame e.pending_orders pos e

  on_timeout-frame :
      (action : OnTimeout) (intent : Intent F) (price : Price F) (e : SignalEngine F I V K S)
      → frame (on_timeout ch action intent price e) ≡ frame e
  unfolding force_close_exec force_as_taker_order queue_exec_command
  on_timeout-frame cancel intent price e = refl
  on_timeout-frame force (flatten _) price e = refl
  on_timeout-frame force (open_order o) price e = refl
  on_timeout-frame force (reduce o) price e = refl
  on_timeout-frame force (arm _) price e = refl
  on_timeout-frame force disarm price e = refl
  on_timeout-frame force abort price e = refl

  expire-frame :
      (ttl : Option (LiveTimeoutInfo F)) (price : Price F) (e : SignalEngine F I V K S)
      → frame (expire ch ttl price e) ≡ frame e
  unfolding expire
  expire-frame none price e = refl
  expire-frame (some t) price e = elim (Bool-cases (leb t.expire_at price.open_time)) [
    | inl b ↦ rw (expire, b) (on_timeout-frame t.timeout_info.action t.intent price e)
    | inr b ↦ rw (expire, b) refl
  ]

  pub refresh-frame :
      (s : EngineState F) (pos : Option (OpenPosInfo F)) (price : Price F)
      (e : SignalEngine F I V K S)
      → frame (refresh ch s pos price e) ≡ frame e
  unfolding expire queue_pending_tpsl
  refresh-frame (opening ttl) (some pos) price e =
      queue_pending_tpsl-frame pos (record e { state = in_position pos })
  refresh-frame (opening ttl) none price e = expire-frame ttl price e
  refresh-frame (closing ttl) none price e = refl
  refresh-frame (closing ttl) (some pos) price e = expire-frame ttl price e
  refresh-frame (armed expire_at) pos price e = elim (Bool-cases (leb expire_at price.open_time)) [
    | inl b ↦ rw b refl
    | inr b ↦ rw b refl
  ]
  refresh-frame idle none price e = refl
  refresh-frame idle (some pos) price e =
      queue_pending_tpsl-frame pos (record e { state = in_position pos })
  refresh-frame (in_position _) none price e = refl
  refresh-frame (in_position _) (some pos) price e =
      queue_pending_tpsl-frame pos (record e { state = in_position pos })

  submit_some-frame :
      (intent : Intent F) (price : Price F) (x : Option (PendingOrder F))
      (e : SignalEngine F I V K S)
      → frame (submit_some ch intent price x e) ≡ frame e
  unfolding submit queue_exec_command
  submit_some-frame intent price none e = refl
  submit_some-frame intent price (some pending) e = ground arith

  on_intent-frame :
      (intent : Intent F) (price : Price F) (e : SignalEngine F I V K S)
      → frame (on_intent ch intent price e) ≡ frame e
  unfolding submit force_close_exec translate_intent queue_exec_command
  on_intent-frame abort price e = refl
  on_intent-frame (arm d) price e = refl
  on_intent-frame disarm price e = refl
  on_intent-frame (open_order o) price e =
      submit_some-frame (open_order o) price (translate_intent e.exec_params (open_order o) price) e
  on_intent-frame (reduce o) price e =
      submit_some-frame (reduce o) price (translate_intent e.exec_params (reduce o) price) e
  on_intent-frame (flatten l) price e =
      submit_some-frame (flatten l) price (translate_intent e.exec_params (flatten l) price) e

  pub act_on-frame :
      (intent : Option (Intent F)) (price : Price F) (e : SignalEngine F I V K S)
      → frame (act_on ch intent price e) ≡ frame e
  unfolding act_on
  act_on-frame none price e = refl
  act_on-frame (some intent) price e =
      elim (Bool-cases (is_busy e.state && not (is_abort intent))) [
        | inl q ↦ rw q refl
        | inr q ↦ rw q (on_intent-frame intent price e)
      ]

  pub tell_state-frame :
      (before : EngineState F) (e : SignalEngine F I V K S)
      → frame (tell_state ch before e) ≡ frame e
  unfolding state_eq queue_market_command
  tell_state-frame before e = ground arith

module _ {F I V K S : Type 0} ⦃k : Eq K⦄ (ind : Indicator F I V K) where
  pub send_data-frame :
      (ch : Channels) (ds : List (IndicatorData V K)) (e : SignalEngine F I V K S)
      → frame (send_data ind ch ds e) ≡ frame e
  unfolding queue_market_command
  send_data-frame ch [] e = refl
  send_data-frame ch (d ∷ ds) e = ground arith

  pub digest_single-frame :
      (asset : String) (p : Price F) (e : SignalEngine F I V K S)
      → frame (digest_single ind asset p e) ≡ frame e
  unfolding digest_single
  digest_single-frame asset p e = refl

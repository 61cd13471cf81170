-- ===== src/Signal/Agreement/Refresh.antt =====
-- The refresh of the state, live and in a backtest.
use mathlib.Core.List.{append-nil}
use hyperliquid_rust_bot.Prelude.{
  ℕ, ◌≡◌, refl, sym, ap, ◌∙◌, true, Option, none, some, [], ◌∷◌, ◌++◌, leb, arith, Bool-cases, inl,
  inr,
}
use hyperliquid_rust_bot.Float.{Float}
use hyperliquid_rust_bot.Price.{Price}
use hyperliquid_rust_bot.Exec.Types.{force_taker, control, force_close, Side, long, short}
use hyperliquid_rust_bot.Exec.Orders.{is_tpsl, new_market_open, market_close}
use hyperliquid_rust_bot.Signal.Intent.{
  OnTimeout, force, cancel, Intent, open_order, reduce, flatten, arm, disarm, abort,
  LiveTimeoutInfo,
}
use hyperliquid_rust_bot.Signal.Checks.{PendingOpen}
use hyperliquid_rust_bot.Signal.Params.{OpenPosInfo}
use hyperliquid_rust_bot.Signal.Engine.{
  EngineState, idle, armed, in_position, opening, closing, Channels, SignalEngine,
  queue_exec_command,
}
use hyperliquid_rust_bot.Signal.Orders.{
  sized, queue_pending_tpsl, force_close_exec, force_as_taker_order,
}
use hyperliquid_rust_bot.Signal.Ticks.{refresh_state, refresh, enter_position, expire, on_timeout}
use hyperliquid_rust_bot.Signal.Actions.{
  force_taker_order, bt_open, bt_reduce, action_of, timed_out, from_intent,
  bt_order_from_engine_order,
}
use hyperliquid_rust_bot.Signal.Replay.{expire_backtest, refresh_backtest, refresh_state_backtest}
use hyperliquid_rust_bot.Signal.Agreement.{
  Alike, Alike-self, Alike-queued, queue_pending_tpsl-Agrees, Agrees, strategy_orders, commands_of,
  orders-queued,
}

module _ {F : Type 0} where
  forced_open :
      (side : Side) (size : F)
      → commands_of (
          action_of force_taker_order
            (bt_order_from_engine_order (new_market_open side size))
            (some bt_open))
        ≡ force_taker (new_market_open side size) ∷ []
  unfolding bt_order_from_engine_order new_market_open
  forced_open long size = refl
  forced_open short size = refl

  forced_close :
      (size : F)
      → commands_of (
          action_of force_taker_order
            (bt_order_from_engine_order (market_close size))
            (some bt_reduce))
        ≡ force_taker (market_close size) ∷ []
  unfolding bt_order_from_engine_order market_close
  forced_close size = refl

module _ {F I V K S : Type 0} ⦃f : Float F⦄ (ch : Channels)
    (ready : (n : ℕ) → ch.trade_takes n ≡ true) where
  -- The commands of a timeout that has expired.
  on_timeout-orders :
      (action : OnTimeout) (intent : Intent F) (price : Price F) (e : SignalEngine F I V K S)
      → Alike (on_timeout ch action intent price e) e
        × (strategy_orders (on_timeout ch action intent price e).exec_log
            ≡ strategy_orders e.exec_log
              ++ commands_of (timed_out e.exec_params action intent price))
  unfolding force_close_exec force_as_taker_order queue_exec_command from_intent
      bt_order_from_engine_order is_tpsl
  on_timeout-orders cancel intent price e =
      (Alike-queued ch (control force_close) e, orders-queued ch ready (control force_close) e)
  on_timeout-orders force (flatten _) price e =
      (Alike-queued ch (control force_close) e, orders-queued ch ready (control force_close) e)
  on_timeout-orders force (open_order o) price e =
      let taken = new_market_open o.side (sized e.exec_params o.size price.close_px) in
      (
        Alike-queued ch (force_taker taken) e,
        orders-queued ch ready (force_taker taken) e
            ∙ ap (λ l. strategy_orders e.exec_log ++ l) (sym (forced_open o.side _)),
      )
  on_timeout-orders force (reduce o) price e =
      let taken = market_close (sized e.exec_params o.size price.close_px) in
      (
        Alike-queued ch (force_taker taken) e,
        orders-queued ch ready (force_taker taken) e
            ∙ ap (λ l. strategy_orders e.exec_log ++ l) (sym (forced_close _)),
      )
  on_timeout-orders force (arm _) price e = (Alike-self e, sym (append-nil _))
  on_timeout-orders force disarm price e = (Alike-self e, sym (append-nil _))
  on_timeout-orders force abort price e = (Alike-self e, sym (append-nil _))

  expire-Agrees :
      (ttl : Option (LiveTimeoutInfo F)) (price : Price F) (e : SignalEngine F I V K S)
      → Agrees e.exec_log
          (expire_backtest ttl price e).0
          (expire ch ttl price e)
          (expire_backtest ttl price e).1
  unfolding expire expire_backtest
  expire-Agrees none price e = record { alike = Alike-self e; orders = sym (append-nil _) }
  expire-Agrees (some t) price e = elim (Bool-cases (leb t.expire_at price.open_time)) [
    | inl b ↦
        let (a, o) = on_timeout-orders t.timeout_info.action t.intent price e in
        rw (expire, expire_backtest, b)
          (record {
            alike = record {
              same_state = refl;
              same_strategy = a.same_strategy;
              same_params = a.same_params;
              same_trackers = a.same_trackers;
            };
            orders = o;
          })
    | inr b ↦
        rw (expire, expire_backtest, b)
          (record { alike = Alike-self e; orders = sym (append-nil _) })
  ]

  -- Entering a position: the live engine queues triggers too.
  enter-Agrees :
      (pos : OpenPosInfo F) (left : Option (PendingOpen F)) (e : SignalEngine F I V K S)
      → Agrees e.exec_log []
          (enter_position ch pos e)
          (record e { state = in_position pos; pending_orders = left })
  unfolding queue_pending_tpsl
  enter-Agrees pos left e =
      let (a, o) = queue_pending_tpsl-Agrees ch ready pos (record e { state = in_position pos }) in
      record {
        alike = record {
          same_state = a.same_state;
          same_strategy = a.same_strategy;
          same_params = a.same_params;
          same_trackers = a.same_trackers;
        };
        orders = o ∙ sym (append-nil _);
      }

  refresh-Agrees :
      (s : EngineState F) (pos : Option (OpenPosInfo F)) (price : Price F)
      (e : SignalEngine F I V K S)
      → Agrees e.exec_log
          (refresh_backtest s pos price e).0
          (refresh ch s pos price e)
          (refresh_backtest s pos price e).1
  unfolding expire expire_backtest queue_pending_tpsl
  refresh-Agrees (opening ttl) (some pos) price e = enter-Agrees pos e.pending_orders e
  refresh-Agrees (opening ttl) none price e = expire-Agrees ttl price e
  refresh-Agrees (closing ttl) none price e = record {
    alike = Alike-self (record e { state = idle });
    orders = sym (append-nil _);
  }
  refresh-Agrees (closing ttl) (some pos) price e = expire-Agrees ttl price e
  refresh-Agrees (armed expire_at) pos price e = elim (Bool-cases (leb expire_at price.open_time)) [
    | inl b ↦
        rw b
          (record { alike = Alike-self (record e { state = idle }); orders = sym (append-nil _) })
    | inr b ↦ rw b (record { alike = Alike-self e; orders = sym (append-nil _) })
  ]
  refresh-Agrees idle none price e = record { alike = Alike-self e; orders = sym (append-nil _) }
  refresh-Agrees idle (some pos) price e = enter-Agrees pos e.pending_orders e
  refresh-Agrees (in_position _) none price e = record {
    alike = Alike-self (record e { state = idle });
    orders = sym (append-nil _);
  }
  refresh-Agrees (in_position _) (some pos) price e = enter-Agrees pos none e

  pub refresh_state-Agrees :
      (price : Price F) (e : SignalEngine F I V K S)
      → Agrees e.exec_log
          (refresh_state_backtest price e).0
          (refresh_state ch price e)
          (refresh_state_backtest price e).1
  unfolding refresh_state refresh_state_backtest
  refresh_state-Agrees price e = refresh-Agrees e.state e.exec_params.open_pos price e

module _ {F I V K S : Type 0} ⦃f : Float F⦄ where
  trackers-refresh :
      (s : EngineState F) (pos : Option (OpenPosInfo F)) (price : Price F)
      (e : SignalEngine F I V K S)
      → (refresh_backtest s pos price e).1.trackers ≡ e.trackers
  unfolding expire_backtest
  trackers-refresh (opening none) none price e = refl
  trackers-refresh (opening (some t)) none price e = ground arith
  trackers-refresh (opening ttl) (some pos) price e = refl
  trackers-refresh (closing ttl) none price e = refl
  trackers-refresh (closing none) (some pos) price e = refl
  trackers-refresh (closing (some t)) (some pos) price e = ground arith
  trackers-refresh (armed expire_at) pos price e = ground arith
  trackers-refresh idle none price e = refl
  trackers-refresh idle (some pos) price e = refl
  trackers-refresh (in_position _) none price e = refl
  trackers-refresh (in_position _) (some pos) price e = refl

  pub trackers-refresh_state_backtest :
      (price : Price F) (e : SignalEngine F I V K S)
      → (refresh_state_backtest price e).1.trackers ≡ e.trackers
  unfolding refresh_state_backtest
  trackers-refresh_state_backtest price e = trackers-refresh e.state e.exec_params.open_pos price e

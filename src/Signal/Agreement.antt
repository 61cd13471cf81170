-- ===== src/Signal/Agreement.antt =====
-- What live trading and a backtest have in common.
pub mod Refresh
pub mod Passes
pub mod Decisions
use hyperliquid_rust_bot.Prelude.{
  ℕ, suc, ◌≡◌, refl, sym, ap, ◌∙◌, Bool, true, false, not, ◌&&◌, ◌||◌, Option, none, some, List, [],
  ◌∷◌, ◌++◌, is_some, leb, if◌then◌else◌, Result, ok, err, arith, Bool-cases, inl, inr,
}
use mathlib.Core.List.{append_assoc, append-nil}
use hyperliquid_rust_bot.Prelude.Maps.{Eq}
use hyperliquid_rust_bot.Float.{Float}
use hyperliquid_rust_bot.Price.{Price}
use hyperliquid_rust_bot.Exec.Types.{
  PositionOp, open_long, open_short, close, TriggerKind, tp, sl, EngineOrder, ExecCommand, order,
  force_taker, control, event, reload_wallet, force_close,
}
use hyperliquid_rust_bot.Exec.Orders.{is_tpsl, new_tp, new_sl}
use hyperliquid_rust_bot.Signal.Intent.{
  OnTimeout, force, cancel, Intent, open_order, reduce, flatten, arm, disarm, abort, Triggers,
  LiveTimeoutInfo, taker, maker, get_ttl, is_market_order,
}
use hyperliquid_rust_bot.Signal.Params.{OpenPosInfo, ExecParams}
use hyperliquid_rust_bot.Signal.Checks.{
  PendingOpen, PendingOrder, to_open, to_close, validate_trade, validate_trigger_price,
  calc_trigger_px,
}
use hyperliquid_rust_bot.Signal.Tracker.{Indicator, Tracker}
use hyperliquid_rust_bot.Signal.Engine.{
  EngineState, idle, armed, in_position, opening, closing, Strat, Channels, SignalEngine,
  queue_exec_command,
}
use hyperliquid_rust_bot.Signal.Orders.{
  trigger_order, queue_trigger, queue_triggers, queue_pending, queue_pending_tpsl, force_close_exec,
  force_as_taker_order, translate_intent,
}
use hyperliquid_rust_bot.Signal.Ticks.{
  refresh_state, expire, strat_tick, act_on, submit, waiting_state, process_strategy_tick,
}
use hyperliquid_rust_bot.Signal.Actions.{
  BtOrder, opens, closes, BtAction, submit_order, force_taker_order, cancel_all_resting,
  force_close_market, submitted_state, bt_order_from_engine_order, from_intent,
  bt_order_from_pending,
}
use hyperliquid_rust_bot.Signal.Replay.{
  expire_backtest, refresh_state_backtest, act_on_backtest, submit_backtest, decide_backtest,
}

module _ {F : Type 0} where
  -- The commands sent, without the triggers of a position.
  abbrev pub own : ExecCommand F → List (ExecCommand F)
  unfolding is_tpsl
  own (order o) = if is_some (is_tpsl o.limit) then [] else order o ∷ []
  own c = c ∷ []

  abbrev pub strategy_orders : List (ExecCommand F) → List (ExecCommand F)
  strategy_orders [] = []
  strategy_orders (c ∷ cs) = own c ++ strategy_orders cs

  abbrev pub engine_order : BtOrder F → EngineOrder F
  engine_order (opens o) = o.order
  engine_order (closes o) = o.order

  abbrev pub command_of : BtAction F → List (ExecCommand F)
  command_of (submit_order o _) = order (engine_order o) ∷ []
  command_of (force_taker_order o _) = force_taker (engine_order o) ∷ []
  command_of force_close_market = control force_close ∷ []
  command_of cancel_all_resting = []

  -- The commands that the actions of a backtest stand for.
  abbrev pub commands_of : List (BtAction F) → List (ExecCommand F)
  commands_of [] = []
  commands_of (a ∷ as') = command_of a ++ commands_of as'

  pub strategy_orders-append :
      (xs ys : List (ExecCommand F))
      → strategy_orders (xs ++ ys) ≡ strategy_orders xs ++ strategy_orders ys
  strategy_orders-append [] ys = refl
  strategy_orders-append (x ∷ xs) ys =
      ap (λ l. own x ++ l) (strategy_orders-append xs ys)
      ∙ sym (append_assoc (own x) (strategy_orders xs) (strategy_orders ys))

  pub commands_of-append :
      (xs ys : List (BtAction F)) → commands_of (xs ++ ys) ≡ commands_of xs ++ commands_of ys
  commands_of-append [] ys = refl
  commands_of-append (x ∷ xs) ys =
      ap (λ l. command_of x ++ l) (commands_of-append xs ys)
      ∙ sym (append_assoc (command_of x) (commands_of xs) (commands_of ys))

-- Two engines that decide alike.
pub record Alike {F I V K S : Type 0} (a b : SignalEngine F I V K S) : Type 0 where
  pub same_state : a.state ≡ b.state
  pub same_strategy : a.strategy ≡ b.strategy
  pub same_params : a.exec_params ≡ b.exec_params
  pub same_trackers : a.trackers ≡ b.trackers

-- The engine `b` of a backtest has come to decide like the live `a`, whose commands since `before` are
-- those of the actions, but for triggers.
pub record Agrees {F I V K S : Type 0} (before : List (ExecCommand F)) (acts : List (BtAction F))
    (a b : SignalEngine F I V K S) : Type 0 where
  pub alike : Alike a b
  pub orders : strategy_orders a.exec_log ≡ strategy_orders before ++ commands_of acts

module _ {F I V K S : Type 0} where
  pub Alike-self : (e : SignalEngine F I V K S) → Alike e e
  Alike-self e = record {
    same_state = refl;
    same_strategy = refl;
    same_params = refl;
    same_trackers = refl;
  }

  -- Engines that decide alike, put into states that are the same.
  pub Alike-states :
      (s t : EngineState F) (a b : SignalEngine F I V K S)
      → s ≡ t
      → Alike a b
      → Alike (record a { state = s }) (record b { state = t })
  Alike-states s t a b e h = record {
    same_state = e;
    same_strategy = h.same_strategy;
    same_params = h.same_params;
    same_trackers = h.same_trackers;
  }

module _ {F : Type 0} where
  trigger_not_own :
      (trigger : TriggerKind) (size px : F) → own (order (trigger_order trigger size px)) ≡ []
  unfolding new_tp new_sl is_tpsl
  trigger_not_own tp size px = refl
  trigger_not_own sl size px = refl

module _ {F I V K S : Type 0} (ch : Channels) where
  pub Alike-queued :
      (cmd : ExecCommand F) (e : SignalEngine F I V K S) → Alike (queue_exec_command ch cmd e).1 e
  unfolding queue_exec_command
  Alike-queued cmd e = record {
    same_state = refl;
    same_strategy = refl;
    same_params = refl;
    same_trackers = refl;
  }

module _ {F I V K S : Type 0} ⦃f : Float F⦄ (ch : Channels)
    (ready : (n : ℕ) → ch.trade_takes n ≡ true) where
  -- A command that the executor takes.
  pub orders-queued :
      (cmd : ExecCommand F) (e : SignalEngine F I V K S)
      → strategy_orders (queue_exec_command ch cmd e).1.exec_log
        ≡ strategy_orders e.exec_log ++ own cmd
  unfolding queue_exec_command
  orders-queued cmd e = rw (ready e.exec_offered) (
      strategy_orders-append e.exec_log (cmd ∷ [])
      ∙ ap (λ l. strategy_orders e.exec_log ++ l) (append-nil (own cmd)))

  -- A trigger leaves the rest of the engine, and the strategy's orders.
  queue_trigger-Agrees :
      (trigger : TriggerKind) (delta : Option F) (size : F) (pos : OpenPosInfo F)
      (e : SignalEngine F I V K S)
      → Alike (queue_trigger ch trigger delta size pos e) e
        × (strategy_orders (queue_trigger ch trigger delta size pos e).exec_log
            ≡ strategy_orders e.exec_log)
  unfolding queue_trigger
  queue_trigger-Agrees trigger none size pos e = (Alike-self e, refl)
  queue_trigger-Agrees trigger (some delta) size pos e =
      by_check
        (validate_trigger_price
          (calc_trigger_px pos.side trigger delta pos.entry_px e.exec_params.lev))
        refl
    where
      by_check :
          (r : Result _ (Unit {0}))
          → validate_trigger_price
              (calc_trigger_px pos.side trigger delta pos.entry_px e.exec_params.lev)
            ≡ r
          → Alike (queue_trigger ch trigger (some delta) size pos e) e
            × (strategy_orders (queue_trigger ch trigger (some delta) size pos e).exec_log
                ≡ strategy_orders e.exec_log)
      by_check (err _) q = rw (queue_trigger, q) (Alike-self e, refl)
      by_check (ok _) q =
          rw (queue_trigger, q)
            (
              record {
                same_state = refl;
                same_strategy = refl;
                same_params = refl;
                same_trackers = refl;
              },
              orders-queued (order (trigger_order trigger size _)) e
                  ∙ ap (λ l. strategy_orders e.exec_log ++ l) (trigger_not_own trigger size _)
                  ∙ append-nil (strategy_orders e.exec_log),
            )

  pub queue_pending_tpsl-Agrees :
      (pos : OpenPosInfo F) (e : SignalEngine F I V K S)
      → Alike (queue_pending_tpsl ch pos e) e
        × (strategy_orders (queue_pending_tpsl ch pos e).exec_log ≡ strategy_orders e.exec_log)
  unfolding queue_pending_tpsl queue_trigger
  queue_pending_tpsl-Agrees pos e = by_pending e.pending_orders
    where
      by_pending :
          (p : Option (PendingOpen F))
          → Alike (queue_pending ch p pos e) e
            × (strategy_orders (queue_pending ch p pos e).exec_log ≡ strategy_orders e.exec_log)
      by_pending none = (Alike-self e, refl)
      by_pending (some p) = by_triggers p.tpsl
        where
          taken : SignalEngine F I V K S
          taken = record e { pending_orders = none }

          by_triggers :
              (t : Option (Triggers F))
              → Alike (queue_triggers ch t p.order.size pos taken) e
                × (strategy_orders (queue_triggers ch t p.order.size pos taken).exec_log
                    ≡ strategy_orders e.exec_log)
          by_triggers none = (
            record {
              same_state = refl;
              same_strategy = refl;
              same_params = refl;
              same_trackers = refl;
            },
            refl,
          )
          by_triggers (some t) =
              let (a, x) = queue_trigger-Agrees tp t.tp p.order.size pos taken in
              let (b, y) =
                queue_trigger-Agrees sl t.sl p.order.size pos
                  (queue_trigger ch tp t.tp p.order.size pos taken) in
              (
                record {
                  same_state = b.same_state ∙ a.same_state;
                  same_strategy = b.same_strategy ∙ a.same_strategy;
                  same_params = b.same_params ∙ a.same_params;
                  same_trackers = b.same_trackers ∙ a.same_trackers;
                },
                y ∙ x,
              )

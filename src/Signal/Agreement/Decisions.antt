-- ===== src/Signal/Agreement/Decisions.antt =====
-- The decision of the strategy, live and in a backtest.
use mathlib.Core.List.{append_assoc, append-nil}
use hyperliquid_rust_bot.Prelude.{
  ℕ, ◌≡◌, refl, sym, ap, subst, ◌∙◌, true, false, not, ◌&&◌, Option, none, some, List, [], ◌∷◌,
  ◌++◌, Result, ok, err, Bool-cases, inl, inr,
}
use hyperliquid_rust_bot.Prelude.Maps.{Eq}
use hyperliquid_rust_bot.Float.{Float}
use hyperliquid_rust_bot.Price.{Price}
use hyperliquid_rust_bot.Exec.Types.{ExecCommand, order, control, force_close}
use hyperliquid_rust_bot.Exec.Orders.{is_tpsl}
use hyperliquid_rust_bot.Signal.Intent.{Intent, open_order, reduce, flatten, arm, disarm, abort}
use hyperliquid_rust_bot.Signal.Checks.{Rejection, PendingOrder, validate_trade}
use hyperliquid_rust_bot.Signal.Tracker.{Indicator, IndexId, TimedValue}
use hyperliquid_rust_bot.Signal.Engine.{
  EngineState, idle, armed, in_position, opening, closing, Strat, Channels, SignalEngine, is_idle,
  is_busy, is_abort, queue_exec_command, get_active_values,
}
use hyperliquid_rust_bot.Signal.Orders.{translate_intent, force_close_exec}
use hyperliquid_rust_bot.Signal.Ticks.{
  refresh_state, ask, context, strat_tick, main_order, submit, submit_some, on_intent, act_on,
  disarmed, process_strategy_tick,
}
use hyperliquid_rust_bot.Signal.Actions.{
  BtAction, submit_order, bt_open, bt_reduce, bt_flatten, BtIntent, action_of, from_intent,
  bt_order_from_pending,
}
use hyperliquid_rust_bot.Signal.Replay.{
  refresh_state_backtest, submit_backtest, submit_some_backtest, on_intent_backtest,
  disarm_backtest, act_on_backtest, decide_backtest,
}
use hyperliquid_rust_bot.Signal.Agreement.{
  Alike, Alike-states, Agrees, own, strategy_orders, commands_of, orders-queued, commands_of-append,
  strategy_orders-append,
}
use hyperliquid_rust_bot.Signal.Agreement.Refresh.{
  refresh_state-Agrees, trackers-refresh_state_backtest,
}
use hyperliquid_rust_bot.Signal.Agreement.Passes.{
  Passes, PassesSome, opening-Passes, reducing-Passes, flattened-Passes, waiting-submitted,
}

module _ {F V K C S I : Type 0} ⦃f : Float F⦄ (strat : Strat F V K C S) where
  strat_tick-Alike :
      (price : Price F) (values : List (IndexId K × TimedValue V)) (a b : SignalEngine F I V K S)
      → Alike a b
      → ((strat_tick strat price values a).0 ≡ (strat_tick strat price values b).0)
        × Alike (strat_tick strat price values a).1 (strat_tick strat price values b).1
  unfolding strat_tick
  strat_tick-Alike price values a b h =
      let asked : ask strat a.state (context price values a.exec_params) a.strategy
          ≡ ask strat b.state (context price values b.exec_params) b.strategy =
        cc (h.same_state, h.same_params, h.same_strategy) in
      (
        ap (λ r. r.0) asked,
        record {
          same_state = h.same_state;
          same_strategy = ap (λ r. r.1) asked;
          same_params = h.same_params;
          same_trackers = h.same_trackers;
        },
      )

module _ {F I V K S : Type 0} ⦃f : Float F⦄ (ch : Channels)
    (ready : (n : ℕ) → ch.trade_takes n ≡ true) where
  submit-Agrees :
      (intent : Intent F) (i : BtIntent) (price : Price F) (pending : PendingOrder F)
      (a b : SignalEngine F I V K S)
      → from_intent intent ≡ some i
      → Passes pending i
      → Alike a b
      → Agrees a.exec_log
          (submit_backtest intent price price pending b).0
          (submit ch intent price pending a)
          (submit_backtest intent price price pending b).1
  unfolding bt_order_from_pending submit submit_backtest
  submit-Agrees intent i price pending a b known passes h =
      by_check (validate_trade a.exec_params pending price.close_px) refl
    where
      by_check :
          (r : Result Rejection (Unit {0}))
          → validate_trade a.exec_params pending price.close_px ≡ r
          → Agrees a.exec_log
              (submit_backtest intent price price pending b).0
              (submit ch intent price pending a)
              (submit_backtest intent price price pending b).1
      by_check (err x) q =
          let q' : validate_trade b.exec_params pending price.close_px ≡ err x =
            sym (ap (λ p. validate_trade p pending price.close_px) h.same_params) ∙ q in
          rw (submit, q, submit_backtest, q') (record { alike = h; orders = sym (append-nil _) })
      by_check (ok x) q =
          let q' : validate_trade b.exec_params pending price.close_px ≡ ok x =
            sym (ap (λ p. validate_trade p pending price.close_px) h.same_params) ∙ q in
          let r = ready a.exec_offered in
          rw (submit, q, submit_backtest, q', queue_exec_command, r)
            (record {
              alike = record {
                same_state = waiting-submitted intent price h.same_state;
                same_strategy = h.same_strategy;
                same_params = h.same_params;
                same_trackers = h.same_trackers;
              };
              orders =
                  strategy_orders-append a.exec_log (order (main_order pending) ∷ [])
                  ∙ ap (λ l. strategy_orders a.exec_log ++ l)
                      (append-nil (own (order (main_order pending)))
                        ∙ sym passes
                        ∙ ap
                            (λ x.
                              commands_of
                                (action_of submit_order (bt_order_from_pending pending) x))
                            (sym known));
            })

  submit_some-Agrees :
      (intent : Intent F) (i : BtIntent) (price : Price F) (x : Option (PendingOrder F))
      (a b : SignalEngine F I V K S)
      → from_intent intent ≡ some i
      → PassesSome x i
      → Alike a b
      → Agrees a.exec_log
          (submit_some_backtest intent price price x b).0
          (submit_some ch intent price x a)
          (submit_some_backtest intent price price x b).1
  unfolding bt_order_from_pending submit submit_backtest
  submit_some-Agrees intent i price none a b known passes h = record {
    alike = h;
    orders = sym (append-nil _);
  }
  submit_some-Agrees intent i price (some pending) a b known passes h =
      submit-Agrees intent i price pending a b known passes h

  translated-Agrees :
      (intent : Intent F) (i : BtIntent) (price : Price F) (a b : SignalEngine F I V K S)
      → from_intent intent ≡ some i
      → PassesSome (translate_intent a.exec_params intent price) i
      → Alike a b
      → let x = translate_intent b.exec_params intent price in
        Agrees a.exec_log
          (submit_some_backtest intent price price x b).0
          (submit_some ch intent price (translate_intent a.exec_params intent price) a)
          (submit_some_backtest intent price price x b).1
  unfolding bt_order_from_pending
  translated-Agrees intent i price a b known passes h =
      let x = translate_intent a.exec_params intent price in
      subst
        (λ y.
          Agrees a.exec_log (submit_some_backtest intent price price y b).0
            (submit_some ch intent price x a) (submit_some_backtest intent price price y b).1)
        (ap (λ p. translate_intent p intent price) h.same_params)
        (submit_some-Agrees intent i price x a b known passes h)

  disarm-Alike :
      (s : EngineState F) (a b : SignalEngine F I V K S)
      → b.state ≡ s
      → Alike a b
      → Alike (record a { state = disarmed a.state }) (disarm_backtest s b)
  disarm-Alike s a b q h = by_state s (ap disarmed (h.same_state ∙ q)) q
    where
      by_state :
          (s : EngineState F)
          → disarmed a.state ≡ disarmed s
          → b.state ≡ s
          → Alike (record a { state = disarmed a.state }) (disarm_backtest s b)
      by_state (armed _) e q = Alike-states _ idle a b e h
      by_state idle e q = Alike-states _ b.state a b (e ∙ sym q) h
      by_state (in_position _) e q = Alike-states _ b.state a b (e ∙ sym q) h
      by_state (opening _) e q = Alike-states _ b.state a b (e ∙ sym q) h
      by_state (closing _) e q = Alike-states _ b.state a b (e ∙ sym q) h

  on_intent-Agrees :
      (intent : Intent F) (price : Price F) (a b : SignalEngine F I V K S)
      → Alike a b
      → Agrees a.exec_log
          (on_intent_backtest intent price price b).0
          (on_intent ch intent price a)
          (on_intent_backtest intent price price b).1
  unfolding bt_order_from_pending submit submit_backtest force_close_exec translate_intent
      from_intent queue_exec_command is_tpsl
  on_intent-Agrees (open_order o) price a b h =
      translated-Agrees (open_order o) bt_open price a b refl
        (opening-Passes a.exec_params o o.liq_side price) h
  on_intent-Agrees (reduce o) price a b h =
      translated-Agrees (reduce o) bt_reduce price a b refl
        (reducing-Passes a.exec_params o o.liq_side price) h
  on_intent-Agrees (flatten l) price a b h =
      translated-Agrees (flatten l) bt_flatten price a b refl
        (flattened-Passes a.exec_params.open_pos l) h
  on_intent-Agrees (arm d) price a b h = elim (Bool-cases (is_idle b.state)) [
    | inl q ↦
        let q' : is_idle a.state ≡ true = ap is_idle h.same_state ∙ q in
        rw (q, q') (record { alike = Alike-states _ _ a b refl h; orders = sym (append-nil _) })
    | inr q ↦
        let q' : is_idle a.state ≡ false = ap is_idle h.same_state ∙ q in
        rw (q, q') (record { alike = h; orders = sym (append-nil _) })
  ]
  on_intent-Agrees disarm price a b h = record {
    alike = disarm-Alike b.state a b refl h;
    orders = sym (append-nil _);
  }
  on_intent-Agrees abort price a b h = record {
    alike = record {
      same_state = refl;
      same_strategy = h.same_strategy;
      same_params = h.same_params;
      same_trackers = h.same_trackers;
    };
    orders = orders-queued ch ready (control force_close) a;
  }

  act_on-Agrees :
      (intent : Option (Intent F)) (price : Price F) (a b : SignalEngine F I V K S)
      → Alike a b
      → Agrees a.exec_log
          (act_on_backtest intent price price b).0
          (act_on ch intent price a)
          (act_on_backtest intent price price b).1
  unfolding act_on act_on_backtest
  act_on-Agrees none price a b h = record { alike = h; orders = sym (append-nil _) }
  act_on-Agrees (some intent) price a b h =
      elim (Bool-cases (is_busy b.state && not (is_abort intent))) [
        | inl q ↦
            let q' : is_busy a.state && not (is_abort intent) ≡ true =
              ap (λ s. is_busy s && not (is_abort intent)) h.same_state ∙ q in
            rw (q, q') (record { alike = h; orders = sym (append-nil _) })
        | inr q ↦
            let q' : is_busy a.state && not (is_abort intent) ≡ false =
              ap (λ s. is_busy s && not (is_abort intent)) h.same_state ∙ q in
            rw (q, q') (on_intent-Agrees intent price a b h)
      ]

module _ {F I V K C S : Type 0} ⦃f : Float F⦄ ⦃k : Eq K⦄ (ind : Indicator F I V K)
    (strat : Strat F V K C S) (ch : Channels) (ready : (n : ℕ) → ch.trade_takes n ≡ true) where
  decided :
      (before : List (ExecCommand F)) (acts : List (BtAction F)) (price : Price F)
      (v w : List (IndexId K × TimedValue V)) (a b : SignalEngine F I V K S)
      → v ≡ w
      → Agrees before acts a b
      → let (i, a') = strat_tick strat price v a in
        let (j, b') = strat_tick strat price w b in
        Agrees before
          (acts ++ (act_on_backtest j price price b').0)
          (act_on ch i price a')
          (act_on_backtest j price price b').1
  unfolding strat_tick
  decided before acts price v w a b same h =
      let (i, a') = strat_tick strat price v a in
      let (j, b') = strat_tick strat price w b in
      let (q, alike) : (i ≡ j) × Alike a' b' =
        subst (λ u. (i ≡ (strat_tick strat price u b).0) × Alike a' (strat_tick strat price u b).1)
          same (strat_tick-Alike strat price v a b h.alike) in
      let r : Agrees a'.exec_log (act_on_backtest j price price b').0 (act_on ch i price a')
          (act_on_backtest j price price b').1 =
        subst
          (λ u.
            Agrees a'.exec_log (act_on_backtest u price price b').0 (act_on ch i price a')
              (act_on_backtest u price price b').1)
          q (act_on-Agrees ch ready i price a' b' alike) in
      record {
        alike = r.alike;
        orders =
            r.orders
            ∙ ap (λ l. l ++ commands_of (act_on_backtest j price price b').0) h.orders
            ∙ append_assoc (strategy_orders before) (commands_of acts) _
            ∙ ap (λ l. strategy_orders before ++ l) (sym (commands_of-append acts _));
      }

  -- Let the executor take every command. On the same candle, at whose price the backtest also trades,
  -- live trading and a backtest come to the same state, with the same parameters, trackers and state of
  -- the script; and the commands that live trading sends are those of the backtest's actions in their
  -- order, except for the triggers of a position.
  pub process_strategy_tick-decide_backtest :
      (price : Price F) (e : SignalEngine F I V K S)
      → Agrees e.exec_log
          (decide_backtest ind strat price price e).0
          (process_strategy_tick ind strat ch price e)
          (decide_backtest ind strat price price e).1
  unfolding process_strategy_tick decide_backtest
  process_strategy_tick-decide_backtest price e =
      decided e.exec_log (refresh_state_backtest price e).0 price (get_active_values ind e.trackers)
        (get_active_values ind (refresh_state_backtest price e).1.trackers)
        (refresh_state ch price e) (refresh_state_backtest price e).1
        (ap (get_active_values ind) (sym (trackers-refresh_state_backtest price e)))
        (refresh_state-Agrees ch ready price e)

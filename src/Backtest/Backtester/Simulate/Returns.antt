-- ===== src/Backtest/Backtester/Simulate/Returns.antt =====
-- src/backtest/backtester.rs: the simulation ends.
use hyperliquid_rust_bot.Prelude.{
  ℕ, zero, suc, ◌<◌, ◌≡◌, refl, ap, ◌∙◌, subst, sym, Bool, true, false, Bool-cases, Option-cases,
  inl, inr, Option, none, some, List, [], ◌∷◌, All, get_elem?, arith,
}
use hyperliquid_rust_bot.Prelude.Maps.{Eq}
use hyperliquid_rust_bot.Float.{Float, IsFloat}
use hyperliquid_rust_bot.Price.{Price}
use hyperliquid_rust_bot.Signal.Tracker.{Indicator}
use hyperliquid_rust_bot.Signal.Engine.{Strat}
use hyperliquid_rust_bot.Backtest.Backtester.State.{EquityPoint, Backtester}
use hyperliquid_rust_bot.Backtest.Backtester.Funding.Due.{apply_funding_if_due-returns}
use hyperliquid_rust_bot.Backtest.Backtester.Merge.{
  BacktestSeries, SeriesEvent, next_time, take_batch, sort_batch, batch_at, next_event_batch,
}
use hyperliquid_rust_bot.Backtest.Backtester.Merge.Steps.{left}
use hyperliquid_rust_bot.Backtest.Backtester.Merge.Counts.{left-take_batch_less}
use hyperliquid_rust_bot.Backtest.Backtester.Merge.Order.{sort_batch-All}
use hyperliquid_rust_bot.Backtest.Backtester.Run.{process_candle}
use hyperliquid_rust_bot.Backtest.Backtester.Run.Candles.{Adds, process_candle-Adds}
use hyperliquid_rust_bot.Backtest.Backtester.Simulate.Early.{
  IsEarly, OptEarly, take_batch-All, primary_candle-OptEarly,
}
use hyperliquid_rust_bot.Backtest.Backtester.Simulate.{
  tick_event, tick_events, end_batch, Sim, primary_candle, started_by, synced, begin_batch,
  run_batch, sim_batch, simulate,
}

module _ {F I V K S : Type 0} ⦃f : Float F⦄ where
  -- Where a liquidation stopped the run, there is no position and no resting order.
  abbrev pub AtStop : Bool → Backtester F I V K S → Type 0
  AtStop true b = (b.position ≡ none) × (b.resting_orders ≡ [])
  AtStop false b = Unit

  Adds-AtStop :
      (before : List (EquityPoint F)) (candle : Price F) (o : Bool × Backtester F I V K S)
      → Adds before candle o
      → AtStop o.0 o.1
  unfolding Adds
  Adds-AtStop before candle (true, b) (p, flat, empty, balance) = (flat, empty)
  Adds-AtStop before candle (false, b) a = tt

  going-AtStop :
      (st : Sim F I V K S)
      → st.stopped_by_liquidation ≡ false
      → AtStop st.stopped_by_liquidation st.bt
  going-AtStop st h = subst (λ x. AtStop x st.bt) (sym h) tt

  begin_batch-returns :
      (o : Option (Price F)) (st : Sim F I V K S)
      → OptEarly o
      → (st' : Sim F I V K S) × (begin_batch o st ≡ some st')
        × (st'.stopped_by_liquidation ≡ st.stopped_by_liquidation)
  unfolding begin_batch synced
  begin_batch-returns none st h = (st, refl, refl)
  begin_batch-returns (some candle) st h =
      let (b, e) = apply_funding_if_due-returns candle (started_by candle st) h in
      (_, ap (λ o. synced candle st o) e, refl)

module _ {F I V K S : Type 0} ⦃f : Float F⦄ ⦃k : Eq K⦄ (ind : Indicator F I V K) where
  end_batch-AtStop :
      IsFloat F
      → (o : Option (Price F)) (st : Sim F I V K S) → st.stopped_by_liquidation ≡ false
      → AtStop (end_batch ind o st).stopped_by_liquidation (end_batch ind o st).bt
  unfolding end_batch
  end_batch-AtStop laws none st h = going-AtStop st h
  end_batch-AtStop laws (some candle) st h =
      Adds-AtStop st.bt.equity_curve candle (process_candle ind candle st.bt)
        (process_candle-Adds ind laws candle st.bt)

module _ {F I V K C S : Type 0} ⦃f : Float F⦄ ⦃k : Eq K⦄ (ind : Indicator F I V K)
    (strat : Strat F V K C S) where
  tick_event-going :
      (o : Option (BacktestSeries F)) (price execution : Price F) (st : Sim F I V K S)
      → (tick_event ind strat o price execution st).stopped_by_liquidation
        ≡ st.stopped_by_liquidation
  unfolding tick_event
  tick_event-going none price execution st = refl
  tick_event-going (some s) price execution st = refl

  tick_events-going :
      (ss : List (BacktestSeries F)) (es : List (SeriesEvent F)) (execution : Price F)
      (st : Sim F I V K S)
      → (tick_events ind strat ss es execution st).stopped_by_liquidation
        ≡ st.stopped_by_liquidation
  unfolding tick_events
  tick_events-going ss [] execution st = refl
  tick_events-going ss (e ∷ es) execution st =
      tick_events-going ss es execution _
      ∙ tick_event-going (get_elem? ss e.series_idx) e.price execution st

  run_batch-AtStop :
      IsFloat F
      → (o : Option (Price F)) (ss : List (BacktestSeries F)) (es : List (SeriesEvent F))
        (primary : Option (Price F)) (st : Sim F I V K S)
      → st.stopped_by_liquidation ≡ false
      → AtStop
          (run_batch ind strat o ss es primary st).stopped_by_liquidation
          (run_batch ind strat o ss es primary st).bt
  unfolding run_batch
  run_batch-AtStop laws none ss es primary st h = going-AtStop st h
  run_batch-AtStop laws (some execution) ss es primary st h =
      end_batch-AtStop ind laws primary _ (tick_events-going ss es execution st ∙ h)

  sim_batch-returns :
      IsFloat F
      → (ss : List (BacktestSeries F)) (primary : ℕ) (batch : List (SeriesEvent F))
        (st : Sim F I V K S)
      → st.stopped_by_liquidation ≡ false
      → All (λ e. IsEarly e.price) batch
      → (st' : Sim F I V K S) × (sim_batch ind strat ss primary batch st ≡ some st')
        × AtStop st'.stopped_by_liquidation st'.bt
  unfolding sim_batch
  sim_batch-returns laws ss primary batch st h a =
      let candle = primary_candle primary batch in
      let (st1, e, same) =
        begin_batch-returns candle st (primary_candle-OptEarly primary batch a) in
      (
        run_batch ind strat st1.current_execution_candle ss batch candle st1,
        rw (e, sim_batch) refl,
        run_batch-AtStop laws st1.current_execution_candle ss batch candle st1 (same ∙ h),
      )

  -- If the candles of all series open a funding window below the greatest `u64` and the comparison of
  -- floats is that of IEEE 754, the simulation returns with fuel for every candle to come; where a
  -- liquidation stops it, there is no position and no resting order.
  pub simulate-AtStop :
      (laws : IsFloat F) (fuel : ℕ) (ss : List (BacktestSeries F)) (primary : ℕ) (is : List ℕ)
      (st : Sim F I V K S)
      → All (λ s. All IsEarly s.prices) ss
      → left ss is < fuel
      → st.stopped_by_liquidation ≡ false
      → (st' : Sim F I V K S) × (simulate ind strat fuel ss primary is st ≡ some st')
        × AtStop st'.stopped_by_liquidation st'.bt
  unfolding simulate next_event_batch batch_at
  simulate-AtStop laws zero ss primary is st a enough h = ground arith
  simulate-AtStop laws (suc fuel) ss primary is st a enough h =
      elim (Option-cases (next_time ss is)) [
        | inl e ↦ (st, rw (e, simulate) refl, going-AtStop st h)
        | inr (ts, e) ↦
            let r = take_batch 0 ts ss is in
            let (st1, q, flat) =
              sim_batch-returns laws ss primary (sort_batch ss r.0) st h
                (sort_batch-All (λ x. IsEarly x.price) ss r.0 (take_batch-All 0 ts ss is a)) in
            let less : left ss r.1 < fuel =
              omega (arith, left-take_batch_less 0 ts ss is e, enough) in
            elim (Bool-cases st1.stopped_by_liquidation) [
              | inl stopped ↦ (st1, rw (e, simulate, q, stopped) refl, flat)
              | inr goes ↦
                  let (st2, w, end) = simulate-AtStop laws fuel ss primary r.1 st1 a less goes in
                  (st2, rw (e, simulate, q, goes) w, end)
            ]
      ]

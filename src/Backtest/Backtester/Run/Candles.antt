-- ===== src/Backtest/Backtester/Run/Candles.antt =====
-- src/backtest/backtester.rs: what a candle adds to the run, and the state where it stops.
use hyperliquid_rust_bot.Prelude.{
  ◌≡◌, refl, ap, Bool, true, false, Option, none, some, List, [], ◌∷◌, ◌++◌, arith, if_either,
  subst, ltb, is_some, if◌then◌else◌,
}
use hyperliquid_rust_bot.Prelude.Maps.{Eq}
use hyperliquid_rust_bot.Float.{Float, IsFloat}
use hyperliquid_rust_bot.Price.{Price}
use hyperliquid_rust_bot.Exec.Types.{Side, liquidation, TradeInfo}
use hyperliquid_rust_bot.Signal.Tracker.{Indicator}
use hyperliquid_rust_bot.Backtest.Backtester.State.{
  EquityPoint, filled, PositionState, Backtester, pnl_at,
}
use hyperliquid_rust_bot.Backtest.Backtester.Fills.Stable.{IsStable, fill_close_at_px-IsStable}
use hyperliquid_rust_bot.Backtest.Backtester.Fills.Closed.{Flat, fill_close_at_px-Flat}
use hyperliquid_rust_bot.Backtest.Backtester.Orders.{no_resting, fill_resting_orders}
use hyperliquid_rust_bot.Backtest.Backtester.Orders.Kinds.{fill_resting_orders-IsStable}
use hyperliquid_rust_bot.Backtest.Backtester.Run.{
  sync_engine_position, push_equity_point, capture_snapshot, record_close, liquidate, liquidate_at,
  liquidate_of, apply_liquidation_if_touched, process_candle,
}

-- One equity point at the candle's closing time is added to a curve.
abbrev pub AddsPoint : {F : Type 0} → List (EquityPoint F) → Price F → List (EquityPoint F) → Type 0
AddsPoint {F} before candle after =
    (p : EquityPoint F) × (after ≡ before ++ p ∷ []) × (p.ts ≡ candle.close_time)

no_debt :
    {F : Type 0} ⦃f : Float F⦄
    → IsFloat F
    → (x : F) → f.lt (if f.lt x (f.of_nat 0) then f.of_nat 0 else x) (f.of_nat 0) ≡ false
no_debt ⦃f⦄ laws x = ground (arith, laws.not_lt_self (f.of_nat 0))

module _ {F I V K S : Type 0} ⦃f : Float F⦄ (curve : List (EquityPoint F)) where
  abbrev HasCurve : Backtester F I V K S → Type 0
  HasCurve b = b.equity_curve ≡ curve

  HasCurve-IsStable : IsStable HasCurve
  HasCurve-IsStable = record {
    paid = λ balance p b h. h;
    traded = λ t b h. h;
    rested = λ r b h. h;
    clamps = λ size b h. h;
    closes = λ b h. h;
  }

module _ {F I V K S : Type 0} ⦃f : Float F⦄ where
  abbrev settled : Backtester F I V K S → Backtester F I V K S
  settled b = record b { balance = if f.lt b.balance (f.of_nat 0) then f.of_nat 0 else b.balance }

  push_equity_point-AddsPoint :
      (before : List (EquityPoint F)) (candle : Price F) (b : Backtester F I V K S)
      → b.equity_curve ≡ before
      → AddsPoint before candle (push_equity_point candle (sync_engine_position b)).equity_curve
  unfolding sync_engine_position push_equity_point
  push_equity_point-AddsPoint before candle b h =
      let upnl = pnl_at b.position candle.close_px in
      let p : EquityPoint F = record {
        ts = candle.close_time;
        equity = f.add b.balance upnl;
        balance = b.balance;
        upnl = upnl;
      } in
      (p, ap (λ c. c ++ p ∷ []) h, refl)

  -- What the outcome of a test for liquidation says: the run stops with a new equity point, no position, no
  -- resting order and no debt, or the curve is as it was.
  unfoldable pub Ends :
      (before : List (EquityPoint F)) → Price F → Bool × Backtester F I V K S → Type 0
  Ends before candle (true, b) =
      AddsPoint before candle b.equity_curve
      × (b.position ≡ none)
      × (b.resting_orders ≡ [])
      × (f.lt b.balance (f.of_nat 0) ≡ false)
  Ends before candle (false, b) = b.equity_curve ≡ before

  -- What the outcome of a candle says: one equity point more, and where the run stops no position, no
  -- resting order and no debt.
  unfoldable pub Adds :
      (before : List (EquityPoint F)) → Price F → Bool × Backtester F I V K S → Type 0
  Adds before candle (true, b) =
      AddsPoint before candle b.equity_curve
      × (b.position ≡ none)
      × (b.resting_orders ≡ [])
      × (f.lt b.balance (f.of_nat 0) ≡ false)
  Adds before candle (false, b) = AddsPoint before candle b.equity_curve

  Ends-refl : (candle : Price F) (b : Backtester F I V K S) → Ends b.equity_curve candle (false, b)
  unfolding Ends
  Ends-refl candle b = refl

module _ {F I V K S : Type 0} ⦃f : Float F⦄ ⦃k : Eq K⦄ (ind : Indicator F I V K) where
  record_close-AddsPoint :
      (before : List (EquityPoint F)) (candle : Price F) (b : Backtester F I V K S)
      → b.equity_curve ≡ before
      → AddsPoint before candle (record_close ind candle b).equity_curve
  unfolding record_close sync_engine_position push_equity_point capture_snapshot
  record_close-AddsPoint before candle b h = push_equity_point-AddsPoint before candle b h

  abbrev outcome_of :
      Option (TradeInfo F) × Backtester F I V K S → Price F → Bool × Backtester F I V K S
  outcome_of (trade, b') candle =
      if is_some trade
      then (
        true,
        record_close ind candle (record b' {
          balance = if f.lt b'.balance (f.of_nat 0) then f.of_nat 0 else b'.balance;
        }),
      )
      else (false, b')

  module _ (laws : IsFloat F) where
    outcome_of-Ends :
        (before : List (EquityPoint F)) (candle : Price F) (trade : Option (TradeInfo F))
        (b : Backtester F I V K S)
        → b.equity_curve ≡ before
        → Flat (trade, b)
        → Ends before candle (outcome_of (trade, b) candle)
    unfolding Ends Flat record_close sync_engine_position push_equity_point capture_snapshot
    outcome_of-Ends before candle none b h flat = h
    outcome_of-Ends before candle (some t) b h (flat, empty) =
        (record_close-AddsPoint before candle (settled b) h, flat, empty, no_debt laws b.balance)

    liquidate-Ends :
        (px : F) (candle : Price F) (b : Backtester F I V K S)
        → Ends b.equity_curve candle (liquidate ind px candle b)
    unfolding liquidate
    liquidate-Ends px candle b =
        let h =
          fill_close_at_px-IsStable (HasCurve b.equity_curve) (HasCurve-IsStable b.equity_curve)
            none px candle.open_time liquidation (no_resting b) refl in
        let flat = fill_close_at_px-Flat none px candle.open_time liquidation (no_resting b) refl in
        outcome_of-Ends b.equity_curve candle _ _ h flat

    liquidate_at-Ends :
        (px : Option F) (side : Side) (candle : Price F) (b : Backtester F I V K S)
        → Ends b.equity_curve candle (liquidate_at ind px side candle b)
    unfolding liquidate_at
    liquidate_at-Ends none side candle b = Ends-refl candle b
    liquidate_at-Ends (some px) side candle b =
        if_either (Ends b.equity_curve candle) _ _ _ (liquidate-Ends px candle b)
          (Ends-refl candle b)

    liquidate_of-Ends :
        (p : Option (PositionState F)) (candle : Price F) (b : Backtester F I V K S)
        → Ends b.equity_curve candle (liquidate_of ind p candle b)
    unfolding liquidate_of
    liquidate_of-Ends none candle b = Ends-refl candle b
    liquidate_of-Ends (some p) candle b = liquidate_at-Ends _ p.side candle b

    pub apply_liquidation_if_touched-Ends :
        (candle : Price F) (b : Backtester F I V K S)
        → Ends b.equity_curve candle (apply_liquidation_if_touched ind candle b)
    unfolding apply_liquidation_if_touched
    apply_liquidation_if_touched-Ends candle b = liquidate_of-Ends b.position candle b

  -- After the orders that the candle fills.
  abbrev after_fills : Price F → Backtester F I V K S → Backtester F I V K S
  unfolding fill_resting_orders sync_engine_position capture_snapshot
  after_fills candle b =
      let (fills, b1) = fill_resting_orders candle b in
      if ltb 0 fills then capture_snapshot ind candle filled (sync_engine_position b1) else b1

  after_fills-HasCurve :
      (candle : Price F) (b : Backtester F I V K S)
      → (after_fills candle b).equity_curve ≡ b.equity_curve
  unfolding after_fills sync_engine_position capture_snapshot
  after_fills-HasCurve candle b =
      let h =
        fill_resting_orders-IsStable (HasCurve b.equity_curve) (HasCurve-IsStable b.equity_curve)
          candle b (λ id c g. g) refl in
      if_either (HasCurve b.equity_curve) (ltb 0 (fill_resting_orders candle b).0)
        (capture_snapshot ind candle filled (sync_engine_position (fill_resting_orders candle b).1))
        (fill_resting_orders candle b).1 h h

  ended-Adds :
      (before : List (EquityPoint F)) (candle : Price F) (o : Bool × Backtester F I V K S)
      → Ends before candle o
      → Adds before candle (
          if o.0 then (true, o.1) else (false, push_equity_point candle (sync_engine_position o.1)))
  unfolding Ends Adds push_equity_point sync_engine_position
  ended-Adds before candle (true, b) h = h
  ended-Adds before candle (false, b) h = push_equity_point-AddsPoint before candle b h

  -- Where the comparison of floats is that of IEEE 754, `process_candle` adds one equity point, at the
  -- candle's closing time; where it stops the run, it leaves no position, no resting order and a balance
  -- that is not negative.
  pub process_candle-Adds :
      (laws : IsFloat F) (candle : Price F) (b : Backtester F I V K S)
      → Adds b.equity_curve candle (process_candle ind candle b)
  unfolding process_candle after_fills
  process_candle-Adds laws candle b =
      let b2 = after_fills candle b in
      subst (λ c. Adds c candle (process_candle ind candle b)) (after_fills-HasCurve candle b)
        (ended-Adds b2.equity_curve candle (apply_liquidation_if_touched ind candle b2)
          (apply_liquidation_if_touched-Ends laws candle b2))

-- ===== src/Backtest/Backtester/Fills/Closed.antt =====
-- src/backtest/backtester.rs: the state after a fill that closes the position.
use hyperliquid_rust_bot.Prelude.{ℕ, ◌≡◌, refl, ap, Option, none, some, [], if_either}
use hyperliquid_rust_bot.Float.{Float}
use hyperliquid_rust_bot.Exec.Types.{FillType, EngineOrder, TradeInfo}
use hyperliquid_rust_bot.Backtest.Backtester.State.{PositionState, Backtester}
use hyperliquid_rust_bot.Backtest.Backtester.Positions.{keep_opening}
use hyperliquid_rust_bot.Backtest.Backtester.Fills.{fill_part, fill_close_of, fill_close_at_px}

module _ {F I V K S : Type 0} ⦃f : Float F⦄ where
  -- With no position and no resting order where there is a trade.
  unfoldable pub Flat : Option (TradeInfo F) × Backtester F I V K S → Type 0
  Flat (none, b) = Unit
  Flat (some t, b) = (b.position ≡ none) × (b.resting_orders ≡ [])

  -- A fill that closes nothing.
  Flat-none : (b : Backtester F I V K S) → Flat (none, b)
  unfolding Flat
  Flat-none b = tt

  Flat-some :
      (t : TradeInfo F) (b : Backtester F I V K S)
      → b.position ≡ none
      → b.resting_orders ≡ []
      → Flat (some t, b)
  unfolding Flat
  Flat-some t b h g = (h, g)

  fill_part-Flat :
      (p : PositionState F) (size px : F) (ts : ℕ) (t : FillType) (b : Backtester F I V K S)
      → b.resting_orders ≡ []
      → Flat (fill_part p size px ts t b)
  unfolding fill_part keep_opening
  fill_part-Flat p size px ts t b h =
      if_either Flat _ _ _ (Flat-none _) (Flat-some _ _ refl (ap (λ m. keep_opening m) h))

  fill_close_of-Flat :
      (p : Option (PositionState F)) (o : Option (EngineOrder F)) (px : F) (ts : ℕ) (t : FillType)
      (b : Backtester F I V K S)
      → b.resting_orders ≡ []
      → Flat (fill_close_of p o px ts t b)
  unfolding fill_close_of
  fill_close_of-Flat none o px ts t b h = Flat-none b
  fill_close_of-Flat (some p) o px ts t b h =
      if_either Flat _ _ _ (Flat-none b) (fill_part-Flat p _ px ts t b h)

  pub fill_close_at_px-Flat :
      (o : Option (EngineOrder F)) (px : F) (ts : ℕ) (t : FillType) (b : Backtester F I V K S)
      → b.resting_orders ≡ []
      → Flat (fill_close_at_px o px ts t b)
  unfolding fill_close_at_px
  fill_close_at_px-Flat o px ts t b h = fill_close_of-Flat b.position o px ts t b h

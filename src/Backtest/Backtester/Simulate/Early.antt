-- ===== src/Backtest/Backtester/Simulate/Early.antt =====
-- src/backtest/backtester.rs: the candles that the simulation meets open early enough for another funding time.
use hyperliquid_rust_bot.Prelude.{
  ℕ, zero, suc, ◌+◌, ◌≤◌, ◌==◌, Bool-cases, inl, inr, Option, none, some, List, [], ◌∷◌, All,
  get_elem?, if_either,
}
use hyperliquid_rust_bot.Prelude.Words.{u64_max}
use hyperliquid_rust_bot.Price.{Price}
use hyperliquid_rust_bot.Backtest.Backtester.Funding.{funding_window_ms}
use hyperliquid_rust_bot.Backtest.Backtester.Merge.{
  BacktestSeries, SeriesEvent, take_one, take_batch,
}
use hyperliquid_rust_bot.Backtest.Backtester.Simulate.{primary_candle}

module _ {F : Type 0} where
  -- A window of funding fits into a `u64` after the candle's opening time.
  abbrev pub IsEarly : Price F → Type 0
  IsEarly p = p.open_time + funding_window_ms ≤ u64_max

  -- Where there is a candle, it is early.
  abbrev pub OptEarly : Option (Price F) → Type 0
  OptEarly none = Unit
  OptEarly (some p) = IsEarly p

  get_elem?-OptEarly : (ps : List (Price F)) (i : ℕ) → All IsEarly ps → OptEarly (get_elem? ps i)
  get_elem?-OptEarly [] i a = tt
  get_elem?-OptEarly (p ∷ ps) zero (h, a) = h
  get_elem?-OptEarly (p ∷ ps) (suc i) (h, a) = get_elem?-OptEarly ps i a

  take_one-All :
      (o : Option (Price F)) (idx ts i : ℕ) (r : List (SeriesEvent F) × List ℕ)
      → OptEarly o
      → All (λ e. IsEarly e.price) r.0
      → All (λ e. IsEarly e.price) (take_one o idx ts i r).0
  take_one-All none idx ts i r h a = a
  take_one-All (some p) idx ts i r h a = elim (Bool-cases (p.open_time == ts)) [
    | inl same ↦ rw (same) (h, a)
    | inr other ↦ rw (other) a
  ]

  pub take_batch-All :
      (idx ts : ℕ) (ss : List (BacktestSeries F)) (is : List ℕ)
      → All (λ s. All IsEarly s.prices) ss
      → All (λ e. IsEarly e.price) (take_batch idx ts ss is).0
  unfolding take_batch
  take_batch-All idx ts [] is a = tt
  take_batch-All idx ts (s ∷ ss) [] a = tt
  take_batch-All idx ts (s ∷ ss) (i ∷ is) (h, a) =
      take_one-All (get_elem? s.prices i) idx ts i (take_batch (suc idx) ts ss is)
        (get_elem?-OptEarly s.prices i h) (take_batch-All (suc idx) ts ss is a)

  pub primary_candle-OptEarly :
      (primary : ℕ) (es : List (SeriesEvent F))
      → All (λ e. IsEarly e.price) es
      → OptEarly (primary_candle primary es)
  unfolding primary_candle
  primary_candle-OptEarly primary [] a = tt
  primary_candle-OptEarly primary (e ∷ es) (h, a) =
      if_either OptEarly (e.series_idx == primary) (some e.price) (primary_candle primary es) h
        (primary_candle-OptEarly primary es a)

-- ===== src/Backtest/Fetcher/Segments.antt =====
-- `fetch_segment` returns, and its candles are in order of time.
use hyperliquid_rust_bot.Prelude.{
  ℕ, ◌≡◌, refl, some, List, [], ltb, Bool-cases, inl, inr, Result, ok, err, arith,
}
use hyperliquid_rust_bot.Float.{Float}
use hyperliquid_rust_bot.Price.{Price}
use hyperliquid_rust_bot.TimeFrame.{TimeFrame, to_millis}
use hyperliquid_rust_bot.TimeFrame.Lengths.{to_millis_bounds}
use hyperliquid_rust_bot.Backtest.CandleStore.Insert.{IsIncreasing}
use hyperliquid_rust_bot.Backtest.Source.{DataSource, FetchError, IntervalPlan, interval_plan}
use hyperliquid_rust_bot.Backtest.Pages.{Exchanges, Outcome, Paging}
use hyperliquid_rust_bot.Backtest.Pages.Turns.{IsDated, collect_pages-returns}
use hyperliquid_rust_bot.Backtest.Aggregate.{tree_extend}
use hyperliquid_rust_bot.Backtest.Aggregate.Order.{IsIncreasing-tree_extend}
use hyperliquid_rust_bot.Backtest.Aggregate.Grouping.{aggregate_prices_lem}
use hyperliquid_rust_bot.Backtest.Fetcher.{
  Segment, in_segment, ordered_of, segment_of, fetch_segment,
}

module _ {F : Type 0} ⦃f : Float F⦄ where
  -- The candles of a segment, if it has any, are in order of time.
  abbrev pub IsOrdered : Result FetchError (List (Price F)) → Type 0
  IsOrdered (ok page) = IsIncreasing page
  IsOrdered (err e) = Unit

  ordered_of-IsIncreasing :
      (tf : TimeFrame) (plan : IntervalPlan) (start end : ℕ) (ps : List (Price F))
      → IsIncreasing (ordered_of tf plan start end ps)
  ordered_of-IsIncreasing tf plan start end ps =
      let sorted = tree_extend [] (in_segment start end ps) in
      let v = IsIncreasing-tree_extend [] (in_segment start end ps) tt in
      elim (Bool-cases (ltb 1 plan.group_size)) [
        | inl e ↦
            rw (e)
              (aggregate_prices_lem sorted (to_millis tf) (ground (arith, to_millis_bounds tf)) v).0
        | inr e ↦ rw (e) v
      ]

  segment_of-IsOrdered :
      (tf : TimeFrame) (plan : IntervalPlan) (start end : ℕ) (r : Outcome × Paging F)
      → IsOrdered (segment_of tf plan start end r).result
  segment_of-IsOrdered tf plan start end (err e, s) = tt
  segment_of-IsOrdered tf plan start end (ok _, s) = ordered_of-IsIncreasing tf plan start end s.out

  -- If the exchange's opening times lie below the greatest `u64`, `fetch_segment` returns, and the
  -- candles that it returns stand in order of time, no two at one time.
  pub fetch_segment_lem :
      (exchanges : Exchanges F) (source : DataSource) (tf : TimeFrame) (tick start end : ℕ)
      → IsDated exchanges
      → (g : Segment F) × (fetch_segment exchanges source tf tick start end ≡ some g)
        × IsOrdered g.result
  unfolding fetch_segment
  fetch_segment_lem exchanges source tf tick start end d = by_plan (interval_plan source tf) refl
    where
      by_plan :
          (p : Result FetchError IntervalPlan)
          → interval_plan source tf ≡ p
          → (g : Segment F) × (fetch_segment exchanges source tf tick start end ≡ some g)
            × IsOrdered g.result
      by_plan (err e) q =
          (record { result = err e; tick = tick; reported = [] }, rw (q, fetch_segment) refl, tt)
      by_plan (ok plan) q =
          let (r, c) = collect_pages-returns exchanges source plan tick start end d in
          (
            segment_of tf plan start end r,
            rw (q, fetch_segment, c) refl,
            segment_of-IsOrdered tf plan start end r,
          )

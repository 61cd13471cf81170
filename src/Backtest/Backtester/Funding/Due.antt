-- ===== src/Backtest/Backtester/Funding/Due.antt =====
-- src/backtest/backtester.rs: how often a candle pays funding, and when the next time is.
use hyperliquid_rust_bot.Prelude.{
  ℕ, zero, suc, ◌+◌, ◌-◌, ◌*◌, ◌≤◌, ◌<◌, ◌≡◌, ap, ◌∙◌, max, some, arith, Bool-cases, Option-cases,
  inl, inr, leb,
}
use hyperliquid_rust_bot.Prelude.Words.{u64_max, saturating_add}
use hyperliquid_rust_bot.Float.{Float}
use hyperliquid_rust_bot.Price.{Price}
use hyperliquid_rust_bot.Backtest.Backtester.State.{Backtester}
use hyperliquid_rust_bot.Backtest.Backtester.Funding.{
  funding_window_ms, fund_position, fund_until, funded, fund_from, apply_funding_if_due,
}

module _ {F I V K S : Type 0} ⦃f : Float F⦄ where
  -- The funding of `n` times at one price.
  unfoldable pub fund_times : ℕ → F → Backtester F I V K S → Backtester F I V K S
  fund_times zero open_px b = b
  fund_times (suc n) open_px b = fund_times n open_px (fund_position b.position open_px b)

  fund_until-fund_times :
      (fuel : ℕ) (candle : Price F) (next : ℕ) (b : Backtester F I V K S)
      → candle.open_time + funding_window_ms ≤ u64_max
      → suc candle.open_time - next < fuel
      → (n : ℕ) × (fund_until fuel candle next b
          ≡ some (next + n * funding_window_ms, fund_times n candle.open_px b))
        × (candle.open_time < next + n * funding_window_ms)
        × (next + n * funding_window_ms ≤ max next (candle.open_time + funding_window_ms))
  unfolding fund_until fund_times
  fund_until-fund_times zero candle next b small enough = ground arith
  fund_until-fund_times (suc fuel) candle next b small enough =
      elim (Bool-cases (leb next candle.open_time)) [
        | inl due ↦
            let step : saturating_add next funding_window_ms ≡ next + funding_window_ms =
              ground (arith, due, small) in
            let (n, e, after, before) =
              fund_until-fund_times fuel candle (next + funding_window_ms)
                (fund_position b.position candle.open_px b) small (ground (arith, due, enough)) in
            (
              suc n,
              ground (arith, e, due, step),
              ground (arith, after),
              ground (arith, before, due),
            )
        | inr not_due ↦ (0, ground (arith, not_due), ground (arith, not_due), ground arith)
      ]

  -- Where a funding time is set and the candle opens a window below the greatest `u64`,
  -- `apply_funding_if_due` returns: it funds the position some number of times, moves the funding time by
  -- as many windows of eight hours, to after the candle's opening time, and by no window more than that
  -- needs.
  pub apply_funding_if_due-fund_times :
      (candle : Price F) (b : Backtester F I V K S) (next : ℕ)
      → b.next_funding_time ≡ some next
      → candle.open_time + funding_window_ms ≤ u64_max
      → (n : ℕ) × (apply_funding_if_due candle b
          ≡ some (record (fund_times n candle.open_px b) {
            next_funding_time = some (next + n * funding_window_ms);
          }))
        × (candle.open_time < next + n * funding_window_ms)
        × (next + n * funding_window_ms ≤ max next (candle.open_time + funding_window_ms))
  unfolding apply_funding_if_due fund_from
  apply_funding_if_due-fund_times candle b next set small =
      let (n, e, after, before) =
        fund_until-fund_times (suc (suc candle.open_time)) candle next b small (omega arith) in
      (n, ap (λ x. fund_from x candle b) set ∙ ap (λ x. funded x) e, after, before)

  pub apply_funding_if_due-returns :
      (candle : Price F) (b : Backtester F I V K S)
      → candle.open_time + funding_window_ms ≤ u64_max
      → (b' : Backtester F I V K S) × (apply_funding_if_due candle b ≡ some b')
  unfolding apply_funding_if_due fund_from
  apply_funding_if_due-returns candle b small = elim (Option-cases b.next_funding_time) [
    | inl unset ↦ (b, ap (λ x. fund_from x candle b) unset)
    | inr (next, set) ↦
        let (n, e, h, g) = apply_funding_if_due-fund_times candle b next set small in (_, e)
  ]

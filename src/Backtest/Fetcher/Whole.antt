-- ===== src/Backtest/Fetcher/Whole.antt =====
-- What `fetch_with_progress` does on each of its ways.
use Prim.Native.String.{String}
use text.Mathlib.Text.{◌==◌ as str_eq}
use hyperliquid_rust_bot.Prelude.{
  ℕ, ◌≤◌, ◌<◌, ◌≡◌, refl, some, List, [], min, max, if◌then◌else◌, Bool-cases, inl, inr, Result, ok,
  err, arith, leb,
}
use hyperliquid_rust_bot.Prelude.Words.{u64_max}
use hyperliquid_rust_bot.Float.{Float}
use hyperliquid_rust_bot.Price.{Price}
use hyperliquid_rust_bot.TimeFrame.{TimeFrame, to_millis}
use hyperliquid_rust_bot.TimeFrame.Lengths.{to_millis_bounds}
use hyperliquid_rust_bot.Backtest.CandleStore.{lookup_range}
use hyperliquid_rust_bot.Backtest.CandleStore.Missing.{find_missing_lem}
use hyperliquid_rust_bot.Backtest.CandleStore.Insert.{IsIncreasing}
use hyperliquid_rust_bot.Backtest.Source.{DataSource, FetchError, invalid_range, outside_history}
use hyperliquid_rust_bot.Backtest.Ranges.{normalize_range, estimate_points_in_range}
use hyperliquid_rust_bot.Backtest.Fetcher.{Session, World, fetch_range, fetch_with_progress}
use hyperliquid_rust_bot.Backtest.Fetcher.Store.{IsSafe, IsFetched, fetch_looked_up_lem}

normalized_end : (start end interval : ℕ) → (normalize_range start end interval).1 ≤ u64_max
unfolding normalize_range
normalized_end start end interval = omega arith

positive : (tf : TimeFrame) → 0 < to_millis tf
positive tf = omega (arith, to_millis_bounds tf)

-- The range in whole intervals, cut at the present.
abbrev pub whole_range : TimeFrame → (now start end : ℕ) → ℕ × ℕ
whole_range tf now start end = normalize_range start (min end now) (to_millis tf)

module _ {F : Type 0} ⦃f : Float F⦄ where
  fetch_range_lem :
      (w : World F) (source : DataSource) (tf : TimeFrame) (range : ℕ × ℕ) (s : Session F)
      → range.1 ≤ u64_max
      → IsSafe w
      → IsIncreasing s.file
      → (r : Result FetchError (List (Price F)) × Session F) × (fetch_range w source tf range s
          ≡ some r)
        × IsFetched range s r
  unfolding fetch_range lookup_range
  fetch_range_lem w source tf (start, end) s bounded safe v =
      let (ms, count, e, x, _) =
        find_missing_lem s.file start end (to_millis tf) (positive tf) bounded in
      let total = max (estimate_points_in_range start end (to_millis tf)) 1 in
      let (r, q, h) = fetch_looked_up_lem w source tf start end total ms count s safe v in
      (r, rw (fetch_range, lookup_range, e) q, h)

  -- What a call of `fetch_with_progress` comes to.
  abbrev pub Answer :
      (asset : String)
      → TimeFrame
      → (now start end : ℕ) → Session F
      → Result FetchError (List (Price F)) × Session F
      → Type 0
  Answer asset tf now start end s r =
      if str_eq asset ""
      then r ≡ (ok [], s)
      else if leb end start
      then r ≡ (err invalid_range, s)
      else if leb (min end now) start
      then r ≡ (err outside_history, s)
      else IsFetched (whole_range tf now start end) s r

  -- Let the candles of the file stand in order of time, no two at one time; let the exchange's opening
  -- times lie below the greatest `u64`; and let no write lose the file. Then `fetch_with_progress`
  -- returns. For a blank asset it returns no candles, for an empty range and for one that begins in the
  -- future an error, and it does nothing else. Otherwise, on success as on error, the file is in order
  -- again and every candle that it had is in it; and on success the candles returned are those that the
  -- file then has in the range of whole intervals.
  pub fetch_with_progress_lem :
      (w : World F) (source : DataSource) (asset : String) (tf : TimeFrame) (now start end : ℕ)
      (s : Session F)
      → IsSafe w
      → IsIncreasing s.file
      → (r : Result FetchError (List (Price F)) × Session F) × (fetch_with_progress w source asset
            tf now start end s
          ≡ some r)
        × Answer asset tf now start end s r
  unfolding fetch_with_progress
  fetch_with_progress_lem w source asset tf now start end s safe v =
      let range = whole_range tf now start end in
      let (r, q, h) =
        fetch_range_lem w source tf range s (normalized_end start (min end now) (to_millis tf)) safe
          v in
      elim (Bool-cases (str_eq asset "")) [
        | inl blank ↦ ((ok [], s), rw (blank, fetch_with_progress) refl, rw (blank) refl)
        | inr a ↦ elim (Bool-cases (leb end start)) [
          | inl empty ↦
              ((err invalid_range, s), rw (a, fetch_with_progress, empty) refl, rw (a, empty) refl)
          | inr b ↦ elim (Bool-cases (leb (min end now) start)) [
            | inl future ↦ (
              (err outside_history, s),
              rw (a, fetch_with_progress, b, future) refl,
              rw (a, b, future) refl,
            )
            | inr c ↦ (r, rw (a, fetch_with_progress, b, c) q, rw (a, b, c) h)
          ]
        ]
      ]

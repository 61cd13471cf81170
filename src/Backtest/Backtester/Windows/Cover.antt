-- ===== src/Backtest/Backtester/Windows/Cover.antt =====
-- src/backtest/backtester.rs: the windows of a download follow each other and cover it.
use hyperliquid_rust_bot.Prelude.{
  ℕ, zero, suc, ◌+◌, ◌-◌, ◌≤◌, ◌<◌, ◌≡◌, refl, some, List, [], ◌∷◌, arith, Bool-cases, inl, inr,
  ltb,
}
use hyperliquid_rust_bot.Prelude.Words.{u64_max, saturating_add}
use hyperliquid_rust_bot.Backtest.Backtester.Windows.{
  FetchWindow, window_end, cut, build_fetch_windows,
}

-- Windows numbered from `idx` that start at `cursor`, follow each other, are not empty, have no more than
-- `span` and reach `end`.
unfoldable pub IsCut : (cursor end span idx : ℕ) → List FetchWindow → Type 0
IsCut cursor end span idx [] = end ≤ cursor
IsCut cursor end span idx (w ∷ ws) =
    (w.idx ≡ idx)
    × (w.start ≡ cursor)
    × (w.start < w.end)
    × (w.end ≤ end)
    × (w.end ≤ w.start + span)
    × IsCut w.end end span (suc idx) ws

window_end-bounds :
    (cursor end span : ℕ)
    → 0 < span
    → end ≤ u64_max
    → cursor < end
    → (cursor < window_end cursor end span)
      × (window_end cursor end span ≤ end)
      × (window_end cursor end span ≤ cursor + span)
unfolding window_end
window_end-bounds cursor end span some_span small more = ground (arith)

cut-IsCut :
    (fuel cursor end span idx : ℕ)
    → 0 < span
    → end ≤ u64_max
    → idx + (end - cursor) ≤ u64_max
    → end - cursor < fuel
    → (ws : List FetchWindow) × (cut fuel cursor end span idx ≡ some ws)
      × IsCut cursor end span idx ws
unfolding cut IsCut
cut-IsCut zero cursor end span idx some_span small fits enough = ground arith
cut-IsCut (suc fuel) cursor end span idx some_span small fits enough =
    elim (Bool-cases (ltb cursor end)) [
      | inl more ↦
          let (a, b, c) =
            window_end-bounds cursor end span some_span small (ground (arith, more)) in
          let next : saturating_add idx 1 ≡ suc idx = ground (arith, more, fits) in
          let (ws, e, h) =
            cut-IsCut fuel (window_end cursor end span) end span (suc idx) some_span small
              (ground (arith, a, b, fits)) (ground (arith, a, b, enough)) in
          (
            record { idx = idx; start = cursor; end = window_end cursor end span } ∷ ws,
            ground (arith, e, next),
            (refl, refl, a, b, c, h),
          )
      | inr over ↦ ([], ground arith, ground (arith, over))
    ]

-- For a positive span and an end in a `u64`, `build_fetch_windows` returns, with the windows numbered from
-- 0: the first starts at the start, each starts where the one before ended, none is empty or longer than
-- the span, and they stop at the end.
pub build_fetch_windows-IsCut :
    (fetch_start fetch_end span : ℕ)
    → 0 < span
    → fetch_end ≤ u64_max
    → (ws : List FetchWindow) × (build_fetch_windows fetch_start fetch_end span ≡ some ws)
      × IsCut fetch_start fetch_end span 0 ws
unfolding build_fetch_windows
build_fetch_windows-IsCut fetch_start fetch_end span some_span small =
    cut-IsCut (suc (fetch_end - fetch_start)) fetch_start fetch_end span 0 some_span small
      (omega (arith, small)) (omega arith)

-- ===== src/Backtest/Backtester/Windows.antt =====
-- src/backtest/backtester.rs: the windows that a download is cut into.
pub mod Cover
use hyperliquid_rust_bot.Prelude.{
  ℕ, zero, suc, ◌-◌, ◌||◌, Option, none, some, List, [], ◌∷◌, leb, ltb, if◌then◌else◌,
}
use hyperliquid_rust_bot.Prelude.Words.{saturating_add}

pub record FetchWindow : Type 0 where
  pub idx : ℕ
  pub start : ℕ
  pub end : ℕ

-- The end of the window that starts at `cursor`.
unfoldable pub window_end : (cursor fetch_end span : ℕ) → ℕ
window_end cursor fetch_end span =
    let end = saturating_add cursor span in
    if ltb fetch_end end || leb end cursor then fetch_end else end

abbrev pub push_window : FetchWindow → Option (List FetchWindow) → Option (List FetchWindow)
push_window w none = none
push_window w (some ws) = some (w ∷ ws)

-- `while cursor < fetch_end`; `none` if the fuel runs out.
unfoldable pub cut : (fuel cursor fetch_end span idx : ℕ) → Option (List FetchWindow)
unfolding window_end
cut zero cursor fetch_end span idx = none
cut (suc fuel) cursor fetch_end span idx =
    let end = window_end cursor fetch_end span in
    let rest = cut fuel end fetch_end span (saturating_add idx 1) in
    if ltb cursor fetch_end
    then push_window (record { idx = idx; start = cursor; end = end }) rest
    else some []

unfoldable pub build_fetch_windows :
    (fetch_start fetch_end window_span_ms : ℕ) → Option (List FetchWindow)
unfolding cut
build_fetch_windows fetch_start fetch_end span =
    cut (suc (fetch_end - fetch_start)) fetch_start fetch_end span 0

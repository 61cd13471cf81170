-- ===== src/TimeFrame/Tests.antt =====
-- The theorems on src/trade_setup.rs at concrete names.
use hyperliquid_rust_bot.Prelude.{◌≡◌, refl}
use hyperliquid_rust_bot.TimeFrame.{min15, as_str, from_str}
use hyperliquid_rust_bot.TimeFrame.Names.{as_str-from_str}

as_str-from_str_example : "15m" ≡ as_str min15
unfolding from_str
as_str-from_str_example = as_str-from_str "15m" min15 refl

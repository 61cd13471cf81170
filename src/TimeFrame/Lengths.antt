-- ===== src/TimeFrame/Lengths.antt =====
-- The lengths of the intervals.
use hyperliquid_rust_bot.Prelude.{◌≤◌, ◌≡◌, ◌%◌, arith}
use hyperliquid_rust_bot.TimeFrame.{TimeFrame, to_millis}

-- Every interval is a positive number of whole minutes, and at most 30 days.
pub to_millis_bounds :
    (tf : TimeFrame)
    → (60_000 ≤ to_millis tf) × (to_millis tf ≤ 2_592_000_000) × (to_millis tf % 60_000 ≡ 0)
unfolding to_millis
to_millis_bounds tf = ground arith

-- Two intervals of the same length are the same.
pub to_millis-injective : (a b : TimeFrame) → to_millis a ≡ to_millis b → a ≡ b
unfolding to_millis
to_millis-injective a b e = ground arith

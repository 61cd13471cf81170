-- ===== src/Price.antt =====
-- A candle: the `Price` of the indicator library, by the fields that the code reads. The fields
-- `open_px` and `close_px` are its `open` and `close`.
use hyperliquid_rust_bot.Prelude.{ℕ, List, map}

pub record Price (F : Type 0) : Type 0 where
  pub open_px : F
  pub high : F
  pub low : F
  pub close_px : F
  pub open_time : ℕ
  pub close_time : ℕ
  pub vlm : F

abbrev pub times : {F : Type 0} → List (Price F) → List ℕ
times = map (λ p. p.open_time)

-- ===== src/Helper.antt =====
-- src/helper.rs: rounding to decimals.
use hyperliquid_rust_bot.Prelude.{ℕ, min, if◌then◌else◌}
use hyperliquid_rust_bot.Float.{Float}

module _ {F : Type 0} ⦃f : Float F⦄ where
  -- A value that is not finite is passed through.
  unfoldable pub round_ndp : F → ℕ → F
  round_ndp value dp =
      let factor = f.powi (f.of_nat 10) (min dp 15) in
      if f.is_finite value then f.div (f.round (f.mul value factor)) factor else value

-- ===== src/Signal/Live/Candles.antt =====
-- The candles that staging gives to tick on, of the live candles received.
use hyperliquid_rust_bot.Prelude.{
  ℕ, ◌+◌, ◌-◌, ◌≤◌, ◌≡◌, refl, ap, true, false, Option, none, some, List, [], ◌∷◌, ◌==◌, ltb, leb,
  if◌then◌else◌, arith, Bool-cases, inl, inr,
}
use hyperliquid_rust_bot.Price.{Price}
use hyperliquid_rust_bot.Signal.Live.{stage, live_strategy_interval_ms}

module _ {F : Type 0} where
  abbrev pub tick_before : Option (Price F) → List (Price F) → List (Price F)
  tick_before none ticks = ticks
  tick_before (some p) ticks = p ∷ ticks

  -- The ticks on the candles received, from the candle kept.
  unfoldable pub ticks : Option (Price F) → List (Price F) → List (Price F)
  unfolding stage
  ticks kept [] = []
  ticks kept (p ∷ ps) = let (tick, kept') = stage kept p in tick_before tick (ticks kept' ps)

  -- Candles in order, each at most the interval of the strategy after the one before.
  abbrev pub InOrder : ℕ → List (Price F) → Type 0
  InOrder at [] = Unit {0}
  InOrder at (p ∷ ps) =
      (at ≤ p.close_time)
      × (p.close_time ≤ at + live_strategy_interval_ms)
      × InOrder p.close_time ps

  -- Of candles one after another, the last one of each closing time but that of the very last candle.
  abbrev pub closed_candles : Price F → List (Price F) → List (Price F)
  closed_candles k [] = []
  closed_candles k (p ∷ ps) =
      let rest = closed_candles p ps in if k.close_time == p.close_time then rest else k ∷ rest

  -- If candles come in order and without gaps, those to tick on are, for each closing time but the last,
  -- the last candle that came with it.
  pub ticks-closed_candles :
      (k : Price F) (ps : List (Price F))
      → InOrder k.close_time ps
      → ticks (some k) ps ≡ closed_candles k ps
  unfolding ticks stage
  ticks-closed_candles k [] h = refl
  ticks-closed_candles k (p ∷ ps) (lo, hi, rest) =
      elim (Bool-cases (k.close_time == p.close_time)) [
        | inl e ↦
            let e' : p.close_time == k.close_time ≡ true = ground arith in
            rw (e, e') (ticks-closed_candles p ps rest)
        | inr e ↦
            let e' : p.close_time == k.close_time ≡ false = ground arith in
            let l : ltb k.close_time p.close_time ≡ true = ground arith in
            let near : leb (p.close_time - k.close_time) live_strategy_interval_ms ≡ true =
              ground arith in
            rw (e, e', l, near) (ap (λ t. k ∷ t) (ticks-closed_candles p ps rest))
      ]

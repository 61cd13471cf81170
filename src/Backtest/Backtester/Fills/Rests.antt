-- ===== src/Backtest/Backtester/Fills/Rests.antt =====
-- src/backtest/backtester.rs: a fill leaves the resting orders that open a position as they are.
use hyperliquid_rust_bot.Prelude.{ℕ, ◌≤◌, ◌<◌, ◌≡◌, true, some, List, [], ◌∷◌, arith}
use hyperliquid_rust_bot.Prelude.Maps.{nat_eq, get, get-insert}
use hyperliquid_rust_bot.Prelude.Words.{u64_max}
use hyperliquid_rust_bot.Float.{Float}
use hyperliquid_rust_bot.Backtest.Backtester.State.{RestingOrder, Backtester}
use hyperliquid_rust_bot.Backtest.Backtester.Fills.Stable.{IsStable}
use hyperliquid_rust_bot.Backtest.Backtester.Positions.{is_resting_open, keep_opening, reconcile}
use hyperliquid_rust_bot.Backtest.Backtester.Fills.{rest_order}

module _ {F : Type 0} where
  get-keep_opening :
      (m : List (ℕ × RestingOrder F)) (id : ℕ) (r : RestingOrder F)
      → is_resting_open r.kind ≡ true
      → get m id ≡ some r
      → get (keep_opening m) id ≡ some r
  unfolding get keep_opening
  get-keep_opening [] id r opening e = ground arith
  get-keep_opening ((j, q) ∷ m) id r opening e = ground (arith, get-keep_opening m id r opening)

module _ {F : Type 0} ⦃f : Float F⦄ where
  get-reconcile :
      (size : F) (m : List (ℕ × RestingOrder F)) (id : ℕ) (r : RestingOrder F)
      → is_resting_open r.kind ≡ true
      → get m id ≡ some r
      → get (reconcile size m) id ≡ some r
  unfolding get reconcile
  get-reconcile size [] id r opening e = ground arith
  get-reconcile size ((j, q) ∷ m) id r opening e = ground (arith, get-reconcile size m id r opening)

module _ {F I V K S : Type 0} ⦃f : Float F⦄ (id : ℕ) (r : RestingOrder F) where
  -- The order rests under the id, which is taken.
  abbrev pub Rests : Backtester F I V K S → Type 0
  Rests b =
      (get b.resting_orders id ≡ some r) × (id < b.next_order_id) × (b.next_order_id ≤ u64_max)

  rest_order-Rests :
      (q : RestingOrder F) (b : Backtester F I V K S) → Rests b → Rests (rest_order q b)
  rest_order-Rests q b (e, taken, small) =
      (ground (arith, get-insert b.resting_orders b.next_order_id id q), ground arith, ground arith)

  pub Rests-IsStable : is_resting_open r.kind ≡ true → IsStable Rests
  Rests-IsStable opening = record {
    paid = λ balance p b h. h;
    traded = λ t b h. h;
    rested = rest_order-Rests;
    clamps = λ size b (e, taken, small).
        (get-reconcile size b.resting_orders id r opening e, taken, small);
    closes =
        λ b (e, taken, small). (get-keep_opening b.resting_orders id r opening e, taken, small);
  }

-- ===== src/Backtest/Backtester/Orders/LookAhead.antt =====
-- src/backtest/backtester.rs: an opening order that rests on a candle is filled by a later candle only.
use hyperliquid_rust_bot.Prelude.{
  ℕ, ◌≤◌, ◌<◌, ◌≡◌, ◌≢◌, ◌⊎◌, refl, ◌==◌, true, Option, none, some, List, [], ◌∷◌, arith,
  Bool-cases, if_either, inl, inr,
}
use hyperliquid_rust_bot.Prelude.Maps.{nat_eq, get, get-remove}
use hyperliquid_rust_bot.Prelude.Words.{u64_max}
use hyperliquid_rust_bot.Float.{Float}
use hyperliquid_rust_bot.Price.{Price}
use hyperliquid_rust_bot.Exec.Types.{FillType, Limit, EngineOrder}
use hyperliquid_rust_bot.Backtest.Backtester.State.{
  RestingKind, RestingOrder, Backtester, order_fill_type,
}
use hyperliquid_rust_bot.Backtest.Backtester.Positions.{is_resting_open}
use hyperliquid_rust_bot.Backtest.Backtester.Fills.Rests.{Rests, Rests-IsStable}
use hyperliquid_rust_bot.Backtest.Backtester.Orders.Kinds.{fill_kind-IsStable}
use hyperliquid_rust_bot.Backtest.Backtester.Orders.{
  ids_of, fill_kind, fill_hit, fill_limit, fill_resting, fill_ids, fill_resting_orders,
}

module _ {F I V K S : Type 0} ⦃f : Float F⦄ (id : ℕ) (r : RestingOrder F)
    (opening : is_resting_open r.kind ≡ true) where
  fill_kind-Rests :
      (kind : RestingKind F) (o : EngineOrder F) (px : F) (ts : ℕ) (t : FillType)
      (b : Backtester F I V K S)
      → Rests id r b
      → Rests id r (fill_kind kind o px ts t b).1
  fill_kind-Rests = fill_kind-IsStable (Rests id r) (Rests-IsStable id r opening)

  fill_hit-Rests :
      (j : ℕ) (q : RestingOrder F) (px : F) (candle : Price F) (b : Backtester F I V K S)
      → j ≢ id
      → Rests id r b
      → Rests id r (fill_hit j q px candle b).1
  unfolding fill_hit
  fill_hit-Rests j q px candle b other (e, taken, small) =
      fill_kind-Rests q.kind q.order px candle.open_time (order_fill_type q.order) _
        (ground (arith, get-remove b.resting_orders j id), taken, small)

  fill_limit-Rests :
      (l : Option (Limit F)) (j : ℕ) (q : RestingOrder F) (candle : Price F)
      (b : Backtester F I V K S)
      → (j ≢ id) ⊎ (candle.open_time ≤ q.placed_at)
      → Rests id r b
      → Rests id r (fill_limit l j q candle b).1
  unfolding fill_limit
  fill_limit-Rests none j q candle b other h = h
  fill_limit-Rests (some l) j q candle b (inl other) h =
      if_either (λ (x : ℕ × Backtester F I V K S). Rests id r x.1) _ _ _ h
        (fill_hit-Rests j q _ candle b other h)
  fill_limit-Rests (some l) j q candle b (inr late) h = ground (arith, h)

  fill_resting-Rests :
      (o : Option (RestingOrder F)) (j : ℕ) (candle : Price F) (b : Backtester F I V K S)
      → candle.open_time ≤ r.placed_at
      → get b.resting_orders j ≡ o
      → Rests id r b
      → Rests id r (fill_resting o j candle b).1
  unfolding fill_resting
  fill_resting-Rests none j candle b late e h = h
  fill_resting-Rests (some q) j candle b late e h =
      fill_limit-Rests q.order.limit j q candle b
        (elim (Bool-cases (j == id)) [
          | inl same ↦ inr (ground (arith, e, h.0, same, late))
          | inr other ↦ inl (ground (arith, other))
        ])
        h

  fill_ids-Rests :
      (ids : List ℕ) (candle : Price F) (b : Backtester F I V K S)
      → candle.open_time ≤ r.placed_at
      → Rests id r b
      → Rests id r (fill_ids ids candle b).1
  unfolding fill_ids
  fill_ids-Rests [] candle b late h = h
  fill_ids-Rests (j ∷ ids) candle b late h =
      fill_ids-Rests ids candle _ late (fill_resting-Rests _ j candle b late refl h)

  -- An order that opens a position and was placed at or after the candle's opening time rests on under its
  -- id when the candle has filled the resting orders, if the ids given so far are `u64`s below the next.
  pub fill_resting_orders-Rests :
      (candle : Price F) (b : Backtester F I V K S)
      → candle.open_time ≤ r.placed_at
      → get b.resting_orders id ≡ some r
      → id < b.next_order_id
      → b.next_order_id ≤ u64_max
      → get (fill_resting_orders candle b).1.resting_orders id ≡ some r
  unfolding fill_resting_orders
  fill_resting_orders-Rests candle b late e taken small =
      (fill_ids-Rests (ids_of b.resting_orders) candle b late (e, taken, small)).0

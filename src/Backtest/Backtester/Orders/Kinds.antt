-- ===== src/Backtest/Backtester/Orders/Kinds.antt =====
-- src/backtest/backtester.rs: the fills of a candle keep what no step of a fill breaks.
use hyperliquid_rust_bot.Prelude.{ℕ, Option, none, some, List, [], ◌∷◌, if_either}
use hyperliquid_rust_bot.Prelude.Maps.{nat_eq, remove}
use hyperliquid_rust_bot.Float.{Float}
use hyperliquid_rust_bot.Price.{Price}
use hyperliquid_rust_bot.Exec.Types.{FillType, Limit, EngineOrder}
use hyperliquid_rust_bot.Backtest.Backtester.State.{
  RestingKind, resting_open, resting_close, RestingOrder, Backtester, order_fill_type,
}
use hyperliquid_rust_bot.Backtest.Backtester.Fills.Stable.{
  IsStable, fill_close_at_px-IsStable, fill_open_at_px-IsStable, attach_some-IsStable,
}
use hyperliquid_rust_bot.Backtest.Backtester.Orders.{
  ids_of, fill_kind, fill_hit, fill_limit, fill_resting, fill_ids, fill_resting_orders,
}

module _ {F I V K S : Type 0} ⦃f : Float F⦄ (P : Backtester F I V K S → Type 0)
    (st : IsStable P) where
  pub fill_kind-IsStable :
      (kind : RestingKind F) (o : EngineOrder F) (px : F) (ts : ℕ) (t : FillType)
      (b : Backtester F I V K S)
      → P b
      → P (fill_kind kind o px ts t b).1
  unfolding fill_kind
  fill_kind-IsStable (resting_open triggers) o px ts t b h =
      attach_some-IsStable P st triggers o.size ts _ (fill_open_at_px-IsStable P st o px ts t b h)
  fill_kind-IsStable resting_close o px ts t b h =
      fill_close_at_px-IsStable P st (some o) px ts t b h

  -- A property of the state that also the removal of a resting order keeps.
  abbrev Removes : Type 0
  Removes =
      (id : ℕ) (b : Backtester F I V K S)
      → P b
      → P (record b { resting_orders = remove b.resting_orders id })

  fill_limit-IsStable :
      (l : Option (Limit F)) (j : ℕ) (q : RestingOrder F) (candle : Price F)
      (b : Backtester F I V K S)
      → Removes
      → P b
      → P (fill_limit l j q candle b).1
  unfolding fill_limit fill_hit
  fill_limit-IsStable none j q candle b rm h = h
  fill_limit-IsStable (some l) j q candle b rm h =
      if_either (λ (x : ℕ × Backtester F I V K S). P x.1) _ _ _ h
        (fill_kind-IsStable q.kind q.order _ candle.open_time (order_fill_type q.order) _
          (rm j b h))

  fill_resting-IsStable :
      (o : Option (RestingOrder F)) (j : ℕ) (candle : Price F) (b : Backtester F I V K S)
      → Removes
      → P b
      → P (fill_resting o j candle b).1
  unfolding fill_resting
  fill_resting-IsStable none j candle b rm h = h
  fill_resting-IsStable (some q) j candle b rm h =
      fill_limit-IsStable q.order.limit j q candle b rm h

  fill_ids-IsStable :
      (ids : List ℕ) (candle : Price F) (b : Backtester F I V K S)
      → Removes
      → P b
      → P (fill_ids ids candle b).1
  unfolding fill_ids
  fill_ids-IsStable [] candle b rm h = h
  fill_ids-IsStable (j ∷ ids) candle b rm h =
      fill_ids-IsStable ids candle _ rm (fill_resting-IsStable _ j candle b rm h)

  pub fill_resting_orders-IsStable :
      (candle : Price F) (b : Backtester F I V K S)
      → Removes
      → P b
      → P (fill_resting_orders candle b).1
  unfolding fill_resting_orders
  fill_resting_orders-IsStable candle b rm h =
      fill_ids-IsStable (ids_of b.resting_orders) candle b rm h

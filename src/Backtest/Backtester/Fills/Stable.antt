-- ===== src/Backtest/Backtester/Fills/Stable.antt =====
-- src/backtest/backtester.rs: a property that no step of a fill breaks holds after the fill.
use hyperliquid_rust_bot.Prelude.{ℕ, Option, none, some, [], ◌∷◌, ◌++◌, if_either}
use hyperliquid_rust_bot.Prelude.Maps.{nat_eq}
use hyperliquid_rust_bot.Float.{Float}
use hyperliquid_rust_bot.Exec.Types.{Side, FillType, EngineOrder, TradeInfo, TriggerKind, tp, sl}
use hyperliquid_rust_bot.Signal.Intent.{Triggers}
use hyperliquid_rust_bot.Backtest.Backtester.State.{
  PositionState, RestingOrder, Backtester, epsilon,
}
use hyperliquid_rust_bot.Backtest.Backtester.Positions.{
  keep_opening, reconcile, requested_size, opening_side,
}
use hyperliquid_rust_bot.Backtest.Backtester.Fills.{
  rest_order, fill_open_side, fill_open_at_px, fill_part, fill_close_of, fill_close_at_px,
  attach_trigger, attach_to, attach_triggers_after_open, attach_some,
}

-- What a fill does to the state, one step at a time.
pub record IsStable {F I V K S : Type 0} ⦃f : Float F⦄ (P : Backtester F I V K S → Type 0)
    : Type 0 where
  pub paid :
      (balance : F) (p : Option (PositionState F)) (b : Backtester F I V K S)
      → P b
      → P (record b { balance = balance; position = p })
  pub traded :
      (t : TradeInfo F) (b : Backtester F I V K S)
      → P b
      → P (record b { trades = b.trades ++ t ∷ [] })
  pub rested : (r : RestingOrder F) (b : Backtester F I V K S) → P b → P (rest_order r b)
  pub clamps :
      (size : F) (b : Backtester F I V K S)
      → P b
      → P (record b { resting_orders = reconcile size b.resting_orders })
  pub closes :
      (b : Backtester F I V K S)
      → P b
      → P (record b { resting_orders = keep_opening b.resting_orders })

module _ {F I V K S : Type 0} ⦃f : Float F⦄ (P : Backtester F I V K S → Type 0)
    (st : IsStable P) where
  fill_part-IsStable :
      (p : PositionState F) (size px : F) (ts : ℕ) (t : FillType) (b : Backtester F I V K S)
      → P b
      → P (fill_part p size px ts t b).1
  unfolding fill_part
  fill_part-IsStable p size px ts t b h =
      if_either (λ (x : Option (TradeInfo F) × Backtester F I V K S). P x.1) _ _ _
        (st.clamps _ _ (st.paid _ _ b h)) (st.closes _ (st.traded _ _ (st.paid _ _ b h)))

  fill_close_of-IsStable :
      (p : Option (PositionState F)) (o : Option (EngineOrder F)) (px : F) (ts : ℕ) (t : FillType)
      (b : Backtester F I V K S)
      → P b
      → P (fill_close_of p o px ts t b).1
  unfolding fill_close_of
  fill_close_of-IsStable none o px ts t b h = h
  fill_close_of-IsStable (some p) o px ts t b h =
      let size = f.fmax (f.fmin (requested_size o p) p.size) (f.of_nat 0) in
      if_either (λ (x : Option (TradeInfo F) × Backtester F I V K S). P x.1) (f.le size epsilon) _ _
        h (fill_part-IsStable p size px ts t b h)

  pub fill_close_at_px-IsStable :
      (o : Option (EngineOrder F)) (px : F) (ts : ℕ) (t : FillType) (b : Backtester F I V K S)
      → P b
      → P (fill_close_at_px o px ts t b).1
  unfolding fill_close_at_px
  fill_close_at_px-IsStable o px ts t b h = fill_close_of-IsStable b.position o px ts t b h

  fill_open_side-IsStable :
      (side : Option Side) (size px : F) (ts : ℕ) (t : FillType) (b : Backtester F I V K S)
      → P b
      → P (fill_open_side side size px ts t b)
  unfolding fill_open_side
  fill_open_side-IsStable none size px ts t b h = h
  fill_open_side-IsStable (some side) size px ts t b h =
      if_either P (f.le size epsilon) _ _ h (st.paid _ _ b h)

  pub fill_open_at_px-IsStable :
      (o : EngineOrder F) (px : F) (ts : ℕ) (t : FillType) (b : Backtester F I V K S)
      → P b
      → P (fill_open_at_px o px ts t b)
  unfolding fill_open_at_px
  fill_open_at_px-IsStable o px ts t b h =
      fill_open_side-IsStable (opening_side o.action) (f.fmax o.size (f.of_nat 0)) px ts t b h

  attach_trigger-IsStable :
      (kind : TriggerKind) (delta : Option F) (p : PositionState F) (size : F) (ts : ℕ)
      (b : Backtester F I V K S)
      → P b
      → P (attach_trigger kind delta p size ts b)
  unfolding attach_trigger
  attach_trigger-IsStable kind none p size ts b h = h
  attach_trigger-IsStable kind (some d) p size ts b h = st.rested _ b h

  attach_to-IsStable :
      (p : Option (PositionState F)) (t : Triggers F) (size : F) (ts : ℕ) (b : Backtester F I V K S)
      → P b
      → P (attach_to p t size ts b)
  unfolding attach_to
  attach_to-IsStable none t size ts b h = h
  attach_to-IsStable (some p) t size ts b h =
      attach_trigger-IsStable sl t.sl p size ts _ (attach_trigger-IsStable tp t.tp p size ts b h)

  pub attach_some-IsStable :
      (t : Option (Triggers F)) (size : F) (ts : ℕ) (b : Backtester F I V K S)
      → P b
      → P (attach_some t size ts b)
  unfolding attach_some attach_triggers_after_open
  attach_some-IsStable none size ts b h = h
  attach_some-IsStable (some t) size ts b h = attach_to-IsStable b.position t size ts b h

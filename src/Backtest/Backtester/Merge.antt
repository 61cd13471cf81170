-- ===== src/Backtest/Backtester/Merge.antt =====
-- src/backtest/backtester.rs: the candles of all series, merged in the order of their opening times. The
-- indices are those of the next candles; a series without one, where Rust would panic, has no candle.
pub mod Steps
pub mod Counts
pub mod Order
use Prim.Native.Nat.{Ordering}
use Prim.Native.String.{String, compare}
use hyperliquid_rust_bot.Prelude.{
  ℕ, zero, suc, min, ◌==◌, Bool, true, false, Option, none, some, List, [], ◌∷◌, get_elem?,
  if◌then◌else◌,
}
use hyperliquid_rust_bot.Price.{Price}
use hyperliquid_rust_bot.TimeFrame.{TimeFrame, as_str}

pub record BacktestSeries (F : Type 0) : Type 0 where
  pub asset : String
  pub tf : TimeFrame
  pub prices : List (Price F)
  pub first_sim_idx : ℕ

pub record SeriesEvent (F : Type 0) : Type 0 where
  pub series_idx : ℕ
  pub price : Price F

abbrev pub least : Option ℕ → Option ℕ → Option ℕ
least none o = o
least (some a) none = some a
least (some a) (some b) = some (min a b)

abbrev pub is_not_gt : Ordering → Bool
is_not_gt Ordering.gt = false
is_not_gt _ = true

-- `Ordering::then_with`.
abbrev pub then_with : Ordering → Ordering → Ordering
then_with Ordering.eq o = o
then_with Ordering.lt o = Ordering.lt
then_with Ordering.gt o = Ordering.gt

module _ {F : Type 0} where
  abbrev pub time_of : Option (Price F) → Option ℕ
  time_of none = none
  time_of (some p) = some p.open_time

  -- The least opening time of the next candles.
  unfoldable pub next_time : List (BacktestSeries F) → List ℕ → Option ℕ
  next_time [] is = none
  next_time (s ∷ ss) [] = none
  next_time (s ∷ ss) (i ∷ is) = least (time_of (get_elem? s.prices i)) (next_time ss is)

  abbrev pub take_one :
      Option (Price F)
      → (idx ts i : ℕ) → List (SeriesEvent F) × List ℕ
      → List (SeriesEvent F) × List ℕ
  take_one none idx ts i (batch, is) = (batch, i ∷ is)
  take_one (some p) idx ts i (batch, is) =
      if p.open_time == ts
      then (record { series_idx = idx; price = p } ∷ batch, suc i ∷ is)
      else (batch, i ∷ is)

  -- The events at a time, of the series from `idx` on, and the indices after them.
  unfoldable pub take_batch :
      (idx ts : ℕ) → List (BacktestSeries F) → List ℕ → List (SeriesEvent F) × List ℕ
  take_batch idx ts [] is = ([], is)
  take_batch idx ts (s ∷ ss) [] = ([], [])
  take_batch idx ts (s ∷ ss) (i ∷ is) =
      take_one (get_elem? s.prices i) idx ts i (take_batch (suc idx) ts ss is)

  abbrev pub key_order : Option (BacktestSeries F) → Option (BacktestSeries F) → Ordering
  unfolding as_str
  key_order (some a) (some b) =
      then_with (compare a.asset b.asset) (compare (as_str a.tf) (as_str b.tf))
  key_order none _ = Ordering.eq
  key_order (some a) none = Ordering.eq

  unfoldable pub event_le : List (BacktestSeries F) → SeriesEvent F → SeriesEvent F → Bool
  unfolding key_order
  event_le ss a b = is_not_gt (key_order (get_elem? ss a.series_idx) (get_elem? ss b.series_idx))

  unfoldable pub insert_event :
      List (BacktestSeries F) → SeriesEvent F → List (SeriesEvent F) → List (SeriesEvent F)
  unfolding event_le
  insert_event ss e [] = e ∷ []
  insert_event ss e (d ∷ ds) =
      let rest = insert_event ss e ds in if event_le ss e d then e ∷ d ∷ ds else d ∷ rest

  -- The stable sort of a batch.
  unfoldable pub sort_batch : List (BacktestSeries F) → List (SeriesEvent F) → List (SeriesEvent F)
  unfolding insert_event
  sort_batch ss [] = []
  sort_batch ss (e ∷ es) = insert_event ss e (sort_batch ss es)

  unfoldable pub batch_at :
      Option ℕ → List (BacktestSeries F) → List ℕ → Option (List (SeriesEvent F) × List ℕ)
  unfolding take_batch sort_batch
  batch_at none ss is = none
  batch_at (some ts) ss is =
      let (batch, is') = take_batch 0 ts ss is in some (sort_batch ss batch, is')

  unfoldable pub next_event_batch :
      List (BacktestSeries F) → List ℕ → Option (List (SeriesEvent F) × List ℕ)
  unfolding next_time batch_at
  next_event_batch ss is = batch_at (next_time ss is) ss is

  abbrev pub push_batch :
      List (SeriesEvent F)
      → Option (List (List (SeriesEvent F)))
      → Option (List (List (SeriesEvent F)))
  push_batch b none = none
  push_batch b (some bs) = some (b ∷ bs)

  -- `while let Some(batch) = next_event_batch(..)`, without its body: the batches in their order. `none` if
  -- the fuel runs out.
  unfoldable pub batches :
      (fuel : ℕ) → List (BacktestSeries F) → List ℕ → Option (List (List (SeriesEvent F)))
  unfolding next_event_batch
  batches zero ss is = none
  batches (suc fuel) ss is = elim (next_event_batch ss is) [
    | none ↦ some []
    | some (b, is') ↦ push_batch b (batches fuel ss is')
  ]

  abbrev pub first_indices : List (BacktestSeries F) → List ℕ
  first_indices [] = []
  first_indices (s ∷ ss) = s.first_sim_idx ∷ first_indices ss

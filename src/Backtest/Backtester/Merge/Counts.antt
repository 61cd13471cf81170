-- ===== src/Backtest/Backtester/Merge/Counts.antt =====
-- src/backtest/backtester.rs: how many candles are still to come.
use hyperliquid_rust_bot.Prelude.{
  ℕ, suc, ◌+◌, ◌-◌, ◌≤◌, ◌<◌, ◌≡◌, refl, inl, inr, none, some, Option-cases, List, [], ◌∷◌, length,
  get_elem?, arith,
}
use hyperliquid_rust_bot.Price.{Price}
use hyperliquid_rust_bot.Backtest.Backtester.Merge.{
  BacktestSeries, SeriesEvent, time_of, next_time, take_one, take_batch, insert_event, sort_batch,
}
use hyperliquid_rust_bot.Backtest.Backtester.Merge.Steps.{
  least-none, least_either, moved, left, get_elem?-bound, moved-left, moved-left_less,
  take_batch-moved, get_elem?-none,
}

module _ {F : Type 0} where
  pub left-take_batch :
      (idx ts : ℕ) (ss : List (BacktestSeries F)) (is : List ℕ)
      → left ss (take_batch idx ts ss is).1 ≤ left ss is
  unfolding take_batch
  left-take_batch idx ts [] is = omega arith
  left-take_batch idx ts (s ∷ ss) [] = omega arith
  left-take_batch idx ts (s ∷ ss) (i ∷ is) =
      rw (take_batch-moved idx ts i s ss is)
        (omega (arith, moved-left s.prices ts i, left-take_batch (suc idx) ts ss is))

  pub left-take_batch_less :
      (idx ts : ℕ) (ss : List (BacktestSeries F)) (is : List ℕ)
      → next_time ss is ≡ some ts
      → left ss (take_batch idx ts ss is).1 < left ss is
  unfolding next_time
  left-take_batch_less idx ts [] is e = ground arith
  left-take_batch_less idx ts (s ∷ ss) [] e = ground arith
  left-take_batch_less idx ts (s ∷ ss) (i ∷ is) e =
      rw (take_batch-moved idx ts i s ss is)
        (elim (least_either (time_of (get_elem? s.prices i)) (next_time ss is) ts e) [
          | inl here ↦
              omega (arith, moved-left_less s.prices ts i here, left-take_batch (suc idx) ts ss is)
          | inr there ↦
              omega (arith, moved-left s.prices ts i, left-take_batch_less (suc idx) ts ss is there)
        ])

  -- The number of events in some batches.
  abbrev pub events_of : List (List (SeriesEvent F)) → ℕ
  events_of [] = 0
  events_of (b ∷ bs) = length b + events_of bs

  pub length-take_one :
      (ps : List (Price F)) (idx ts i : ℕ) (r : List (SeriesEvent F) × List ℕ)
      → length (take_one (get_elem? ps i) idx ts i r).0 + (length ps - moved (get_elem? ps i) ts i)
        ≡ length r.0 + (length ps - i)
  length-take_one ps idx ts i r = elim (Option-cases (get_elem? ps i)) [
    | inl e ↦ ground (arith, e)
    | inr (p, e) ↦ ground (arith, e, get_elem?-bound ps i p e)
  ]

  pub length-take_batch :
      (idx ts : ℕ) (ss : List (BacktestSeries F)) (is : List ℕ)
      → length (take_batch idx ts ss is).0 + left ss (take_batch idx ts ss is).1 ≡ left ss is
  unfolding take_batch
  length-take_batch idx ts [] is = refl
  length-take_batch idx ts (s ∷ ss) [] = refl
  length-take_batch idx ts (s ∷ ss) (i ∷ is) = rw (take_batch-moved idx ts i s ss is) (
      omega (
        arith,
        length-take_one s.prices idx ts i (take_batch (suc idx) ts ss is),
        length-take_batch (suc idx) ts ss is,
      ))

  pub length-insert_event :
      (ss : List (BacktestSeries F)) (e : SeriesEvent F) (es : List (SeriesEvent F))
      → length (insert_event ss e es) ≡ suc (length es)
  unfolding insert_event
  length-insert_event ss e [] = refl
  length-insert_event ss e (d ∷ es) = ground (arith, length-insert_event ss e es)

  pub length-sort_batch :
      (ss : List (BacktestSeries F)) (es : List (SeriesEvent F))
      → length (sort_batch ss es) ≡ length es
  unfolding sort_batch
  length-sort_batch ss [] = refl
  length-sort_batch ss (e ∷ es) =
      omega (arith, length-insert_event ss e (sort_batch ss es), length-sort_batch ss es)

  pub left_after :
      (ts : ℕ) (ss : List (BacktestSeries F)) (is : List ℕ) (n : ℕ)
      → n ≡ left ss (take_batch 0 ts ss is).1
      → length (sort_batch ss (take_batch 0 ts ss is).0) + n ≡ left ss is
  left_after ts ss is n h =
      omega (arith, h, length-sort_batch ss (take_batch 0 ts ss is).0, length-take_batch 0 ts ss is)

  pub left-none :
      (ss : List (BacktestSeries F)) (is : List ℕ) → next_time ss is ≡ none → left ss is ≡ 0
  unfolding next_time
  left-none [] is e = refl
  left-none (s ∷ ss) [] e = refl
  left-none (s ∷ ss) (i ∷ is) e =
      let (a, b) = least-none (time_of (get_elem? s.prices i)) (next_time ss is) e in
      omega (arith, get_elem?-none s.prices i a, left-none ss is b)

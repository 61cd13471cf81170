-- ===== src/Backtest/Backtester/Merge/Order.antt =====
-- src/backtest/backtester.rs: the merge reaches the end of all series, in the order of time.
use hyperliquid_rust_bot.Prelude.{
  ℕ, zero, suc, ◌≤◌, ◌<◌, ◌≡◌, refl, ap, sym, subst, ◌==◌, Bool-cases, inl, inr, Option, none, some,
  Option-cases, List, [], ◌∷◌, All, get_elem?, arith, if_either,
}
use hyperliquid_rust_bot.Price.{Price}
use hyperliquid_rust_bot.Backtest.Backtester.Merge.{
  BacktestSeries, SeriesEvent, time_of, next_time, take_one, take_batch, event_le, insert_event,
  sort_batch, batch_at, next_event_batch, push_batch, batches,
}
use hyperliquid_rust_bot.Backtest.Backtester.Merge.Steps.{
  IsFrom, least-IsFrom, IsFrom-least, IsFrom-0, left, AreIncreasing, moved-IsFrom, take_batch-moved,
}
use hyperliquid_rust_bot.Backtest.Backtester.Merge.Counts.{
  left-take_batch_less, events_of, left_after, left-none,
}

module _ {F : Type 0} where
  abbrev pub At : ℕ → SeriesEvent F → Type 0
  At ts e = e.price.open_time ≡ ts

  -- Batches that each lie at one time, the first not before `t`, each after the one before.
  abbrev pub IsChronological : ℕ → List (List (SeriesEvent F)) → Type 0
  IsChronological t [] = Unit
  IsChronological t (b ∷ bs) = (ts : ℕ) × (t ≤ ts) × All (At ts) b × IsChronological (suc ts) bs

  next_time-take_batch :
      (idx ts : ℕ) (ss : List (BacktestSeries F)) (is : List ℕ)
      → AreIncreasing ss
      → IsFrom ts (next_time ss is)
      → IsFrom (suc ts) (next_time ss (take_batch idx ts ss is).1)
  unfolding next_time take_batch
  next_time-take_batch idx ts [] is inc h = tt
  next_time-take_batch idx ts (s ∷ ss) [] inc h = tt
  next_time-take_batch idx ts (s ∷ ss) (i ∷ is) (inc, incs) h =
      let (a, b) = IsFrom-least ts (time_of (get_elem? s.prices i)) (next_time ss is) h in
      rw (take_batch-moved idx ts i s ss is) (
        least-IsFrom (suc ts) _ _ (moved-IsFrom s.prices ts i inc a)
          (next_time-take_batch (suc idx) ts ss is incs b))

  take_one-At :
      (o : Option (Price F)) (idx ts i : ℕ) (r : List (SeriesEvent F) × List ℕ)
      → All (At ts) r.0
      → All (At ts) (take_one o idx ts i r).0
  take_one-At none idx ts i r a = a
  take_one-At (some p) idx ts i r a = elim (Bool-cases (p.open_time == ts)) [
    | inl same ↦ rw (same) (ground arith, a)
    | inr other ↦ rw (other) a
  ]

  take_batch-At :
      (idx ts : ℕ) (ss : List (BacktestSeries F)) (is : List ℕ)
      → All (At ts) (take_batch idx ts ss is).0
  unfolding take_batch
  take_batch-At idx ts [] is = tt
  take_batch-At idx ts (s ∷ ss) [] = tt
  take_batch-At idx ts (s ∷ ss) (i ∷ is) =
      take_one-At (get_elem? s.prices i) idx ts i (take_batch (suc idx) ts ss is)
        (take_batch-At (suc idx) ts ss is)

  insert_event-All :
      (P : SeriesEvent F → Type 0) (ss : List (BacktestSeries F)) (e : SeriesEvent F)
      (es : List (SeriesEvent F))
      → P e
      → All P es
      → All P (insert_event ss e es)
  unfolding insert_event
  insert_event-All P ss e [] h a = (h, tt)
  insert_event-All P ss e (d ∷ es) h (g, a) =
      if_either (All P) (event_le ss e d) _ _ (h, (g, a)) (g, insert_event-All P ss e es h a)

  pub sort_batch-All :
      (P : SeriesEvent F → Type 0) (ss : List (BacktestSeries F)) (es : List (SeriesEvent F))
      → All P es
      → All P (sort_batch ss es)
  unfolding sort_batch
  sort_batch-All P ss [] a = tt
  sort_batch-All P ss (e ∷ es) (h, a) =
      insert_event-All P ss e (sort_batch ss es) h (sort_batch-All P ss es a)

  batches-IsChronological :
      (fuel t : ℕ) (ss : List (BacktestSeries F)) (is : List ℕ)
      → AreIncreasing ss
      → IsFrom t (next_time ss is)
      → left ss is < fuel
      → (bs : List (List (SeriesEvent F))) × (batches fuel ss is ≡ some bs)
        × IsChronological t bs
        × (events_of bs ≡ left ss is)
  unfolding batches next_event_batch batch_at
  batches-IsChronological zero t ss is inc h enough = ground arith
  batches-IsChronological (suc fuel) t ss is inc h enough = elim (Option-cases (next_time ss is)) [
    | inl e ↦ ([], rw (e, batches) refl, tt, sym (left-none ss is e))
    | inr (ts, e) ↦
        let r = take_batch 0 ts ss is in
        let (bs, q, c, n) =
          batches-IsChronological fuel (suc ts) ss r.1 inc
            (next_time-take_batch 0 ts ss is inc (rw (e) (omega arith)))
            (omega (arith, left-take_batch_less 0 ts ss is e, enough)) in
        (
          sort_batch ss r.0 ∷ bs,
          rw (e, batches) (ap (λ x. push_batch (sort_batch ss r.0) x) q),
          (
            ts,
            subst (λ o. IsFrom t o) e h,
            sort_batch-All (At ts) ss r.0 (take_batch-At 0 ts ss is),
            c,
          ),
          left_after ts ss is (events_of bs) n,
        )
  ]

  -- If every series is in order of time, the merge of them from any indices returns: the batches lie at
  -- one time each, at a later time than the batch before, and have as many events as there were candles to
  -- come.
  pub batches_lem :
      (ss : List (BacktestSeries F)) (is : List ℕ)
      → AreIncreasing ss
      → (bs : List (List (SeriesEvent F))) × (batches (suc (left ss is)) ss is ≡ some bs)
        × IsChronological 0 bs
        × (events_of bs ≡ left ss is)
  batches_lem ss is inc =
      batches-IsChronological (suc (left ss is)) 0 ss is inc (IsFrom-0 (next_time ss is))
        (omega arith)

-- ===== src/Backtest/Fetcher.antt =====
-- src/backtest/fetcher.rs: `fetch_segment` and `fetch_with_progress`. The answers of the exchange, the
-- clock and the outcome of each write of the candle file are parameters. The asset is its text after
-- `trim` and `to_uppercase`, and the file is the one that the fetcher finds when it holds the key's lock.
pub mod Segments
pub mod Store
pub mod Whole
use Prim.Native.String.{String}
use text.Mathlib.Text.{◌==◌ as str_eq}
use hyperliquid_rust_bot.Prelude.{
  ℕ, suc, ◌&&◌, Option, none, some, List, [], ◌∷◌, ◌++◌, map, min, max, ltb, leb, if◌then◌else◌,
  length, retain, Result, ok, err,
}
use hyperliquid_rust_bot.Prelude.Words.{saturating_add}
use hyperliquid_rust_bot.Float.{Float}
use hyperliquid_rust_bot.Price.{Price}
use hyperliquid_rust_bot.TimeFrame.{TimeFrame, to_millis}
use hyperliquid_rust_bot.Backtest.CandleStore.{
  Written, MissingSegment, CacheLookup, range_to_vec, count_range, lookup_range, insert_many,
}
use hyperliquid_rust_bot.Backtest.Source.{
  DataSource, FetchError, invalid_range, outside_history, IntervalPlan, interval_plan,
}
use hyperliquid_rust_bot.Backtest.Ranges.{normalize_range, estimate_points_in_range}
use hyperliquid_rust_bot.Backtest.Pages.{Exchanges, Outcome, Paging, collect_pages}
use hyperliquid_rust_bot.Backtest.Aggregate.{tree_extend, aggregate_prices}

-- What `fetch_segment` returns, with the number of requests made so far and the reported progress.
pub record Segment (F : Type 0) : Type 0 where
  pub result : Result FetchError (List (Price F))
  pub tick : ℕ
  pub reported : List ℕ

abbrev pub in_segment : {F : Type 0} → (start end : ℕ) → List (Price F) → List (Price F)
in_segment start end = retain (λ p. ltb start p.close_time && ltb p.open_time end)

-- The variables of `fetch_with_progress`: the candle file, the requests and the writes made so far, the
-- candles loaded, and what the caller and the waiting tasks were told.
pub record Session (F : Type 0) : Type 0 where
  pub file : List (Price F)
  pub tick : ℕ
  pub writes : ℕ
  pub loaded : ℕ
  pub progress : List (ℕ × ℕ)
  pub sent : List (ℕ × ℕ)

-- What surrounds a fetch: the answers, and the outcome of each write.
pub record World (F : Type 0) : Type 0 where
  pub exchanges : Exchanges F
  pub write_outcome : ℕ → Written F

module _ {F : Type 0} where
  abbrev pub on_progress : (loaded total : ℕ) → Session F → Session F
  on_progress loaded total s = record s { progress = s.progress ++ (loaded, total) ∷ [] }

  abbrev pub send_progress : (loaded total : ℕ) → Session F → Session F
  send_progress loaded total s = record s { sent = s.sent ++ (loaded, total) ∷ [] }

  abbrev pub both_progress : (loaded total : ℕ) → Session F → Session F
  both_progress loaded total s = send_progress loaded total (on_progress loaded total s)

  -- The callback of a segment, for each of its reports.
  unfoldable pub report_segment :
      (base_loaded segment_total total : ℕ) → List ℕ → Session F → Session F
  report_segment base segment_total total [] s = s
  report_segment base segment_total total (l ∷ ls) s =
      let progress = min (saturating_add base (min l segment_total)) total in
      report_segment base segment_total total ls (both_progress progress total s)

module _ {F : Type 0} ⦃f : Float F⦄ where
  abbrev pub ordered_of :
      TimeFrame → IntervalPlan → (start end : ℕ) → List (Price F) → List (Price F)
  ordered_of tf plan start end collected =
      let ordered = tree_extend [] (in_segment start end collected) in
      let grouped = aggregate_prices ordered (to_millis tf) in
      if ltb 1 plan.group_size then grouped else ordered

  abbrev pub segment_of :
      TimeFrame → IntervalPlan → (start end : ℕ) → Outcome × Paging F → Segment F
  segment_of tf plan start end (err e, s) = record {
    result = err e;
    tick = s.tick;
    reported = s.reported;
  }
  segment_of tf plan start end (ok _, s) = record {
    result = ok (ordered_of tf plan start end s.out);
    tick = s.tick;
    reported = s.reported;
  }

  -- `none` if the paging runs out of fuel.
  unfoldable pub fetch_segment :
      Exchanges F → DataSource → TimeFrame → (tick start end : ℕ) → Option (Segment F)
  unfolding collect_pages interval_plan tree_extend aggregate_prices
  fetch_segment exchanges source tf tick start end = elim (interval_plan source tf) [
    | err e ↦ some (record { result = err e; tick = tick; reported = [] })
    | ok plan ↦ elim (collect_pages exchanges source plan tick start end) [
      | none ↦ none
      | some r ↦ some (segment_of tf plan start end r)
    ]
  ]

  -- A segment's candles go to the file, and the candles of the whole range are counted again.
  unfoldable pub store_segment :
      World F → (start end total : ℕ) → List (Price F) → Session F → Session F
  unfolding insert_many count_range
  store_segment w start end total page s =
      let file = insert_many (w.write_outcome s.writes) s.file page in
      let loaded = count_range file start end in
      both_progress (min loaded total) total
        (record s { file = file; writes = suc s.writes; loaded = loaded })

  abbrev pub reported_segment : (segment_total total : ℕ) → Segment F → Session F → Session F
  reported_segment segment_total total g s =
      report_segment s.loaded segment_total total g.reported (record s { tick = g.tick })

  -- The loop over the missing segments, which ends at the first error.
  unfoldable pub fetch_missing :
      World F
      → DataSource
      → TimeFrame
      → (start end total : ℕ) → List MissingSegment
      → Session F
      → Option (Outcome × Session F)
  unfolding fetch_segment report_segment store_segment estimate_points_in_range
  fetch_missing w source tf start end total [] s = some (ok tt, s)
  fetch_missing w source tf start end total (m ∷ ms) s =
      elim (fetch_segment w.exchanges source tf s.tick m.start m.end) [
        | none ↦ none
        | some g ↦
            let t =
              reported_segment (estimate_points_in_range m.start m.end (to_millis tf)) total g s in
            elim g.result [
              | err e ↦ some (err e, t)
              | ok page ↦
                  fetch_missing w source tf start end total ms
                    (store_segment w start end total page t)
            ]
      ]

  -- The end of a fetch whose segments are all there.
  abbrev pub finished :
      (start end total : ℕ) → Outcome × Session F → Result FetchError (List (Price F)) × Session F
  finished start end total (err e, s) = (err e, s)
  finished start end total (ok _, s) =
      let out = range_to_vec s.file start end in
      (ok out, on_progress (length out) (max total (length out)) s)

  -- The candles are all in the file, or the missing segments are fetched.
  unfoldable pub fetch_looked_up :
      World F
      → DataSource
      → TimeFrame
      → (start end total : ℕ) → CacheLookup F
      → Session F
      → Option (Result FetchError (List (Price F)) × Session F)
  unfolding fetch_missing range_to_vec
  fetch_looked_up w source tf start end total lookup s =
      let s1 = on_progress lookup.cached_in_range total s in
      elim lookup.cached [
        | some values ↦ some (ok values, on_progress (length values) (max total (length values)) s1)
        | none ↦
            elim (fetch_missing w source tf start end total lookup.missing
              (record s1 { loaded = min lookup.cached_in_range total })) [
                | none ↦ none
                | some r ↦ some (finished start end total r)
              ]
      ]

  unfoldable pub fetch_range :
      World F
      → DataSource
      → TimeFrame
      → (range : ℕ × ℕ) → Session F
      → Option (Result FetchError (List (Price F)) × Session F)
  unfolding lookup_range fetch_looked_up estimate_points_in_range
  fetch_range w source tf (start, end) s =
      let interval = to_millis tf in
      let total = max (estimate_points_in_range start end interval) 1 in
      elim (lookup_range s.file start end interval) [
        | none ↦ none
        | some lookup ↦ fetch_looked_up w source tf start end total lookup s
      ]

  unfoldable pub fetch_with_progress :
      World F
      → DataSource
      → (asset : String) → TimeFrame
      → (now start end : ℕ) → Session F
      → Option (Result FetchError (List (Price F)) × Session F)
  unfolding fetch_range normalize_range
  fetch_with_progress w source asset tf now start end s =
      let until = min end now in
      if str_eq asset ""
      then some (ok [], s)
      else if leb end start
      then some (err invalid_range, s)
      else if leb until start
      then some (err outside_history, s)
      else fetch_range w source tf (normalize_range start until (to_millis tf)) s

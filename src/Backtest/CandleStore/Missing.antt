-- ===== src/Backtest/CandleStore/Missing.antt =====
-- `find_missing` reports just the expected timestamps that the file has not.
use native.Mathlib.Nat.{le_refl}
use hyperliquid_rust_bot.Prelude.{
  ◌↔◌, ◌⊎◌, ℕ, suc, ◌+◌, Bool, any, Bool-cases, inl, inr, ◌*◌, ◌≤◌, ◌<◌, ◌≡◌, refl, true, false,
  not, ◌||◌, ◌&&◌, Option, none, some, List, [], ◌∷◌, All, All-append, All-map, ◌∙◌, ap, arith, ltb,
  length,
}
use hyperliquid_rust_bot.Prelude.Words.{u64_max}
use hyperliquid_rust_bot.Prelude.Maps.{nat_eq, mem, add, mem-add}
use hyperliquid_rust_bot.Price.{Price, times}
use hyperliquid_rust_bot.Backtest.CandleStore.Cover.{covers, covers-append, in_gap}
use hyperliquid_rust_bot.Backtest.CandleStore.Gaps.{
  IsGap, IsGapBefore, Inv, IsStart, first_scan-Inv, scan-Done,
}
use hyperliquid_rust_bot.Backtest.CandleStore.{
  MissingSegment, Scan, in_range, end_gap, first_scan, collect, range_to_vec, find_missing,
  lookup_range, lookup_of, CacheLookup, no_gaps,
}

mem-collect : (ts : List ℕ) (t : ℕ) → mem (collect ts) t ≡ mem ts t
unfolding collect mem
mem-collect [] t = refl
mem-collect (x ∷ ts) t = ground (arith, mem-add (collect ts) x t, mem-collect ts t)

-- No two timestamps are the same.
abbrev pub HasNoRepeats : List ℕ → Type 0
HasNoRepeats [] = Unit
HasNoRepeats (t ∷ ts) = (mem ts t ≡ false) × HasNoRepeats ts

HasNoRepeats-collect : (ts : List ℕ) → HasNoRepeats (collect ts)
unfolding collect add
HasNoRepeats-collect [] = tt
HasNoRepeats-collect (t ∷ ts) = elim (Bool-cases (mem (collect ts) t)) [
  | inl e ↦ rw (e) (HasNoRepeats-collect ts)
  | inr e ↦ rw (e) (e, HasNoRepeats-collect ts)
]

abbrev some_of : List ℕ → Bool
some_of [] = false
some_of (_ ∷ _) = true

some_of-mem : (ts : List ℕ) (t : ℕ) → mem ts t ≡ true → ltb 0 (length ts) ≡ true
unfolding mem
some_of-mem [] t h = ground arith
some_of-mem (x ∷ ts) t h = ground arith

length-collect : (ts : List ℕ) → ltb 0 (length (collect ts)) ≡ some_of ts
unfolding collect add
length-collect [] = refl
length-collect (t ∷ ts) = elim (Bool-cases (mem (collect ts) t)) [
  | inl e ↦ rw (e) (some_of-mem (collect ts) t e)
  | inr e ↦ rw (e) (ground arith)
]

covers-end_gap :
    (ms : List MissingSegment) (gap : Option ℕ) (end t : ℕ)
    → t < end
    → covers (end_gap ms gap end) t ≡ covers ms t || in_gap gap t
covers-end_gap ms none end t h = ground arith
covers-end_gap ms (some g) end t h =
    ground (arith, covers-append ms (record { start = g; end = end } ∷ []) t)

gaps-end_gap :
    (cached : List ℕ) (start interval end : ℕ) (ms : List MissingSegment) (gap : Option ℕ) (ts : ℕ)
    → IsStart cached start interval end ts gap
    → All (IsGapBefore cached start interval end ts) ms
    → All (IsGap cached start interval end) (end_gap ms gap end)
gaps-end_gap cached start interval end ms none ts w a =
    All-map _ (IsGap cached start interval end) ms (λ m g. g.0) a
gaps-end_gap cached start interval end ms (some g) ts w a =
    All-append (IsGap cached start interval end) ms (record { start = g; end = end } ∷ [])
      (All-map _ (IsGap cached start interval end) ms (λ m g. g.0) a)
      (record { begins = w.0; absent = w.1; nonempty = w.3; inside = le_refl end }, tt)

covers-none : (ms : List MissingSegment) (t : ℕ) → no_gaps ms ≡ true → covers ms t ≡ false
covers-none [] t h = refl
covers-none (m ∷ ms) t h = cc

gaps-none :
    (cached : List ℕ) (start interval end : ℕ) (ms : List MissingSegment)
    → All (IsGap cached start interval end) ms
    → ((k : ℕ) → start + k * interval < end → mem cached (start + k * interval) ≡ true)
    → no_gaps ms ≡ true
gaps-none cached start interval end [] a h = refl
gaps-none cached start interval end (m ∷ ms) (g, gs) h =
    let (k, b) = g.begins in ground (arith, h k)

module _ {F : Type 0} where
  mem-range_to_vec :
      (file : List (Price F)) (start end t : ℕ)
      → mem (times (range_to_vec file start end)) t ≡ in_range start end t && mem (times file) t
  unfolding range_to_vec mem
  mem-range_to_vec [] start end t = ground arith
  mem-range_to_vec (p ∷ file) start end t = ground (arith, mem-range_to_vec file start end t)

  -- The timestamps that the file has in the range.
  abbrev pub cached_in : List (Price F) → (start end : ℕ) → List ℕ
  cached_in file start end = collect (times (range_to_vec file start end))

  -- Some candle of the file lies in the range.
  abbrev pub has_candle : List (Price F) → (start end : ℕ) → Bool
  has_candle file start end = any (λ p. in_range start end p.open_time) file

  some_of-range_to_vec :
      (file : List (Price F)) (start end : ℕ)
      → some_of (times (range_to_vec file start end)) ≡ has_candle file start end
  unfolding range_to_vec
  some_of-range_to_vec [] start end = refl
  some_of-range_to_vec (p ∷ file) start end = ground (arith, some_of-range_to_vec file start end)

  some_of-cached_in :
      (file : List (Price F)) (start end : ℕ)
      → ltb 0 (length (cached_in file start end)) ≡ has_candle file start end
  some_of-cached_in file start end =
      length-collect (times (range_to_vec file start end)) ∙ some_of-range_to_vec file start end

  -- The count is that of the different timestamps that the file has in the range.
  abbrev pub IsCount : List (Price F) → (start end count : ℕ) → Type 0
  IsCount file start end count =
      (ts : List ℕ) × HasNoRepeats ts
      × (length ts ≡ count)
      × ((t : ℕ) → mem ts t ≡ in_range start end t && mem (times file) t)

  cached_in-IsCount :
      (file : List (Price F)) (start end : ℕ)
      → IsCount file start end (length (cached_in file start end))
  cached_in-IsCount file start end =
      let ts = times (range_to_vec file start end) in
      (
        collect ts,
        HasNoRepeats-collect ts,
        refl,
        λ t. mem-collect ts t ∙ mem-range_to_vec file start end t,
      )

  -- What `find_missing` promises of its segments.
  pub record Exact (file : List (Price F)) (start end interval : ℕ) (missing : List MissingSegment)
      : Type 0 where
    pub gaps : All (IsGap (times file) start interval end) missing
    pub exact :
        (k : ℕ)
        → start + k * interval < end
        → covers missing (start + k * interval) ≡ not (mem (times file) (start + k * interval))

  mem-cached_in :
      (file : List (Price F)) (start end t : ℕ)
      → start ≤ t
      → t < end
      → mem (cached_in file start end) t ≡ mem (times file) t
  mem-cached_in file start end t h k = ground (
    arith,
    mem-collect (times (range_to_vec file start end)) t,
    mem-range_to_vec file start end t,
  )

  -- A gap of the range is a gap of the file.
  IsGap-file :
      (file : List (Price F)) (start interval end : ℕ) (m : MissingSegment)
      → IsGap (cached_in file start end) start interval end m
      → IsGap (times file) start interval end m
  IsGap-file file start interval end m g =
      let (k, b) = g.begins in
      let from : start ≤ m.start = omega (arith, b) in
      let to : m.start < end = omega (arith, g.nonempty, g.inside) in
      record {
        begins = g.begins;
        absent = rw (← mem-cached_in file start end m.start from to) g.absent;
        nonempty = g.nonempty;
        inside = g.inside;
      }

  finish :
      (file : List (Price F)) (start end interval : ℕ) (s : Scan)
      → Inv (cached_in file start end) start interval end s
      → end ≤ s.ts
      → Exact file start end interval (end_gap s.missing s.gap_start end)
  finish file start end interval s v over = record {
    gaps = All-map _ _ (end_gap s.missing s.gap_start end) (IsGap-file file start interval end) (
        gaps-end_gap (cached_in file start end) start interval end s.missing s.gap_start s.ts v.gap
          v.ended);
    exact = λ k h.
        covers-end_gap s.missing s.gap_start end (start + k * interval) h
        ∙ v.seen k (omega arith) h
        ∙ ap not (mem-cached_in file start end (start + k * interval) (omega arith) h);
  }

  -- The segments that `find_missing` returns, with the count of the timestamps.
  found :
      (file : List (Price F)) (start end interval : ℕ)
      → 0 < interval
      → end ≤ u64_max
      → (missing : List MissingSegment) × (find_missing file start end interval
          ≡ some (missing, length (cached_in file start end)))
        × Exact file start end interval missing
  unfolding find_missing
  found file start end interval positive bounded =
      let cached = cached_in file start end in
      let d =
        scan-Done cached start interval end positive bounded (suc end) (first_scan start)
          (omega arith) (first_scan-Inv cached start interval end) in
      (
        end_gap d.final.missing d.final.gap_start end,
        rw (d.returned, find_missing) refl,
        finish file start end interval d.final d.inv d.over,
      )

  -- `find_missing` returns for every range of a `u64` and every positive interval. Each of its segments
  -- begins at an expected timestamp that the file has not, and lies in the range; and an expected
  -- timestamp lies in a segment just when the file has it not. The count is that of the different
  -- timestamps that the file has in the range.
  pub find_missing_lem :
      (file : List (Price F)) (start end interval : ℕ)
      → 0 < interval
      → end ≤ u64_max
      → (missing : List MissingSegment) × (count : ℕ) × (find_missing file start end interval
          ≡ some (missing, count))
        × Exact file start end interval missing
        × IsCount file start end count
  find_missing_lem file start end interval positive bounded =
      let (ms, e, x) = found file start end interval positive bounded in
      (ms, length (cached_in file start end), e, x, cached_in-IsCount file start end)

  -- The range is complete: the file has every expected timestamp, and some candle of the range.
  abbrev pub IsComplete : List (Price F) → (start end interval : ℕ) → Type 0
  IsComplete file start end interval =
      ((k : ℕ) → start + k * interval < end → mem (times file) (start + k * interval) ≡ true)
      × (has_candle file start end ≡ true)

  no_gaps-IsComplete :
      (file : List (Price F)) (start end interval : ℕ) (ms : List MissingSegment)
      → Exact file start end interval ms
      → no_gaps ms && has_candle file start end ≡ true
      → IsComplete file start end interval
  no_gaps-IsComplete file start end interval ms x h =
      (λ k lt. ground (arith, x.exact k lt, covers-none ms (start + k * interval)), ground arith)

  -- What `lookup_range` hands out.
  pub record IsLookup (file : List (Price F)) (start end interval : ℕ) (l : CacheLookup F)
      : Type 0 where
    pub complete :
        (l.cached ≡ some (range_to_vec file start end)) ↔ IsComplete file start end interval
    pub nothing_else : (l.cached ≡ none) ⊎ (l.cached ≡ some (range_to_vec file start end))
    pub missing : Exact file start end interval l.missing
    pub counted : IsCount file start end l.cached_in_range

  -- `lookup_range` returns for every range of a `u64` and every positive interval. It hands out the
  -- file's candles of the range just when the file has every expected timestamp of the range and some
  -- candle in it, and otherwise none; it reports the missing segments of the range, and the number of
  -- different timestamps that the file has there.
  pub lookup_range_lem :
      (file : List (Price F)) (start end interval : ℕ)
      → 0 < interval
      → end ≤ u64_max
      → (l : CacheLookup F) × (lookup_range file start end interval ≡ some l)
        × IsLookup file start end interval l
  unfolding lookup_range
  lookup_range_lem file start end interval positive bounded =
      let (ms, e, x) = found file start end interval positive bounded in
      let some_there = some_of-cached_in file start end in
      (
        lookup_of file start end ms (length (cached_in file start end)),
        rw (e, lookup_range) refl,
        record {
          complete = (
            λ c. no_gaps-IsComplete file start end interval ms x (ground (arith, c, some_there)),
            λ c.
                ground
                  (arith, gaps-none (times file) start interval end ms x.gaps c.0, c.1, some_there),
          );
          nothing_else = ground arith;
          missing = x;
          counted = cached_in-IsCount file start end;
        },
      )

-- ===== src/Backtest/CandleStore.antt =====
-- src/backtest/candle_store.rs: one file of candles, and the gaps in it. A file is the list of the
-- candles that `read_all_prices` returns; reading and writing Parquet is not modelled.
pub mod Cover
pub mod Gaps
pub mod Missing
pub mod Insert
pub mod Merged
use hyperliquid_rust_bot.Prelude.{
  ℕ, zero, suc, ◌+◌, Bool, true, false, not, ◌&&◌, ◌||◌, ◌==◌, Option, none, some, List, [], ◌∷◌,
  ◌++◌, length, retain, ltb, leb, if◌then◌else◌,
}
use hyperliquid_rust_bot.Prelude.Words.{saturating_add}
use hyperliquid_rust_bot.Prelude.Maps.{nat_eq, mem, add}
use hyperliquid_rust_bot.Price.{Price, times}

pub record MissingSegment : Type 0 where
  pub start : ℕ
  pub end : ℕ

-- What becomes of the file in `write_prices`: written, or, after an error, kept or lost. The unstable
-- sort before it leaves the order of candles of one time open: `first` tells which of two of them it
-- puts first.
pub data Written (F : Type 0) : Type 0 where
  written : (first : Price F → Price F → Bool) → Written F
  kept lost : Written F

abbrev pub in_range : (start end t : ℕ) → Bool
in_range start end t = leb start t && ltb t end

-- The variables of the loop in `find_missing`.
pub record Scan : Type 0 where
  pub missing : List MissingSegment
  pub gap_start : Option ℕ
  pub ts : ℕ

abbrev pub push : List MissingSegment → (start end : ℕ) → List MissingSegment
push missing start end = missing ++ record { start = start; end = end } ∷ []

-- `if let Some(start) = gap_start { missing.push(..) }`.
abbrev pub end_gap : List MissingSegment → Option ℕ → ℕ → List MissingSegment
end_gap missing none end = missing
end_gap missing (some start) end = push missing start end

abbrev pub or_start : Option ℕ → ℕ → Option ℕ
or_start none ts = some ts
or_start (some start) ts = some start

abbrev pub first_scan : ℕ → Scan
first_scan start = record { missing = []; gap_start = none; ts = start }

-- One round of the loop.
unfoldable pub scan_round : (cached : List ℕ) (interval : ℕ) → Scan → Scan
scan_round cached interval s =
    let next = saturating_add s.ts interval in
    if mem cached s.ts
    then record { missing = end_gap s.missing s.gap_start s.ts; gap_start = none; ts = next }
    else record { missing = s.missing; gap_start = or_start s.gap_start s.ts; ts = next }

-- `while ts < normalized_end`; `none` if the fuel runs out.
unfoldable pub scan : (fuel : ℕ) (cached : List ℕ) (interval end : ℕ) → Scan → Option Scan
scan zero cached interval end s = none
scan (suc fuel) cached interval end s =
    let rest = scan fuel cached interval end (scan_round cached interval s) in
    if ltb s.ts end then rest else some s

-- A `BTreeSet` of the timestamps.
unfoldable pub collect : List ℕ → List ℕ
collect [] = []
collect (t ∷ ts) = add (collect ts) t

abbrev pub no_gaps : List MissingSegment → Bool
no_gaps [] = true
no_gaps (_ ∷ _) = false

pub record CacheLookup (F : Type 0) : Type 0 where
  pub missing : List MissingSegment
  pub cached : Option (List (Price F))
  pub cached_in_range : ℕ

module _ {F : Type 0} where
  unfoldable pub range_to_vec : List (Price F) → (start end : ℕ) → List (Price F)
  range_to_vec file start end = retain (λ p. in_range start end p.open_time) file

  unfoldable pub count_range : List (Price F) → (start end : ℕ) → ℕ
  unfolding range_to_vec
  count_range file start end = length (range_to_vec file start end)

  unfoldable pub find_missing :
      List (Price F) → (start end interval : ℕ) → Option (List MissingSegment × ℕ)
  unfolding collect range_to_vec scan scan_round
  find_missing file start end interval =
      let cached = collect (times (range_to_vec file start end)) in
      elim (scan (suc end) cached interval end (first_scan start)) [
        | none ↦ none
        | some t ↦ some (end_gap t.missing t.gap_start end, length cached)
      ]

  abbrev pub lookup_of :
      List (Price F) → (start end : ℕ) → List MissingSegment → (count : ℕ) → CacheLookup F
  lookup_of file start end missing count = record {
    missing = missing;
    cached = if no_gaps missing && ltb 0 count then some (range_to_vec file start end) else none;
    cached_in_range = count;
  }

  unfoldable pub lookup_range : List (Price F) → (start end interval : ℕ) → Option (CacheLookup F)
  lookup_range file start end interval = elim (find_missing file start end interval) [
    | none ↦ none
    | some (missing, count) ↦ some (lookup_of file start end missing count)
  ]

  abbrev pub comes_first : (first : Price F → Price F → Bool) → (p q : Price F) → Bool
  comes_first first p q = ltb p.open_time q.open_time || p.open_time == q.open_time && first p q

  unfoldable pub insert_sorted :
      (first : Price F → Price F → Bool) → Price F → List (Price F) → List (Price F)
  insert_sorted first p [] = p ∷ []
  insert_sorted first p (q ∷ qs) =
      let rest = insert_sorted first p qs in if comes_first first p q then p ∷ q ∷ qs else q ∷ rest

  -- `sort_unstable_by_key` on the opening times.
  unfoldable pub sort_by_time : (first : Price F → Price F → Bool) → List (Price F) → List (Price F)
  unfolding insert_sorted
  sort_by_time first [] = []
  sort_by_time first (p ∷ ps) = insert_sorted first p (sort_by_time first ps)

  -- The new candles whose timestamps the file has not.
  unfoldable pub new_only : List (Price F) → List (Price F) → List (Price F)
  new_only file new = retain (λ p. not (mem (times file) p.open_time)) new

  unfoldable pub insert_many : Written F → List (Price F) → List (Price F) → List (Price F)
  unfolding new_only
  insert_many outcome file [] = file
  insert_many (written first) file (p ∷ ps) = sort_by_time first (file ++ new_only file (p ∷ ps))
  insert_many kept file (p ∷ ps) = file
  insert_many lost file (p ∷ ps) = []

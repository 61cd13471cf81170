-- ===== src/Backtest/Aggregate.antt =====
-- src/backtest/fetcher.rs: the candles of a segment in order of time, and longer candles made of them.
pub mod Order
pub mod Grouping
use hyperliquid_rust_bot.Prelude.{
  ℕ, ◌*◌, ◌/◌, Bool, false, Option, none, some, List, [], ◌∷◌, ◌++◌, ltb, ◌==◌, if◌then◌else◌,
}
use hyperliquid_rust_bot.Prelude.Words.{wrapping_add}
use hyperliquid_rust_bot.Float.{Float}
use hyperliquid_rust_bot.Price.{Price}

module _ {F : Type 0} where
  -- `BTreeMap::insert` by the opening time.
  unfoldable pub tree_insert : Price F → List (Price F) → List (Price F)
  tree_insert p [] = p ∷ []
  tree_insert p (q ∷ qs) =
      let rest = tree_insert p qs in
      if ltb p.open_time q.open_time
      then p ∷ q ∷ qs
      else if p.open_time == q.open_time
      then p ∷ qs
      else q ∷ rest

  -- The tree after all of the candles are inserted.
  unfoldable pub tree_extend : List (Price F) → List (Price F) → List (Price F)
  unfolding tree_insert
  tree_extend tree [] = tree
  tree_extend tree (p ∷ ps) = tree_extend (tree_insert p tree) ps

-- The variables of the loop in `aggregate_prices`.
pub record Buckets (F : Type 0) : Type 0 where
  pub out : List (Price F)
  pub current_start : Option ℕ
  pub bucket : Option (Price F)

-- The start of the longer candle that a time belongs to.
abbrev pub bucket_of : (target_ms time : ℕ) → ℕ
bucket_of target_ms time = time / target_ms * target_ms

abbrev pub is_current : Option ℕ → ℕ → Bool
is_current none start = false
is_current (some current) start = current == start

abbrev pub pushed : {F : Type 0} → List (Price F) → Option (Price F) → List (Price F)
pushed out none = out
pushed out (some existing) = out ++ existing ∷ []

abbrev pub no_buckets : {F : Type 0} → Buckets F
no_buckets = record { out = []; current_start = none; bucket = none }

module _ {F : Type 0} ⦃f : Float F⦄ where
  abbrev pub fresh : (target_ms start : ℕ) → Price F → Price F
  fresh target_ms start p = record p {
    open_time = start;
    close_time = wrapping_add start target_ms;
  }

  abbrev pub merged : Price F → Price F → Price F
  merged p existing = record existing {
    high = if f.lt existing.high p.high then p.high else existing.high;
    low = if f.lt p.low existing.low then p.low else existing.low;
    close_px = p.close_px;
    vlm = f.add existing.vlm p.vlm;
  }

  abbrev pub merge_bucket : Price F → Option (Price F) → Option (Price F)
  merge_bucket p none = none
  merge_bucket p (some existing) = some (merged p existing)

  unfoldable pub bucket_round : (target_ms : ℕ) → Price F → Buckets F → Buckets F
  bucket_round target_ms p s =
      let start = bucket_of target_ms p.open_time in
      if is_current s.current_start start
      then record s { bucket = merge_bucket p s.bucket }
      else record {
        out = pushed s.out s.bucket;
        current_start = some start;
        bucket = some (fresh target_ms start p);
      }

  unfoldable pub bucket_loop : (target_ms : ℕ) → Buckets F → List (Price F) → Buckets F
  unfolding bucket_round
  bucket_loop target_ms s [] = s
  bucket_loop target_ms s (p ∷ ps) = bucket_loop target_ms (bucket_round target_ms p s) ps

  unfoldable pub aggregate_prices : List (Price F) → (target_ms : ℕ) → List (Price F)
  unfolding bucket_loop
  aggregate_prices [] target_ms = []
  aggregate_prices (p ∷ ps) target_ms =
      let s = bucket_loop target_ms no_buckets (p ∷ ps) in pushed s.out s.bucket

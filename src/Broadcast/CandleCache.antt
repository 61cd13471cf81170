-- ===== src/Broadcast/CandleCache.antt =====
-- src/broadcast/candle_cache.rs: the cache that answers requests for candles, and fetches what it lacks
-- once for all that wait for it. What a history keeps of the candles put into it is a parameter, since
-- its ring buffer is a library's; a fetch ends by a command. The task that forwards a feed's prices is
-- not modelled.
pub mod Fetches
use Prim.Native.String.{String}
use hyperliquid_rust_bot.Prelude.{
  ℕ, ◌-◌, Bool, true, false, Option, none, some, List, [], ◌∷◌, ◌++◌, map, drop, length, ltb,
  if◌then◌else◌,
}
use hyperliquid_rust_bot.Prelude.Maps.{string_eq, get, insert, remove, mem, add, erase}
use hyperliquid_rust_bot.Price.{Price}
use hyperliquid_rust_bot.TimeFrame.{TimeFrame, tf_eq, available_tfs}
use hyperliquid_rust_bot.Broadcast.TfBuilder.{TfBuilder, new_builder}

-- A `HashMap` from timeframes, and the candles of some timeframes.
abbrev pub ByTimeFrame : Type 0 → Type 0
ByTimeFrame A = List (TimeFrame × A)

abbrev pub TimeFrameData : Type 0 → Type 0
TimeFrameData F = ByTimeFrame (List (Price F))

-- A request that waits, with the channel of its reply as a number.
pub record PendingSnapshot (F : Type 0) : Type 0 where
  pub asset : String
  pub request : ByTimeFrame ℕ
  pub cached : TimeFrameData F
  pub reply : ℕ

-- The state, with the replies sent (`none` for an error) and the fetches started.
pub record CandleCache (F : Type 0) : Type 0 where
  pub candles : List (String × TimeFrameData F)
  pub fetched : List (String × List TimeFrame)
  pub inflight : List (String × List TimeFrame)
  pub pending_snapshots : List (PendingSnapshot F)
  pub builders : List (String × ByTimeFrame TfBuilder)
  pub replies : List (ℕ × Option (TimeFrameData F))
  pub fetches : List (String × ByTimeFrame ℕ)

pub data CacheCmdIn (F : Type 0) : Type 0 where
  new_feed drop_feed_of : String → CacheCmdIn F
  price : String → List (Price F) → CacheCmdIn F
  snapshot : PendingSnapshot F → CacheCmdIn F
  backfill : String → TimeFrameData F → CacheCmdIn F
  fetch_complete : String → TimeFrameData F → List TimeFrame → CacheCmdIn F

abbrev pub or_empty : {A : Type 0} → Option (List A) → List A
or_empty none = []
or_empty (some xs) = xs

abbrev pub is_empty : {A : Type 0} → List A → Bool
is_empty [] = true
is_empty (_ ∷ _) = false

-- `register_requested_timeframes`: the timeframes in flight, and those to fetch.
unfoldable pub register_requested_timeframes :
    (inflight : List TimeFrame) → (request : ByTimeFrame ℕ) → List TimeFrame × ByTimeFrame ℕ
register_requested_timeframes inflight [] = (inflight, [])
register_requested_timeframes inflight ((tf, count) ∷ rest) =
    let (all, fetch) = register_requested_timeframes (add inflight tf) rest in
    (all, if mem inflight tf then fetch else (tf, count) ∷ fetch)

-- The completed timeframes leave those in flight, and a waiting request.
unfoldable pub erase_all : List TimeFrame → (completed : List TimeFrame) → List TimeFrame
erase_all s [] = s
erase_all s (tf ∷ tfs) = erase_all (erase s tf) tfs

unfoldable pub remove_all : ByTimeFrame ℕ → (completed : List TimeFrame) → ByTimeFrame ℕ
remove_all r [] = r
remove_all r (tf ∷ tfs) = remove_all (remove r tf) tfs

module _ {F : Type 0} where
  unfoldable pub new_cache : CandleCache F
  new_cache = record {
    candles = [];
    fetched = [];
    inflight = [];
    pending_snapshots = [];
    builders = [];
    replies = [];
    fetches = [];
  }

  unfoldable pub cached_slice : List (Price F) → (count : ℕ) → Option (List (Price F))
  cached_slice history count =
      if ltb (length history) count then none else some (drop (length history - count) history)

  unfoldable pub cached_or_fetched_slice :
      Option (List (Price F)) → (already_fetched : Bool) → (count : ℕ) → Option (List (Price F))
  unfolding cached_slice
  cached_or_fetched_slice none already_fetched count = if already_fetched then some [] else none
  cached_or_fetched_slice (some history) already_fetched count = elim (cached_slice history count) [
    | some data' ↦ some data'
    | none ↦ if already_fetched then some history else none
  ]

  -- The `retain` over a request: what is still to be fetched, and what the cache has.
  unfoldable pub fill :
      TimeFrameData F
      → (fetched : List TimeFrame) → (request : ByTimeFrame ℕ) → TimeFrameData F
      → ByTimeFrame ℕ × TimeFrameData F
  unfolding cached_or_fetched_slice
  fill tf_map fetched [] cached = ([], cached)
  fill tf_map fetched ((tf, count) ∷ rest) cached =
      elim (cached_or_fetched_slice (get tf_map tf) (mem fetched tf) count) [
        | some slice ↦ fill tf_map fetched rest (insert cached tf slice)
        | none ↦ let (left, all) = fill tf_map fetched rest cached in ((tf, count) ∷ left, all)
      ]

  abbrev pub send_reply : ℕ → Option (TimeFrameData F) → CandleCache F → CandleCache F
  send_reply reply answer c = record c { replies = c.replies ++ (reply, answer) ∷ [] }

  -- `fill_cached_snapshot`, and `try_cache` of a new request.
  unfoldable pub fill_cached_snapshot : CandleCache F → PendingSnapshot F → PendingSnapshot F
  unfolding fill
  fill_cached_snapshot c s = elim (get c.candles s.asset) [
    | none ↦ s
    | some tf_map ↦
        let (left, all) = fill tf_map (or_empty (get c.fetched s.asset)) s.request s.cached in
        record s { request = left; cached = all }
  ]

  unfoldable pub add_feed : String → CandleCache F → CandleCache F
  unfolding available_tfs new_builder
  add_feed asset c = record c {
    builders = insert c.builders asset (map (λ tf. (tf, new_builder tf)) available_tfs);
    candles = insert c.candles asset (or_empty (get c.candles asset));
  }

  -- The loop of `drop_feed` over the waiting requests.
  unfoldable pub drop_pending : String → List (PendingSnapshot F) → CandleCache F → CandleCache F
  drop_pending asset [] c = c
  drop_pending asset (s ∷ ss) c = drop_pending asset ss (
      if string_eq.beq s.asset asset
      then send_reply s.reply none c
      else record c { pending_snapshots = c.pending_snapshots ++ s ∷ [] })

  unfoldable pub drop_feed : String → CandleCache F → CandleCache F
  unfolding drop_pending
  drop_feed asset c = drop_pending asset c.pending_snapshots (record c {
    candles = remove c.candles asset;
    fetched = remove c.fetched asset;
    inflight = remove c.inflight asset;
    builders = remove c.builders asset;
    pending_snapshots = [];
  })

  -- A request that the cache cannot answer waits; its timeframes that are not yet in flight are
  -- fetched.
  unfoldable pub wait_for : PendingSnapshot F → CandleCache F → CandleCache F
  unfolding register_requested_timeframes
  wait_for s c =
      let (all, fetch) =
        register_requested_timeframes (or_empty (get c.inflight s.asset)) s.request in
      record c {
        inflight = insert c.inflight s.asset all;
        pending_snapshots = c.pending_snapshots ++ s ∷ [];
        fetches = if is_empty fetch then c.fetches else c.fetches ++ (s.asset, fetch) ∷ [];
      }

  -- `fetch_candles`; the request comes with nothing cached.
  unfoldable pub fetch_candles : PendingSnapshot F → CandleCache F → CandleCache F
  unfolding fill_cached_snapshot wait_for
  fetch_candles request c =
      let s = fill_cached_snapshot c request in
      if is_empty s.request then send_reply s.reply (some s.cached) c else wait_for s c

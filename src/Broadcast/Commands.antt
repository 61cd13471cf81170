-- ===== src/Broadcast/Commands.antt =====
-- src/broadcast/candle_cache.rs: live prices, the ends of fetches, and the loop of the cache.
pub mod Waits
pub mod Landing
pub mod Loop
pub mod Replies
pub mod Answers
use Prim.Native.String.{String}
use hyperliquid_rust_bot.Prelude.{
  ℕ, Bool, true, false, not, ◌&&◌, Option, none, some, List, [], ◌∷◌, ◌++◌, any, last?,
  if◌then◌else◌,
}
use hyperliquid_rust_bot.Prelude.Maps.{string_eq, get, contains_key, insert, remove, add}
use hyperliquid_rust_bot.Price.{Price}
use hyperliquid_rust_bot.TimeFrame.{TimeFrame, tf_eq}
use hyperliquid_rust_bot.Broadcast.TfBuilder.{TfBuilder, digest, resync}
use hyperliquid_rust_bot.Broadcast.CandleCache.{
  ByTimeFrame, TimeFrameData, PendingSnapshot, CandleCache, CacheCmdIn, new_feed, drop_feed_of,
  price, snapshot, backfill, fetch_complete, or_empty, is_empty, erase_all, remove_all, send_reply,
  fill_cached_snapshot, add_feed, drop_feed, fetch_candles,
}

module _ {F : Type 0} where
  -- A waiting request once the timeframes are completed.
  abbrev pub completed_snapshot :
      String → List TimeFrame → CandleCache F → PendingSnapshot F → PendingSnapshot F
  unfolding fill_cached_snapshot remove_all
  completed_snapshot asset completed c s =
      let filled = fill_cached_snapshot c s in
      if string_eq.beq s.asset asset
      then record filled { request = remove_all filled.request completed }
      else s

  unfoldable pub resolve_each :
      String → List TimeFrame → List (PendingSnapshot F) → CandleCache F → CandleCache F
  unfolding fill_cached_snapshot remove_all
  resolve_each asset completed [] c = c
  resolve_each asset completed (s ∷ ss) c =
      let t = completed_snapshot asset completed c s in
      resolve_each asset completed ss (
        if is_empty t.request
        then send_reply t.reply (some t.cached) c
        else record c { pending_snapshots = c.pending_snapshots ++ t ∷ [] })

  unfoldable pub resolve_pending_snapshots : String → List TimeFrame → CandleCache F → CandleCache F
  unfolding resolve_each
  resolve_pending_snapshots asset completed c =
      resolve_each asset completed c.pending_snapshots (record c { pending_snapshots = [] })

  -- The completed timeframes are in flight no more.
  unfoldable pub land : String → List TimeFrame → CandleCache F → CandleCache F
  unfolding erase_all
  land asset completed c = elim (get c.inflight asset) [
    | none ↦ c
    | some s ↦
        let left = erase_all s completed in
        record c {
          inflight =
              if is_empty left then remove c.inflight asset else insert c.inflight asset left;
        }
  ]

module _ {F : Type 0} (keep : List (Price F) → List (Price F)) where
  -- The builder after a price; its fuel suffices.
  abbrev pub digested : TfBuilder → Option (Bool × TfBuilder) → Bool × TfBuilder
  digested b none = (false, b)
  digested b (some r) = r

  -- The loop over the builders of an asset.
  unfoldable pub digest_builders :
      Price F → ByTimeFrame TfBuilder → TimeFrameData F → ByTimeFrame TfBuilder × TimeFrameData F
  unfolding digest
  digest_builders p [] tf_map = ([], tf_map)
  digest_builders p ((tf, b) ∷ bs) tf_map =
      let (done, c) = digested b (digest p.close_time b) in
      let pushed = insert tf_map tf (keep (or_empty (get tf_map tf) ++ p ∷ [])) in
      let (cs, all) = digest_builders p bs (if done then pushed else tf_map) in ((tf, c) ∷ cs, all)

  unfoldable pub digest_single : String → Price F → CandleCache F → CandleCache F
  unfolding digest_builders
  digest_single asset p c = elim (get c.builders asset) [
    | none ↦ c
    | some bs ↦
        let (cs, all) = digest_builders p bs (or_empty (get c.candles asset)) in
        record c { builders = insert c.builders asset cs; candles = insert c.candles asset all }
  ]

  -- `digest` of one price or of many.
  unfoldable pub digest_prices : String → List (Price F) → CandleCache F → CandleCache F
  unfolding digest_single
  digest_prices asset [] c = c
  digest_prices asset (p ∷ ps) c = digest_prices asset ps (digest_single asset p c)

  abbrev pub resynced : Option (Price F) → TimeFrame → ByTimeFrame TfBuilder → ByTimeFrame TfBuilder
  unfolding resync
  resynced none tf bs = bs
  resynced (some last) tf bs = elim (get bs tf) [
    | none ↦ bs
    | some b ↦ insert bs tf (resync last.close_time b)
  ]

  -- One timeframe of a backfill.
  unfoldable pub backfill_one : String → TimeFrame → List (Price F) → CandleCache F → CandleCache F
  unfolding resync
  backfill_one asset tf candles c = record c {
    fetched = insert c.fetched asset (add (or_empty (get c.fetched asset)) tf);
    builders = elim (get c.builders asset) [
      | none ↦ c.builders
      | some bs ↦ insert c.builders asset (resynced (last? candles) tf bs)
    ];
    candles = insert c.candles asset (insert (or_empty (get c.candles asset)) tf (keep candles));
  }

  -- The loop of `handle_backfill` over its timeframes.
  unfoldable pub backfill_each : String → TimeFrameData F → CandleCache F → CandleCache F
  unfolding backfill_one
  backfill_each asset [] c = c
  backfill_each asset ((tf, candles) ∷ rest) c =
      backfill_each asset rest (backfill_one asset tf candles c)

  unfoldable pub handle_backfill : String → TimeFrameData F → CandleCache F → CandleCache F
  unfolding backfill_each
  handle_backfill asset page c = backfill_each asset page (record c {
    candles = insert c.candles asset (or_empty (get c.candles asset));
    fetched = insert c.fetched asset (or_empty (get c.fetched asset));
  })

  unfoldable pub handle_fetch_complete :
      String → TimeFrameData F → List TimeFrame → CandleCache F → CandleCache F
  unfolding handle_backfill land resolve_pending_snapshots
  handle_fetch_complete asset page completed c =
      let filled = if is_empty page then c else handle_backfill asset page c in
      let waiting = any (λ s. string_eq.beq s.asset asset) c.pending_snapshots in
      if not (contains_key c.builders asset) && not waiting
      then record c { inflight = remove c.inflight asset }
      else resolve_pending_snapshots asset completed (land asset completed filled)

  unfoldable pub handle_command : CacheCmdIn F → CandleCache F → CandleCache F
  unfolding add_feed drop_feed digest_prices fetch_candles handle_backfill handle_fetch_complete
  handle_command (new_feed asset) c = add_feed asset c
  handle_command (drop_feed_of asset) c = drop_feed asset c
  handle_command (price asset ps) c = digest_prices asset ps c
  handle_command (snapshot request) c = fetch_candles request c
  handle_command (backfill asset page) c = handle_backfill asset page c
  handle_command (fetch_complete asset page completed) c =
      handle_fetch_complete asset page completed c

  -- `start`, over the commands that it receives.
  unfoldable pub run_cache : List (CacheCmdIn F) → CandleCache F → CandleCache F
  unfolding handle_command
  run_cache [] c = c
  run_cache (cmd ∷ cmds) c = run_cache cmds (handle_command cmd c)

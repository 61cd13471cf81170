-- ===== src/Broadcast/Commands/Loop.antt =====
-- The loop of the cache: no request waits for a timeframe that is not being fetched.
use Prim.Native.String.{String}
use hyperliquid_rust_bot.Prelude.{
  ◌≡◌, refl, sym, ap, subst, ◌∙◌, false, not, ◌&&◌, Option, none, some, List, [], ◌∷◌, All, any,
  if◌then◌else◌, arith, Bool-cases, inl, inr,
}
use hyperliquid_rust_bot.Prelude.Maps.{string_eq, get, contains_key, remove, get-remove}
use hyperliquid_rust_bot.Price.{Price}
use hyperliquid_rust_bot.TimeFrame.{TimeFrame, tf_eq}
use hyperliquid_rust_bot.Broadcast.CandleCache.{
  is_empty, TimeFrameData, PendingSnapshot, CandleCache, CacheCmdIn, new_feed, drop_feed_of, price,
  snapshot, backfill, fetch_complete, or_empty, add_feed, new_cache,
}
use hyperliquid_rust_bot.Broadcast.Commands.{
  digest_single, digest_prices, backfill_one, backfill_each, handle_backfill, handle_fetch_complete,
  handle_command, run_cache,
}
use hyperliquid_rust_bot.Broadcast.Commands.Waits.{
  inflight_of, AllIn, IsAwaited, Waits, fetch_candles-Waits, drop_feed-Waits,
}
use hyperliquid_rust_bot.Broadcast.Commands.Landing.{resolve-Waits}

module _ {F : Type 0} (keep : List (Price F) → List (Price F)) where
  digest_single-Waits :
      (asset : String) (p : Price F) (c : CandleCache F)
      → Waits c
      → Waits (digest_single keep asset p c)
  unfolding digest_single
  digest_single-Waits asset p c w = by_builders (get c.builders asset) refl
    where
      by_builders : (x : Option _) → get c.builders asset ≡ x → Waits (digest_single keep asset p c)
      by_builders none q = rw (digest_single, q) w
      by_builders (some bs) q = rw (digest_single, q) w

  digest_prices-Waits :
      (asset : String) (ps : List (Price F)) (c : CandleCache F)
      → Waits c
      → Waits (digest_prices keep asset ps c)
  unfolding digest_prices
  digest_prices-Waits asset [] c w = w
  digest_prices-Waits asset (p ∷ ps) c w =
      digest_prices-Waits asset ps (digest_single keep asset p c) (digest_single-Waits asset p c w)

  backfill_each-Waits :
      (asset : String) (page : TimeFrameData F) (c : CandleCache F)
      → Waits c
      → Waits (backfill_each keep asset page c)
  unfolding backfill_each backfill_one
  backfill_each-Waits asset [] c w = w
  backfill_each-Waits asset ((tf, candles) ∷ rest) c w =
      backfill_each-Waits asset rest (backfill_one keep asset tf candles c) w

  handle_backfill-Waits :
      (asset : String) (page : TimeFrameData F) (c : CandleCache F)
      → Waits c
      → Waits (handle_backfill keep asset page c)
  unfolding handle_backfill
  handle_backfill-Waits asset page c w = backfill_each-Waits asset page _ w

  filled-Waits :
      (asset : String) (page : TimeFrameData F) (c : CandleCache F)
      → Waits c
      → Waits (if is_empty page then c else handle_backfill keep asset page c)
  filled-Waits asset [] c w = w
  filled-Waits asset (p ∷ ps) c w = handle_backfill-Waits asset (p ∷ ps) c w

  -- An asset that nobody waits for is in flight no more.
  unwanted :
      (asset : String) (m : List (String × List TimeFrame)) (ss : List (PendingSnapshot F))
      → any (λ s. string_eq.beq s.asset asset) ss ≡ false
      → All (IsAwaited m) ss
      → All (IsAwaited (remove m asset)) ss
  unwanted asset m [] e _ = tt
  unwanted asset m (s ∷ ss) e ((n, h), a) =
      let other : string_eq.beq asset s.asset ≡ false =
        ground (arith, string_eq.beq_iff s.asset asset, string_eq.beq_iff asset s.asset, e) in
      let stays : inflight_of (remove m asset) s.asset ≡ inflight_of m s.asset =
        ap or_empty (get-remove m asset s.asset)
        ∙ ap (λ b. or_empty (if b then none else get m s.asset)) other in
      ((n, subst (λ l. AllIn l s.request) (sym stays) h), unwanted asset m ss (ground (arith, e)) a)

  handle_fetch_complete-Waits :
      (asset : String) (page : TimeFrameData F) (completed : List TimeFrame) (c : CandleCache F)
      → Waits c
      → Waits (handle_fetch_complete keep asset page completed c)
  unfolding handle_fetch_complete
  handle_fetch_complete-Waits asset page completed c w =
      let waiting = any (λ s. string_eq.beq s.asset asset) c.pending_snapshots in
      elim (Bool-cases (not (contains_key c.builders asset) && not waiting)) [
        | inl e ↦
            rw (handle_fetch_complete, e)
              (unwanted asset c.inflight c.pending_snapshots (ground (arith, e)) w)
        | inr e ↦
            rw (handle_fetch_complete, e)
              (resolve-Waits asset completed
                (if is_empty page then c else handle_backfill keep asset page c)
                (filled-Waits asset page c w))
      ]

  handle_command-Waits :
      (cmd : CacheCmdIn F) (c : CandleCache F) → Waits c → Waits (handle_command keep cmd c)
  unfolding handle_command add_feed
  handle_command-Waits (new_feed asset) c w = w
  handle_command-Waits (drop_feed_of asset) c w = drop_feed-Waits asset c w
  handle_command-Waits (price asset ps) c w = digest_prices-Waits asset ps c w
  handle_command-Waits (snapshot request) c w = fetch_candles-Waits request c w
  handle_command-Waits (backfill asset page) c w = handle_backfill-Waits asset page c w
  handle_command-Waits (fetch_complete asset page completed) c w =
      handle_fetch_complete-Waits asset page completed c w

  run_from :
      (cmds : List (CacheCmdIn F)) (c : CandleCache F) → Waits c → Waits (run_cache keep cmds c)
  unfolding run_cache
  run_from [] c w = w
  run_from (cmd ∷ cmds) c w =
      run_from cmds (handle_command keep cmd c) (handle_command-Waits cmd c w)

  -- After whatever feeds, prices, requests, backfills and ends of fetches the cache has handled, each
  -- request that waits asks for some timeframe, and each timeframe that it asks for is in flight for its
  -- asset.
  pub run_cache-Waits : (cmds : List (CacheCmdIn F)) → Waits (run_cache keep cmds new_cache)
  unfolding new_cache
  run_cache-Waits cmds = run_from cmds new_cache tt

-- ===== src/Broadcast/Commands/Answers.antt =====
-- Every command of the candle cache: no request is lost, and none is answered twice.
use Prim.Native.String.{String}
use hyperliquid_rust_bot.Prelude.{
  ℕ, ◌+◌, ◌≡◌, refl, ap, ◌∙◌, not, ◌&&◌, Option, none, some, List, [], ◌∷◌, any, if◌then◌else◌,
  arith, Bool-cases, inl, inr,
}
use hyperliquid_rust_bot.Prelude.Maps.{string_eq, nat_eq, get, contains_key, remove}
use hyperliquid_rust_bot.Price.{Price}
use hyperliquid_rust_bot.TimeFrame.{TimeFrame, tf_eq}
use hyperliquid_rust_bot.Broadcast.CandleCache.{
  is_empty, TimeFrameData, PendingSnapshot, CandleCache, CacheCmdIn, new_feed, drop_feed_of, price,
  snapshot, backfill, fetch_complete, fill_cached_snapshot, fetch_candles, wait_for, drop_feed,
  add_feed, new_cache,
}
use hyperliquid_rust_bot.Broadcast.Commands.{
  resolve_pending_snapshots, land, digest_single, digest_prices, backfill_one, backfill_each,
  handle_backfill, handle_fetch_complete, handle_command, run_cache,
}
use hyperliquid_rust_bot.Broadcast.Commands.Replies.{
  one_if, replied, waiting, asked, accounted, accounted-send_reply, accounted-push,
  accounted-drop_pending, reply-fill_cached_snapshot, accounted-resolve_each,
}

module _ {F : Type 0} (k : ℕ) where
  accounted-wait_for :
      (s : PendingSnapshot F) (c : CandleCache F)
      → accounted k (wait_for s c) ≡ accounted k c + one_if (nat_eq.beq k s.reply)
  unfolding wait_for
  accounted-wait_for s c = accounted-push k s c

  accounted-fetch_candles :
      (s : PendingSnapshot F) (c : CandleCache F)
      → accounted k (fetch_candles s c) ≡ accounted k c + one_if (nat_eq.beq k s.reply)
  unfolding fetch_candles
  accounted-fetch_candles s c =
      let t = fill_cached_snapshot c s in
      let same : one_if (nat_eq.beq k t.reply) ≡ one_if (nat_eq.beq k s.reply) =
        ap (λ r. one_if (nat_eq.beq k r)) (reply-fill_cached_snapshot k c s) in
      elim (Bool-cases (is_empty t.request)) [
        | inl e ↦
            rw (fetch_candles, e)
              (omega (arith, same, accounted-send_reply k t.reply (some t.cached) c))
        | inr e ↦ rw (fetch_candles, e) (omega (arith, same, accounted-wait_for t c))
      ]

  accounted-drop_feed :
      (asset : String) (c : CandleCache F) → accounted k (drop_feed asset c) ≡ accounted k c
  unfolding drop_feed
  accounted-drop_feed asset c = omega (
    arith,
    accounted-drop_pending k asset c.pending_snapshots (record c {
      candles = remove c.candles asset;
      fetched = remove c.fetched asset;
      inflight = remove c.inflight asset;
      builders = remove c.builders asset;
      pending_snapshots = [];
    }),
  )

  accounted-land :
      (asset : String) (completed : List TimeFrame) (c : CandleCache F)
      → accounted k (land asset completed c) ≡ accounted k c
  unfolding land
  accounted-land asset completed c = by_get (get c.inflight asset) refl
    where
      by_get :
          (x : Option (List TimeFrame))
          → get c.inflight asset ≡ x
          → accounted k (land asset completed c) ≡ accounted k c
      by_get none q = rw (land, q) refl
      by_get (some s) q = rw (land, q) refl

  accounted-resolve :
      (asset : String) (completed : List TimeFrame) (c : CandleCache F)
      → accounted k (resolve_pending_snapshots asset completed c) ≡ accounted k c
  unfolding resolve_pending_snapshots
  accounted-resolve asset completed c = omega (
    arith,
    accounted-resolve_each k asset completed c.pending_snapshots
        (record c { pending_snapshots = [] }),
  )

  module _ (keep : List (Price F) → List (Price F)) where
    accounted-digest_single :
        (asset : String) (p : Price F) (c : CandleCache F)
        → accounted k (digest_single keep asset p c) ≡ accounted k c
    unfolding digest_single
    accounted-digest_single asset p c = by_builders (get c.builders asset) refl
      where
        by_builders :
            (x : Option _)
            → get c.builders asset ≡ x
            → accounted k (digest_single keep asset p c) ≡ accounted k c
        by_builders none q = rw (digest_single, q) refl
        by_builders (some bs) q = rw (digest_single, q) refl

    accounted-digest_prices :
        (asset : String) (ps : List (Price F)) (c : CandleCache F)
        → accounted k (digest_prices keep asset ps c) ≡ accounted k c
    unfolding digest_prices
    accounted-digest_prices asset [] c = refl
    accounted-digest_prices asset (p ∷ ps) c =
        accounted-digest_prices asset ps (digest_single keep asset p c)
        ∙ accounted-digest_single asset p c

    accounted-backfill_each :
        (asset : String) (page : TimeFrameData F) (c : CandleCache F)
        → accounted k (backfill_each keep asset page c) ≡ accounted k c
    unfolding backfill_each backfill_one
    accounted-backfill_each asset [] c = refl
    accounted-backfill_each asset ((tf, candles) ∷ rest) c =
        accounted-backfill_each asset rest (backfill_one keep asset tf candles c)

    accounted-handle_backfill :
        (asset : String) (page : TimeFrameData F) (c : CandleCache F)
        → accounted k (handle_backfill keep asset page c) ≡ accounted k c
    unfolding handle_backfill
    accounted-handle_backfill asset page c = accounted-backfill_each asset page _

    accounted-filled :
        (asset : String) (page : TimeFrameData F) (c : CandleCache F)
        → accounted k (if is_empty page then c else handle_backfill keep asset page c)
          ≡ accounted k c
    accounted-filled asset [] c = refl
    accounted-filled asset (p ∷ ps) c = accounted-handle_backfill asset (p ∷ ps) c

    accounted-handle_fetch_complete :
        (asset : String) (page : TimeFrameData F) (completed : List TimeFrame) (c : CandleCache F)
        → accounted k (handle_fetch_complete keep asset page completed c) ≡ accounted k c
    unfolding handle_fetch_complete
    accounted-handle_fetch_complete asset page completed c =
        let held = any (λ s. string_eq.beq s.asset asset) c.pending_snapshots in
        let filled = if is_empty page then c else handle_backfill keep asset page c in
        elim (Bool-cases (not (contains_key c.builders asset) && not held)) [
          | inl e ↦ rw (handle_fetch_complete, e) refl
          | inr e ↦
              rw (handle_fetch_complete, e)
                (accounted-resolve asset completed (land asset completed filled)
                  ∙ accounted-land asset completed filled
                  ∙ accounted-filled asset page c)
        ]

    accounted-run_cache :
        (cmds : List (CacheCmdIn F)) (c : CandleCache F)
        → accounted k (run_cache keep cmds c) ≡ accounted k c + asked k cmds
    unfolding run_cache handle_command add_feed
    accounted-run_cache [] c = omega arith
    accounted-run_cache (new_feed asset ∷ cmds) c = accounted-run_cache cmds (add_feed asset c)
    accounted-run_cache (drop_feed_of asset ∷ cmds) c =
        omega (arith, accounted-run_cache cmds (drop_feed asset c), accounted-drop_feed asset c)
    accounted-run_cache (price asset ps ∷ cmds) c = omega (
      arith,
      accounted-run_cache cmds (digest_prices keep asset ps c),
      accounted-digest_prices asset ps c,
    )
    accounted-run_cache (snapshot s ∷ cmds) c =
        omega (arith, accounted-run_cache cmds (fetch_candles s c), accounted-fetch_candles s c)
    accounted-run_cache (backfill asset page ∷ cmds) c = omega (
      arith,
      accounted-run_cache cmds (handle_backfill keep asset page c),
      accounted-handle_backfill asset page c,
    )
    accounted-run_cache (fetch_complete asset page completed ∷ cmds) c = omega (
      arith,
      accounted-run_cache cmds (handle_fetch_complete keep asset page completed c),
      accounted-handle_fetch_complete asset page completed c,
    )

    -- The cache loses no request and answers none twice: after whatever commands, for each channel, the
    -- replies sent on it and the waiting requests that hold it are together as many as the requests that
    -- came with it.
    pub run_cache-asked :
        (cmds : List (CacheCmdIn F))
        → replied k (run_cache keep cmds new_cache).replies
            + waiting k (run_cache keep cmds new_cache).pending_snapshots
          ≡ asked k cmds
    unfolding new_cache
    run_cache-asked cmds = omega (arith, accounted-run_cache cmds new_cache)

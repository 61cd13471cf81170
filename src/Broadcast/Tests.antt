-- ===== src/Broadcast/Tests.antt =====
-- The candle cache on concrete commands.
use hyperliquid_rust_bot.Prelude.{ℕ, ◌+◌, ◌≡◌, refl, Bool, none, some, List, [], ◌∷◌, length, arith}
use hyperliquid_rust_bot.Prelude.Maps.{contains_key, get, insert, mem, remove, add}
use hyperliquid_rust_bot.Float.{Sample, num}
use hyperliquid_rust_bot.Prelude.Int.{pos}
use hyperliquid_rust_bot.Price.{Price}
use hyperliquid_rust_bot.TimeFrame.{min1, min5}
use hyperliquid_rust_bot.TimeFrame.Lengths.{to_millis_bounds}
use hyperliquid_rust_bot.Broadcast.TfBuilder.{TfBuilder, digest}
use hyperliquid_rust_bot.Broadcast.TfBuilder.Closes.{Digested, digest_lem}
use hyperliquid_rust_bot.Broadcast.CandleCache.{
  CacheCmdIn, new_cache, new_feed, snapshot, fetch_complete,
}
use hyperliquid_rust_bot.Broadcast.CandleCache.{ByTimeFrame, register_requested_timeframes}
use hyperliquid_rust_bot.Broadcast.CandleCache.Fetches.{register_requested_timeframes_lem}
use hyperliquid_rust_bot.Prelude.{◌||◌, ◌&&◌, not}
use hyperliquid_rust_bot.TimeFrame.{tf_eq}
use hyperliquid_rust_bot.Broadcast.Commands.{run_cache}
use hyperliquid_rust_bot.Broadcast.Commands.Waits.{Waits}
use hyperliquid_rust_bot.Broadcast.Commands.Replies.{replied, waiting, asked}
use hyperliquid_rust_bot.Broadcast.Commands.Answers.{run_cache-asked}
use hyperliquid_rust_bot.Broadcast.Commands.Loop.{run_cache-Waits}

abbrev minutes : TfBuilder
minutes = record { tf = min1; prev_close = none; next_close = some 60_000 }

digest_example :
    (done : Bool) × (c : TfBuilder) × (digest 180_000 minutes ≡ some (done, c))
    × Digested 180_000 minutes (some 60_000) done c
digest_example = digest_lem 180_000 minutes (omega (arith, to_millis_bounds min1))

abbrev candle : ℕ → Price Sample
candle t = record {
  open_px = num (pos 10);
  high = num (pos 12);
  low = num (pos 9);
  close_px = num (pos 11);
  open_time = t;
  close_time = t + 60_000;
  vlm = num (pos 1);
}

-- A request for two timeframes, one for the second of them, and the end of the fetch of the first.
abbrev commands : List (CacheCmdIn Sample)
commands =
    new_feed "BTC"
    ∷ snapshot
        (record { asset = "BTC"; request = (min1, 2) ∷ (min5, 1) ∷ []; cached = []; reply = 0 })
    ∷ snapshot (record { asset = "BTC"; request = (min5, 1) ∷ []; cached = []; reply = 1 })
    ∷ fetch_complete "BTC" ((min1, candle 60_000 ∷ candle 120_000 ∷ []) ∷ []) (min1 ∷ [])
    ∷ []

-- Both requests wait for the second timeframe, which is fetched once.
both_wait : length (run_cache (λ ps. ps) commands new_cache).pending_snapshots ≡ 2
unfolding run_cache new_cache contains_key get insert mem remove add
both_wait = refl

fetched_once :
    (run_cache (λ ps. ps) commands new_cache).fetches ≡ ("BTC", (min1, 2) ∷ (min5, 1) ∷ []) ∷ []
unfolding run_cache new_cache contains_key get insert mem remove add
fetched_once = refl

run_cache-Waits_example : Waits (run_cache (λ ps. ps) commands new_cache)
run_cache-Waits_example = run_cache-Waits (λ ps. ps) commands

run_cache-asked_example :
    replied 1 (run_cache (λ ps. ps) commands new_cache).replies
      + waiting 1 (run_cache (λ ps. ps) commands new_cache).pending_snapshots
    ≡ asked 1 commands
run_cache-asked_example = run_cache-asked 1 (λ ps. ps) commands

abbrev two_timeframes : ByTimeFrame ℕ
two_timeframes = (min1, 2) ∷ (min5, 1) ∷ []

-- Of two timeframes, the one in flight is not fetched again.
register_requested_timeframes_example :
    let (all, fetch) = register_requested_timeframes (min1 ∷ []) two_timeframes in
    (mem all min5 ≡ (mem (min1 ∷ []) min5 || contains_key two_timeframes min5))
    × (contains_key fetch min5 ≡ (contains_key two_timeframes min5 && not (mem (min1 ∷ []) min5)))
register_requested_timeframes_example =
    register_requested_timeframes_lem (min1 ∷ []) two_timeframes min5

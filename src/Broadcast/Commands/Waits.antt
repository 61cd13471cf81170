-- ===== src/Broadcast/Commands/Waits.antt =====
-- No request waits for a timeframe that is not being fetched.
use Prim.Native.String.{String}
use hyperliquid_rust_bot.Prelude.{
  ℕ, ◌≡◌, refl, sym, ap, ◌∙◌, true, false, Option, none, some, List, [], ◌∷◌, ◌++◌, All, All-append,
  All-map, if◌then◌else◌, arith, Bool-cases, inl, inr,
}
use hyperliquid_rust_bot.Prelude.Maps.{
  string_eq, get, insert, remove, mem, add, erase, get-insert, get-remove, mem-add, mem-erase,
}
use hyperliquid_rust_bot.Price.{Price}
use hyperliquid_rust_bot.TimeFrame.{TimeFrame, tf_eq}
use hyperliquid_rust_bot.Broadcast.CandleCache.{
  ByTimeFrame, TimeFrameData, PendingSnapshot, CandleCache, or_empty, is_empty, erase_all,
  remove_all, cached_or_fetched_slice, fill, fill_cached_snapshot, register_requested_timeframes,
  drop_pending, drop_feed, fetch_candles, wait_for, send_reply,
}

abbrev pub inflight_of : List (String × List TimeFrame) → String → List TimeFrame
inflight_of m asset = or_empty (get m asset)

-- All timeframes of a request are in flight.
abbrev pub AllIn : List TimeFrame → ByTimeFrame ℕ → Type 0
AllIn s = All (λ r. mem s r.0 ≡ true)

module _ {F : Type 0} where
  -- A request waits for something, and all that it waits for is in flight.
  abbrev pub IsAwaited : List (String × List TimeFrame) → PendingSnapshot F → Type 0
  IsAwaited m s = (is_empty s.request ≡ false) × AllIn (inflight_of m s.asset) s.request

  abbrev pub Waits : CandleCache F → Type 0
  Waits c = All (IsAwaited c.inflight) c.pending_snapshots

mem_register :
    (s : List TimeFrame) (request : ByTimeFrame ℕ) (tf : TimeFrame)
    → mem s tf ≡ true
    → mem (register_requested_timeframes s request).0 tf ≡ true
unfolding register_requested_timeframes
mem_register s [] tf h = h
mem_register s ((t, n) ∷ rest) tf h =
    mem_register (add s t) rest tf (mem-add s t tf ∙ ground (arith, h))

register-AllIn :
    (s : List TimeFrame) (request : ByTimeFrame ℕ)
    → AllIn (register_requested_timeframes s request).0 request
unfolding register_requested_timeframes
register-AllIn s [] = tt
register-AllIn s ((t, n) ∷ rest) = (
  mem_register (add s t) rest t (mem-add s t t ∙ ground (arith, tf_eq.beq_iff t t)),
  register-AllIn (add s t) rest,
)

remove-AllIn :
    (s : List TimeFrame) (tf : TimeFrame) (request : ByTimeFrame ℕ)
    → AllIn s request
    → AllIn (erase s tf) (remove request tf)
unfolding remove
remove-AllIn s tf [] _ = tt
remove-AllIn s tf ((t, n) ∷ rest) (h, a) = elim (Bool-cases (tf_eq.beq t tf)) [
  | inl e ↦ rw (e) (remove-AllIn s tf rest a)
  | inr e ↦ rw (e) (
    mem-erase s tf t ∙ ground (arith, tf_eq.beq_iff t tf, tf_eq.beq_iff tf t, h),
    remove-AllIn s tf rest a,
  )
]

pub remove_all-AllIn :
    (s completed : List TimeFrame) (request : ByTimeFrame ℕ)
    → AllIn s request
    → AllIn (erase_all s completed) (remove_all request completed)
unfolding erase_all remove_all
remove_all-AllIn s [] request a = a
remove_all-AllIn s (tf ∷ tfs) request a =
    remove_all-AllIn (erase s tf) tfs (remove request tf) (remove-AllIn s tf request a)

module _ {F : Type 0} where
  fill-AllIn :
      (s : List TimeFrame) (tf_map : TimeFrameData F) (fetched : List TimeFrame)
      (request : ByTimeFrame ℕ) (cached : TimeFrameData F)
      → AllIn s request
      → AllIn s (fill tf_map fetched request cached).0
  unfolding fill
  fill-AllIn s tf_map fetched [] cached _ = tt
  fill-AllIn s tf_map fetched ((tf, n) ∷ rest) cached (h, a) =
      by_slice (λ cached. fill-AllIn s tf_map fetched rest cached a)
        (cached_or_fetched_slice (get tf_map tf) (mem fetched tf) n) refl
    where
      by_slice :
          ((cached : TimeFrameData F) → AllIn s (fill tf_map fetched rest cached).0)
          → (x : Option (List (Price F)))
          → cached_or_fetched_slice (get tf_map tf) (mem fetched tf) n ≡ x
          → AllIn s (fill tf_map fetched ((tf, n) ∷ rest) cached).0
      by_slice left none q = rw (fill, q) (h, left cached)
      by_slice left (some slice) q = rw (fill, q) (left (insert cached tf slice))

  -- Filling a request from the cache leaves its asset, and asks for nothing new.
  pub fill_cached_snapshot-AllIn :
      (c : CandleCache F) (t : PendingSnapshot F) (s : List TimeFrame)
      → AllIn s t.request
      → AllIn s (fill_cached_snapshot c t).request × ((fill_cached_snapshot c t).asset ≡ t.asset)
  unfolding fill_cached_snapshot
  fill_cached_snapshot-AllIn c t s a = by_map (get c.candles t.asset) refl
    where
      by_map :
          (x : Option (TimeFrameData F))
          → get c.candles t.asset ≡ x
          → AllIn s (fill_cached_snapshot c t).request
            × ((fill_cached_snapshot c t).asset ≡ t.asset)
      by_map none q = rw (fill_cached_snapshot, q) (a, refl)
      by_map (some m) q =
          rw (fill_cached_snapshot, q)
            (fill-AllIn s m (or_empty (get c.fetched t.asset)) t.request t.cached a, refl)

  -- Requests that wait go on waiting, if what is in flight for their assets stays in flight.
  IsAwaited-map :
      (m n : List (String × List TimeFrame)) (t : PendingSnapshot F)
      → ((tf : TimeFrame)
          → mem (inflight_of m t.asset) tf ≡ true
          → mem (inflight_of n t.asset) tf ≡ true)
      → IsAwaited m t
      → IsAwaited n t
  IsAwaited-map m n t more (e, a) =
      (e, All-map _ (λ r. mem (inflight_of n t.asset) r.0 ≡ true) t.request (λ r. more r.0) a)

  -- What a new request registers is in flight, with what was.
  register_more :
      (s : PendingSnapshot F) (c : CandleCache F) (asset : String) (tf : TimeFrame)
      → mem (inflight_of c.inflight asset) tf ≡ true
      → mem (inflight_of (wait_for s c).inflight asset) tf ≡ true
  unfolding wait_for
  register_more s c asset tf h =
      let old = inflight_of c.inflight s.asset in
      let all = (register_requested_timeframes old s.request).0 in
      elim (Bool-cases (string_eq.beq s.asset asset)) [
        | inl e ↦
            let same : asset ≡ s.asset = ground (arith, string_eq.beq_iff s.asset asset) in
            rw (get-insert c.inflight s.asset asset all, e)
              (mem_register old s.request tf
                (ap (λ a. mem (inflight_of c.inflight a) tf) (sym same) ∙ h))
        | inr e ↦ rw (get-insert c.inflight s.asset asset all, e) h
      ]

  registered :
      (s : PendingSnapshot F) (c : CandleCache F)
      → AllIn (inflight_of (wait_for s c).inflight s.asset) s.request
  unfolding wait_for
  registered s c =
      let old = inflight_of c.inflight s.asset in
      let all = (register_requested_timeframes old s.request).0 in
      let own : string_eq.beq s.asset s.asset ≡ true =
        ground (arith, string_eq.beq_iff s.asset s.asset) in
      rw (get-insert c.inflight s.asset s.asset all, own) (register-AllIn old s.request)

  wait_for-Waits :
      (s : PendingSnapshot F) (c : CandleCache F)
      → is_empty s.request ≡ false
      → Waits c
      → Waits (wait_for s c)
  unfolding wait_for
  wait_for-Waits s c e w =
      let n = (wait_for s c).inflight in
      All-append (IsAwaited n) c.pending_snapshots (s ∷ [])
        (All-map _ (IsAwaited n) c.pending_snapshots
          (λ t. IsAwaited-map c.inflight n t (register_more s c t.asset)) w)
        ((e, registered s c), tt)

  pub fetch_candles-Waits :
      (request : PendingSnapshot F) (c : CandleCache F) → Waits c → Waits (fetch_candles request c)
  unfolding fetch_candles
  fetch_candles-Waits request c w =
      let s = fill_cached_snapshot c request in
      elim (Bool-cases (is_empty s.request)) [
        | inl e ↦ rw (fetch_candles, e) w
        | inr e ↦ rw (fetch_candles, e) (wait_for-Waits s c e w)
      ]

  drop_pending-Waits :
      (asset : String) (m : List (String × List TimeFrame)) (ss : List (PendingSnapshot F))
      (c : CandleCache F)
      → c.inflight ≡ remove m asset
      → All (IsAwaited m) ss
      → Waits c
      → Waits (drop_pending asset ss c)
  unfolding drop_pending
  drop_pending-Waits asset m [] c q _ w = w
  drop_pending-Waits asset m (s ∷ ss) c q (h, a) w =
      elim (Bool-cases (string_eq.beq s.asset asset)) [
        | inl e ↦
            rw (drop_pending, e) (drop_pending-Waits asset m ss (send_reply s.reply none c) q a w)
        | inr e ↦
            let other : string_eq.beq asset s.asset ≡ false =
              ground (arith, string_eq.beq_iff s.asset asset, string_eq.beq_iff asset s.asset, e) in
            let stays : inflight_of c.inflight s.asset ≡ inflight_of m s.asset =
              ap (λ n. inflight_of n s.asset) q
              ∙ ap or_empty (get-remove m asset s.asset)
              ∙ ap (λ b. or_empty (if b then none else get m s.asset)) other in
            rw (drop_pending, e)
              (drop_pending-Waits asset m ss
                (record c { pending_snapshots = c.pending_snapshots ++ s ∷ [] }) q a
                (All-append (IsAwaited c.inflight) c.pending_snapshots (s ∷ []) w
                  (IsAwaited-map m c.inflight s (λ tf k. ap (λ l. mem l tf) stays ∙ k) h, tt)))
      ]

  pub drop_feed-Waits : (asset : String) (c : CandleCache F) → Waits c → Waits (drop_feed asset c)
  unfolding drop_feed
  drop_feed-Waits asset c w = drop_pending-Waits asset c.inflight c.pending_snapshots _ refl w tt

-- ===== src/Broadcast/CandleCache/Fetches.antt =====
-- Which of the requested timeframes are fetched.
use hyperliquid_rust_bot.Prelude.{
  ℕ, ◌≡◌, ap, refl, not, ◌||◌, ◌&&◌, List, [], ◌∷◌, arith, Bool-cases, inl, inr,
}
use hyperliquid_rust_bot.Prelude.Maps.{contains_key, mem, add, mem-add}
use hyperliquid_rust_bot.TimeFrame.{TimeFrame, tf_eq}
use hyperliquid_rust_bot.Broadcast.CandleCache.{ByTimeFrame, register_requested_timeframes}

-- After a request is registered, a timeframe is in flight if it was before or is requested, and is to be
-- fetched if it is requested and was not in flight before.
pub register_requested_timeframes_lem :
    (inflight : List TimeFrame) (request : ByTimeFrame ℕ) (tf : TimeFrame)
    → let (all, fetch) = register_requested_timeframes inflight request in
      (mem all tf ≡ (mem inflight tf || contains_key request tf))
      × (contains_key fetch tf ≡ (contains_key request tf && not (mem inflight tf)))
unfolding register_requested_timeframes contains_key
register_requested_timeframes_lem s [] tf = (ground arith, refl)
register_requested_timeframes_lem s ((t, n) ∷ rest) tf =
    let (kept, fetched) = register_requested_timeframes_lem (add s t) rest tf in
    let more = mem-add s t tf in
    elim (Bool-cases (tf_eq.beq t tf)) [
      | inl same ↦
          let there : mem s t ≡ mem s tf = ap (mem s) (ground (arith, tf_eq.beq_iff t tf)) in
          elim (Bool-cases (mem s tf)) [
            | inl e ↦ rw (same, there, e) (ground arith)
            | inr e ↦ rw (same, there, e) (ground arith)
          ]
      | inr other ↦ elim (Bool-cases (mem s t)) [
        | inl e ↦ rw (other, e) (ground arith)
        | inr e ↦ rw (other, e) (ground arith)
      ]
    ]

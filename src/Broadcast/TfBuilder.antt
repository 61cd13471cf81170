-- ===== src/Broadcast/TfBuilder.antt =====
-- src/broadcast/candle_cache.rs: `TfBuilder`, which tells when a candle of a timeframe has closed.
pub mod Closes
use hyperliquid_rust_bot.Prelude.{
  ℕ, zero, suc, ◌+◌, ◌*◌, ◌/◌, Bool, true, false, Option, none, some, ltb, leb, if◌then◌else◌,
}
use hyperliquid_rust_bot.Prelude.Words.{wrapping_add}
use hyperliquid_rust_bot.TimeFrame.{TimeFrame, to_millis}

pub record TfBuilder : Type 0 where
  pub tf : TimeFrame
  pub prev_close : Option ℕ
  pub next_close : Option ℕ

unfoldable pub new_builder : TimeFrame → TfBuilder
new_builder tf = record { tf = tf; prev_close = none; next_close = none }

-- `while ts >= next`, with `prev_close`; `none` if the fuel runs out.
unfoldable pub advance :
    (fuel : ℕ) (tf_ms ts : ℕ) → (prev : Option ℕ) → (next : ℕ) → Option (Option ℕ × ℕ)
advance zero tf_ms ts prev next = none
advance (suc fuel) tf_ms ts prev next =
    let rest = advance fuel tf_ms ts (some next) (wrapping_add next tf_ms) in
    if leb next ts then rest else some (prev, next)

abbrev pub closed : TfBuilder → Option (Option ℕ × ℕ) → Option (Bool × TfBuilder)
closed b none = none
closed b (some (prev, next)) = some (true, record b { prev_close = prev; next_close = some next })

-- Whether a candle has closed, and the builder after it.
unfoldable pub digest : (close_time : ℕ) → TfBuilder → Option (Bool × TfBuilder)
unfolding advance
digest ts b = elim b.next_close [
  | none ↦ some (false, record b { next_close = some ts })
  | some next ↦
      if ltb next ts
      then closed b (advance (suc (suc ts)) (to_millis b.tf) ts b.prev_close next)
      else some (false, b)
]

unfoldable pub resync : (last_candle_time : ℕ) → TfBuilder → TfBuilder
resync last b =
    let tf_ms = to_millis b.tf in
    let prev = last / tf_ms * tf_ms in
    record b { prev_close = some prev; next_close = some (wrapping_add prev tf_ms) }

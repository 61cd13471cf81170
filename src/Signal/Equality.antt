-- ===== src/Signal/Equality.antt =====
-- src/strategy.rs: equality of intents and timeouts, as the source derives it; two values that are not
-- numbers differ.
use hyperliquid_rust_bot.Prelude.{Bool, true, false, ◌&&◌, ◌==◌, Option, none, some}
use hyperliquid_rust_bot.Float.{Float}
use hyperliquid_rust_bot.Exec.Types.{side_eq}
use hyperliquid_rust_bot.Signal.Intent.{
  SizeSpec, margin_amount, margin_pct, raw_size, OnTimeout, force, cancel, TimeoutInfo, LiqSide,
  taker, maker, Intent, open_order, reduce, flatten, arm, disarm, abort, LiveTimeoutInfo,
}

abbrev pub opt_eq : {A : Type 0} → (A → A → Bool) → Option A → Option A → Bool
opt_eq g none none = true
opt_eq g (some a) (some b) = g a b
opt_eq g _ _ = false

abbrev pub action_eq : OnTimeout → OnTimeout → Bool
action_eq force force = true
action_eq cancel cancel = true
action_eq _ _ = false

abbrev pub timeout_eq : TimeoutInfo → TimeoutInfo → Bool
timeout_eq a b = action_eq a.action b.action && a.duration == b.duration

module _ {F : Type 0} ⦃f : Float F⦄ where
  abbrev pub size_eq : SizeSpec F → SizeSpec F → Bool
  size_eq (margin_amount a) (margin_amount b) = f.eq a b
  size_eq (margin_pct a) (margin_pct b) = f.eq a b
  size_eq (raw_size a) (raw_size b) = f.eq a b
  size_eq _ _ = false

  abbrev pub liq_eq : LiqSide F → LiqSide F → Bool
  liq_eq taker taker = true
  liq_eq (maker a) (maker b) = f.eq a.limit_px b.limit_px && opt_eq timeout_eq a.timeout b.timeout
  liq_eq _ _ = false

  abbrev pub intent_eq : Intent F → Intent F → Bool
  intent_eq (open_order a) (open_order b) =
      side_eq a.side b.side
      && size_eq a.size b.size
      && opt_eq f.eq a.tp b.tp
      && opt_eq f.eq a.sl b.sl
      && liq_eq a.liq_side b.liq_side
  intent_eq (reduce a) (reduce b) = size_eq a.size b.size && liq_eq a.liq_side b.liq_side
  intent_eq (flatten a) (flatten b) = liq_eq a b
  intent_eq (arm a) (arm b) = a == b
  intent_eq disarm disarm = true
  intent_eq abort abort = true
  intent_eq _ _ = false

  abbrev pub live_eq : LiveTimeoutInfo F → LiveTimeoutInfo F → Bool
  live_eq a b =
      a.expire_at == b.expire_at
      && timeout_eq a.timeout_info b.timeout_info
      && intent_eq a.intent b.intent

-- ===== src/Signal/Intent.antt =====
-- src/strategy.rs: the intents that a strategy returns, and their timeouts.
use hyperliquid_rust_bot.Prelude.{ℕ, Bool, true, false, Option, none, some}
use hyperliquid_rust_bot.Prelude.Words.{saturating_mul}
use hyperliquid_rust_bot.Float.{Float}
use hyperliquid_rust_bot.TimeFrame.{TimeFrame, min1, to_millis}
use hyperliquid_rust_bot.Exec.Types.{Side}

-- `TimeDelta` of src/helper.rs, in milliseconds.
abbrev pub TimeDelta : Type 0
TimeDelta = ℕ

unfoldable pub from_tf : TimeFrame → (count : ℕ) → TimeDelta
from_tf tf count = saturating_mul (to_millis tf) count

unfoldable pub market_order_timeout : TimeDelta
unfolding from_tf
market_order_timeout = from_tf min1 1

pub data SizeSpec (F : Type 0) : Type 0 where
  margin_amount margin_pct raw_size : F → SizeSpec F

pub data OnTimeout : Type 0 where
  force cancel : OnTimeout

pub record TimeoutInfo : Type 0 where
  pub action : OnTimeout
  pub duration : TimeDelta

-- `impl Default for TimeoutInfo`.
unfoldable pub default_timeout : TimeoutInfo
unfolding market_order_timeout
default_timeout = record { action = cancel; duration = market_order_timeout }

pub record LimitOptions (F : Type 0) : Type 0 where
  pub limit_px : F
  pub timeout : Option TimeoutInfo

pub data LiqSide (F : Type 0) : Type 0 where
  taker : LiqSide F
  maker : LimitOptions F → LiqSide F

pub record Order (F : Type 0) : Type 0 where
  pub side : Side
  pub size : SizeSpec F
  pub tp : Option F
  pub sl : Option F
  pub liq_side : LiqSide F

pub record ReduceOrder (F : Type 0) : Type 0 where
  pub size : SizeSpec F
  pub liq_side : LiqSide F

-- The constructor `open_order` is the source's `Open`.
pub data Intent (F : Type 0) : Type 0 where
  open_order : Order F → Intent F
  reduce : ReduceOrder F → Intent F
  flatten : LiqSide F → Intent F
  arm : TimeDelta → Intent F
  disarm abort : Intent F

pub record Triggers (F : Type 0) : Type 0 where
  pub tp : Option F
  pub sl : Option F

pub record LiveTimeoutInfo (F : Type 0) : Type 0 where
  pub expire_at : ℕ
  pub timeout_info : TimeoutInfo
  pub intent : Intent F

pub data BusyType (F : Type 0) : Type 0 where
  opening closing : Option (LiveTimeoutInfo F) → BusyType F

module _ {F : Type 0} where
  abbrev pub ttl_of : LiqSide F → Option TimeoutInfo
  ttl_of taker = none
  ttl_of (maker opts) = opts.timeout

  abbrev pub is_taker : LiqSide F → Bool
  is_taker taker = true
  is_taker (maker _) = false

  unfoldable pub get_ttl : Intent F → Option TimeoutInfo
  get_ttl (open_order o) = ttl_of o.liq_side
  get_ttl (reduce o) = ttl_of o.liq_side
  get_ttl (flatten l) = ttl_of l
  get_ttl (arm _) = none
  get_ttl disarm = none
  get_ttl abort = none

  unfoldable pub is_market_order : Intent F → Bool
  is_market_order (open_order o) = is_taker o.liq_side
  is_market_order (reduce o) = is_taker o.liq_side
  is_market_order (flatten l) = is_taker l
  is_market_order (arm _) = false
  is_market_order disarm = false
  is_market_order abort = true

  abbrev pub tp_of : Option (Triggers F) → Option F
  tp_of none = none
  tp_of (some t) = t.tp

  abbrev pub sl_of : Option (Triggers F) → Option F
  sl_of none = none
  sl_of (some t) = t.sl

  unfoldable pub new_open : Side → SizeSpec F → LiqSide F → Option (Triggers F) → Intent F
  new_open side size liq_side tp_sl =
      open_order (record {
        side = side;
        size = size;
        tp = tp_of tp_sl;
        sl = sl_of tp_sl;
        liq_side = liq_side;
      })

  unfoldable pub open_market : Side → SizeSpec F → Option (Triggers F) → Intent F
  unfolding new_open
  open_market side size tp_sl = new_open side size taker tp_sl

  unfoldable pub open_limit :
      Side → SizeSpec F → F → Option TimeoutInfo → Option (Triggers F) → Intent F
  unfolding new_open
  open_limit side size limit_px on_timeout tp_sl =
      new_open side size (maker (record { limit_px = limit_px; timeout = on_timeout })) tp_sl

  unfoldable pub reduce_market_order : SizeSpec F → Intent F
  reduce_market_order size = reduce (record { size = size; liq_side = taker })

  unfoldable pub reduce_limit_order : SizeSpec F → F → Option TimeoutInfo → Intent F
  reduce_limit_order size limit_px on_timeout = reduce (record {
    size = size;
    liq_side = maker (record { limit_px = limit_px; timeout = on_timeout });
  })

  unfoldable pub flatten_market : Intent F
  flatten_market = flatten taker

  unfoldable pub flatten_limit : F → Option TimeoutInfo → Intent F
  flatten_limit limit_px on_timeout =
      flatten (maker (record { limit_px = limit_px; timeout = on_timeout }))

module _ {F : Type 0} ⦃f : Float F⦄ where
  unfoldable pub get_size : SizeSpec F → (lev free_margin ref_px : F) → F
  get_size (raw_size sz) lev free_margin ref_px = sz
  get_size (margin_amount amount) lev free_margin ref_px = f.div (f.mul amount lev) ref_px
  get_size (margin_pct pct) lev free_margin ref_px =
      f.div (f.mul (f.mul free_margin (f.div pct (f.of_nat 100))) lev) ref_px

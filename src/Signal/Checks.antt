-- ===== src/Signal/Checks.antt =====
-- src/signal/helpers.rs, and the validation of trades in src/signal/engine.rs.
use hyperliquid_rust_bot.Prelude.{
  ℕ, Bool, true, false, not, ◌&&◌, ◌||◌, ◌==◌, Option, none, some, if◌then◌else◌, Result, ok, err,
  ◌>>◌,
}
use hyperliquid_rust_bot.Float.{Float}
use hyperliquid_rust_bot.Exec.Types.{
  PositionOp, open_long, open_short, close, Side, long, short, TriggerKind, tp, sl, EngineOrder,
  Limit, side_eq,
}
use hyperliquid_rust_bot.Signal.Intent.{Triggers}
use hyperliquid_rust_bot.Signal.Params.{OpenPosInfo, ExecParams, get_max_open_size}

-- The reason of a rejection, in place of its text.
pub data Rejection : Type 0 where
  not_positive sl_too_large unreasonable_limit bad_trigger close_without_position : Rejection
  opposite_position exceeded_max_size notional_not_finite below_min_value : Rejection

pub record PendingOpen (F : Type 0) : Type 0 where
  pub order : EngineOrder F
  pub tpsl : Option (Triggers F)

-- The constructors are the source's `Open` and `Close`.
pub data PendingOrder (F : Type 0) : Type 0 where
  to_open : PendingOpen F → PendingOrder F
  to_close : EngineOrder F → PendingOrder F

abbrev pub check : Bool → Rejection → Result Rejection (Unit {0})
check true e = ok tt
check false e = err e

module _ {F : Type 0} ⦃f : Float F⦄ where
  -- MIN_LIMIT_MULT and MAX_LIMIT_MULT, 0.05 and 15, and MIN_ORDER_VALUE of src/consts.rs.
  abbrev pub min_limit_mult : F
  min_limit_mult = f.div (f.of_nat 5) (f.of_nat 100)

  abbrev pub max_limit_mult : F
  max_limit_mult = f.of_nat 15

  abbrev pub min_order_value : F
  min_order_value = f.of_nat 10

  abbrev pub is_finite_positive : F → Bool
  is_finite_positive value = not (not (f.is_finite value) || f.le value (f.of_nat 0))

  unfoldable pub validate_finite_positive : F → Result Rejection (Unit {0})
  validate_finite_positive value = check (is_finite_positive value) not_positive

  abbrev pub validate_sl : F → Result Rejection (Unit {0})
  unfolding validate_finite_positive
  validate_sl v = validate_finite_positive v >> check (not (f.le (f.of_nat 100) v)) sl_too_large

  abbrev pub validate_some :
      (F → Result Rejection (Unit {0})) → Option F → Result Rejection (Unit {0})
  validate_some g none = ok tt
  validate_some g (some v) = g v

  unfoldable pub validate_tpsl : Triggers F → Result Rejection (Unit {0})
  unfolding validate_finite_positive validate_sl
  validate_tpsl t = validate_some validate_finite_positive t.tp >> validate_some validate_sl t.sl

  unfoldable pub validate_limit : Limit F → (ref_px : F) → Result Rejection (Unit {0})
  unfolding validate_finite_positive
  validate_limit l ref_px = do
    validate_finite_positive ref_px
    validate_finite_positive l.limit_px
    check
        (not (
          f.lt l.limit_px (f.mul min_limit_mult ref_px)
          || f.lt (f.mul max_limit_mult ref_px) l.limit_px))
        unreasonable_limit

  unfoldable pub validate_trigger_price : F → Result Rejection (Unit {0})
  validate_trigger_price price = check (is_finite_positive price) bad_trigger

  abbrev pub moved : Side → TriggerKind → (ref_px delta : F) → F
  moved long tp ref_px delta = f.mul ref_px (f.add (f.of_nat 1) delta)
  moved short tp ref_px delta = f.mul ref_px (f.sub (f.of_nat 1) delta)
  moved long sl ref_px delta = f.mul ref_px (f.sub (f.of_nat 1) delta)
  moved short sl ref_px delta = f.mul ref_px (f.add (f.of_nat 1) delta)

  unfoldable pub calc_trigger_px : Side → TriggerKind → (delta ref_px : F) → (lev : ℕ) → F
  calc_trigger_px side trigger delta ref_px lev =
      if lev == 0 || f.le ref_px (f.of_nat 0)
      then ref_px
      else moved side trigger ref_px (f.div (f.div delta (f.of_nat lev)) (f.of_nat 100))

  -- The notional value of an order, which must be finite and reach the minimum.
  abbrev pub validate_notional : F → Result Rejection (Unit {0})
  validate_notional notional =
      check (f.is_finite notional) notional_not_finite
      >> check (not (f.lt notional min_order_value)) below_min_value

  -- An order without a limit.
  abbrev pub validate_market :
      PositionOp → (size : F) → Option (OpenPosInfo F) → (ref_px : F) → Result Rejection (Unit {0})
  validate_market open_long size pos ref_px = validate_notional (f.mul size ref_px)
  validate_market open_short size pos ref_px = validate_notional (f.mul size ref_px)
  validate_market close size none ref_px = err close_without_position
  validate_market close size (some pos) ref_px =
      check (f.is_finite (f.mul size ref_px)) notional_not_finite
      >> check (not (f.lt size pos.size && f.lt (f.mul size ref_px) min_order_value))
          below_min_value

  abbrev pub validate_rest :
      Option (Limit F)
      → EngineOrder F
      → Option (OpenPosInfo F)
      → (ref_px : F) → Result Rejection (Unit {0})
  unfolding validate_limit
  validate_rest (some l) order pos ref_px =
      validate_limit l ref_px >> validate_notional (f.mul order.size l.limit_px)
  validate_rest none order pos ref_px = validate_market order.action order.size pos ref_px

  unfoldable pub validate_engine_order :
      ExecParams F → EngineOrder F → (ref_px : F) → Result Rejection (Unit {0})
  unfolding validate_finite_positive validate_rest
  validate_engine_order params order ref_px = do
    validate_finite_positive ref_px
    validate_finite_positive order.size
    validate_rest order.limit order params.open_pos ref_px

  -- The first `match` of `validate_trade`.
  abbrev pub validate_action : PositionOp → Option (OpenPosInfo F) → Result Rejection (Unit {0})
  validate_action close none = err close_without_position
  validate_action close (some pos) = ok tt
  validate_action open_long none = ok tt
  validate_action open_long (some pos) = check (not (side_eq pos.side short)) opposite_position
  validate_action open_short none = ok tt
  validate_action open_short (some pos) = check (not (side_eq pos.side long)) opposite_position

  abbrev pub validate_triggers : Option (Triggers F) → Result Rejection (Unit {0})
  unfolding validate_tpsl
  validate_triggers none = ok tt
  validate_triggers (some t) = validate_tpsl t

  abbrev pub action_of : PendingOrder F → PositionOp
  action_of (to_close order) = order.action
  action_of (to_open p) = p.order.action

  -- The second `match`. Triggers that are both absent pass `validate_tpsl`, as the source's filter has it.
  abbrev pub validate_pending :
      ExecParams F → PendingOrder F → (last_price : F) → Result Rejection (Unit {0})
  unfolding validate_engine_order get_max_open_size validate_triggers
  validate_pending params (to_close order) last_price =
      validate_engine_order params order last_price
  validate_pending params (to_open p) last_price = do
    check (not (f.lt (get_max_open_size params last_price) p.order.size)) exceeded_max_size
    validate_engine_order params p.order last_price
    validate_triggers p.tpsl

  unfoldable pub validate_trade :
      ExecParams F → PendingOrder F → (last_price : F) → Result Rejection (Unit {0})
  unfolding validate_pending
  validate_trade params trade last_price =
      validate_action (action_of trade) params.open_pos >> validate_pending params trade last_price

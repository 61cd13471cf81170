-- ===== src/Exec/Orders.antt =====
-- src/exec/types.rs and src/exec/executor.rs: building an `EngineOrder`, and turning it into the
-- request that the exchange client takes.
use Prim.Native.String.{String}
use hyperliquid_rust_bot.Prelude.{ℕ, Bool, true, false, not, ◌||◌, Option, none, some, is_some}
use hyperliquid_rust_bot.Float.{Float}
use hyperliquid_rust_bot.Helper.{round_ndp}
use hyperliquid_rust_bot.Exec.Types.{
  PositionOp, open_long, open_short, close, Side, long, short, TriggerKind, tp, sl, Tif, gtc,
  ClientOrderLocal, client_limit, client_trigger, Limit, EngineOrder, side_eq, op_eq, trigger_eq,
  trigger_to_string, tif_to_string,
}

pub record Decimals : Type 0 where
  pub sz : ℕ
  pub px : ℕ

-- The SDK's `ClientOrder`, `ClientOrderRequest` and `MarketOrderParams`, as far as the code fills them.
pub data ClientOrder (F : Type 0) : Type 0 where
  limit_order : String → ClientOrder F
  trigger_order : Bool → F → String → ClientOrder F

pub record ClientOrderRequest (F : Type 0) : Type 0 where
  pub asset : String
  pub is_buy : Bool
  pub reduce_only : Bool
  pub limit_px : F
  pub sz : F
  pub order_type : ClientOrder F

pub record MarketOrderParams (F : Type 0) : Type 0 where
  pub asset : String
  pub is_buy : Bool
  pub sz : F
  pub px : Option F

pub data HlOrder (F : Type 0) : Type 0 where
  market : MarketOrderParams F → HlOrder F
  limit : ClientOrderRequest F → HlOrder F

abbrev pub or_default : Option Tif → Tif
or_default none = gtc
or_default (some t) = t

-- `Limit::is_tpsl` and `EngineOrder::is_tpsl`.
abbrev pub tpsl_of : ClientOrderLocal → Option TriggerKind
tpsl_of (client_limit _) = none
tpsl_of (client_trigger t) = some t.kind

abbrev pub is_buy_of : Side → Bool
is_buy_of long = true
is_buy_of short = false

abbrev pub side_of_buy : Bool → Side
side_of_buy true = long
side_of_buy false = short

module _ {F : Type 0} where
  unfoldable pub new_market : PositionOp → F → EngineOrder F
  new_market action size = record { action = action; size = size; limit = none }

  unfoldable pub new_market_open : Side → F → EngineOrder F
  unfolding new_market
  new_market_open long size = new_market open_long size
  new_market_open short size = new_market open_short size

  unfoldable pub market_close : F → EngineOrder F
  unfolding new_market
  market_close size = new_market close size

  new_limit : PositionOp → F → F → ClientOrderLocal → EngineOrder F
  new_limit action size limit_px order_type = record {
    action = action;
    size = size;
    limit = some (record { limit_px = limit_px; order_type = order_type });
  }

  unfoldable pub new_limit_close : F → F → Option Tif → EngineOrder F
  unfolding new_limit
  new_limit_close size limit_px tif = new_limit close size limit_px (client_limit (or_default tif))

  unfoldable pub new_trigger_close : TriggerKind → F → F → EngineOrder F
  unfolding new_limit
  new_trigger_close kind size trigger_px =
      new_limit close size trigger_px
        (client_trigger (record { kind = kind; is_market = not (trigger_eq kind tp) }))

  unfoldable pub new_limit_open : Side → F → F → Option Tif → EngineOrder F
  unfolding new_limit
  new_limit_open long size limit_px tif =
      new_limit open_long size limit_px (client_limit (or_default tif))
  new_limit_open short size limit_px tif =
      new_limit open_short size limit_px (client_limit (or_default tif))

  unfoldable pub new_tp : F → F → EngineOrder F
  unfolding new_trigger_close
  new_tp size trigger_px = new_trigger_close tp size trigger_px

  unfoldable pub new_sl : F → F → EngineOrder F
  unfolding new_trigger_close
  new_sl size trigger_px = new_trigger_close sl size trigger_px

  unfoldable pub is_tpsl : Option (Limit F) → Option TriggerKind
  is_tpsl none = none
  is_tpsl (some l) = tpsl_of l.order_type

  unfoldable pub convert : ClientOrderLocal → F → ClientOrder F
  convert (client_limit tif) limit_px = limit_order (tif_to_string tif)
  convert (client_trigger t) limit_px =
      trigger_order t.is_market limit_px (trigger_to_string t.kind)

  unfoldable pub get_side : HlOrder F → Side
  get_side (market o) = side_of_buy o.is_buy
  get_side (limit o) = side_of_buy o.is_buy

  unfoldable pub get_px : HlOrder F → Option F
  get_px (market o) = o.px
  get_px (limit o) = some o.limit_px

  unfoldable pub get_sz : HlOrder F → F
  get_sz (market o) = o.sz
  get_sz (limit o) = o.sz

module _ {F : Type 0} ⦃f : Float F⦄ where
  -- `Executor::into_hl_order`.
  unfoldable pub into_hl_order :
      String → F → Side → Option (Limit F) → PositionOp → Decimals → HlOrder F
  unfolding convert is_tpsl
  into_hl_order asset sz side none intent decimals = market (record {
    asset = asset;
    is_buy = side_eq side long;
    sz = round_ndp sz decimals.sz;
    px = none;
  })
  into_hl_order asset sz side (some l) intent decimals =
      let px = round_ndp l.limit_px decimals.px in
      limit (record {
        asset = asset;
        is_buy = side_eq side long;
        reduce_only = op_eq intent close || is_some (is_tpsl (some l));
        limit_px = px;
        sz = round_ndp sz decimals.sz;
        order_type = convert l.order_type px;
      })

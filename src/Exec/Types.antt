-- ===== src/Exec/Types.antt =====
-- src/exec/types.rs: the data that the executor is sent, keeps and reports.
use Prim.Native.String.{String}
use hyperliquid_rust_bot.Prelude.{ℕ, Bool, true, false, Option}

pub data PositionOp : Type 0 where
  open_long open_short close : PositionOp

pub data Side : Type 0 where
  long short : Side

-- `impl Not for Side`.
abbrev pub not_side : Side → Side
not_side long = short
not_side short = long

pub data TriggerKind : Type 0 where
  tp sl : TriggerKind

-- `impl Display for TriggerKind`.
abbrev pub trigger_to_string : TriggerKind → String
trigger_to_string tp = "tp"
trigger_to_string sl = "sl"

pub data Tif : Type 0 where
  alo ioc gtc : Tif

-- `impl Display for Tif`.
abbrev pub tif_to_string : Tif → String
tif_to_string alo = "Alo"
tif_to_string ioc = "Ioc"
tif_to_string gtc = "Gtc"

pub data FillType : Type 0 where
  market limit : FillType
  trigger : TriggerKind → FillType
  liquidation : FillType

pub record TriggerOrder : Type 0 where
  pub kind : TriggerKind
  pub is_market : Bool

pub data ClientOrderLocal : Type 0 where
  client_limit : Tif → ClientOrderLocal
  client_trigger : TriggerOrder → ClientOrderLocal

pub record Limit (F : Type 0) : Type 0 where
  pub limit_px : F
  pub order_type : ClientOrderLocal

pub record EngineOrder (F : Type 0) : Type 0 where
  pub action : PositionOp
  pub size : F
  pub limit : Option (Limit F)

pub record TradeFillInfo (F : Type 0) : Type 0 where
  pub price : F
  pub sz : F
  pub oid : ℕ
  pub fee : F
  pub side : Side
  pub intent : PositionOp
  pub fill_type : FillType

pub record FillInfo (F : Type 0) : Type 0 where
  pub time : ℕ
  pub price : F
  pub fill_type : FillType

-- The field `opening` is the source's `open`, and `closing` its `close`.
pub record TradeInfo (F : Type 0) : Type 0 where
  pub side : Side
  pub size : F
  pub pnl : F
  pub total_pnl : F
  pub fees : F
  pub funding : F
  pub opening : FillInfo F
  pub closing : FillInfo F
  pub strategy : Option String

pub record RestingOrderLocal (F : Type 0) : Type 0 where
  pub oid : ℕ
  pub limit_px : Option F
  pub sz : F
  pub side : Side
  pub intent : PositionOp
  pub tpsl : Option TriggerKind

pub record OpenPositionLocal (F : Type 0) : Type 0 where
  pub open_time : ℕ
  pub size : F
  pub entry_px : F
  pub side : Side
  pub fees : F
  pub funding : F
  pub realised_pnl : F
  pub fill_type : FillType

pub data ExecControl : Type 0 where
  kill pause resume force_close : ExecControl

pub data ExecEvent (F : Type 0) : Type 0 where
  fill : TradeFillInfo F → ExecEvent F
  funding : F → ExecEvent F

-- The client of `ReloadWallet` is known by a number.
pub data ExecCommand (F : Type 0) : Type 0 where
  order : EngineOrder F → ExecCommand F
  force_taker : EngineOrder F → ExecCommand F
  control : ExecControl → ExecCommand F
  event : ExecEvent F → ExecCommand F
  reload_wallet : ℕ → ExecCommand F

-- Equality of the enums, as the source derives it.
abbrev pub side_eq : Side → Side → Bool
side_eq long long = true
side_eq short short = true
side_eq _ _ = false

abbrev pub op_eq : PositionOp → PositionOp → Bool
op_eq open_long open_long = true
op_eq open_short open_short = true
op_eq close close = true
op_eq _ _ = false

abbrev pub trigger_eq : TriggerKind → TriggerKind → Bool
trigger_eq tp tp = true
trigger_eq sl sl = true
trigger_eq _ _ = false

-- `matches!(op, OpenLong | OpenShort)`.
abbrev pub is_open : PositionOp → Bool
is_open close = false
is_open _ = true

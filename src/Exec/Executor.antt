-- ===== src/Exec/Executor.antt =====
-- src/exec/executor.rs: the executor task of one market.
pub mod Settle
use Prim.Native.String.{String}
use text.Mathlib.Text.{◌==◌ as str_eq}
use hyperliquid_rust_bot.Prelude.{
  ℕ, ◌+◌, ◌-◌, ◌%◌, ◌^◌, Bool, true, false, not, ◌&&◌, ◌||◌, Option, none, some, List, [], ◌∷◌, map,
  is_some, if◌then◌else◌,
}
use hyperliquid_rust_bot.Prelude.Maps.{nat_eq, get, insert, remove}
use hyperliquid_rust_bot.Float.{Float}
use hyperliquid_rust_bot.Helper.{round_ndp}
use hyperliquid_rust_bot.Exec.Types.{
  PositionOp, EngineOrder, TradeFillInfo, TradeInfo, OpenPositionLocal, RestingOrderLocal, side_eq,
  op_eq, is_open,
}
use hyperliquid_rust_bot.Exec.Orders.{Decimals}
use hyperliquid_rust_bot.Exec.Position
use hyperliquid_rust_bot.Exec.Env.{
  Env, Io, MarketCommand, update_open_position, send_market_command,
}
use hyperliquid_rust_bot.Exec.Cancels.{cancel_resting_oids}

pub record Executor (F : Type 0) : Type 0 where
  pub asset : String
  pub sz_decimals : ℕ
  pub exchange_client : ℕ
  pub is_paused : Bool
  pub closing : Bool
  pub resting_orders : List (ℕ × RestingOrderLocal F)
  pub open_position : Option (OpenPositionLocal F)
  pub decimals : Decimals
  -- The requests made, which the source does not keep.
  pub io : Io F

abbrev pub max_decimals : ℕ
max_decimals = 6

-- `PX_DECIMAL_ANOMALY`.
abbrev pub px_dec_fix : String → ℕ
px_dec_fix name = if str_eq name "SOL" || str_eq name "ZEC" || str_eq name "BCH" then 2 else 1

module _ {F : Type 0} ⦃f : Float F⦄ where
  -- `Executor::new` once the client is connected. The subtraction wraps, as `u32`.
  unfoldable pub new : (asset : String) (sz_decimals client : ℕ) → Executor F
  new asset sz_decimals client = record {
    asset = asset;
    sz_decimals = sz_decimals;
    exchange_client = client;
    is_paused = false;
    closing = false;
    resting_orders = [];
    open_position = none;
    decimals = record {
      sz = sz_decimals;
      px = (2 ^ 32 + max_decimals - sz_decimals - px_dec_fix asset) % 2 ^ 32;
    };
    io = record { tick = 0; log = [] };
  }

  unfoldable pub set_trading_enabled : Bool → Executor F → Executor F
  set_trading_enabled enabled s = record s { is_paused = not enabled }

  -- The resting orders that `cancel_force_target_resting` picks.
  unfoldable pub targets : PositionOp → List (ℕ × RestingOrderLocal F) → List ℕ
  targets action [] = []
  targets action ((oid, r) ∷ m) =
      let rest = targets action m in
      if not (is_some r.tpsl) && op_eq r.intent action then oid ∷ rest else rest

  -- The resting order of the fill, and whether the fill completes it; `none` if there is none.
  unfoldable pub note_fill :
      TradeFillInfo F → Executor F → Option (Bool × List (ℕ × RestingOrderLocal F))
  note_fill fill s = elim (get s.resting_orders fill.oid) [
    | none ↦ none
    | some r ↦
        let left = f.sub r.sz fill.sz in
        let clean_up = f.eq (round_ndp left s.sz_decimals) (f.of_nat 0) in
        let m = insert s.resting_orders fill.oid (record r { sz = left }) in
        some (clean_up, if clean_up then remove m fill.oid else m)
  ]

  close_with :
      ℕ
      → ℕ
      → TradeFillInfo F
      → OpenPositionLocal F
      → Option (TradeInfo F) × Option (OpenPositionLocal F)
  close_with now dp fill p =
      let (q, trade) = Position.apply_close_fill now p fill dp in
      (trade, if is_some trade then none else some q)

  open_or_close :
      Bool
      → ℕ
      → ℕ
      → TradeFillInfo F
      → OpenPositionLocal F
      → Option (TradeInfo F) × Option (OpenPositionLocal F)
  unfolding close_with
  open_or_close true now dp fill p = (none, some (Position.apply_open_fill p fill))
  open_or_close false now dp fill p = close_with now dp fill p

  -- What a fill makes of the position: the trade it completes, and the new position.
  unfoldable pub settle :
      ℕ
      → ℕ
      → TradeFillInfo F
      → Option (OpenPositionLocal F)
      → Option (TradeInfo F) × Option (OpenPositionLocal F)
  unfolding open_or_close
  settle now dp fill none =
      (none, if is_open fill.intent then some (Position.new now fill) else none)
  settle now dp fill (some p) =
      open_or_close (is_open fill.intent && side_eq p.side fill.side) now dp fill p

  abbrev pub kept_orders :
      Option (Bool × List (ℕ × RestingOrderLocal F)) → Executor F → List (ℕ × RestingOrderLocal F)
  kept_orders none s = s.resting_orders
  kept_orders (some (_, m)) s = m

  abbrev pub completed : Option (Bool × List (ℕ × RestingOrderLocal F)) → Bool
  completed none = false
  completed (some (clean_up, _)) = clean_up

  module _ (env : Env F) where
    -- The message with the position that `with_position` ends in.
    unfoldable pub publish_position : Executor F → Executor F
    publish_position s = record s {
      io = (send_market_command env (update_open_position s.open_position) s.io).1;
    }

    unfoldable pub send : MarketCommand F → Executor F → Executor F
    send cmd s = record s { io = (send_market_command env cmd s.io).1 }

    unfoldable pub cancel_oids : List ℕ → Executor F → Bool × Executor F
    cancel_oids oids s =
        let (done, c) = cancel_resting_oids env s.exchange_client oids s.resting_orders s.io in
        (done, record s { resting_orders = c.resting; io = c.io })

    unfoldable pub cancel_all_resting : Executor F → Bool × Executor F
    unfolding cancel_oids
    cancel_all_resting s =
        cancel_oids (map (λ (e : ℕ × RestingOrderLocal F). e.0) s.resting_orders) s

    unfoldable pub cancel_force_target_resting : EngineOrder F → Executor F → Bool × Executor F
    unfolding cancel_oids targets
    cancel_force_target_resting o s = cancel_oids (targets o.action s.resting_orders) s

    -- The state once the fill is entered, and the position published.
    unfoldable pub enter_fill : TradeFillInfo F → Executor F → Executor F
    enter_fill fill s = publish_position (record s {
      resting_orders = kept_orders (note_fill fill s) s;
      open_position = (settle (env.clock s.io.tick) s.sz_decimals fill s.open_position).1;
    })

    -- A trade that ends without its resting order drops the other resting orders.
    unfoldable pub clear_orders : Bool → Executor F → Executor F
    clear_orders drop_all s = if drop_all then (cancel_all_resting s).1 else s

    -- The new state, the trade, and whether the order is not the executor's.
    unfoldable pub apply_fill :
        TradeFillInfo F → Executor F → Executor F × Option (TradeInfo F) × Bool
    apply_fill fill s =
        let noted = note_fill fill s in
        let trade = (settle (env.clock s.io.tick) s.sz_decimals fill s.open_position).0 in
        (
          clear_orders (is_some trade && not (completed noted)) (enter_fill fill s),
          trade,
          not (is_some noted),
        )

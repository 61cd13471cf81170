-- ===== src/Exec/Commands.antt =====
-- src/exec/executor.rs: the commands of the executor, and its loop.
pub mod Placement
pub mod Paused
pub mod Sides
pub mod Closing
pub mod Manual
use hyperliquid_rust_bot.Prelude.{
  ℕ, zero, suc, Bool, true, false, not, ◌&&◌, Option, none, some, List, [], ◌∷◌, is_some,
  if◌then◌else◌, Result, ok, err,
}
use hyperliquid_rust_bot.Prelude.Maps.{nat_eq, contains_key, insert}
use hyperliquid_rust_bot.Float.{Float}
use hyperliquid_rust_bot.Exec.Types.{
  open_long, open_short, close, Side, long, short, not_side, EngineOrder, TradeFillInfo, TradeInfo,
  OpenPositionLocal, RestingOrderLocal, ExecCommand, order, force_taker, control, event,
  reload_wallet, is_open, fill, funding, kill, pause, resume, force_close,
}
use hyperliquid_rust_bot.Exec.Orders.{into_hl_order, is_tpsl, HlOrder}
use hyperliquid_rust_bot.Exec.Env.{
  Env, Io, Error, auth_error, unapproved_builder, receive_trade, send_auth_error,
  builder_approval_error, manual_trade_detected, open_trade,
}
use hyperliquid_rust_bot.Exec.Cancels.{max_retries}
use hyperliquid_rust_bot.Exec.Executor.{
  Executor, publish_position, send, cancel_all_resting, cancel_force_target_resting, apply_fill,
}

module _ {F : Type 0} ⦃f : Float F⦄ where
  -- The side and size that `submit_order` computes from an order and the position.
  unfoldable pub order_params : EngineOrder F → Option (OpenPositionLocal F) → Option (Side × F)
  order_params o position = elim o.action [
    | open_long ↦ some (long, o.size)
    | open_short ↦ some (short, o.size)
    | close ↦ elim position [ none ↦ none | some p ↦ some (not_side p.side, f.fmin o.size p.size) ]
  ]

  -- The side and size of the order that `kill` places.
  unfoldable pub kill_params : (skip : Bool) → Option (OpenPositionLocal F) → Option (Side × F)
  kill_params skip none = none
  kill_params skip (some p) = if skip then none else some (not_side p.side, p.size)

  -- An order that the exchange took is kept as resting.
  unfoldable pub keep_order : RestingOrderLocal F → Executor F → Executor F
  keep_order r s = record s { resting_orders = insert s.resting_orders r.oid r }

  module _ (env : Env F) where
    -- The loop of `kill`, with the attempts left: a failed order is placed again.
    unfoldable pub place_until :
        (client : ℕ) → HlOrder F → (attempts : ℕ) → Io F → Option (RestingOrderLocal F) × Io F
    place_until client o zero io = (none, io)
    place_until client o (suc attempts) io =
        let (answer, io') = open_trade env client o close none io in
        let again = place_until client o attempts io' in
        elim answer [ ok r ↦ (some r, io') | err _ ↦ again ]

    unfoldable pub close_out : Option (Side × F) → Executor F → Executor F
    close_out none s = s
    close_out (some (side, size)) s =
        let o = into_hl_order s.asset size side none close s.decimals in
        let (placed, io) = place_until s.exchange_client o max_retries s.io in
        let t = record s { closing = true; io = io } in
        elim placed [ none ↦ t | some r ↦ keep_order r t ]

    -- `Executor::kill`.
    unfoldable pub kill_orders : (close_paused_position : Bool) → Executor F → Executor F
    kill_orders close_paused_position s =
        let t = publish_position env (cancel_all_resting env s).1 in
        close_out (kill_params (t.is_paused && not close_paused_position) t.open_position) t

    -- What `submit_order` does with the answer to its order.
    unfoldable pub after_order : Result Error (RestingOrderLocal F) → Executor F → Executor F
    after_order (ok r) s = keep_order r s
    after_order (err (auth_error msg)) s = record (send env (send_auth_error msg) s) {
      is_paused = true;
    }
    after_order (err (unapproved_builder msg)) s =
        record (send env (builder_approval_error msg) s) { is_paused = true }
    after_order (err _) s = s

    unfoldable pub submit_with : Option (Side × F) → EngineOrder F → Executor F → Executor F
    submit_with none o s = s
    submit_with (some (side, size)) o s =
        let hl = into_hl_order s.asset size side o.limit o.action s.decimals in
        let (answer, io) = open_trade env s.exchange_client hl o.action (is_tpsl o.limit) s.io in
        after_order answer (record s { io = io })

    -- `Executor::submit_order`: only a closing order looks at the position, and publishes it.
    unfoldable pub submit_order : EngineOrder F → Executor F → Executor F
    submit_order o s =
        let t = if is_open o.action then s else publish_position env s in
        submit_with (order_params o s.open_position) o t

    -- `Executor::force_taker`.
    unfoldable pub force_taker_order : EngineOrder F → Executor F → Executor F
    force_taker_order o s =
        let (done, t) = cancel_force_target_resting env o s in
        let u = if is_open o.action then publish_position env t else t in
        if not done
        then t
        else if is_open o.action && is_some t.open_position
        then u
        else submit_order (record o { limit = none }) u

    -- A fill whose order is unknown pauses the executor before it is applied.
    unfoldable pub detect_manual : TradeFillInfo F → Executor F → Executor F
    detect_manual filled s =
        if contains_key s.resting_orders filled.oid
        then s
        else let t = (cancel_all_resting env (record s { is_paused = true })).1 in
          if s.is_paused then t else send env manual_trade_detected t

    -- What `start` does with the trade that a fill completed.
    unfoldable pub report :
        TradeFillInfo F → Option (TradeInfo F) → (is_manual : Bool) → Executor F → Executor F
    report filled none is_manual s = s
    report filled (some info) is_manual s =
        let t = record s { closing = if is_open filled.intent then s.closing else false } in
        if is_manual then t else send env (receive_trade info) t

    unfoldable pub on_fill : TradeFillInfo F → Executor F → Executor F
    on_fill filled s =
        let (t, trade, is_manual) = apply_fill env filled (detect_manual filled s) in
        report filled trade is_manual t

    unfoldable pub on_funding : F → Executor F → Executor F
    on_funding paid s =
        let pos : Option (OpenPositionLocal F) = elim s.open_position [
          | none ↦ none
          | some p ↦ some (record p { funding = f.add p.funding paid })
        ] in
        publish_position env (record s { open_position = pos })

    -- One round of the loop in `start`; `false` ends the loop.
    unfoldable pub handle : ExecCommand F → Executor F → Bool × Executor F
    handle (order o) s = (true, if s.is_paused then s else submit_order o s)
    handle (force_taker o) s = (true, if s.is_paused then s else force_taker_order o s)
    handle (control kill) s = (false, kill_orders false s)
    handle (control pause) s = (true, record (kill_orders false s) { is_paused = true })
    handle (control resume) s = (true, record s { is_paused = false })
    handle (control force_close) s = (true, kill_orders true s)
    handle (reload_wallet client) s = (true, record s { exchange_client = client })
    handle (event (fill filled)) s = (true, on_fill filled s)
    handle (event (funding paid)) s = (true, on_funding paid s)

    -- `Executor::start` over the commands that it receives.
    unfoldable pub start : List (ExecCommand F) → Executor F → Executor F
    start [] s = s
    start (cmd ∷ cmds) s =
        let (go_on, t) = handle cmd s in let rest = start cmds t in if go_on then rest else t

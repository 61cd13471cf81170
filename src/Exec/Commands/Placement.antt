-- ===== src/Exec/Commands/Placement.antt =====
-- Which commands place orders, and how many.
use hyperliquid_rust_bot.Prelude.{
  ℕ, zero, suc, ◌+◌, ◌≤◌, ◌≡◌, ◌∙◌, refl, Bool, true, false, not, ◌&&◌, Option, none, some, List,
  [], ◌∷◌, arith, if◌then◌else◌, is_some, Result, ok, err,
}
use hyperliquid_rust_bot.Float.{Float}
use hyperliquid_rust_bot.Exec.Types.{
  PositionOp, close, EngineOrder, TradeFillInfo, TradeInfo, RestingOrderLocal, Side, TriggerKind,
  ExecCommand, order, force_taker, control, event, reload_wallet, fill, funding, kill, pause,
  resume, force_close, is_open,
}
use hyperliquid_rust_bot.Exec.Orders.{HlOrder, into_hl_order}
use hyperliquid_rust_bot.Exec.Env.{
  Env, Io, Error, auth_error, unapproved_builder, MarketCommand, manual_trade_detected,
  send_market_command, open_trade,
}
use hyperliquid_rust_bot.Exec.Cancels.{max_retries}
use hyperliquid_rust_bot.Exec.Cancels.Laws.{orders_placed, orders_placed-cancel_resting_oids}
use hyperliquid_rust_bot.Exec.Executor.{
  Executor, publish_position, send, cancel_oids, cancel_all_resting, targets,
  cancel_force_target_resting, apply_fill, enter_fill, clear_orders,
}
use hyperliquid_rust_bot.Exec.Commands.{
  order_params, kill_params, keep_order, place_until, close_out, kill_orders, after_order,
  submit_with, submit_order, force_taker_order, detect_manual, report, on_fill, on_funding, handle,
  start,
}

module _ {F : Type 0} where
  -- The orders placed so far.
  abbrev pub placed_by : Executor F → ℕ
  placed_by s = orders_placed s.io.log

  -- The orders that one command may place.
  abbrev pub allowance : ExecCommand F → ℕ
  allowance (order o) = 1
  allowance (force_taker o) = 1
  allowance (control resume) = 0
  allowance (control _) = max_retries
  allowance (event _) = 0
  allowance (reload_wallet _) = 0

  abbrev pub allowances : List (ExecCommand F) → ℕ
  allowances [] = 0
  allowances (cmd ∷ cmds) = allowance cmd + allowances cmds

module _ {F : Type 0} ⦃f : Float F⦄ (env : Env F) where
  pub placed_by-send :
      (cmd : MarketCommand F) (s : Executor F) → placed_by (send env cmd s) ≡ placed_by s
  unfolding send send_market_command
  placed_by-send cmd s = ground arith

  pub placed_by-publish_position :
      (s : Executor F) → placed_by (publish_position env s) ≡ placed_by s
  unfolding publish_position send_market_command
  placed_by-publish_position s = ground arith

  pub placed_by-cancel_oids :
      (oids : List ℕ) (s : Executor F) → placed_by (cancel_oids env oids s).1 ≡ placed_by s
  unfolding cancel_oids
  placed_by-cancel_oids oids s =
      orders_placed-cancel_resting_oids env s.exchange_client oids s.resting_orders s.io

  pub placed_by-cancel_all_resting :
      (s : Executor F) → placed_by (cancel_all_resting env s).1 ≡ placed_by s
  unfolding cancel_all_resting
  placed_by-cancel_all_resting s = placed_by-cancel_oids _ s

  placed_by-clear_orders :
      (drop_all : Bool) (s : Executor F) → placed_by (clear_orders env drop_all s) ≡ placed_by s
  unfolding clear_orders
  placed_by-clear_orders true s = placed_by-cancel_all_resting s
  placed_by-clear_orders false s = refl

  placed_by-apply_fill :
      (filled : TradeFillInfo F) (s : Executor F)
      → placed_by (apply_fill env filled s).0 ≡ placed_by s
  unfolding apply_fill enter_fill
  placed_by-apply_fill filled s =
      placed_by-clear_orders _ (enter_fill env filled s) ∙ placed_by-publish_position _

  placed_by-detect_manual :
      (filled : TradeFillInfo F) (s : Executor F)
      → placed_by (detect_manual env filled s) ≡ placed_by s
  unfolding detect_manual
  placed_by-detect_manual filled s =
      let t = record s { is_paused = true } in
      let u = (cancel_all_resting env t).1 in
      ground (arith, placed_by-cancel_all_resting t, placed_by-send manual_trade_detected u)

  placed_by-report :
      (filled : TradeFillInfo F) (trade : Option (TradeInfo F)) (is_manual : Bool) (s : Executor F)
      → placed_by (report env filled trade is_manual s) ≡ placed_by s
  unfolding report
  placed_by-report filled none is_manual s = refl
  placed_by-report filled (some info) true s = refl
  placed_by-report filled (some info) false s = placed_by-send _ _

  pub placed_by-on_fill :
      (filled : TradeFillInfo F) (s : Executor F) → placed_by (on_fill env filled s) ≡ placed_by s
  unfolding on_fill
  placed_by-on_fill filled s =
      let t = detect_manual env filled s in
      placed_by-report filled _ _ (apply_fill env filled t).0
      ∙ placed_by-apply_fill filled t
      ∙ placed_by-detect_manual filled s

  pub placed_by-on_funding :
      (paid : F) (s : Executor F) → placed_by (on_funding env paid s) ≡ placed_by s
  unfolding on_funding
  placed_by-on_funding paid s = placed_by-publish_position _

  placed_by-after_order :
      (answer : Result Error (RestingOrderLocal F)) (s : Executor F)
      → placed_by (after_order env answer s) ≡ placed_by s
  unfolding after_order keep_order
  placed_by-after_order (ok r) s = refl
  placed_by-after_order (err (auth_error msg)) s = placed_by-send _ s
  placed_by-after_order (err (unapproved_builder msg)) s = placed_by-send _ s
  placed_by-after_order (err _) s = refl

  placed_by-submit_with :
      (params : Option (Side × F)) (o : EngineOrder F) (s : Executor F)
      → placed_by (submit_with env params o s)
        ≡ (if is_some params then suc (placed_by s) else placed_by s)
  unfolding submit_with open_trade
  placed_by-submit_with none o s = refl
  placed_by-submit_with (some (side, size)) o s = placed_by-after_order _ _

  pub placed_by-submit_order :
      (o : EngineOrder F) (s : Executor F)
      → placed_by (submit_order env o s)
        ≡ (if is_some (order_params o s.open_position) then suc (placed_by s) else placed_by s)
  unfolding submit_order
  placed_by-submit_order o s =
      let t = if is_open o.action then s else publish_position env s in
      rw (placed_by-submit_with (order_params o s.open_position) o t)
        (ground (arith, placed_by-publish_position s))

  orders_placed-open_trade :
      (client : ℕ) (o : HlOrder F) (op : PositionOp) (t : Option TriggerKind) (io : Io F)
      → orders_placed (open_trade env client o op t io).1.log ≡ suc (orders_placed io.log)
  unfolding open_trade
  orders_placed-open_trade client o op t io = refl

  placed_by-place_until :
      (client : ℕ) (o : HlOrder F) (attempts : ℕ) (io : Io F)
      → orders_placed (place_until env client o attempts io).1.log ≤ orders_placed io.log + attempts
  unfolding place_until
  placed_by-place_until client o zero io = omega arith
  placed_by-place_until client o (suc attempts) io =
      let io' = (open_trade env client o close none io).1 in
      ground (
        arith,
        orders_placed-open_trade client o close none io,
        placed_by-place_until client o attempts io',
      )

  placed_by-close_out :
      (params : Option (Side × F)) (s : Executor F)
      → placed_by (close_out env params s)
        ≤ (if is_some params then placed_by s + max_retries else placed_by s)
  unfolding close_out keep_order
  placed_by-close_out none s = omega arith
  placed_by-close_out (some (side, size)) s =
      let o = into_hl_order s.asset size side none close s.decimals in
      ground (arith, placed_by-place_until s.exchange_client o max_retries s.io)

  pub placed_by-kill_orders :
      (close_paused : Bool) (s : Executor F)
      → placed_by (kill_orders env close_paused s) ≤ (
          if is_some (kill_params (s.is_paused && not close_paused) s.open_position)
          then placed_by s + max_retries
          else placed_by s)
  unfolding kill_orders publish_position cancel_all_resting cancel_oids
  placed_by-kill_orders close_paused s =
      let t = (cancel_all_resting env s).1 in
      let u = publish_position env t in
      let b =
        placed_by-close_out (kill_params (s.is_paused && not close_paused) s.open_position) u in
      ground (arith, b, placed_by-publish_position t, placed_by-cancel_all_resting s)

  pub placed_by-force_taker_order :
      (o : EngineOrder F) (s : Executor F) → placed_by (force_taker_order env o s) ≤ placed_by s + 1
  unfolding force_taker_order cancel_force_target_resting
  placed_by-force_taker_order o s =
      let (done, t) = cancel_force_target_resting env o s in
      let u = if is_open o.action then publish_position env t else t in
      ground (
        arith,
        placed_by-cancel_oids (targets o.action s.resting_orders) s,
        placed_by-publish_position t,
        placed_by-submit_order (record o { limit = none }) u,
      )

  placed_by-handle :
      (cmd : ExecCommand F) (s : Executor F)
      → placed_by (handle env cmd s).1 ≤ placed_by s + allowance cmd
  unfolding handle
  placed_by-handle (order o) s = ground (arith, placed_by-submit_order o s)
  placed_by-handle (force_taker o) s = ground (arith, placed_by-force_taker_order o s)
  placed_by-handle (control kill) s = ground (arith, placed_by-kill_orders false s)
  placed_by-handle (control pause) s = ground (arith, placed_by-kill_orders false s)
  placed_by-handle (control resume) s = omega arith
  placed_by-handle (control force_close) s = ground (arith, placed_by-kill_orders true s)
  placed_by-handle (reload_wallet client) s = omega arith
  placed_by-handle (event (fill filled)) s = omega (arith, placed_by-on_fill filled s)
  placed_by-handle (event (funding paid)) s = omega (arith, placed_by-on_funding paid s)

  -- Over a run of the executor, the exchange sees at most one order for each order command, at most
  -- five for a kill, pause or forced close, and none for a fill, a funding payment, a resumption or a
  -- new wallet.
  pub start_places_few :
      (cmds : List (ExecCommand F)) (s : Executor F)
      → placed_by (start env cmds s) ≤ placed_by s + allowances cmds
  unfolding start
  start_places_few [] s = omega arith
  start_places_few (cmd ∷ cmds) s =
      let t = (handle env cmd s).1 in
      ground (arith, placed_by-handle cmd s, start_places_few cmds t)

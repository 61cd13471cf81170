-- ===== src/Exec/Commands/Sides.antt =====
-- Which commands change the position, and how.
use hyperliquid_rust_bot.Prelude.{
  subst, ◌≡◌, ◌∙◌, ap, refl, Bool, true, false, Option, none, some, List, [], ◌∷◌, All, arith,
  Result, ok, err, if◌then◌else◌,
}
use hyperliquid_rust_bot.Float.{Float}
use hyperliquid_rust_bot.Exec.Types.{
  Side, EngineOrder, TradeFillInfo, TradeInfo, OpenPositionLocal, RestingOrderLocal, ExecCommand,
  order, force_taker, control, event, reload_wallet, fill, funding, kill, pause, resume,
  force_close, is_open,
}
use hyperliquid_rust_bot.Exec.Env.{Env, Error, auth_error, unapproved_builder}
use hyperliquid_rust_bot.Exec.Executor.{
  Executor, publish_position, send, cancel_oids, cancel_all_resting, cancel_force_target_resting,
  apply_fill, enter_fill, clear_orders, settle,
}
use hyperliquid_rust_bot.Exec.Executor.Settle.{Follows, SameSide, SameSide-self, settle_lem}
use hyperliquid_rust_bot.Exec.Commands.{
  detect_manual, report, on_fill, on_funding, handle, start, kill_orders, close_out, keep_order,
  after_order, submit_with, submit_order, force_taker_order, order_params,
}

module _ {F : Type 0} where
  abbrev pub IsRequest : ExecCommand F → Type 0
  IsRequest (event _) = ⊥
  IsRequest _ = Unit

module _ {F : Type 0} ⦃f : Float F⦄ (env : Env F) where
  open_position-detect_manual :
      (filled : TradeFillInfo F) (s : Executor F)
      → (detect_manual env filled s).open_position ≡ s.open_position
  unfolding detect_manual cancel_all_resting cancel_oids send
  open_position-detect_manual filled s = ground arith

  open_position-clear_orders :
      (drop_all : Bool) (s : Executor F)
      → (clear_orders env drop_all s).open_position ≡ s.open_position
  unfolding clear_orders cancel_all_resting cancel_oids
  open_position-clear_orders true s = refl
  open_position-clear_orders false s = refl

  open_position-report :
      (filled : TradeFillInfo F) (trade : Option (TradeInfo F)) (is_manual : Bool) (s : Executor F)
      → (report env filled trade is_manual s).open_position ≡ s.open_position
  unfolding report send
  open_position-report filled none is_manual s = refl
  open_position-report filled (some info) true s = refl
  open_position-report filled (some info) false s = refl

  -- A fill event leaves the position that `settle` makes of it.
  pub open_position-on_fill :
      (filled : TradeFillInfo F) (s : Executor F)
      → let t = detect_manual env filled s in
        (on_fill env filled s).open_position
        ≡ (settle (env.clock t.io.tick) t.sz_decimals filled s.open_position).1
  unfolding on_fill apply_fill enter_fill publish_position
  open_position-on_fill filled s =
      let t = detect_manual env filled s in
      open_position-report filled _ _ (apply_fill env filled t).0
      ∙ open_position-clear_orders _ (enter_fill env filled t)
      ∙ ap (λ pos. (settle (env.clock t.io.tick) t.sz_decimals filled pos).1)
          (open_position-detect_manual filled s)

  open_position-close_out :
      (params : Option (Side × F)) (s : Executor F)
      → (close_out env params s).open_position ≡ s.open_position
  unfolding close_out keep_order
  open_position-close_out none s = refl
  open_position-close_out (some (side, size)) s = ground arith

  open_position-kill_orders :
      (close_paused : Bool) (s : Executor F)
      → (kill_orders env close_paused s).open_position ≡ s.open_position
  unfolding kill_orders publish_position cancel_all_resting cancel_oids
  open_position-kill_orders close_paused s = open_position-close_out _ _

  open_position-after_order :
      (answer : Result Error (RestingOrderLocal F)) (s : Executor F)
      → (after_order env answer s).open_position ≡ s.open_position
  unfolding after_order keep_order send
  open_position-after_order (ok r) s = refl
  open_position-after_order (err (auth_error msg)) s = refl
  open_position-after_order (err (unapproved_builder msg)) s = refl
  open_position-after_order (err _) s = refl

  open_position-submit_with :
      (params : Option (Side × F)) (o : EngineOrder F) (s : Executor F)
      → (submit_with env params o s).open_position ≡ s.open_position
  unfolding submit_with
  open_position-submit_with none o s = refl
  open_position-submit_with (some (side, size)) o s = open_position-after_order _ _

  open_position-submit_order :
      (o : EngineOrder F) (s : Executor F) → (submit_order env o s).open_position ≡ s.open_position
  unfolding submit_order publish_position
  open_position-submit_order o s =
      let t = if is_open o.action then s else publish_position env s in
      ground (arith, open_position-submit_with (order_params o s.open_position) o t)

  open_position-force_taker_order :
      (o : EngineOrder F) (s : Executor F)
      → (force_taker_order env o s).open_position ≡ s.open_position
  unfolding force_taker_order publish_position cancel_force_target_resting cancel_oids
  open_position-force_taker_order o s =
      let t = (cancel_force_target_resting env o s).1 in
      let u = if is_open o.action then publish_position env t else t in
      ground (arith, open_position-submit_order (record o { limit = none }) u)

  open_position-handle :
      (cmd : ExecCommand F) (s : Executor F)
      → IsRequest cmd
      → (handle env cmd s).1.open_position ≡ s.open_position
  unfolding handle
  open_position-handle (order o) s q = ground (arith, open_position-submit_order o s)
  open_position-handle (force_taker o) s q = ground (arith, open_position-force_taker_order o s)
  open_position-handle (control kill) s q = open_position-kill_orders false s
  open_position-handle (control pause) s q = open_position-kill_orders false s
  open_position-handle (control resume) s q = refl
  open_position-handle (control force_close) s q = open_position-kill_orders true s
  open_position-handle (reload_wallet client) s q = refl
  open_position-handle (event e) s q = absurd q

  SameSide-on_funding :
      (paid : F) (s : Executor F) (p : OpenPositionLocal F)
      → s.open_position ≡ some p
      → SameSide p (on_funding env paid s).open_position
  unfolding on_funding publish_position
  SameSide-on_funding paid s p h = ground arith

  -- Whatever command the executor handles, if a position is open before it and one is open after it, the
  -- two are on the same side.
  pub handle_keeps_side :
      (cmd : ExecCommand F) (s : Executor F) (p : OpenPositionLocal F)
      → s.open_position ≡ some p
      → SameSide p (handle env cmd s).1.open_position
  unfolding handle
  handle_keeps_side (order o) s p h = SameSide-self p _ (open_position-handle (order o) s tt ∙ h)
  handle_keeps_side (force_taker o) s p h =
      SameSide-self p _ (open_position-handle (force_taker o) s tt ∙ h)
  handle_keeps_side (control c) s p h =
      SameSide-self p _ (open_position-handle (control c) s tt ∙ h)
  handle_keeps_side (reload_wallet client) s p h =
      SameSide-self p _ (open_position-handle (reload_wallet client) s tt ∙ h)
  handle_keeps_side (event (fill filled)) s p h =
      let t = detect_manual env filled s in
      rw (open_position-on_fill filled s) (
        subst (λ x. Follows x (settle (env.clock t.io.tick) t.sz_decimals filled s.open_position).1)
          h (settle_lem (env.clock t.io.tick) t.sz_decimals filled s.open_position).0)
  handle_keeps_side (event (funding paid)) s p h = SameSide-on_funding paid s p h

  -- No command but an event of the exchange changes the position: orders, kills and pauses ask for
  -- trades, and the position follows the fills alone.
  start_keeps_position :
      (cmds : List (ExecCommand F)) (s : Executor F)
      → All IsRequest cmds
      → (start env cmds s).open_position ≡ s.open_position
  unfolding start
  start_keeps_position [] s q = refl
  start_keeps_position (cmd ∷ cmds) s (q, qs) =
      let t = (handle env cmd s).1 in
      ground (arith, open_position-handle cmd s q, start_keeps_position cmds t qs)

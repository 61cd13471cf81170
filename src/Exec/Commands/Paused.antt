-- ===== src/Exec/Commands/Paused.antt =====
-- A paused executor.
use hyperliquid_rust_bot.Prelude.{
  ◌≤◌, ◌≡◌, ◌∙◌, refl, Bool, true, false, Option, none, some, List, [], ◌∷◌, All, arith,
}
use hyperliquid_rust_bot.Float.{Float}
use hyperliquid_rust_bot.Exec.Types.{
  TradeFillInfo, TradeInfo, OpenPositionLocal, Side, ExecCommand, order, force_taker, control,
  event, reload_wallet, fill, funding, kill, pause, resume, force_close,
}
use hyperliquid_rust_bot.Exec.Env.{Env}
use hyperliquid_rust_bot.Exec.Executor.{
  Executor, publish_position, send, cancel_oids, cancel_all_resting, apply_fill, enter_fill,
  clear_orders,
}
use hyperliquid_rust_bot.Exec.Commands.{
  detect_manual, report, on_fill, on_funding, handle, start, kill_orders, kill_params, close_out,
  keep_order,
}
use hyperliquid_rust_bot.Exec.Commands.Placement.{
  placed_by, placed_by-kill_orders, placed_by-on_fill, placed_by-on_funding,
}

module _ {F : Type 0} where
  -- Every command but those of the user that resume trading or close the position.
  abbrev pub IsQuiet : ExecCommand F → Type 0
  IsQuiet (control resume) = ⊥
  IsQuiet (control force_close) = ⊥
  IsQuiet _ = Unit

module _ {F : Type 0} ⦃f : Float F⦄ (env : Env F) where
  is_paused-clear_orders :
      (drop_all : Bool) (s : Executor F) → (clear_orders env drop_all s).is_paused ≡ s.is_paused
  unfolding clear_orders cancel_all_resting cancel_oids
  is_paused-clear_orders true s = refl
  is_paused-clear_orders false s = refl

  is_paused-report :
      (filled : TradeFillInfo F) (trade : Option (TradeInfo F)) (is_manual : Bool) (s : Executor F)
      → (report env filled trade is_manual s).is_paused ≡ s.is_paused
  unfolding report send
  is_paused-report filled none is_manual s = refl
  is_paused-report filled (some info) true s = refl
  is_paused-report filled (some info) false s = refl

  is_paused-detect_manual :
      (filled : TradeFillInfo F) (s : Executor F)
      → s.is_paused ≡ true
      → (detect_manual env filled s).is_paused ≡ true
  unfolding detect_manual cancel_all_resting cancel_oids
  is_paused-detect_manual filled s h = ground arith

  pub is_paused-on_fill :
      (filled : TradeFillInfo F) (s : Executor F)
      → (on_fill env filled s).is_paused ≡ (detect_manual env filled s).is_paused
  unfolding on_fill apply_fill enter_fill publish_position
  is_paused-on_fill filled s =
      let t = detect_manual env filled s in
      is_paused-report filled _ _ (apply_fill env filled t).0
      ∙ is_paused-clear_orders _ (enter_fill env filled t)

  kill_params_skip :
      (position : Option (OpenPositionLocal F)) → kill_params {F = F} true position ≡ none
  unfolding kill_params
  kill_params_skip none = refl
  kill_params_skip (some p) = refl

  is_paused-close_out :
      (params : Option (Side × F)) (s : Executor F)
      → (close_out env params s).is_paused ≡ s.is_paused
  unfolding close_out keep_order
  is_paused-close_out none s = refl
  is_paused-close_out (some (side, size)) s = ground arith

  -- `kill` leaves a paused executor's position alone.
  kill_orders_paused :
      (s : Executor F)
      → s.is_paused ≡ true
      → ((kill_orders env false s).is_paused ≡ true)
        × (placed_by (kill_orders env false s) ≤ placed_by s)
  unfolding kill_orders publish_position cancel_all_resting cancel_oids
  kill_orders_paused s h = (
    is_paused-close_out _ _ ∙ h,
    ground (arith, placed_by-kill_orders env false s, kill_params_skip s.open_position),
  )

  is_paused-on_funding :
      (paid : F) (s : Executor F) → (on_funding env paid s).is_paused ≡ s.is_paused
  unfolding on_funding publish_position
  is_paused-on_funding paid s = refl

  handle_paused :
      (cmd : ExecCommand F) (s : Executor F)
      → IsQuiet cmd
      → s.is_paused ≡ true
      → ((handle env cmd s).1.is_paused ≡ true) × (placed_by (handle env cmd s).1 ≤ placed_by s)
  unfolding handle
  handle_paused (order o) s q h = ground arith
  handle_paused (force_taker o) s q h = ground arith
  handle_paused (control kill) s q h = kill_orders_paused s h
  handle_paused (control pause) s q h = ground (arith, kill_orders_paused s h)
  handle_paused (control resume) s q h = absurd q
  handle_paused (control force_close) s q h = absurd q
  handle_paused (reload_wallet client) s q h = ground arith
  handle_paused (event (fill filled)) s q h = ground (
    arith,
    placed_by-on_fill env filled s,
    is_paused-on_fill filled s,
    is_paused-detect_manual filled s,
  )
  handle_paused (event (funding paid)) s q h =
      ground (arith, placed_by-on_funding env paid s, is_paused-on_funding paid s)

  -- Once paused, the executor stays paused and places no further order, whatever fills, payments,
  -- orders, wallets, pauses and kills it receives, until it is resumed or a forced close is commanded.
  pub start_paused :
      (cmds : List (ExecCommand F)) (s : Executor F)
      → All IsQuiet cmds
      → s.is_paused ≡ true
      → ((start env cmds s).is_paused ≡ true) × (placed_by (start env cmds s) ≤ placed_by s)
  unfolding start
  start_paused [] s q h = (h, omega arith)
  start_paused (cmd ∷ cmds) s (q, qs) h =
      let t = (handle env cmd s).1 in
      ground (arith, handle_paused cmd s q h, start_paused cmds t qs)

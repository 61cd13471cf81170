-- ===== src/Exec/Commands/Manual.antt =====
-- A fill whose order the executor does not know.
use hyperliquid_rust_bot.Prelude.{
  ℕ, ◌≡◌, ◌∙◌, refl, ◌||◌, Bool, true, false, Option, none, some, List, [], ◌∷◌, map, arith,
}
use hyperliquid_rust_bot.Prelude.Maps.{nat_eq, get, contains_key, contains_key-get, mem}
use hyperliquid_rust_bot.Float.{Float}
use hyperliquid_rust_bot.Exec.Types.{TradeFillInfo, TradeInfo, RestingOrderLocal}
use hyperliquid_rust_bot.Exec.Env.{Env, MarketCommand, manual_trade_detected, send_market_command}
use hyperliquid_rust_bot.Exec.Cancels.Laws.{requested, cancel_resting_oids_lem}
use hyperliquid_rust_bot.Exec.Executor.{
  Executor, publish_position, send, cancel_oids, cancel_all_resting, note_fill, apply_fill,
  enter_fill, clear_orders,
}
use hyperliquid_rust_bot.Exec.Commands.{detect_manual, report, on_fill}
use hyperliquid_rust_bot.Exec.Commands.Paused.{is_paused-on_fill}

mem-keys {ℓ} :
    {V : Type ℓ} (m : List (ℕ × V)) (k : ℕ) → mem (map (λ (e : ℕ × V). e.0) m) k ≡ contains_key m k
unfolding mem contains_key
mem-keys [] k = refl
mem-keys ((j, v) ∷ m) k = ground (arith, mem-keys m k)

module _ {F : Type 0} ⦃f : Float F⦄ (env : Env F) where
  -- The executor knows no resting order once all resting orders are cancelled, also where the exchange refused.
  pub get-cancel_all_resting :
      (s : Executor F) (oid : ℕ) → get (cancel_all_resting env s).1.resting_orders oid ≡ none
  unfolding cancel_all_resting cancel_oids
  get-cancel_all_resting s oid =
      let keys = map (λ (e : ℕ × RestingOrderLocal F). e.0) s.resting_orders in
      let l = (cancel_resting_oids_lem env s.exchange_client keys s.resting_orders s.io oid).0 in
      ground (arith, l, mem-keys s.resting_orders oid, contains_key-get s.resting_orders oid)

  -- The cancellation of every order that rested was requested.
  requested-cancel_all_resting :
      (s : Executor F) (oid : ℕ)
      → requested oid (cancel_all_resting env s).1.io.log
        ≡ requested oid s.io.log || contains_key s.resting_orders oid
  unfolding cancel_all_resting cancel_oids
  requested-cancel_all_resting s oid =
      let keys = map (λ (e : ℕ × RestingOrderLocal F). e.0) s.resting_orders in
      let l = (cancel_resting_oids_lem env s.exchange_client keys s.resting_orders s.io oid).1 in
      ground (arith, l, mem-keys s.resting_orders oid)

  requested-send :
      (cmd : MarketCommand F) (s : Executor F) (oid : ℕ)
      → requested oid (send env cmd s).io.log ≡ requested oid s.io.log
  unfolding send send_market_command
  requested-send cmd s oid = ground arith

  requested-detect_manual :
      (filled : TradeFillInfo F) (s : Executor F) (oid : ℕ)
      → contains_key s.resting_orders filled.oid ≡ false
      → requested oid (detect_manual env filled s).io.log
        ≡ requested oid s.io.log || contains_key s.resting_orders oid
  unfolding detect_manual
  requested-detect_manual filled s oid h =
      let t = (cancel_all_resting env (record s { is_paused = true })).1 in
      ground (
        arith,
        requested-cancel_all_resting (record s { is_paused = true }) oid,
        requested-send manual_trade_detected t oid,
        h,
      )

  requested-enter_fill :
      (filled : TradeFillInfo F) (s : Executor F) (oid : ℕ)
      → requested oid (enter_fill env filled s).io.log ≡ requested oid s.io.log
  unfolding enter_fill publish_position send_market_command
  requested-enter_fill filled s oid = ground arith

  -- With no resting order there is nothing to cancel.
  requested-clear_orders :
      (drop_all : Bool) (s : Executor F) (oid : ℕ)
      → get s.resting_orders oid ≡ none
      → requested oid (clear_orders env drop_all s).io.log ≡ requested oid s.io.log
  unfolding clear_orders
  requested-clear_orders true s oid h =
      ground (arith, requested-cancel_all_resting s oid, contains_key-get s.resting_orders oid)
  requested-clear_orders false s oid h = refl

  requested-report :
      (filled : TradeFillInfo F) (trade : Option (TradeInfo F)) (is_manual : Bool) (s : Executor F)
      (oid : ℕ)
      → requested oid (report env filled trade is_manual s).io.log ≡ requested oid s.io.log
  unfolding report send send_market_command
  requested-report filled none is_manual s oid = refl
  requested-report filled (some info) true s oid = refl
  requested-report filled (some info) false s oid = ground arith

  get-detect_manual :
      (filled : TradeFillInfo F) (s : Executor F) (oid : ℕ)
      → contains_key s.resting_orders filled.oid ≡ false
      → get (detect_manual env filled s).resting_orders oid ≡ none
  unfolding detect_manual send
  get-detect_manual filled s oid h =
      ground (arith, get-cancel_all_resting (record s { is_paused = true }) oid)

  get-clear_orders :
      (drop_all : Bool) (s : Executor F) (oid : ℕ)
      → get s.resting_orders oid ≡ none
      → get (clear_orders env drop_all s).resting_orders oid ≡ none
  unfolding clear_orders
  get-clear_orders true s oid h = get-cancel_all_resting s oid
  get-clear_orders false s oid h = h

  get-report :
      (filled : TradeFillInfo F) (trade : Option (TradeInfo F)) (is_manual : Bool) (s : Executor F)
      → (report env filled trade is_manual s).resting_orders ≡ s.resting_orders
  unfolding report send
  get-report filled none is_manual s = refl
  get-report filled (some info) true s = refl
  get-report filled (some info) false s = refl

  get-enter_fill :
      (filled : TradeFillInfo F) (s : Executor F) (oid : ℕ)
      → get s.resting_orders filled.oid ≡ none
      → get s.resting_orders oid ≡ none
      → get (enter_fill env filled s).resting_orders oid ≡ none
  unfolding enter_fill note_fill publish_position
  get-enter_fill filled s oid h e = ground arith

  is_paused-unknown :
      (filled : TradeFillInfo F) (s : Executor F)
      → contains_key s.resting_orders filled.oid ≡ false
      → (detect_manual env filled s).is_paused ≡ true
  unfolding detect_manual cancel_all_resting cancel_oids send
  is_paused-unknown filled s h = ground arith

  -- A fill of an order that the executor does not know pauses it, and it then knows no resting order; it
  -- has requested, beside what was requested before, the cancellation of just the orders that rested.
  pub on_fill_unknown :
      (filled : TradeFillInfo F) (s : Executor F) (oid : ℕ)
      → contains_key s.resting_orders filled.oid ≡ false
      → ((on_fill env filled s).is_paused ≡ true)
        × (get (on_fill env filled s).resting_orders oid ≡ none)
        × (requested oid (on_fill env filled s).io.log
            ≡ requested oid s.io.log || contains_key s.resting_orders oid)
  unfolding on_fill apply_fill
  on_fill_unknown filled s oid h =
      let t = detect_manual env filled s in
      let empty = get-detect_manual filled s in
      let entered = get-enter_fill filled t oid (empty filled.oid h) (empty oid h) in
      (
        is_paused-on_fill env filled s ∙ is_paused-unknown filled s h,
        rw (get-report filled _ _ (apply_fill env filled t).0)
            (get-clear_orders _ (enter_fill env filled t) oid entered),
        requested-report filled _ _ (apply_fill env filled t).0 oid
            ∙ requested-clear_orders _ (enter_fill env filled t) oid entered
            ∙ requested-enter_fill filled t oid
            ∙ requested-detect_manual filled s oid h,
      )

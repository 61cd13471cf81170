-- ===== src/Exec/Commands/Closing.antt =====
-- The orders that close a position.
use Prim.Native.String.{String}
use hyperliquid_rust_bot.Prelude.{
  ℕ, zero, suc, ◌≡◌, refl, Bool, false, not, ◌&&◌, Option, none, some, List, [], ◌∷◌, arith, Result,
  ok, err,
}
use hyperliquid_rust_bot.Float.{Float}
use hyperliquid_rust_bot.Helper.{round_ndp}
use hyperliquid_rust_bot.Exec.Types.{
  PositionOp, Side, close, not_side, TriggerKind, Limit, EngineOrder, OpenPositionLocal,
  RestingOrderLocal,
}
use hyperliquid_rust_bot.Exec.Orders.{HlOrder, Decimals, into_hl_order, get_side, get_sz}
use hyperliquid_rust_bot.Exec.Env.{
  Env, Io, Error, auth_error, unapproved_builder, MarketCommand, Request, order_request,
  send_market_command, open_trade,
}
use hyperliquid_rust_bot.Exec.Executor.{
  Executor, publish_position, send, cancel_oids, cancel_all_resting,
}
use hyperliquid_rust_bot.Exec.Commands.{
  kill_orders, close_out, keep_order, after_order, submit_with, submit_order, order_params,
  kill_params, place_until,
}

module _ {F : Type 0} where
  -- The last order placed.
  abbrev pub newest_order : List (Request F) → Option (HlOrder F)
  newest_order [] = none
  newest_order (order_request o ∷ log) = some o
  newest_order (_ ∷ log) = newest_order log

module _ {F : Type 0} ⦃f : Float F⦄ where
  -- The order that the exchange client is given is on the given side, with the size rounded.
  pub into_hl_order_lem :
      (asset : String) (sz : F) (side : Side) (l : Option (Limit F)) (op : PositionOp)
      (d : Decimals)
      → let o = into_hl_order asset sz side l op d in
        (get_side o ≡ side) × (get_sz o ≡ round_ndp sz d.sz)
  unfolding into_hl_order get_side get_sz
  into_hl_order_lem asset sz side none op d = ground arith
  into_hl_order_lem asset sz side (some l) op d = ground arith

  -- The order that closes a position is on its other side.
  abbrev pub Closes : HlOrder F → OpenPositionLocal F → F → Decimals → Type 0
  Closes hl p size d = (get_side hl ≡ not_side p.side) × (get_sz hl ≡ round_ndp size d.sz)

  -- What a closing order adds to the log: nothing without a position, and else an order against it.
  abbrev pub ClosingOrder :
      EngineOrder F → Option (OpenPositionLocal F) → Executor F → List (Request F) → Type 0
  ClosingOrder o none s log = newest_order log ≡ newest_order s.io.log
  ClosingOrder o (some p) s log =
      (hl : HlOrder F) × (newest_order log ≡ some hl)
      × Closes hl p (f.fmin o.size p.size) s.decimals

  module _ (env : Env F) where
    newest_order-send :
        (cmd : MarketCommand F) (s : Executor F)
        → newest_order (send env cmd s).io.log ≡ newest_order s.io.log
    unfolding send send_market_command
    newest_order-send cmd s = ground arith

    newest_order-publish_position :
        (s : Executor F) → newest_order (publish_position env s).io.log ≡ newest_order s.io.log
    unfolding publish_position send_market_command
    newest_order-publish_position s = ground arith

    newest_order-after_order :
        (answer : Result Error (RestingOrderLocal F)) (s : Executor F)
        → newest_order (after_order env answer s).io.log ≡ newest_order s.io.log
    unfolding after_order keep_order
    newest_order-after_order (ok r) s = refl
    newest_order-after_order (err (auth_error msg)) s = newest_order-send _ s
    newest_order-after_order (err (unapproved_builder msg)) s = newest_order-send _ s
    newest_order-after_order (err _) s = refl

    newest_order-submit_with :
        (side : Side) (size : F) (o : EngineOrder F) (s : Executor F)
        → newest_order (submit_with env (some (side, size)) o s).io.log
          ≡ some (into_hl_order s.asset size side o.limit o.action s.decimals)
    unfolding submit_with open_trade
    newest_order-submit_with side size o s = newest_order-after_order _ _

    submit_order_close :
        (o : EngineOrder F) (s : Executor F)
        → o.action ≡ close
        → submit_order env o s
          ≡ submit_with env (order_params o s.open_position) o (publish_position env s)
    unfolding submit_order
    submit_order_close o s e = ground arith

    -- A closing order is placed against the open position: on the other side, with the smaller of the
    -- two sizes, rounded. Without a position none is placed.
    pub submit_order_closes :
        (o : EngineOrder F) (s : Executor F)
        → o.action ≡ close
        → ClosingOrder o s.open_position s (submit_order env o s).io.log
    unfolding order_params submit_with publish_position
    submit_order_closes o s e = by_position s.open_position refl
      where
        by_position :
            (x : Option (OpenPositionLocal F))
            → s.open_position ≡ x
            → ClosingOrder o x s (submit_order env o s).io.log
        by_position none h = rw (submit_order_close o s e) (
            let q : order_params o s.open_position ≡ none = ground arith in
            rw (q, submit_with) (newest_order-publish_position s))
        by_position (some p) h =
            let side = not_side p.side in
            let size = f.fmin o.size p.size in
            let q : order_params o s.open_position ≡ some (side, size) = ground arith in
            (
              into_hl_order s.asset size side o.limit o.action s.decimals,
              rw (submit_order_close o s e, q) (newest_order-submit_with side size o _),
              into_hl_order_lem s.asset size side o.limit o.action s.decimals,
            )

    newest_order-open_trade :
        (client : ℕ) (o : HlOrder F) (op : PositionOp) (t : Option TriggerKind) (io : Io F)
        → newest_order (open_trade env client o op t io).1.log ≡ some o
    unfolding open_trade
    newest_order-open_trade client o op t io = refl

    newest_order-place_again :
        (client : ℕ) (o : HlOrder F) (attempts : ℕ) (io : Io F)
        → newest_order io.log ≡ some o
        → newest_order (place_until env client o attempts io).1.log ≡ some o
    unfolding place_until
    newest_order-place_again client o zero io h = h
    newest_order-place_again client o (suc attempts) io h =
        let io' = (open_trade env client o close none io).1 in
        let e = newest_order-open_trade client o close none io in
        ground (arith, e, newest_order-place_again client o attempts io' e)

    newest_order-place_until :
        (client : ℕ) (o : HlOrder F) (attempts : ℕ) (io : Io F)
        → newest_order (place_until env client o (suc attempts) io).1.log ≡ some o
    unfolding place_until
    newest_order-place_until client o attempts io =
        let io' = (open_trade env client o close none io).1 in
        let e = newest_order-open_trade client o close none io in
        ground (arith, e, newest_order-place_again client o attempts io' e)

    newest_order-close_out :
        (side : Side) (size : F) (s : Executor F)
        → newest_order (close_out env (some (side, size)) s).io.log
          ≡ some (into_hl_order s.asset size side none close s.decimals)
    unfolding close_out keep_order
    newest_order-close_out side size s =
        let o = into_hl_order s.asset size side none close s.decimals in
        ground (arith, newest_order-place_until s.exchange_client o 4 s.io)

    -- Unless it spares the position of a paused executor, a kill or a forced close places an order for
    -- the whole open position on its other side.
    pub kill_orders-Closes :
        (close_paused : Bool) (s : Executor F) (p : OpenPositionLocal F)
        → s.is_paused && not close_paused ≡ false
        → s.open_position ≡ some p
        → (hl : HlOrder F) × (newest_order (kill_orders env close_paused s).io.log ≡ some hl)
          × Closes hl p p.size s.decimals
    unfolding kill_orders kill_params publish_position cancel_all_resting cancel_oids
    kill_orders-Closes close_paused s p h e =
        let side = not_side p.side in
        let t = publish_position env (cancel_all_resting env s).1 in
        let q : kill_params (s.is_paused && not close_paused) s.open_position
            ≡ some (side, p.size) =
          ground arith in
        (
          into_hl_order s.asset p.size side none close s.decimals,
          rw (q) (newest_order-close_out side p.size t),
          into_hl_order_lem s.asset p.size side none close s.decimals,
        )

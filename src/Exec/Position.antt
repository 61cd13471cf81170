-- ===== src/Exec/Position.antt =====
-- src/exec/types.rs: `OpenPositionLocal` and the fills that change it. The clock is an argument.
use hyperliquid_rust_bot.Prelude.{ℕ, Option, none, some, if◌then◌else◌}
use hyperliquid_rust_bot.Float.{Float}
use hyperliquid_rust_bot.Helper.{round_ndp}
use hyperliquid_rust_bot.Exec.Types.{Side, long, short, TradeFillInfo, TradeInfo, OpenPositionLocal}

module _ {F : Type 0} ⦃f : Float F⦄ where
  -- `OpenPositionLocal::new`.
  unfoldable pub new : ℕ → TradeFillInfo F → OpenPositionLocal F
  new now fill = record {
    open_time = now;
    size = fill.sz;
    entry_px = fill.price;
    side = fill.side;
    fees = fill.fee;
    funding = f.of_nat 0;
    realised_pnl = f.neg fill.fee;
    fill_type = fill.fill_type;
  }

  unfoldable pub apply_open_fill : OpenPositionLocal F → TradeFillInfo F → OpenPositionLocal F
  apply_open_fill p fill =
      let new_size = f.add p.size fill.sz in
      record p {
        entry_px = f.div (f.add (f.mul p.entry_px p.size) (f.mul fill.price fill.sz)) new_size;
        size = new_size;
        realised_pnl = f.sub p.realised_pnl fill.fee;
        fees = f.add p.fees fill.fee;
      }

  price_diff : Side → F → F → F
  price_diff long price entry_px = f.sub price entry_px
  price_diff short price entry_px = f.sub entry_px price

  close_px : Side → F → F → F
  close_px long entry_px change = f.add entry_px change
  close_px short entry_px change = f.sub entry_px change

  -- The position after a closing fill, before it is known whether it is still open.
  unfoldable pub reduce : OpenPositionLocal F → TradeFillInfo F → OpenPositionLocal F
  unfolding price_diff
  reduce p fill =
      let net_chunk = f.sub (f.mul (price_diff p.side fill.price p.entry_px) fill.sz) fill.fee in
      record p {
        realised_pnl = f.add p.realised_pnl net_chunk;
        size = f.sub p.size fill.sz;
        fees = f.add p.fees fill.fee;
      }

  -- The record of a trade that `fill` completes.
  unfoldable pub trade_of : ℕ → OpenPositionLocal F → TradeFillInfo F → TradeInfo F
  unfolding close_px
  trade_of now p fill =
      let gross_pnl = f.add p.realised_pnl p.fees in
      let total_pnl = f.add p.realised_pnl p.funding in
      record {
        side = p.side;
        size = fill.sz;
        pnl = total_pnl;
        total_pnl = total_pnl;
        fees = p.fees;
        funding = p.funding;
        opening = record { time = p.open_time; price = p.entry_px; fill_type = p.fill_type };
        closing = record {
          time = now;
          price = close_px p.side p.entry_px (f.div gross_pnl fill.sz);
          fill_type = fill.fill_type;
        };
        strategy = none;
      }

  -- The changed position, and the trade if it is closed.
  unfoldable pub apply_close_fill :
      ℕ → OpenPositionLocal F → TradeFillInfo F → ℕ → OpenPositionLocal F × Option (TradeInfo F)
  unfolding reduce
  apply_close_fill now p fill sz_decimals =
      let q = reduce p fill in
      (
        q,
        if f.lt (f.of_nat 0) (round_ndp q.size sz_decimals)
            then none
            else some (trade_of now q fill),
      )

-- ===== src/Exec/Executor/Settle.antt =====
-- What a fill makes of the position.
use hyperliquid_rust_bot.Prelude.{
  ℕ, ◌≡◌, refl, Bool, true, false, not, ◌&&◌, Option, none, some, is_some, arith,
}
use hyperliquid_rust_bot.Float.{Float}
use hyperliquid_rust_bot.Exec.Types.{TradeFillInfo, OpenPositionLocal, side_eq, is_open}
use hyperliquid_rust_bot.Exec.Position.{apply_open_fill, apply_close_fill, reduce}
use hyperliquid_rust_bot.Exec.Executor.{open_or_close, settle}

module _ {F : Type 0} where
  -- A position keeps its side while it is open.
  abbrev pub SameSide : OpenPositionLocal F → Option (OpenPositionLocal F) → Type 0
  SameSide p none = Unit
  SameSide p (some q) = q.side ≡ p.side

  pub SameSide-self :
      (p : OpenPositionLocal F) (position : Option (OpenPositionLocal F))
      → position ≡ some p
      → SameSide p position
  SameSide-self p position e = rw e refl

  -- What was open before, if anything was, is on its side or closed.
  abbrev pub Follows : (before after : Option (OpenPositionLocal F)) → Type 0
  Follows none after = Unit
  Follows (some p) after = SameSide p after

module _ {F : Type 0} ⦃f : Float F⦄ where
  SameSide-open_or_close :
      (more : Bool) (now dp : ℕ) (filled : TradeFillInfo F) (p : OpenPositionLocal F)
      → let (trade, pos) = open_or_close more now dp filled p in
        SameSide p pos × (is_some trade ≡ not (is_some pos))
  unfolding open_or_close apply_open_fill apply_close_fill reduce
  SameSide-open_or_close true now dp filled p = (refl, refl)
  SameSide-open_or_close false now dp filled p = ground arith

  -- A fill never turns a position over: it stays on its side, or is closed. A trade is completed just
  -- when a position is closed.
  pub settle_lem :
      (now dp : ℕ) (filled : TradeFillInfo F) (position : Option (OpenPositionLocal F))
      → let (trade, pos) = settle now dp filled position in
        Follows position pos × (is_some trade ≡ is_some position && not (is_some pos))
  unfolding settle
  settle_lem now dp filled none = (tt, ground arith)
  settle_lem now dp filled (some p) =
      SameSide-open_or_close (is_open filled.intent && side_eq p.side filled.side) now dp filled p

-- ===== src/Signal/Params.antt =====
-- src/signal/types.rs: what the engine knows of the position and the margin.
use hyperliquid_rust_bot.Prelude.{ℕ, Bool, not, ◌&&◌, ◌||◌, ◌==◌, Option, none, some, if◌then◌else◌}
use hyperliquid_rust_bot.Float.{Float}
use hyperliquid_rust_bot.Exec.Types.{Side, side_eq}

pub record OpenPosInfo (F : Type 0) : Type 0 where
  pub side : Side
  pub size : F
  pub entry_px : F
  pub open_time : ℕ

pub record ExecParams (F : Type 0) : Type 0 where
  pub margin : F
  pub lev : ℕ
  pub open_pos : Option (OpenPosInfo F)

unfoldable pub new_params : {F : Type 0} → F → ℕ → ExecParams F
new_params margin lev = record { margin = margin; lev = lev; open_pos = none }

-- The constructors `set_margin` and `set_lev` are the source's `Margin` and `Lev`.
pub data ExecParam (F : Type 0) : Type 0 where
  set_margin : F → ExecParam F
  set_lev : ℕ → ExecParam F
  open_position : Option (OpenPosInfo F) → ExecParam F

module _ {F : Type 0} ⦃f : Float F⦄ where
  -- Equality of positions, as the source derives it.
  abbrev pub pos_eq : OpenPosInfo F → OpenPosInfo F → Bool
  pos_eq a b =
      side_eq a.side b.side
      && f.eq a.size b.size
      && f.eq a.entry_px b.entry_px
      && a.open_time == b.open_time

  -- The margin that a position leaves.
  abbrev pub margin_left : ExecParams F → Option (OpenPosInfo F) → F
  margin_left p none = p.margin
  margin_left p (some o) = f.sub p.margin (f.div (f.mul o.entry_px o.size) (f.of_nat p.lev))

  unfoldable pub free_margin : ExecParams F → F
  free_margin p = if p.lev == 0 then f.of_nat 0 else margin_left p p.open_pos

  unfoldable pub get_max_open_size : ExecParams F → (ref_px : F) → F
  unfolding free_margin
  get_max_open_size p ref_px =
      if p.lev == 0 || not (f.is_finite ref_px) || f.le ref_px (f.of_nat 0)
      then f.of_nat 0
      else f.div (f.mul (free_margin p) (f.of_nat p.lev)) ref_px

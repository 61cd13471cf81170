-- ===== src/Exec/Fills.antt =====
-- src/exec/types.rs: one fill report made of the exchange's fills of an order. Parsing a number is a
-- parameter, `none` for an error.
pub mod Batches
pub mod Words
pub mod Sums
use Prim.Native.String.{String}
use text.Mathlib.Text.{◌==◌ as str_eq}
use hyperliquid_rust_bot.Prelude.{
  ℕ, Bool, true, false, not, ◌&&◌, ◌||◌, Option, none, some, List, [], ◌∷◌, any, ◌==◌,
  if◌then◌else◌, Result, ok, err, ◌>>=◌, ◌>>◌,
}
use hyperliquid_rust_bot.Float.{Float}
use hyperliquid_rust_bot.Exec.Types.{
  PositionOp, open_long, open_short, close, Side, long, short, FillType, market, limit, liquidation,
  TradeFillInfo,
}
use hyperliquid_rust_bot.Exec.Env.{codes, contains}

-- The fields of the SDK's `TradeInfo` that the code reads; `liquidated` is `liquidation.is_some()`.
pub record HlTradeInfo : Type 0 where
  pub oid : ℕ
  pub coin : String
  pub side : String
  pub dir : String
  pub px : String
  pub sz : String
  pub fee : String
  pub crossed : Bool
  pub liquidated : Bool

pub data FillError : Type 0 where
  empty_batch mismatched_oid mismatched_coin mismatched_side mismatched_dir : FillError
  unknown_side unknown_open_dir unknown_dir : String → FillError
  float_string_parse bad_size bad_values : FillError
  not_finite : String → FillError

abbrev pub check : Bool → FillError → Result FillError (Unit {0})
check passed e = if passed then ok tt else err e

-- One round of the invariant checks.
unfoldable pub check_fill : (first f : HlTradeInfo) → Result FillError (Unit {0})
check_fill first f =
    if not (f.oid == first.oid)
    then err mismatched_oid
    else if not (str_eq f.coin first.coin)
    then err mismatched_coin
    else if not (str_eq f.side first.side)
    then err mismatched_side
    else if not (str_eq f.dir first.dir)
    then err mismatched_dir
    else ok tt

unfoldable pub check_all : (first : HlTradeInfo) → List HlTradeInfo → Result FillError (Unit {0})
unfolding check_fill
check_all first [] = ok tt
check_all first (f ∷ fs) = check_fill first f >> check_all first fs

unfoldable pub side_of : String → Result FillError Side
side_of s =
    if str_eq s "B" then ok long else if str_eq s "A" then ok short else err (unknown_side s)

abbrev pub has : String → String → Bool
has dir word = contains (codes word) (codes dir)

unfoldable pub intent_of : String → Result FillError PositionOp
intent_of d =
    if has d "Open"
    then if has d "Long"
      then ok open_long
      else if has d "Short"
      then ok open_short
      else err (unknown_open_dir d)
    else if has d "Close"
    then ok close
    else err (unknown_dir d)

unfoldable pub fill_type_of : List HlTradeInfo → FillType
fill_type_of fills =
    if any (λ f. f.liquidated) fills
    then liquidation
    else if any (λ f. f.crossed) fills
    then market
    else limit

-- The three sums of the loop.
pub record Totals (F : Type 0) : Type 0 where
  pub total_sz : F
  pub weighted_px : F
  pub total_fee : F

module _ {F : Type 0} ⦃f : Float F⦄ where
  unfoldable pub parse_finite_fill_value :
      (parse : String → Option F) → (label raw : String) → Result FillError F
  parse_finite_fill_value parse label raw = elim (parse raw) [
    | none ↦ err float_string_parse
    | some value ↦ if f.is_finite value then ok value else err (not_finite label)
  ]

  abbrev pub no_totals : Totals F
  no_totals = record { total_sz = f.of_nat 0; weighted_px = f.of_nat 0; total_fee = f.of_nat 0 }

  abbrev pub add_fill : (sz px fee : F) → Totals F → Totals F
  add_fill sz px fee t = record {
    total_sz = f.add t.total_sz sz;
    weighted_px = f.add t.weighted_px (f.mul px sz);
    total_fee = f.add t.total_fee fee;
  }

  unfoldable pub sum_fills :
      (parse : String → Option F) → Totals F → List HlTradeInfo → Result FillError (Totals F)
  unfolding parse_finite_fill_value
  sum_fills parse t [] = ok t
  sum_fills parse t (x ∷ xs) = parse_finite_fill_value parse "fill size" x.sz >>= λ sz.
      parse_finite_fill_value parse "fill price" x.px >>= λ px.
      parse_finite_fill_value parse "fill fee" x.fee >>= λ fee.
      sum_fills parse (add_fill sz px fee t) xs

  abbrev pub check_totals : Totals F → Result FillError (Unit {0})
  check_totals t =
      if not (f.is_finite t.total_sz) || f.le t.total_sz (f.of_nat 0)
      then err bad_size
      else if not (f.is_finite t.weighted_px) || not (f.is_finite t.total_fee)
      then err bad_values
      else ok tt

  unfoldable pub report_of :
      Side → PositionOp → List HlTradeInfo → (oid : ℕ) → Totals F → TradeFillInfo F
  unfolding fill_type_of
  report_of side intent fills oid t = record {
    price = f.div t.weighted_px t.total_sz;
    sz = t.total_sz;
    oid = oid;
    fee = t.total_fee;
    side = side;
    intent = intent;
    fill_type = fill_type_of fills;
  }

  unfoldable pub try_from :
      (parse : String → Option F) → List HlTradeInfo → Result FillError (TradeFillInfo F)
  unfolding check_all side_of intent_of sum_fills report_of
  try_from parse [] = err empty_batch
  try_from parse (first ∷ rest) = check_all first (first ∷ rest) >> side_of first.side >>= λ side.
      intent_of first.dir >>= λ intent. sum_fills parse no_totals (first ∷ rest) >>= λ t.
      check_totals t >> ok (report_of side intent (first ∷ rest) first.oid t)

-- ===== src/Exec/Fills/Batches.antt =====
-- What a fill report tells of the exchange's fills.
use Prim.Native.String.{String}
use text.Mathlib.TextEquality.{eq_iff}
use hyperliquid_rust_bot.Prelude.{
  ◌≡◌, refl, ap, subst, true, false, Option, List, [], ◌∷◌, All, arith, Result, ok, err, bind-ok,
}
use hyperliquid_rust_bot.Float.{Float}
use hyperliquid_rust_bot.Exec.Types.{PositionOp, Side, TradeFillInfo}
use hyperliquid_rust_bot.Exec.Fills.{
  HlTradeInfo, FillError, check_fill, check_all, side_of, intent_of, Totals, no_totals, sum_fills,
  check_totals, report_of, try_from,
}
use hyperliquid_rust_bot.Exec.Fills.Sums.{
  Numbers, AreRead, AreSums, sum_from, sizes, notionals, fees, sum_fills_lem,
}
use hyperliquid_rust_bot.Exec.Fills.Words.{
  IsSide, IsIntent, IsKind, side_of-IsSide, intent_of-IsIntent, fill_type_of-IsKind,
}

-- The fill is of the same order and market, on the same side and in the same direction.
abbrev pub Matches : (first f : HlTradeInfo) → Type 0
Matches first f =
    (f.oid ≡ first.oid) × (f.coin ≡ first.coin) × (f.side ≡ first.side) × (f.dir ≡ first.dir)

check_fill-Matches :
    (first f : HlTradeInfo) (x : Unit {0}) → check_fill first f ≡ ok x → Matches first f
unfolding check_fill
check_fill-Matches first f x h =
    ground (arith, eq_iff f.coin first.coin, eq_iff f.side first.side, eq_iff f.dir first.dir, h)

check_all-Matches :
    (first : HlTradeInfo) (fs : List HlTradeInfo) (x : Unit {0})
    → check_all first fs ≡ ok x
    → All (Matches first) fs
unfolding check_all
check_all-Matches first [] x h = tt
check_all-Matches first (f ∷ fs) x h =
    let (y, a, b) = bind-ok (check_fill first f) (λ _. check_all first fs) x h in
    (check_fill-Matches first f y a, check_all-Matches first fs x b)

module _ {F : Type 0} ⦃f : Float F⦄ where
  -- What the report tells of the fills.
  pub record Reported (parse : String → Option F) (first : HlTradeInfo) (rest : List HlTradeInfo)
      (info : TradeFillInfo F) : Type 0 where
    pub order : first.oid ≡ info.oid
    pub same : All (Matches first) (first ∷ rest)
    pub side : IsSide first.side info.side
    pub intent : IsIntent first.dir info.intent
    pub kind : IsKind (first ∷ rest) info.fill_type
    pub numbers : List (Numbers F)
    pub read : AreRead parse (first ∷ rest) numbers
    pub size : info.sz ≡ sum_from (f.of_nat 0) (sizes numbers)
    pub cost : info.fee ≡ sum_from (f.of_nat 0) (fees numbers)
    pub average : info.price ≡ f.div (sum_from (f.of_nat 0) (notionals numbers)) info.sz
    pub size_finite : f.is_finite info.sz ≡ true
    pub size_positive : f.le info.sz (f.of_nat 0) ≡ false

  check_totals_lem :
      (t : Totals F) (x : Unit {0})
      → check_totals t ≡ ok x
      → (f.is_finite t.total_sz ≡ true) × (f.le t.total_sz (f.of_nat 0) ≡ false)
  check_totals_lem t x h = ground (arith, h)

  report-ok :
      (side : Side) (intent : PositionOp) (first : HlTradeInfo) (rest : List HlTradeInfo)
      (t : Totals F) (info : TradeFillInfo F)
      → ◌≡◌ {A = Result FillError (TradeFillInfo F)}
          (ok (report_of side intent (first ∷ rest) first.oid t))
          (ok info)
      → report_of side intent (first ∷ rest) first.oid t ≡ info
  report-ok side intent first rest t info = ap value
    where
      value : Result FillError (TradeFillInfo F) → TradeFillInfo F
      value (ok x) = x
      value (err e) = info

  reported :
      (parse : String → Option F) (first : HlTradeInfo) (rest : List HlTradeInfo) (side : Side)
      (intent : PositionOp) (t : Totals F) (ns : List (Numbers F))
      → All (Matches first) (first ∷ rest)
      → IsSide first.side side
      → IsIntent first.dir intent
      → AreRead parse (first ∷ rest) ns × AreSums no_totals ns t
      → (f.is_finite t.total_sz ≡ true) × (f.le t.total_sz (f.of_nat 0) ≡ false)
      → Reported parse first rest (report_of side intent (first ∷ rest) first.oid t)
  unfolding report_of
  reported parse first rest side intent t ns same s i (are, (sz, px, fee)) (finite, positive) =
      record {
        order = refl;
        same = same;
        side = s;
        intent = i;
        kind = fill_type_of-IsKind (first ∷ rest);
        numbers = ns;
        read = are;
        size = sz;
        cost = fee;
        average = ap (λ w. f.div w t.total_sz) px;
        size_finite = finite;
        size_positive = positive;
      }

  -- If `try_from` makes a report, there is a first fill, and all fills are of its order and market, on its
  -- side and in its direction. The report is of that order. Its side is long where the letter of the side
  -- is `B` and short where it is `A`; its intent is what the words of the direction say; it is a
  -- liquidation where a fill is liquidated, a market order where none is and one crossed the book, and a
  -- limit order where no fill did either. The texts of each fill's size, price and fee stand for finite
  -- numbers: the report's size is the sum of the sizes, which is finite and positive, its fee the sum of
  -- the fees, and its price the sum of each price times its size, divided by the report's size.
  pub try_from_lem :
      (parse : String → Option F) (fills : List HlTradeInfo) (info : TradeFillInfo F)
      → try_from parse fills ≡ ok info
      → (first : HlTradeInfo) × (rest : List HlTradeInfo) × (fills ≡ first ∷ rest)
        × Reported parse first rest info
  unfolding try_from
  try_from_lem parse [] info h = ground (arith, h)
  try_from_lem parse (first ∷ rest) info h =
      let (side, h1, k1) = bind-ok _ _ info h in
      let (u, a, b) = bind-ok (check_all first (first ∷ rest)) (λ _. side_of first.side) side h1 in
      let (intent, c, k2) = bind-ok (intent_of first.dir) _ info k1 in
      let (t, d, k3) = bind-ok (sum_fills parse no_totals (first ∷ rest)) _ info k2 in
      let (v, e, k4) = bind-ok (check_totals t) _ info k3 in
      let (ns, are, sums) = sum_fills_lem parse no_totals t (first ∷ rest) d in
      (
        first,
        rest,
        refl,
        subst (Reported parse first rest) (report-ok side intent first rest t info k4) (
            reported parse first rest side intent t ns (check_all-Matches first (first ∷ rest) u a)
              (side_of-IsSide first.side side b) (intent_of-IsIntent first.dir intent c) (are, sums)
              (check_totals_lem t v e)),
      )

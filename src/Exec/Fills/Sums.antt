-- ===== src/Exec/Fills/Sums.antt =====
-- The sums over the exchange's fills, apart from the loop that makes them.
use Prim.Native.String.{String}
use hyperliquid_rust_bot.Prelude.{
  ◌≡◌, refl, true, Option, some, List, [], ◌∷◌, map, arith, Result, ok, bind-ok,
}
use hyperliquid_rust_bot.Float.{Float}
use hyperliquid_rust_bot.Exec.Fills.{
  HlTradeInfo, FillError, Totals, parse_finite_fill_value, add_fill, sum_fills,
}

-- The numbers of a fill.
pub record Numbers (F : Type 0) : Type 0 where
  pub sz : F
  pub px : F
  pub fee : F

module _ {F : Type 0} ⦃f : Float F⦄ where
  -- The text stands for a finite number.
  abbrev pub Reads : (parse : String → Option F) → String → F → Type 0
  Reads parse raw v = (parse raw ≡ some v) × (f.is_finite v ≡ true)

  -- The numbers of each fill, one fill after another.
  abbrev pub AreRead : (parse : String → Option F) → List HlTradeInfo → List (Numbers F) → Type 0
  AreRead parse [] [] = Unit {0}
  AreRead parse [] (_ ∷ _) = ⊥
  AreRead parse (_ ∷ _) [] = ⊥
  AreRead parse (x ∷ xs) (n ∷ ns) =
      Reads parse x.sz n.sz × Reads parse x.px n.px × Reads parse x.fee n.fee × AreRead parse xs ns

  -- The sum of a list, from the left.
  abbrev pub sum_from : F → List F → F
  sum_from total [] = total
  sum_from total (x ∷ xs) = sum_from (f.add total x) xs

  abbrev pub sizes : List (Numbers F) → List F
  sizes = map (λ n. n.sz)

  -- What each fill costs: its price times its size.
  abbrev pub notionals : List (Numbers F) → List F
  notionals = map (λ n. f.mul n.px n.sz)

  abbrev pub fees : List (Numbers F) → List F
  fees = map (λ n. n.fee)

  abbrev pub AreSums : Totals F → List (Numbers F) → Totals F → Type 0
  AreSums t ns r =
      (r.total_sz ≡ sum_from t.total_sz (sizes ns))
      × (r.weighted_px ≡ sum_from t.weighted_px (notionals ns))
      × (r.total_fee ≡ sum_from t.total_fee (fees ns))

  parse_finite-Reads :
      (parse : String → Option F) (label raw : String) (v : F)
      → parse_finite_fill_value parse label raw ≡ ok v
      → Reads parse raw v
  unfolding parse_finite_fill_value
  parse_finite-Reads parse label raw v h = (ground (arith, h), ground (arith, h))

  ok-Totals : (t r : Totals F) → ◌≡◌ {A = Result FillError (Totals F)} (ok t) (ok r) → t ≡ r
  ok-Totals t r h = cc

  -- The loop reads the numbers of each fill and adds them up.
  pub sum_fills_lem :
      (parse : String → Option F) (t r : Totals F) (fills : List HlTradeInfo)
      → sum_fills parse t fills ≡ ok r
      → (ns : List (Numbers F)) × AreRead parse fills ns × AreSums t ns r
  unfolding sum_fills parse_finite_fill_value
  sum_fills_lem parse t r [] h = ([], tt, rw (ok-Totals t r h) (refl, refl, refl))
  sum_fills_lem parse t r (x ∷ xs) h =
      let (sz, a, h1) = bind-ok (parse_finite_fill_value parse "fill size" x.sz) _ r h in
      let (px, b, h2) = bind-ok (parse_finite_fill_value parse "fill price" x.px) _ r h1 in
      let (fee, c, h3) = bind-ok (parse_finite_fill_value parse "fill fee" x.fee) _ r h2 in
      let (ns, are, sums) = sum_fills_lem parse (add_fill sz px fee t) r xs h3 in
      (
        record { sz = sz; px = px; fee = fee } ∷ ns,
        (
          parse_finite-Reads parse "fill size" x.sz sz a,
          parse_finite-Reads parse "fill price" x.px px b,
          parse_finite-Reads parse "fill fee" x.fee fee c,
          are,
        ),
        sums,
      )

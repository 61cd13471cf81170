-- ===== src/Exec/Fills/Words.antt =====
-- What the words and the marks of the exchange's fills say, apart from the code that reads them.
use Prim.Native.String.{String}
use text.Mathlib.TextEquality.{eq_iff}
use mathlib.Core.List.{Memᴰ}
use mathlib.Core.List.Memᴰ.{head, tail}
use hyperliquid_rust_bot.Prelude.{
  ◌≡◌, refl, Bool, true, false, Bool-cases, inl, inr, List, [], ◌∷◌, any, All, arith, ok,
}
use hyperliquid_rust_bot.Exec.Types.{
  PositionOp, open_long, open_short, close, Side, long, short, FillType, market, limit, trigger,
  liquidation,
}
use hyperliquid_rust_bot.Exec.Fills.{HlTradeInfo, has, side_of, intent_of, fill_type_of}

-- `B` is the side of the buyer, `A` that of the seller.
abbrev pub IsSide : String → Side → Type 0
IsSide letter long = letter ≡ "B"
IsSide letter short = letter ≡ "A"

-- What the words of a direction say.
abbrev pub IsIntent : String → PositionOp → Type 0
IsIntent dir open_long = (has dir "Open" ≡ true) × (has dir "Long" ≡ true)
IsIntent dir open_short =
    (has dir "Open" ≡ true) × (has dir "Long" ≡ false) × (has dir "Short" ≡ true)
IsIntent dir close = (has dir "Open" ≡ false) × (has dir "Close" ≡ true)

-- A liquidation has a liquidated fill, a market order one that crossed and none liquidated, and a limit
-- order neither.
abbrev pub IsKind : List HlTradeInfo → FillType → Type 0
IsKind fills liquidation = (i : HlTradeInfo) × Memᴰ i fills × (i.liquidated ≡ true)
IsKind fills market =
    ((i : HlTradeInfo) × Memᴰ i fills × (i.crossed ≡ true))
    × All (λ (i : HlTradeInfo). i.liquidated ≡ false) fills
IsKind fills limit =
    All (λ (i : HlTradeInfo). i.crossed ≡ false) fills
    × All (λ (i : HlTradeInfo). i.liquidated ≡ false) fills
IsKind fills (trigger _) = ⊥

pub side_of-IsSide : (letter : String) (side : Side) → side_of letter ≡ ok side → IsSide letter side
unfolding side_of
side_of-IsSide letter long h = ground (arith, eq_iff letter "B", h)
side_of-IsSide letter short h = ground (arith, eq_iff letter "A", h)

pub intent_of-IsIntent :
    (dir : String) (intent : PositionOp) → intent_of dir ≡ ok intent → IsIntent dir intent
unfolding intent_of
intent_of-IsIntent dir open_long h = (ground (arith, h), ground (arith, h))
intent_of-IsIntent dir open_short h = (ground (arith, h), ground (arith, h), ground (arith, h))
intent_of-IsIntent dir close h = (ground (arith, h), ground (arith, h))

module _ {ℓ} {A : Type ℓ} where
  any-some : (p : A → Bool) (l : List A) → any p l ≡ true → (x : A) × Memᴰ x l × (p x ≡ true)
  any-some p [] h = cc
  any-some p (x ∷ l) h = elim (Bool-cases (p x)) [
    | inl q ↦ (x, head refl, q)
    | inr q ↦ let (y, m, r) = any-some p l (rw q at h) in (y, tail m, r)
  ]

  any-none : (p : A → Bool) (l : List A) → any p l ≡ false → All (λ x. p x ≡ false) l
  any-none p [] h = tt
  any-none p (x ∷ l) h = (ground (arith, h), any-none p l (ground (arith, h)))

pub fill_type_of-IsKind : (fills : List HlTradeInfo) → IsKind fills (fill_type_of fills)
unfolding fill_type_of
fill_type_of-IsKind fills = elim (Bool-cases (any (λ (i : HlTradeInfo). i.liquidated) fills)) [
  | inl q ↦ rw q (any-some (λ (i : HlTradeInfo). i.liquidated) fills q)
  | inr q ↦ elim (Bool-cases (any (λ (i : HlTradeInfo). i.crossed) fills)) [
    | inl c ↦
        rw (q, c)
          (
            any-some (λ (i : HlTradeInfo). i.crossed) fills c,
            any-none (λ (i : HlTradeInfo). i.liquidated) fills q,
          )
    | inr c ↦
        rw (q, c)
          (
            any-none (λ (i : HlTradeInfo). i.crossed) fills c,
            any-none (λ (i : HlTradeInfo). i.liquidated) fills q,
          )
  ]
]

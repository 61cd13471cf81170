-- ===== src/Backtest/CandleStore/Cover.antt =====
-- Which timestamps a list of segments covers, and one round of `find_missing` at a timestamp.
use hyperliquid_rust_bot.Prelude.{
  ℕ, ◌+◌, ◌*◌, ◌≤◌, ◌<◌, ◌≡◌, refl, ◌⊎◌, inl, inr, Bool, true, false, ◌||◌, Option, none, some,
  List, [], ◌∷◌, ◌++◌, All, any, arith, leb, dec_lt,
}
use hyperliquid_rust_bot.Prelude.Maps.{nat_eq}
use hyperliquid_rust_bot.Backtest.CandleStore.{MissingSegment, in_range, end_gap, or_start}

abbrev pub covers : List MissingSegment → ℕ → Bool
covers missing t = any (λ m. in_range m.start m.end t) missing

abbrev pub in_gap : Option ℕ → ℕ → Bool
in_gap none t = false
in_gap (some start) t = leb start t

pub covers-append :
    (ms ns : List MissingSegment) (t : ℕ) → covers (ms ++ ns) t ≡ covers ms t || covers ns t
covers-append [] ns t = refl
covers-append (m ∷ ms) ns t = ground (arith, covers-append ms ns t)

pub covers-ended :
    (ms : List MissingSegment) (t : ℕ) → All (λ m. m.end ≤ t) ms → covers ms t ≡ false
covers-ended [] t h = refl
covers-ended (m ∷ ms) t (h, hs) = ground (arith, covers-ended ms t hs)

-- The gap under way, if any, began before.
abbrev pub StartsBefore : Option ℕ → ℕ → Type 0
StartsBefore none ts = Unit
StartsBefore (some g) ts = g < ts

-- One round at `ts` keeps what is reported of `t`: an earlier timestamp, or `ts` itself.
pub seen_hit :
    (ms : List MissingSegment) (gap : Option ℕ) (ts t : ℕ) (b : Bool)
    → covers ms ts ≡ false
    → StartsBefore gap ts
    → ((t < ts) × (covers ms t || in_gap gap t ≡ b)) ⊎ ((t ≡ ts) × (b ≡ false))
    → covers (end_gap ms gap ts) t || false ≡ b
seen_hit ms none ts t b e w h = ground arith
seen_hit ms (some g) ts t b e w h =
    ground (arith, covers-append ms (record { start = g; end = ts } ∷ []) t)

pub seen_miss :
    (ms : List MissingSegment) (gap : Option ℕ) (ts t : ℕ) (b : Bool)
    → StartsBefore gap ts
    → ((t < ts) × (covers ms t || in_gap gap t ≡ b)) ⊎ ((t ≡ ts) × (b ≡ true))
    → covers ms t || in_gap (or_start gap ts) t ≡ b
seen_miss ms none ts t b w h = ground arith
seen_miss ms (some g) ts t b w h = ground arith

-- Two timestamps of the grid less than an interval apart.
pub grid_step :
    (start interval j k : ℕ)
    → 0 < interval
    → start + k * interval < start + j * interval + interval
    → (start + k * interval < start + j * interval) ⊎ (k ≡ j)
grid_step start interval j k p h = elim (dec_lt k j) [
  | yes q ↦ inl (grind arith)
  | no q ↦ inr (grind arith)
]

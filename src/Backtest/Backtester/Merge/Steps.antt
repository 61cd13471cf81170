-- ===== src/Backtest/Backtester/Merge/Steps.antt =====
-- src/backtest/backtester.rs: the next candles of the series, before and after a batch.
use hyperliquid_rust_bot.Prelude.{
  ℕ, zero, suc, ◌+◌, ◌-◌, ◌≤◌, ◌<◌, ◌≡◌, refl, subst, ◌==◌, false, Bool-cases, inl, inr, Option,
  none, some, Option-cases, ◌⊎◌, List, [], ◌∷◌, All, length, get_elem?, arith, if◌then◌else◌,
}
use hyperliquid_rust_bot.Price.{Price}
use hyperliquid_rust_bot.Backtest.CandleStore.Insert.{IsIncreasing}
use hyperliquid_rust_bot.Backtest.Backtester.Merge.{BacktestSeries, least, time_of, take_batch}

-- A time that is there is not before `t`.
abbrev pub IsFrom : ℕ → Option ℕ → Type 0
IsFrom t none = Unit
IsFrom t (some m) = t ≤ m

pub least-IsFrom : (t : ℕ) (a b : Option ℕ) → IsFrom t a → IsFrom t b → IsFrom t (least a b)
least-IsFrom t none b h g = g
least-IsFrom t (some a) none h g = h
least-IsFrom t (some a) (some b) h g = omega (arith, h, g)

pub IsFrom-least : (t : ℕ) (a b : Option ℕ) → IsFrom t (least a b) → IsFrom t a × IsFrom t b
IsFrom-least t none b h = (tt, h)
IsFrom-least t (some a) none h = (h, tt)
IsFrom-least t (some a) (some b) h = (omega (arith, h), omega (arith, h))

pub IsFrom-0 : (o : Option ℕ) → IsFrom 0 o
IsFrom-0 none = tt
IsFrom-0 (some m) = omega arith

pub least-none : (a b : Option ℕ) → least a b ≡ none → (a ≡ none) × (b ≡ none)
least-none none b h = (refl, h)
least-none (some a) none h = ground arith
least-none (some a) (some b) h = ground arith

pub least_either : (a b : Option ℕ) (t : ℕ) → least a b ≡ some t → (a ≡ some t) ⊎ (b ≡ some t)
least_either none b t h = inr h
least_either (some a) none t h = inl h
least_either (some a) (some b) t h = ground arith

module _ {F : Type 0} where
  -- Every series in order of time.
  abbrev pub AreIncreasing : List (BacktestSeries F) → Type 0
  AreIncreasing = All (λ s. IsIncreasing s.prices)

  -- The index of the series' next candle when the batch at `ts` is taken.
  abbrev pub moved : Option (Price F) → (ts i : ℕ) → ℕ
  moved none ts i = i
  moved (some p) ts i = if p.open_time == ts then suc i else i

  -- The number of candles to come.
  abbrev pub left : List (BacktestSeries F) → List ℕ → ℕ
  left [] is = 0
  left (s ∷ ss) [] = 0
  left (s ∷ ss) (i ∷ is) = (length s.prices - i) + left ss is

  pub get_elem?-bound :
      (ps : List (Price F)) (i : ℕ) (p : Price F) → get_elem? ps i ≡ some p → i < length ps
  get_elem?-bound [] i p e = ground arith
  get_elem?-bound (q ∷ ps) zero p e = omega arith
  get_elem?-bound (q ∷ ps) (suc i) p e = omega (arith, get_elem?-bound ps i p e)

  pub moved-left :
      (ps : List (Price F)) (ts i : ℕ) → length ps - moved (get_elem? ps i) ts i ≤ length ps - i
  moved-left ps ts i = elim (Option-cases (get_elem? ps i)) [
    | inl e ↦ ground (arith, e)
    | inr (p, e) ↦ ground (arith, e)
  ]

  pub moved-left_less :
      (ps : List (Price F)) (ts i : ℕ)
      → time_of (get_elem? ps i) ≡ some ts
      → length ps - moved (get_elem? ps i) ts i < length ps - i
  moved-left_less ps ts i h = elim (Option-cases (get_elem? ps i)) [
    | inl e ↦ ground (arith, e)
    | inr (p, e) ↦ ground (arith, e, get_elem?-bound ps i p e)
  ]

  pub get_elem?-later :
      (ps : List (Price F)) (ts i : ℕ) (p : Price F)
      → IsIncreasing ps
      → get_elem? ps i ≡ some p
      → p.open_time ≡ ts
      → IsFrom (suc ts) (time_of (get_elem? ps (suc i)))
  get_elem?-later [] ts i p inc e h = tt
  get_elem?-later (q ∷ []) ts i p inc e h = tt
  get_elem?-later (q ∷ r ∷ ps) ts zero p ((lt, a), inc) e h = ground (arith, lt)
  get_elem?-later (q ∷ r ∷ ps) ts (suc i) p (a, inc) e h = get_elem?-later (r ∷ ps) ts i p inc e h

  pub IsFrom-next :
      (ts : ℕ) (p : Price F) → ts ≤ p.open_time → (p.open_time == ts) ≡ false → ts < p.open_time
  IsFrom-next ts p h other = ground arith

  pub moved-IsFrom :
      (ps : List (Price F)) (ts i : ℕ)
      → IsIncreasing ps
      → IsFrom ts (time_of (get_elem? ps i))
      → IsFrom (suc ts) (time_of (get_elem? ps (moved (get_elem? ps i) ts i)))
  moved-IsFrom ps ts i inc h = elim (Option-cases (get_elem? ps i)) [
    | inl e ↦ rw (e, e) tt
    | inr (p, e) ↦ elim (Bool-cases (p.open_time == ts)) [
      | inl same ↦ rw (e, same) (get_elem?-later ps ts i p inc e (ground arith))
      | inr other ↦
          rw (e, other, e) (IsFrom-next ts p (subst (λ o. IsFrom ts (time_of o)) e h) other)
    ]
  ]

  pub take_batch-moved :
      (idx ts i : ℕ) (s : BacktestSeries F) (ss : List (BacktestSeries F)) (is : List ℕ)
      → (take_batch idx ts (s ∷ ss) (i ∷ is)).1
        ≡ moved (get_elem? s.prices i) ts i ∷ (take_batch (suc idx) ts ss is).1
  unfolding take_batch
  take_batch-moved idx ts i s ss is = elim (Option-cases (get_elem? s.prices i)) [
    | inl e ↦ ground (arith, e)
    | inr (p, e) ↦ ground (arith, e)
  ]

  pub get_elem?-none :
      (ps : List (Price F)) (i : ℕ) → time_of (get_elem? ps i) ≡ none → length ps ≤ i
  get_elem?-none [] i e = omega arith
  get_elem?-none (p ∷ ps) zero e = ground arith
  get_elem?-none (p ∷ ps) (suc i) e = omega (arith, get_elem?-none ps i e)

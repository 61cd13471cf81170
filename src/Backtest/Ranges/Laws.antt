-- ===== src/Backtest/Ranges/Laws.antt =====
-- The range of a request covers what was asked.
use native.Mathlib.Nat.{mul-le-mul_right, lt_of_mul-lt-mul_right}
use hyperliquid_rust_bot.Prelude.{
  suc, ap, refl, ◌∙◌, ℕ, ◌+◌, ◌-◌, ◌*◌, ◌/◌, ◌%◌, ◌≤◌, ◌<◌, ◌≡◌, arith, max, leb, ◌==◌,
  if◌then◌else◌, Bool-cases, false, inl, inr,
}
use hyperliquid_rust_bot.Prelude.Words.{u64_max}
use hyperliquid_rust_bot.Backtest.Ranges.{div_ceil, normalize_range, estimate_points_in_range}

ceil_of :
    (d q r : ℕ)
    → r < d
    → let c = (q + (if r == 0 then 0 else 1)) * d in (q * d + r ≤ c) × (c < q * d + r + d)
ceil_of d q r h = elim (Bool-cases (r == 0)) [
  | inl e ↦ rw (e) (ground arith)
  | inr e ↦ rw (e) (ground arith)
]

div_ceil_bounds :
    (value divisor : ℕ)
    → 0 < divisor
    → (value ≤ div_ceil value divisor * divisor)
      × (div_ceil value divisor * divisor < value + divisor)
unfolding div_ceil
div_ceil_bounds value divisor h =
    let positive : (divisor == 0) ≡ false = ground arith in
    let small : value % divisor < divisor = omega (arith, h) in
    let split : value ≡ value / divisor * divisor + value % divisor = omega (arith, h) in
    let (b, c) = ceil_of divisor (value / divisor) (value % divisor) small in
    rw (positive) (omega (arith, b, split), omega (arith, c, split))

-- `range` is made of the intervals from `first` to before `last`.
pub record IsWhole (start end interval : ℕ) (range : ℕ × ℕ) : Type 0 where
  pub first : ℕ
  pub last : ℕ
  pub begins : range.0 ≡ first * interval
  pub ends : range.1 ≡ last * interval
  pub nonempty : first < last
  pub from_start : range.0 ≤ start
  pub near_start : start < range.0 + interval
  pub to_end : end ≤ range.1
  pub near_end : range.1 < end + interval

max_mul : (a b i : ℕ) → max (a * i) (b * i) ≡ max a b * i
max_mul a b i = elim (Bool-cases (leb a b)) [
  | inl e ↦
      let h : a ≤ b = ground arith in
      let m : max a b ≡ b = omega (arith, h) in
      omega (arith, mul-le-mul_right i h, ap (λ n. n * i) m)
  | inr e ↦
      let h : b ≤ a = ground arith in
      let m : max a b ≡ a = omega (arith, h) in
      omega (arith, mul-le-mul_right i h, ap (λ n. n * i) m)
]

-- Let the start lie before the end, and let both be more than an interval below the greatest `u64`. The
-- normalized range consists of whole intervals and at least one, covers the range that was asked for,
-- and exceeds it by less than an interval on either side.
normalize_range_lem :
    (start end interval : ℕ)
    → 0 < interval
    → start < end
    → end + interval ≤ u64_max
    → IsWhole start end interval (normalize_range start end interval)
unfolding normalize_range
normalize_range_lem start end interval positive ordered bounded =
    let (lo, hi) = div_ceil_bounds end interval positive in
    let small : start % interval < interval = omega (arith, positive) in
    let split : start ≡ start / interval * interval + start % interval = omega (arith, positive) in
    record {
      first = start / interval;
      last = max (start / interval + 1) (div_ceil end interval);
      begins = omega (arith, split);
      ends = omega (
        arith,
        split,
        bounded,
        ordered,
        hi,
        max_mul (start / interval + 1) (div_ceil end interval) interval,
      );
      nonempty = omega arith;
      from_start = omega arith;
      near_start = omega (arith, split, small);
      to_end = omega (arith, lo, bounded, hi);
      near_end = omega (arith, hi, bounded, ordered);
    }

div_ceil-multiple : (n d : ℕ) → 0 < d → div_ceil (n * d) d ≡ n
div_ceil-multiple n d h =
    let (lo, hi) = div_ceil_bounds (n * d) d h in
    let below : div_ceil (n * d) d < suc n = lt_of_mul-lt-mul_right d (omega (arith, hi)) in
    let above : n < suc (div_ceil (n * d) d) = lt_of_mul-lt-mul_right d (omega (arith, lo, h)) in
    omega (arith, below, above)

estimate_of :
    (start end step : ℕ)
    → leb end start ≡ false
    → estimate_points_in_range start end step ≡ max 1 (div_ceil (end - start) step)
unfolding estimate_points_in_range
estimate_of start end step h = rw (h) refl

-- The estimate for a range of whole intervals is their number.
estimate_points-IsWhole :
    (start end interval : ℕ) (range : ℕ × ℕ)
    → 0 < interval
    → (w : IsWhole start end interval range)
    → estimate_points_in_range range.0 range.1 interval ≡ w.last - w.first
estimate_points-IsWhole start end interval range positive w =
    let n = w.last - w.first in
    let e : w.last ≡ w.first + n = omega (arith, w.nonempty) in
    let span : range.1 - range.0 ≡ n * interval =
      omega (arith, w.begins, w.ends, ap (λ m. m * interval) e) in
    let some_of : 1 * interval ≤ n * interval =
      mul-le-mul_right interval (omega (arith, w.nonempty)) in
    let sooner : range.0 < range.1 = omega (arith, positive, span, some_of) in
    estimate_of range.0 range.1 interval (ground arith)
    ∙ ap (λ x. max 1 (div_ceil x interval)) span
    ∙ ap (max 1) (div_ceil-multiple n interval positive)
    ∙ omega (arith, w.nonempty)

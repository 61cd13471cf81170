-- ===== src/Broadcast/TfBuilder/Closes.antt =====
-- The closing times that a builder steps through.
use hyperliquid_rust_bot.Prelude.{
  ℕ, zero, suc, ◌+◌, ◌*◌, ◌≤◌, ◌<◌, ◌≡◌, refl, sym, Bool, true, false, Option, none, some, ltb, leb,
  if◌then◌else◌, arith, Bool-cases, inl, inr,
}
use hyperliquid_rust_bot.Prelude.Words.{u64_max, wrapping_add}
use hyperliquid_rust_bot.TimeFrame.{TimeFrame, to_millis}
use hyperliquid_rust_bot.TimeFrame.Lengths.{to_millis_bounds}
use hyperliquid_rust_bot.Broadcast.TfBuilder.{TfBuilder, advance, digest}

-- The next closing time lies after `ts`, by at most an interval, and whole intervals after `from`; the
-- one before it is the previous one.
pub record IsNext (tf_ms ts from : ℕ) (prev : Option ℕ) (next : ℕ) : Type 0 where
  pub steps : ℕ
  pub reached : next ≡ from + suc steps * tf_ms
  pub after : ts < next
  pub last : ℕ
  pub kept : prev ≡ some last
  pub step : next ≡ last + tf_ms
  pub passed : last ≤ ts

-- The rounds after the first, from a closing time that has passed.
walk :
    (fuel tf_ms ts from next : ℕ)
    → 0 < tf_ms
    → from ≤ ts
    → ts < from + fuel
    → ts + tf_ms ≤ u64_max
    → next ≡ from + tf_ms
    → (p : Option ℕ) × (n : ℕ) × (advance fuel tf_ms ts (some from) next ≡ some (p, n))
      × IsNext tf_ms ts from p n
unfolding advance
walk zero tf_ms ts from next positive le few bounded here =
    let bad : ⊥ = omega (arith, le, few) in elim bad [ ]
walk (suc fuel) tf_ms ts from next positive le few bounded here = elim (Bool-cases (leb next ts)) [
  | inl e ↦
      let le' : next ≤ ts = ground arith in
      let (p, n, q, x) =
        walk fuel tf_ms ts next (wrapping_add next tf_ms) positive le'
          (omega (arith, few, positive, here)) bounded (omega (arith, le', bounded)) in
      (
        p,
        n,
        rw (e, advance) q,
        record {
          steps = suc x.steps;
          reached = omega (arith, x.reached, here);
          after = x.after;
          last = x.last;
          kept = x.kept;
          step = x.step;
          passed = x.passed;
        },
      )
  | inr e ↦ (
    some from,
    next,
    rw (e, advance) refl,
    record {
      steps = 0;
      reached = omega (arith, here);
      after = ground arith;
      last = from;
      kept = refl;
      step = here;
      passed = le;
    },
  )
]

-- What a digested candle does, by the next closing time.
abbrev pub Digested : (ts : ℕ) → TfBuilder → Option ℕ → Bool → TfBuilder → Type 0
Digested ts b none done c = (done ≡ false) × (c ≡ record b { next_close = some ts })
Digested ts b (some next) done c =
    (done ≡ ltb next ts)
    × (if done
        then ((n : ℕ) × (c.next_close ≡ some n) × IsNext (to_millis b.tf) ts next c.prev_close n)
        else c ≡ b)

abbrev builder : TimeFrame → (prev next : Option ℕ) → TfBuilder
builder tf prev next = record { tf = tf; prev_close = prev; next_close = next }

digest_by :
    (ts : ℕ) (tf : TimeFrame) (prev next : Option ℕ)
    → ts + to_millis tf ≤ u64_max
    → let b = builder tf prev next in
      (done : Bool) × (c : TfBuilder) × (digest ts b ≡ some (done, c)) × Digested ts b next done c
unfolding digest advance
digest_by ts tf prev none bounded = (false, builder tf prev (some ts), refl, (refl, refl))
digest_by ts tf prev (some next) bounded = elim (Bool-cases (ltb next ts)) [
  | inl e ↦
      let lt : next < ts = ground arith in
      let le : leb next ts ≡ true = ground arith in
      let (p, n, r, x) =
        walk (suc ts) (to_millis tf) ts next (wrapping_add next (to_millis tf))
          (omega (arith, to_millis_bounds tf)) (omega (arith, lt)) (omega (arith, lt)) bounded
          (omega (arith, lt, bounded)) in
      (true, builder tf p (some n), rw (e, digest, advance, le, r) refl, (sym e, (n, refl, x)))
  | inr e ↦ (false, builder tf prev (some next), rw (e, digest) refl, (sym e, refl))
]

-- Let the candle's closing time lie more than an interval below the greatest `u64`. A builder whose next
-- closing time the candle passes reports a closed candle, and moves on by whole intervals to the first
-- closing time after the candle. Without such a time it takes the candle's and reports nothing, and a
-- candle that does not pass it changes nothing.
pub digest_lem :
    (ts : ℕ) (b : TfBuilder)
    → ts + to_millis b.tf ≤ u64_max
    → (done : Bool) × (c : TfBuilder) × (digest ts b ≡ some (done, c))
      × Digested ts b b.next_close done c
digest_lem ts b = digest_by ts b.tf b.prev_close b.next_close

-- ===== src/Float.antt =====
-- `f64`, as an interface: the operations that the code applies to it. The development computes with
-- no law of floating-point arithmetic; the order laws that a theorem uses are the fields of `IsFloat`.
use hyperliquid_rust_bot.Prelude.{ℕ, ◌≡◌, Bool, true, false, not, arith, if◌then◌else◌}
use hyperliquid_rust_bot.Prelude.Int.{
  ℤ, pos, pos_part, ◌+ℤ◌, ◌-ℤ◌, ◌*ℤ◌, div_ℤ, ltb_ℤ, leb_ℤ, eqb_ℤ,
}

pub record Float (F : Type 0) : Type 0 where
  -- `n as f64`, and `x as u64`.
  pub of_nat : ℕ → F
  pub to_nat : F → ℕ
  pub add : F → F → F
  pub sub : F → F → F
  pub mul : F → F → F
  pub div : F → F → F
  pub neg : F → F
  pub lt : F → F → Bool
  pub le : F → F → Bool
  pub eq : F → F → Bool
  pub is_finite : F → Bool
  pub fmin : F → F → F
  pub fmax : F → F → F
  -- `f64::round` and `f64::powi`.
  pub round : F → F
  pub powi : F → ℕ → F
  -- `f64::from_bits(1)`, the least positive value.
  pub tiny : F

-- What IEEE 754 says of comparisons: NaN compares false with all values, and away from it the order is
-- total.
pub record IsFloat (F : Type 0) ⦃f : Float F⦄ : Type 0 where
  pub not_lt_self : (x : F) → f.lt x x ≡ false
  pub le_of_lt : (x y : F) → f.lt x y ≡ true → f.le x y ≡ true
  pub le_trans : (x y z : F) → f.le x y ≡ true → f.le y z ≡ true → f.le x z ≡ true
  pub le_self : (x : F) → f.is_finite x ≡ true → f.le x x ≡ true
  pub lt-eq-not-le :
      (x y : F) → f.is_finite x ≡ true → f.is_finite y ≡ true → f.lt x y ≡ not (f.le y x)

-- The interface can be met: whole numbers with a NaN.
pub data Sample : Type 0 where
  num : ℤ → Sample
  nan : Sample

abbrev pub lift₁ : (ℤ → ℤ) → Sample → Sample
lift₁ g (num a) = num (g a)
lift₁ g nan = nan

abbrev pub lift₂ : (ℤ → ℤ → ℤ) → Sample → Sample → Sample
lift₂ g (num a) (num b) = num (g a b)
lift₂ g _ _ = nan

abbrev pub test₂ : (ℤ → ℤ → Bool) → Sample → Sample → Bool
test₂ g (num a) (num b) = g a b
test₂ g _ _ = false

abbrev pub sample_div : Sample → Sample → Sample
sample_div (num a) (num b) = if eqb_ℤ b (pos 0) then nan else num (div_ℤ a b)
sample_div _ _ = nan

abbrev pub sample_finite : Sample → Bool
sample_finite (num a) = true
sample_finite nan = false

abbrev pub sample_nat : Sample → ℕ
sample_nat (num a) = pos_part a
sample_nat nan = 0

abbrev pub sample_min : Sample → Sample → Sample
sample_min (num a) (num b) = num (if ltb_ℤ b a then b else a)
sample_min nan b = b
sample_min a nan = a

abbrev pub sample_max : Sample → Sample → Sample
sample_max (num a) (num b) = num (if ltb_ℤ a b then b else a)
sample_max nan b = b
sample_max a nan = a

abbrev pub sample_powi : Sample → ℕ → Sample
sample_powi x n = num (pos 1)

instance abbrev pub sample_float : Float Sample
sample_float = record {
  of_nat = λ n. num (pos n);
  to_nat = sample_nat;
  add = lift₂ ◌+ℤ◌;
  sub = lift₂ ◌-ℤ◌;
  mul = lift₂ ◌*ℤ◌;
  div = sample_div;
  neg = lift₁ (λ a. pos 0 -ℤ a);
  lt = test₂ ltb_ℤ;
  le = test₂ leb_ℤ;
  eq = test₂ eqb_ℤ;
  is_finite = sample_finite;
  fmin = sample_min;
  fmax = sample_max;
  round = λ x. x;
  powi = sample_powi;
  tiny = num (pos 0);
}

pub Sample-IsFloat : IsFloat Sample
Sample-IsFloat = ground arith

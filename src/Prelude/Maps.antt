-- ===== src/Prelude/Maps.antt =====
-- Rust's `HashMap` and `HashSet` as association lists: a key occurs once, and the iteration order,
-- which Rust leaves open, is the order of the list.
use Prim.Native.Nat.{ℕ}
use Prim.Native.String.{String}
use mathlib.Core.Path.{◌≡◌, refl}
use mathlib.Core.Logic.{◌↔◌}
use mathlib.Core.Bool.{Bool, true, false, ◌||◌, ◌&&◌}
use mathlib.Core.Option.{Option, none, some}
use mathlib.Core.List.{List, [], ◌∷◌}
use native.Mathlib.Omega.{arith}
use text.Mathlib.Text.{◌==◌ as str_eq}
use text.Mathlib.TextEquality.{eq_iff}
use hyperliquid_rust_bot.Prelude.Tests.{◌==◌, ==_iff, if◌then◌else◌, is_some}

pub record Eq {ℓ} (A : Type ℓ) : Type ℓ where
  pub beq : A → A → Bool
  pub beq_iff : (a b : A) → (beq a b ≡ true) ↔ (a ≡ b)

instance abbrev pub nat_eq : Eq ℕ
nat_eq = record { beq = ◌==◌; beq_iff = ==_iff }

instance abbrev pub string_eq : Eq String
string_eq = record { beq = str_eq; beq_iff = eq_iff }

pub pair_beq_iff :
    {A B : Type 0} ⦃e : Eq A⦄ ⦃f : Eq B⦄ (p q : A × B)
    → (e.beq p.0 q.0 && f.beq p.1 q.1 ≡ true) ↔ (p ≡ q)
pair_beq_iff ⦃e⦄ ⦃f⦄ p q = ground (arith, e.beq_iff p.0 q.0, f.beq_iff p.1 q.1)

instance abbrev pub pair_eq : {A B : Type 0} ⦃e : Eq A⦄ ⦃f : Eq B⦄ → Eq (A × B)
pair_eq ⦃e⦄ ⦃f⦄ = record { beq = λ p q. e.beq p.0 q.0 && f.beq p.1 q.1; beq_iff = pair_beq_iff }

module _ {ℓ κ} {K : Type ℓ} {V : Type κ} ⦃e : Eq K⦄ where
  -- `HashMap::get`.
  unfoldable pub get : List (K × V) → K → Option V
  get [] k = none
  get ((j, v) ∷ m) k = let rest = get m k in if e.beq j k then some v else rest

  -- `HashMap::contains_key`.
  unfoldable pub contains_key : List (K × V) → K → Bool
  contains_key [] k = false
  contains_key ((j, v) ∷ m) k = e.beq j k || contains_key m k

  -- `HashMap::insert`.
  unfoldable pub insert : List (K × V) → K → V → List (K × V)
  insert [] k v = (k, v) ∷ []
  insert ((j, w) ∷ m) k v =
      let rest = insert m k v in if e.beq j k then (j, v) ∷ m else (j, w) ∷ rest

  -- `HashMap::remove`, without its result.
  unfoldable pub remove : List (K × V) → K → List (K × V)
  remove [] k = []
  remove ((j, w) ∷ m) k = let rest = remove m k in if e.beq j k then rest else (j, w) ∷ rest

  pub get-insert :
      (m : List (K × V)) (k j : K) (v : V)
      → get (insert m k v) j ≡ (if e.beq k j then some v else get m j)
  unfolding get insert
  get-insert [] k j v = refl
  get-insert ((i, w) ∷ m) k j v =
      ground (arith, e.beq_iff k j, e.beq_iff i k, e.beq_iff i j, get-insert m k j v)

  pub get-remove :
      (m : List (K × V)) (k j : K) → get (remove m k) j ≡ (if e.beq k j then none else get m j)
  unfolding get remove
  get-remove [] k j = ground arith
  get-remove ((i, w) ∷ m) k j =
      ground (arith, e.beq_iff k j, e.beq_iff i k, e.beq_iff i j, get-remove m k j)

  pub contains_key-get : (m : List (K × V)) (k : K) → contains_key m k ≡ is_some (get m k)
  unfolding get contains_key
  contains_key-get [] k = refl
  contains_key-get ((j, v) ∷ m) k = ground (arith, contains_key-get m k)

  pub remove_absent : (m : List (K × V)) (k : K) → get m k ≡ none → remove m k ≡ m
  unfolding get remove
  remove_absent [] k h = refl
  remove_absent ((j, v) ∷ m) k h = ground (arith, remove_absent m k)

module _ {ℓ} {K : Type ℓ} ⦃e : Eq K⦄ where
  -- `HashSet::contains`.
  unfoldable pub mem : List K → K → Bool
  mem [] k = false
  mem (j ∷ s) k = e.beq j k || mem s k

  -- `HashSet::insert`; its result is `not (mem s k)`.
  unfoldable pub add : List K → K → List K
  add s k = if mem s k then s else k ∷ s

  -- `HashSet::remove`.
  unfoldable pub erase : List K → K → List K
  erase [] k = []
  erase (j ∷ s) k = let rest = erase s k in if e.beq j k then rest else j ∷ rest

  pub mem-add : (s : List K) (k j : K) → mem (add s k) j ≡ e.beq k j || mem s j
  unfolding mem add
  mem-add s k j = ground (arith, e.beq_iff k j, mem_of_eq s k j)
    where
      mem_of_eq : (s : List K) (k j : K) → k ≡ j → mem s k ≡ mem s j
      mem_of_eq s k j h = cc

  pub mem-erase :
      (s : List K) (k j : K) → mem (erase s k) j ≡ (if e.beq k j then false else mem s j)
  unfolding mem erase
  mem-erase [] k j = ground arith
  mem-erase (i ∷ s) k j =
      ground (arith, e.beq_iff k j, e.beq_iff i k, e.beq_iff i j, mem-erase s k j)

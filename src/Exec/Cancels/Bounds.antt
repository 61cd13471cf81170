-- ===== src/Exec/Cancels/Bounds.antt =====
-- How many cancellations `cancel_resting_oids` asks for at most: its `while` loop ends.
use hyperliquid_rust_bot.Prelude.{ℕ, zero, suc, ◌+◌, ◌*◌, ◌≤◌, ◌≡◌, List, [], ◌∷◌, length, arith}
use native.Mathlib.Nat.{mul-le-mul_left}
use hyperliquid_rust_bot.Prelude.Maps.{nat_eq, add, erase}
use hyperliquid_rust_bot.Exec.Types.{RestingOrderLocal}
use hyperliquid_rust_bot.Exec.Env.{Env, Io, cancel}
use hyperliquid_rust_bot.Exec.Cancels.{
  Cancels, max_retries, cancel_one, cancel_each, retry_one, retry_each, retry, cancel_resting_oids,
}
use hyperliquid_rust_bot.Exec.Cancels.Laws.{cancels_sent}

length-add : (l : List ℕ) (k : ℕ) → length (add l k) ≤ length l + 1
unfolding add
length-add l k = ground arith

length-erase : (l : List ℕ) (k : ℕ) → length (erase l k) ≤ length l
unfolding erase
length-erase [] k = omega arith
length-erase (x ∷ l) k = ground (arith, length-erase l k)

module _ {F : Type 0} (env : Env F) (client : ℕ) where
  cancel_one_bound :
      (oid : ℕ) (s : Cancels F)
      → let t = cancel_one env client oid s in
        (length t.failed ≤ length s.failed + 1)
        × (cancels_sent t.io.log ≤ cancels_sent s.io.log + 1)
  unfolding cancel_one cancel
  cancel_one_bound oid s = ground (arith, length-add s.failed oid)

  cancel_each_bound :
      (oids : List ℕ) (s : Cancels F)
      → let t = cancel_each env client oids s in
        (length t.failed ≤ length s.failed + length oids)
        × (cancels_sent t.io.log ≤ cancels_sent s.io.log + length oids)
  unfolding cancel_each
  cancel_each_bound [] s = omega arith
  cancel_each_bound (oid ∷ oids) s =
      omega (arith, cancel_one_bound oid s, cancel_each_bound oids (cancel_one env client oid s))

  retry_each_bound :
      (oids : List ℕ) (s : Cancels F)
      → let t = retry_each env client oids s in
        (length t.failed ≤ length s.failed)
        × (cancels_sent t.io.log ≡ cancels_sent s.io.log + length oids)
  unfolding retry_each retry_one cancel
  retry_each_bound [] s = omega arith
  retry_each_bound (oid ∷ oids) s =
      ground (arith, length-erase s.failed oid, retry_each_bound oids (retry_one env client oid s))

  retry_bound :
      (rounds : ℕ) (s : Cancels F)
      → cancels_sent (retry env client rounds s).1.io.log
        ≤ cancels_sent s.io.log + (rounds + 1) * length s.failed
  unfolding retry
  retry_bound zero s = ground (arith, retry_each_bound s.failed s)
  retry_bound (suc rounds) s =
      let t = retry_each env client s.failed s in
      let b = retry_each_bound s.failed s in
      ground (arith, b, retry_bound rounds t, mul-le-mul_left (rounds + 1) b.0)

  -- For n given orders at most 7 n cancellations are requested: one each, and then at most six rounds
  -- over those that failed.
  pub cancel_resting_oids_bound :
      (oids : List ℕ) (resting : List (ℕ × RestingOrderLocal F)) (io : Io F)
      → cancels_sent (cancel_resting_oids env client oids resting io).1.io.log
        ≤ cancels_sent io.log + 7 * length oids
  unfolding cancel_resting_oids
  cancel_resting_oids_bound oids resting io =
      let s : Cancels F = record { resting = resting; failed = []; io = io } in
      omega
        (arith, retry_bound max_retries (cancel_each env client oids s), cancel_each_bound oids s)

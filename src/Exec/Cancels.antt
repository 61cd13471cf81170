-- ===== src/Exec/Cancels.antt =====
-- src/exec/executor.rs: `cancel_resting_oids`, the cancellation of a set of resting orders with
-- retries.
pub mod Laws
pub mod Bounds
use hyperliquid_rust_bot.Prelude.{ℕ, zero, suc, Bool, true, false, List, [], ◌∷◌, if◌then◌else◌}
use hyperliquid_rust_bot.Prelude.Maps.{nat_eq, contains_key, remove, add, erase}
use hyperliquid_rust_bot.Exec.Types.{RestingOrderLocal}
use hyperliquid_rust_bot.Exec.Env.{Env, Io, cancel}

abbrev pub max_retries : ℕ
max_retries = 5

-- The variables of the loops.
pub record Cancels (F : Type 0) : Type 0 where
  pub resting : List (ℕ × RestingOrderLocal F)
  pub failed : List ℕ
  pub io : Io F

abbrev pub is_empty : List ℕ → Bool
is_empty [] = true
is_empty (_ ∷ _) = false

module _ {F : Type 0} (env : Env F) (client : ℕ) where
  -- One order of the first pass: an order that is not resting is skipped.
  unfoldable pub cancel_one : ℕ → Cancels F → Cancels F
  cancel_one oid s =
      let (done, io) = cancel env client oid s.io in
      if contains_key s.resting oid
      then record {
        resting = remove s.resting oid;
        failed = if done then s.failed else add s.failed oid;
        io = io;
      }
      else s

  unfoldable pub cancel_each : List ℕ → Cancels F → Cancels F
  cancel_each [] s = s
  cancel_each (oid ∷ oids) s = cancel_each oids (cancel_one oid s)

  -- One order of a retry round.
  unfoldable pub retry_one : ℕ → Cancels F → Cancels F
  retry_one oid s =
      let (done, io) = cancel env client oid s.io in
      record s { failed = if done then erase s.failed oid else s.failed; io = io }

  unfoldable pub retry_each : List ℕ → Cancels F → Cancels F
  retry_each [] s = s
  retry_each (oid ∷ oids) s = retry_each oids (retry_one oid s)

  -- `rounds` is `MAX_RETRIES - retries` before a round: the round at 0 is the last, and its outcome
  -- is an error whatever it cancels.
  unfoldable pub retry : (rounds : ℕ) → Cancels F → Bool × Cancels F
  retry zero s = if is_empty s.failed then (true, s) else (false, retry_each s.failed s)
  retry (suc rounds) s =
      let rest = retry rounds (retry_each s.failed s) in
      if is_empty s.failed then (true, s) else rest

  -- The result is `true` for `Ok(())`.
  unfoldable pub cancel_resting_oids :
      List ℕ → List (ℕ × RestingOrderLocal F) → Io F → Bool × Cancels F
  cancel_resting_oids oids resting io =
      retry max_retries (cancel_each oids (record { resting = resting; failed = []; io = io }))

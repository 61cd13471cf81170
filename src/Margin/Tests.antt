-- ===== src/Margin/Tests.antt =====
-- The theorems on src/margin.rs at a concrete book.
use hyperliquid_rust_bot.Prelude.{
  ℕ, ◌≡◌, refl, true, none, List, [], ◌∷◌, ok, arith, ◌==◌, if◌then◌else◌,
}
use hyperliquid_rust_bot.Prelude.Int.{pos, ◌+ℤ◌, ◌-ℤ◌}
use hyperliquid_rust_bot.Prelude.Maps.{string_eq, contains_key, get, remove}
use hyperliquid_rust_bot.Float.{Sample, num, sample_float}
use hyperliquid_rust_bot.Margin.{
  MarginBook, Sync, Others, Operation, removing, amount, allocate_from_current, update_asset_shared,
  sync_shared, run_all,
}
use hyperliquid_rust_bot.Margin.Versions.{Current, sync_shared_lem}
use hyperliquid_rust_bot.Margin.Limits.{
  IsAllocated, IsCommitted, is_ok, allocate_from_current_lem, update_asset_shared_lem,
}

abbrev book : MarginBook Sample
book = record {
  margins = ("BTC", num (pos 30)) ∷ [];
  total_on_chain = num (pos 100);
  last_sync = none;
  version = 4;
  resets = 0;
}

-- The exchange answers 90, with the number of the round for the positions.
abbrev exchange : Sync Sample ℕ
exchange = record { ask = λ round request. ok (num (pos 90), round); time = λ round. round }

-- Another task interferes with the first round.
abbrev interfering : ℕ → List (Operation Sample)
interfering round = if round == 0 then removing "BTC" ∷ [] else []

abbrev others : Others Sample
others = record { before_lock = λ round. []; while_asked = λ round. interfering round }

abbrev alone : Others Sample
alone = record { before_lock = λ round. []; while_asked = λ round. [] }

sync_shared_example : Current exchange 1 (sync_shared exchange others book).1
unfolding sync_shared contains_key remove
sync_shared_example = sync_shared_lem exchange others book 1 (omega arith) refl (omega arith)

allocate_from_current_example :
    IsAllocated "ETH"
      (num (pos 20))
      (num (pos 20))
      book
      (allocate_from_current "ETH" (amount (num (pos 20))) book)
allocate_from_current_example = allocate_from_current_lem "ETH" (amount (num (pos 20))) book

update_asset_shared_example :
    (contains_key book.margins "BTC" ≡ true)
    × (is_ok (sync_shared exchange alone book).0 ≡ true)
    × IsCommitted "BTC"
        (num (pos 50))
        (run_all [] (sync_shared exchange alone book).1)
        (update_asset_shared exchange alone [] "BTC" (num (pos 50)) book)
unfolding update_asset_shared contains_key get ◌+ℤ◌ ◌-ℤ◌
update_asset_shared_example =
    update_asset_shared_lem exchange alone [] "BTC" (num (pos 50)) (num (pos 50)) book refl

-- ===== src/Pools/Tests.antt =====
-- Runs of the pools on concrete inputs.
use rs_platform.Common.{
  ℕ, ◌+◌, ◌-◌, ◌≤◌, ◌≡◌, refl, true, false, none, some, List, Bytes, Result, ok, u64_mod, arith,
}
use rs_platform.Pools.{
  GroveError, Element, item, GroveOp, u64_to_be_bytes, credits_of,
  get_epoch_storage_credits_for_distribution,
}
use rs_platform.Pools.Fractions.{fractions}
use rs_platform.Pools.Epochs.{u64_from_be_bytes-u64_to_be_bytes}
use rs_platform.Pools.EpochInfo.{EpochInfo}
use rs_platform.Pools.EpochInfo.Blocks.{calculate-epoch_at, Chained, calculate-chain}
use rs_platform.Pools.Storage.{fee_distribution_table, distribute_storage_fees}
use rs_platform.Pools.Storage.Exact.{spent, ops_for_years, Reads, distribute_storage_fees_exact}
use rs_platform.Pools.Storage.Conservation.{
  credits_written, credits_before, distribute_storage_fees_conserves,
}

-- Every stored amount is 7.
abbrev sevens : List Bytes → Bytes → Result GroveError Element
sevens path key = ok (item (u64_to_be_bytes 7))

abbrev seven : List Bytes → ℕ
seven path = 7

sevens-Reads : Reads sevens seven
unfolding get_epoch_storage_credits_for_distribution credits_of
sevens-Reads epoch = rw (u64_from_be_bytes-u64_to_be_bytes 7 (omega arith)) refl

-- The leftovers of the repository's own tests.
leftover_of_million : 1000000 - spent fee_distribution_table 1000000 ≡ 180
leftover_of_million = refl

leftover_of_largest : u64_mod - 1 - spent fee_distribution_table (u64_mod - 1) ≡ 515
leftover_of_largest = refl

abbrev genesis_time : ℕ
genesis_time = 1655396517902

abbrev before : EpochInfo
before = record { current_epoch_index = 0; previous_epoch_index = none; is_epoch_change = false }

abbrev after : EpochInfo
after = record { current_epoch_index = 1; previous_epoch_index = some 0; is_epoch_change = true }

calculate-chain_example : Chained before after
calculate-chain_example =
    calculate-chain fractions genesis_time 1655396517912 1655396517922 1657125244561 before after
      (omega arith) (omega arith) (omega arith) (omega arith)
      (calculate-epoch_at fractions genesis_time 1655396517922 1655396517912 (omega arith)
        (omega arith) (omega arith))
      (calculate-epoch_at fractions genesis_time 1657125244561 1655396517922 (omega arith)
        (omega arith) (omega arith))

distribute_storage_fees_exact_example :
    distribute_storage_fees fractions sevens 1000000 42
    ≡ ok (ops_for_years seven fee_distribution_table 1000000 42, 180)
distribute_storage_fees_exact_example =
    distribute_storage_fees_exact sevens seven sevens-Reads fractions 1000000 42 (omega arith)
      (omega arith) (omega arith)

distribute_storage_fees_conserves_example :
    (ops : List GroveOp) × (left : ℕ) × (distribute_storage_fees fractions sevens 1000000 42
      ≡ ok (ops, left))
    × (credits_written ops + left ≡ credits_before seven ops + 1000000)
    × (left ≤ 1000000)
distribute_storage_fees_conserves_example =
    distribute_storage_fees_conserves fractions sevens seven sevens-Reads 1000000 42 (omega arith)
      (omega arith) (λ path. omega arith)

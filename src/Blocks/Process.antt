-- ===== src/Blocks/Process.antt =====
-- The fees of a block: dash-abci/src/execution/fee_pools/process_block_fees.rs.
use rs_platform.Common.{
  ℕ, zero, suc, ◌+◌, ◌-◌, ◌%◌, Bool, true, false, Option, none, some, List, [], ◌∷◌, ◌++◌, map,
  Bytes, ◌==◌, if◌then◌else◌, ok, ◌>>=◌, replicate, u16_mod,
}
use rs_platform.Flags.{StorageFlags}
use rs_platform.Pools.{
  Decimal, PoolResult, genesis_epoch_index, perpetual_storage_epochs, Epoch, new_epoch,
}
use rs_platform.Pools.EpochInfo.{EpochInfo}
use rs_platform.Pools.Storage.{distribute_storage_fees}
use rs_platform.Pools.{get_aggregate_storage_fees_from_distribution_pool}
use rs_platform.Pools.BlockFees.{
  FeesAggregate, FeesInPools, add_distribute_block_fees_into_pools_operations,
}
use rs_platform.Payouts.{BatchOp, write, Identity, RewardShare, Amounts}
use rs_platform.Blocks.{
  Grove, add_init_empty_without_storage_operations, add_init_current_operations,
}
use rs_platform.Blocks.Reads.{increment_proposer_block_count_operation}
use rs_platform.Blocks.Unpaid.{
  ProposersPayouts, add_distribute_fees_from_oldest_unpaid_epoch_pool_to_proposers_operations,
}

pub record BlockInfo : Type 0 where
  pub block_height : ℕ
  pub block_time_ms : ℕ
  pub previous_block_time_ms : Option ℕ
  pub proposer_pro_tx_hash : Bytes

pub record ProcessedBlockFeesResult : Type 0 where
  pub fees_in_pools : FeesInPools
  pub payouts : Option ProposersPayouts

-- The eight bytes of DEFAULT_ORIGINAL_FEE_MULTIPLIER, the float 2.0.
abbrev pub default_original_fee_multiplier : Bytes
default_original_fee_multiplier = 64 ∷ replicate 7 0

-- The first epoch whose thousandth successor is not initiated yet.
abbrev pub last_initiated_epoch_index : Option ℕ → ℕ
last_initiated_epoch_index none = genesis_epoch_index
last_initiated_epoch_index (some i) = (i + 1) % u16_mod

-- The loop over n epochs from an index on.
unfoldable pub init_thousandth_epochs : ℕ → ℕ → PoolResult (List BatchOp)
init_thousandth_epochs zero index = ok []
init_thousandth_epochs (suc n) index = do
  epoch ← new_epoch ((index + perpetual_storage_epochs) % u16_mod)
  more ← init_thousandth_epochs n (suc index)
  ok (add_init_empty_without_storage_operations epoch ++ more)

module _ (d : Decimal) (g : Grove) where
  open g use {get}

  -- The distribution of the storage fees, but in the genesis epoch.
  unfoldable pub distribute_unless_genesis : Epoch → PoolResult (List BatchOp × Option ℕ)
  distribute_unless_genesis epoch = if epoch.index == genesis_epoch_index then ok ([], none) else do
    credits ← get_aggregate_storage_fees_from_distribution_pool get
    done ← distribute_storage_fees d get credits epoch.index
    ok (map write done.0, some done.1)

  unfoldable pub add_process_epoch_change_operations :
      BlockInfo → EpochInfo → PoolResult (List BatchOp × Option ℕ)
  unfolding distribute_unless_genesis
  add_process_epoch_change_operations block info = do
    let first = last_initiated_epoch_index info.previous_epoch_index
    inits ← init_thousandth_epochs (info.current_epoch_index + 1 - first) first
    current ← new_epoch info.current_epoch_index
    let start =
        add_init_current_operations current default_original_fee_multiplier block.block_height
          block.block_time_ms
    done ← distribute_unless_genesis current
    ok (inits ++ (start ++ done.0), done.1)

  abbrev pub epoch_change_operations :
      Bool → BlockInfo → EpochInfo → PoolResult (List BatchOp × Option ℕ)
  epoch_change_operations true block info = add_process_epoch_change_operations block info
  epoch_change_operations false block info = ok ([], none)

abbrev pub some_if : Bool → ℕ → Option ℕ
some_if true n = some n
some_if false n = none

module _ (d : Decimal) (a : Amounts d)
    (fetch_identity : Bytes → PoolResult (Identity × Option StorageFlags))
    (to_buffer : Identity → PoolResult Bytes)
    (get_reward_shares_list_for_masternode : Bytes → PoolResult (List RewardShare))
    (g : Grove) where
  open g use {get}

  -- The batch that is applied at the end, and the result.
  unfoldable pub process_block_fees :
      BlockInfo → EpochInfo → FeesAggregate → PoolResult (List BatchOp × ProcessedBlockFeesResult)
  process_block_fees block info fees = do
    current ← new_epoch info.current_epoch_index
    change ← epoch_change_operations d g info.is_epoch_change block info
    count ←
        increment_proposer_block_count_operation g current block.proposer_pro_tx_hash
          (some_if info.is_epoch_change 0)
    paid ←
        add_distribute_fees_from_oldest_unpaid_epoch_pool_to_proposers_operations d a fetch_identity
          to_buffer get_reward_shares_list_for_masternode g info.current_epoch_index
          (some_if info.is_epoch_change block.block_height)
    pools ← add_distribute_block_fees_into_pools_operations get current fees change.1
    let result : ProcessedBlockFeesResult = record { fees_in_pools = pools.1; payouts = paid.1 }
    ok (change.0 ++ (count ∷ (paid.0 ++ map write pools.0)), result)

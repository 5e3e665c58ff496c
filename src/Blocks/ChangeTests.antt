-- ===== src/Blocks/ChangeTests.antt =====
-- Runs of the changes of epoch on concrete inputs.
use rs_platform.Common.{
  ℕ, suc, ◌+◌, ◌-◌, ◌≡◌, refl, true, Option, none, some, List, [], ◌∷◌, ◌++◌, map, Bytes, ok, err,
  arith,
}
use rs_platform.Flags.{StorageFlags}
use rs_platform.Pools.{
  GroveOp, new_epoch, encode_epoch_index_key, credits_of, PoolResult, corrupted_code,
  zero_without_key, u64_from_be_bytes, u64_to_be_bytes, perpetual_storage_epochs,
  get_epoch_storage_credits_for_distribution, get_epoch_processing_credits_for_distribution,
  get_aggregate_storage_fees_from_distribution_pool,
}
use rs_platform.Pools.Epochs.{u64_from_be_bytes-u64_to_be_bytes, key_of}
use rs_platform.Pools.EpochInfo.{EpochInfo, epoch_at, default_epoch_info}
use rs_platform.Pools.EpochInfo.Blocks.{calculate-epoch_at}
use rs_platform.Pools.Fractions.{fractions, amounts}
use rs_platform.Pools.Storage.{distribute_storage_fees, fee_distribution_table}
use rs_platform.Pools.Storage.Exact.{Reads, ops_for_years, spent, distribute_storage_fees_exact}
use rs_platform.Pools.Storage.Conservation.{credits_written, credits_before}
use rs_platform.Pools.BlockFees.{
  FeesAggregate, pools_written, add_distribute_block_fees_into_pools_operations-cached,
}
use rs_platform.Payouts.{BatchOp, write, insert_empty_tree, Identity, RewardShare, pay_proposers}
use rs_platform.Blocks.{
  add_init_current_operations, add_init_empty_without_storage_operations,
  add_mark_as_paid_operations, update_unpaid_epoch_index_operation, add_delete_proposers_operations,
  update_proposer_block_count_operation,
}
use rs_platform.Blocks.Reads.{
  get_unpaid_epoch_index, u16_of, get_epoch_start_block_height, get_epoch_proposers,
  block_counts_of, get_epoch_total_credits_for_distribution,
  increment_proposer_block_count_operation,
}
use rs_platform.Blocks.Unpaid.{
  next_unpaid, current_start_height, find_oldest_epoch_needing_payment, block_count, mark_if_paid,
  pay_unpaid_epoch, add_epoch_pool_to_proposers_payout_operations,
  add_distribute_fees_from_oldest_unpaid_epoch_pool_to_proposers_operations,
}
use rs_platform.Blocks.Process.{
  BlockInfo, ProcessedBlockFeesResult, default_original_fee_multiplier, init_thousandth_epochs,
  distribute_unless_genesis, add_process_epoch_change_operations, epoch_change_operations,
  process_block_fees,
}
use rs_platform.Blocks.Conserves.{epoch_of, process_block_fees_conserves}
use rs_platform.Blocks.Setup.{add_create_fee_pool_trees_operations, Reaches-epoch_trees}
use rs_platform.Blocks.Trees.{epoch_trees, keys_from}
use rs_platform.Blocks.Chain.{Chain, BlockStep, block, here, next, IsGenesis}
use rs_platform.Blocks.Tests.{sevens}

abbrev genesis_time : ℕ
genesis_time = 1655396517902

abbrev ops_of : {A : Type 0} → PoolResult (List BatchOp × A) → List BatchOp
ops_of (err e) = []
ops_of (ok done) = done.0

abbrev block_at : ℕ → ℕ → Option ℕ → BlockInfo
block_at height time previous = record {
  block_height = height;
  block_time_ms = time;
  previous_block_time_ms = previous;
  proposer_pro_tx_hash = 4 ∷ [];
}

abbrev seven : List Bytes → ℕ
seven path = 7

sevens-Reads : Reads sevens.get seven
unfolding get_epoch_storage_credits_for_distribution credits_of
sevens-Reads epoch = rw (u64_from_be_bytes-u64_to_be_bytes 7 (omega arith)) refl

abbrev first_block : BlockInfo
first_block = block_at 1 genesis_time none

abbrev genesis : Chain
genesis = record {
  time = genesis_time;
  current = 0;
  created = ops_of (epoch_change_operations fractions sevens true first_block default_epoch_info);
}

genesis-IsGenesis : IsGenesis fractions genesis_time genesis
unfolding add_process_epoch_change_operations init_thousandth_epochs new_epoch
    encode_epoch_index_key distribute_unless_genesis
genesis-IsGenesis = record {
  at_genesis = refl;
  first_epoch = refl;
  storage = sevens;
  block_info = first_block;
  left = none;
  first_created = refl;
}

-- A block two epochs later.
abbrev later_block : BlockInfo
later_block = block_at 9 1660000000000 (some genesis_time)

abbrev info_to : ℕ → EpochInfo
info_to index = record {
  current_epoch_index = index;
  previous_epoch_index = some 0;
  is_epoch_change = true;
}

abbrev distributed : ℕ → List GroveOp
distributed index = ops_for_years seven fee_distribution_table 7 index

abbrev left : ℕ
left = 7 - spent fee_distribution_table 7

abbrev start_ops : ℕ → List BatchOp
start_ops index =
    add_init_current_operations (epoch_of index) default_original_fee_multiplier 9 1660000000000

distributes_two : distribute_storage_fees fractions sevens.get 7 2 ≡ ok (distributed 2, left)
distributes_two =
    distribute_storage_fees_exact sevens.get seven sevens-Reads fractions 7 2 (omega arith)
      (omega arith) (omega arith)

distributes_one : distribute_storage_fees fractions sevens.get 7 1 ≡ ok (distributed 1, left)
distributes_one =
    distribute_storage_fees_exact sevens.get seven sevens-Reads fractions 7 1 (omega arith)
      (omega arith) (omega arith)

pool_has_seven : get_aggregate_storage_fees_from_distribution_pool sevens.get ≡ ok 7
unfolding get_aggregate_storage_fees_from_distribution_pool credits_of
pool_has_seven = rw (u64_from_be_bytes-u64_to_be_bytes 7 (omega arith)) refl

abbrev change_ops : ℕ → List BatchOp → List BatchOp
change_ops index trees = trees ++ (start_ops index ++ map write (distributed index))

abbrev two_trees : List BatchOp
two_trees = insert_empty_tree [] (key_of 1001) ∷ insert_empty_tree [] (key_of 1002) ∷ []

changes_to_two :
    add_process_epoch_change_operations fractions sevens later_block (info_to 2)
    ≡ ok (change_ops 2 two_trees, some left)
unfolding add_process_epoch_change_operations init_thousandth_epochs new_epoch
    encode_epoch_index_key distribute_unless_genesis add_init_empty_without_storage_operations
changes_to_two = rw (pool_has_seven, distributes_two) refl

abbrev later : Chain
later = record {
  time = 1660000000000;
  current = 2;
  created = genesis.created ++ change_ops 2 two_trees;
}

skips : BlockStep fractions genesis_time genesis later
skips =
    block sevens later_block (info_to 2) (change_ops 2 two_trees) (some left) (omega arith)
      (omega arith) (omega arith)
      (calculate-epoch_at fractions genesis_time 1660000000000 genesis_time (omega arith)
        (omega arith) (omega arith))
      changes_to_two refl refl

Reaches-epoch_trees_example :
    (setup : List BatchOp) × (add_create_fee_pool_trees_operations ≡ ok setup)
    × (epoch_trees (setup ++ later.created)
        ≡ keys_from (perpetual_storage_epochs + suc (epoch_at genesis_time 1660000000000)) 0)
Reaches-epoch_trees_example =
    Reaches-epoch_trees fractions genesis_time genesis-IsGenesis (next here skips)

changes_to_one :
    add_process_epoch_change_operations fractions sevens later_block (info_to 1)
    ≡ ok (change_ops 1 (insert_empty_tree [] (key_of 1001) ∷ []), some left)
unfolding add_process_epoch_change_operations init_thousandth_epochs new_epoch
    encode_epoch_index_key distribute_unless_genesis add_init_empty_without_storage_operations
changes_to_one = rw (pool_has_seven, distributes_one) refl

abbrev no_identity : Bytes → PoolResult (Identity × Option StorageFlags)
no_identity id = err corrupted_code

abbrev no_bytes : Identity → PoolResult Bytes
no_bytes identity = err corrupted_code

abbrev no_shares : Bytes → PoolResult (List RewardShare)
no_shares id = ok []

abbrev paid_ops : List BatchOp
paid_ops = add_mark_as_paid_operations (epoch_of 0) ++ (update_unpaid_epoch_index_operation 1 ∷ [])

-- The epoch before has no proposers left.
pays_none :
    add_distribute_fees_from_oldest_unpaid_epoch_pool_to_proposers_operations fractions amounts
      no_identity no_bytes no_shares sevens 1
      (some 9)
    ≡ ok (paid_ops, none)
unfolding add_distribute_fees_from_oldest_unpaid_epoch_pool_to_proposers_operations
    find_oldest_epoch_needing_payment get_unpaid_epoch_index u16_of new_epoch encode_epoch_index_key
    get_epoch_start_block_height next_unpaid current_start_height credits_of pay_unpaid_epoch
    add_epoch_pool_to_proposers_payout_operations get_epoch_total_credits_for_distribution
    get_epoch_processing_credits_for_distribution get_epoch_storage_credits_for_distribution
    block_count get_epoch_proposers block_counts_of pay_proposers mark_if_paid
    add_delete_proposers_operations u64_from_be_bytes u64_to_be_bytes
pays_none = refl

abbrev block_fees : FeesAggregate
block_fees = record { processing_fees = 30; storage_fees = 5000 }

epoch_has_seven :
    zero_without_key (get_epoch_processing_credits_for_distribution sevens.get (epoch_of 1)) ≡ ok 7
unfolding credits_of get_epoch_processing_credits_for_distribution
epoch_has_seven = rw (u64_from_be_bytes-u64_to_be_bytes 7 (omega arith)) refl

abbrev written : List GroveOp
written = pools_written (epoch_of 1) (7 + 30) (left + 5000)

abbrev batch : List BatchOp
batch =
    change_ops 1 (insert_empty_tree [] (key_of 1001) ∷ [])
    ++ (update_proposer_block_count_operation (epoch_of 1) (4 ∷ []) 1
        ∷ (paid_ops ++ map write written))

abbrev block_result : ProcessedBlockFeesResult
block_result = record {
  fees_in_pools = record { processing_fees = 7 + 30; storage_fees = left + 5000 };
  payouts = none;
}

processes :
    process_block_fees fractions amounts no_identity no_bytes no_shares sevens later_block
      (info_to 1)
      block_fees
    ≡ ok (batch, block_result)
unfolding process_block_fees new_epoch encode_epoch_index_key
    increment_proposer_block_count_operation
processes =
    rw
      (
        changes_to_one,
        pays_none,
        add_distribute_block_fees_into_pools_operations-cached sevens.get (epoch_of 1) block_fees 7
            left epoch_has_seven (omega arith) (omega arith),
      )
      refl

process_block_fees_conserves_example :
    (start between : List BatchOp) × (shared : List GroveOp) × (rest : ℕ) × (distribute_storage_fees
        fractions sevens.get 7 1
      ≡ ok (shared, rest))
    × (batch
        ≡ (start ++ map write shared)
          ++ (between ++ map write (pools_written (epoch_of 1) (7 + 30) (rest + 5000))))
    × (credits_written (shared ++ pools_written (epoch_of 1) (7 + 30) (rest + 5000))
        ≡ credits_before seven shared + 7 + 5000 + (7 + 30))
    × (block_result.fees_in_pools.processing_fees ≡ 7 + 30)
    × (block_result.fees_in_pools.storage_fees ≡ rest + 5000)
process_block_fees_conserves_example =
    process_block_fees_conserves fractions amounts no_identity no_bytes no_shares sevens seven
      sevens-Reads later_block (info_to 1) block_fees 7 7 batch block_result refl refl (omega arith)
      pool_has_seven epoch_has_seven (omega arith) (omega arith) (λ path. omega arith) processes

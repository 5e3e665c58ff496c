-- ===== src/Pools/BlockFees.antt =====
-- `add_distribute_block_fees_into_pools_operations` of
-- dash-abci/src/execution/fee_pools/fee_distribution.rs. The two additions wrap around.
use rs_platform.Common.{
  ℕ, ◌+◌, ◌%◌, ◌<◌, ◌≡◌, refl, Option, none, some, List, [], ◌∷◌, Bytes, Result, ok, ◌>>=◌, u64_mod,
  arith,
}
use rs_platform.Pools.{
  GroveError, PoolResult, Epoch, Element, GroveOp, zero_without_key,
  get_epoch_processing_credits_for_distribution, get_aggregate_storage_fees_from_distribution_pool,
  update_processing_credits_for_distribution_operation,
  update_storage_fee_distribution_pool_operation,
}
use rs_platform.Pools.Epochs.{be_value-u64_to_be_bytes}
use rs_platform.Pools.Storage.Conservation.{credits_written}

pub record FeesAggregate : Type 0 where
  pub processing_fees : ℕ
  pub storage_fees : ℕ

pub record FeesInPools : Type 0 where
  pub processing_fees : ℕ
  pub storage_fees : ℕ

module _ (grove_get : List Bytes → Bytes → Result GroveError Element) where
  abbrev pub storage_fees_in_pool : Option ℕ → PoolResult ℕ
  storage_fees_in_pool none = get_aggregate_storage_fees_from_distribution_pool grove_get
  storage_fees_in_pool (some cached) = ok cached

  unfoldable pub add_distribute_block_fees_into_pools_operations :
      Epoch → FeesAggregate → Option ℕ → PoolResult (List GroveOp × FeesInPools)
  add_distribute_block_fees_into_pools_operations epoch fees cached = do
    in_epoch ← zero_without_key (get_epoch_processing_credits_for_distribution grove_get epoch)
    let processing = (in_epoch + fees.processing_fees) % u64_mod
    in_pool ← storage_fees_in_pool cached
    let storage = (in_pool + fees.storage_fees) % u64_mod
    let in_pools : FeesInPools = record { processing_fees = processing; storage_fees = storage }
    ok (
      update_processing_credits_for_distribution_operation epoch processing
          ∷ update_storage_fee_distribution_pool_operation storage
          ∷ [],
      in_pools,
    )

-- The two operations that write the processing fees of an epoch and the storage fees of the pool.
abbrev pub pools_written : Epoch → ℕ → ℕ → List GroveOp
pools_written epoch processing storage =
    update_processing_credits_for_distribution_operation epoch processing
    ∷ update_storage_fee_distribution_pool_operation storage
    ∷ []

pub add_distribute_block_fees_into_pools_operations-cached :
    (grove_get : List Bytes → Bytes → Result GroveError Element) (epoch : Epoch)
    (fees : FeesAggregate) (in_epoch in_pool : ℕ)
    → zero_without_key (get_epoch_processing_credits_for_distribution grove_get epoch) ≡ ok in_epoch
    → in_epoch + fees.processing_fees < u64_mod
    → in_pool + fees.storage_fees < u64_mod
    → add_distribute_block_fees_into_pools_operations grove_get epoch fees (some in_pool)
      ≡ ok (
        pools_written epoch (in_epoch + fees.processing_fees) (in_pool + fees.storage_fees),
        record {
          processing_fees = in_epoch + fees.processing_fees;
          storage_fees = in_pool + fees.storage_fees;
        },
      )
unfolding add_distribute_block_fees_into_pools_operations
add_distribute_block_fees_into_pools_operations-cached grove_get epoch fees in_epoch in_pool e h k =
    let processing : (in_epoch + fees.processing_fees) % u64_mod ≡ in_epoch + fees.processing_fees =
      omega arith in
    let storage : (in_pool + fees.storage_fees) % u64_mod ≡ in_pool + fees.storage_fees =
      omega arith in
    rw (e, processing, storage) refl

pub credits_written-pools_written :
    (epoch : Epoch) (processing storage : ℕ)
    → processing < u64_mod
    → storage < u64_mod
    → credits_written (pools_written epoch processing storage) ≡ processing + storage
unfolding update_processing_credits_for_distribution_operation
    update_storage_fee_distribution_pool_operation
credits_written-pools_written epoch processing storage h k =
    omega (arith, be_value-u64_to_be_bytes processing h, be_value-u64_to_be_bytes storage k)

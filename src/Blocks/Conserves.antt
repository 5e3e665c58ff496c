-- ===== src/Blocks/Conserves.antt =====
-- The credits of the pools at a change of epoch
-- (dash-abci/src/execution/fee_pools/process_block_fees.rs).
use rs_platform.Common.{
  ℕ, ◌+◌, ◌-◌, ◌<◌, ◌≤◌, ◌≡◌, refl, sym, ap, ◌∙◌, Bool, true, false, Option, some, List, ◌∷◌, ◌++◌,
  append_assoc, map, Bytes, ◌==◌, ok, >>=-eq-ok, ok_inj, u16_mod, u64_mod, arith,
}
use rs_platform.Flags.{StorageFlags}
use rs_platform.Pools.{
  Decimal, PoolResult, GroveOp, epoch_storage_offset, perpetual_storage_epochs, Epoch, new_epoch,
  genesis_epoch_index, zero_without_key, get_epoch_processing_credits_for_distribution,
  get_aggregate_storage_fees_from_distribution_pool,
}
use rs_platform.Pools.Epochs.{key_of, new_epoch_lem}
use rs_platform.Pools.EpochInfo.{EpochInfo}
use rs_platform.Pools.Storage.{distribute_storage_fees}
use rs_platform.Pools.Storage.Exact.{Reads}
use rs_platform.Pools.Storage.Conservation.{
  credits_written, credits_written-append, credits_before, distribute_storage_fees_conserves,
}
use rs_platform.Pools.BlockFees.{
  FeesAggregate, FeesInPools, pools_written, add_distribute_block_fees_into_pools_operations,
  add_distribute_block_fees_into_pools_operations-cached, credits_written-pools_written,
}
use rs_platform.Payouts.{BatchOp, write, Identity, RewardShare, Amounts}
use rs_platform.Blocks.{Grove, add_init_current_operations}
use rs_platform.Blocks.Reads.{increment_proposer_block_count_operation}
use rs_platform.Blocks.Unpaid.{
  add_distribute_fees_from_oldest_unpaid_epoch_pool_to_proposers_operations,
}
use rs_platform.Blocks.Process.{
  BlockInfo, ProcessedBlockFeesResult, distribute_unless_genesis,
  add_process_epoch_change_operations, epoch_change_operations, some_if, process_block_fees,
  last_initiated_epoch_index, init_thousandth_epochs, default_original_fee_multiplier,
}

abbrev pub epoch_of : ℕ → Epoch
epoch_of index = record { index = index; key = key_of index }

module _ (d : Decimal) (g : Grove) where
  distribute_unless_genesis_lem :
      (epoch : Epoch) (credits left : ℕ) (distributed : List GroveOp)
      → (epoch.index == genesis_epoch_index) ≡ false
      → get_aggregate_storage_fees_from_distribution_pool g.get ≡ ok credits
      → distribute_storage_fees d g.get credits epoch.index ≡ ok (distributed, left)
      → distribute_unless_genesis d g epoch ≡ ok (map write distributed, some left)
  unfolding distribute_unless_genesis
  distribute_unless_genesis_lem epoch credits left distributed e read made = rw (e, read, made) refl

  -- After the genesis epoch, a change of epoch ends with the distribution of the credits that are
  -- read from the pool, and reports what the distribution leaves.
  add_process_epoch_change_operations-distributes :
      (block : BlockInfo) (info : EpochInfo) (epoch : Epoch) (credits left : ℕ)
      (distributed : List GroveOp) (change : List BatchOp × Option ℕ)
      → new_epoch info.current_epoch_index ≡ ok epoch
      → distribute_unless_genesis d g epoch ≡ ok (map write distributed, some left)
      → add_process_epoch_change_operations d g block info ≡ ok change
      → (start : List BatchOp) × (change.0 ≡ start ++ map write distributed)
        × (change.1 ≡ some left)
  unfolding add_process_epoch_change_operations
  add_process_epoch_change_operations-distributes block info epoch credits left distributed change e
        made h =
      let first = last_initiated_epoch_index info.previous_epoch_index in
      let (inits, a, rest) =
        >>=-eq-ok (init_thousandth_epochs (info.current_epoch_index + 1 - first) first) _ h in
      let (current, b, rest2) = >>=-eq-ok (new_epoch info.current_epoch_index) _ rest in
      let (done, c, same) = >>=-eq-ok (distribute_unless_genesis d g current) _ rest2 in
      let same_epoch : current ≡ epoch = ok_inj (sym b ∙ e) in
      let same_done : done ≡ (map write distributed, some left) =
        ok_inj (sym c ∙ ap (distribute_unless_genesis d g) same_epoch ∙ made) in
      let start =
        add_init_current_operations current default_original_fee_multiplier block.block_height
          block.block_time_ms in
      let change_eq = ok_inj same in
      (
        inits ++ start,
        ap (λ (x : List BatchOp × Option ℕ). x.0) (sym change_eq)
            ∙ ap (λ (x : List BatchOp × Option ℕ). inits ++ (start ++ x.0)) same_done
            ∙ sym (append_assoc inits start (map write distributed)),
        ap (λ (x : List BatchOp × Option ℕ). x.1) (sym change_eq)
            ∙ ap (λ (x : List BatchOp × Option ℕ). x.1) same_done,
      )

module _ (d : Decimal) (a : Amounts d)
    (fetch_identity : Bytes → PoolResult (Identity × Option StorageFlags))
    (to_buffer : Identity → PoolResult Bytes) (get_shares : Bytes → PoolResult (List RewardShare))
    (g : Grove) (committed : List Bytes → ℕ) (reads : Reads g.get committed) where
  -- The steps of a block that changes the epoch, whose operations for the pools come last.
  process_block_fees-steps :
      (block : BlockInfo) (info : EpochInfo) (fees : FeesAggregate) (epoch : Epoch)
      (batch : List BatchOp) (result : ProcessedBlockFeesResult)
      → info.is_epoch_change ≡ true
      → new_epoch info.current_epoch_index ≡ ok epoch
      → process_block_fees d a fetch_identity to_buffer get_shares g block info fees
        ≡ ok (batch, result)
      → (change : List BatchOp × Option ℕ) × (between : List BatchOp) × (pools : List GroveOp
          × FeesInPools)
        × (add_process_epoch_change_operations d g block info ≡ ok change)
        × (add_distribute_block_fees_into_pools_operations g.get epoch fees change.1 ≡ ok pools)
        × (batch ≡ change.0 ++ (between ++ map write pools.0))
        × (result.fees_in_pools ≡ pools.1)
  unfolding process_block_fees
  process_block_fees-steps block info fees epoch batch result changes e h =
      let (current, b, rest) = >>=-eq-ok (new_epoch info.current_epoch_index) _ h in
      let (change, c, rest2) =
        >>=-eq-ok (epoch_change_operations d g info.is_epoch_change block info) _ rest in
      let (count, i, rest3) =
        >>=-eq-ok
          (increment_proposer_block_count_operation g current block.proposer_pro_tx_hash
            (some_if info.is_epoch_change 0))
          _ rest2 in
      let (paid, p, rest4) =
        >>=-eq-ok
          (add_distribute_fees_from_oldest_unpaid_epoch_pool_to_proposers_operations d a
            fetch_identity to_buffer get_shares g info.current_epoch_index
            (some_if info.is_epoch_change block.block_height))
          _ rest3 in
      let (pools, q, same) =
        >>=-eq-ok (add_distribute_block_fees_into_pools_operations g.get current fees change.1) _
          rest4 in
      let same_epoch : current ≡ epoch = ok_inj (sym b ∙ e) in
      let made = ok_inj same in
      (
        change,
        count ∷ paid.0,
        pools,
        ap (λ (x : Bool). epoch_change_operations d g x block info) (sym changes) ∙ c,
        ap (λ (x : Epoch). add_distribute_block_fees_into_pools_operations g.get x fees change.1)
              (sym same_epoch)
            ∙ q,
        ap (λ (x : List BatchOp × ProcessedBlockFeesResult). x.0) (sym made),
        ap (λ (x : List BatchOp × ProcessedBlockFeesResult). x.1.fees_in_pools) (sym made),
      )

  -- Where the fees of a block that changes to an epoch after genesis are processed, for credits and
  -- fees that fit in 64 bits together with what the pools hold, epochs that have keys, and reads of
  -- the epochs' storage credits that succeed or find nothing: the batch holds the operations of the
  -- distribution of the credits that are read from the pool, and ends with those that write the
  -- epoch's processing fees with the block's, and what the distribution leaves with the block's
  -- storage fees; both together write what the epochs and the pool had before plus the block's fees,
  -- and the two sums are reported.
  pub process_block_fees_conserves :
      (block : BlockInfo) (info : EpochInfo) (fees : FeesAggregate) (credits in_epoch : ℕ)
      (batch : List BatchOp) (result : ProcessedBlockFeesResult)
      → info.is_epoch_change ≡ true
      → (info.current_epoch_index == genesis_epoch_index) ≡ false
      → info.current_epoch_index + perpetual_storage_epochs + epoch_storage_offset ≤ u16_mod
      → get_aggregate_storage_fees_from_distribution_pool g.get ≡ ok credits
      → zero_without_key
          (get_epoch_processing_credits_for_distribution g.get (epoch_of info.current_epoch_index))
        ≡ ok in_epoch
      → credits + fees.storage_fees < u64_mod
      → in_epoch + fees.processing_fees < u64_mod
      → ((path : List Bytes) → committed path + credits < u64_mod)
      → process_block_fees d a fetch_identity to_buffer get_shares g block info fees
        ≡ ok (batch, result)
      → (start between : List BatchOp) × (distributed : List GroveOp) × (left : ℕ)
        × (distribute_storage_fees d g.get credits info.current_epoch_index
            ≡ ok (distributed, left))
        × (batch
            ≡ (start ++ map write distributed)
              ++ (between
                  ++ map write (
                      pools_written
                        (epoch_of info.current_epoch_index)
                        (in_epoch + fees.processing_fees)
                        (left + fees.storage_fees))))
        × (credits_written (
              distributed
              ++ pools_written
                  (epoch_of info.current_epoch_index)
                  (in_epoch + fees.processing_fees)
                  (left + fees.storage_fees))
            ≡ credits_before committed distributed
              + credits
              + fees.storage_fees
              + (in_epoch + fees.processing_fees))
        × (result.fees_in_pools.processing_fees ≡ in_epoch + fees.processing_fees)
        × (result.fees_in_pools.storage_fees ≡ left + fees.storage_fees)
  process_block_fees_conserves block info fees credits in_epoch batch result changes later small
        read processing h k fits made =
      let epoch = epoch_of info.current_epoch_index in
      let key = new_epoch_lem info.current_epoch_index (omega arith) in
      let (distributed, left, distributes, total, within) =
        distribute_storage_fees_conserves d g.get committed reads credits info.current_epoch_index
          (omega arith) small fits in
      let (change, between, pools, c, q, same, reported) =
        process_block_fees-steps block info fees epoch batch result changes key made in
      let (start, begins, leaves) =
        add_process_epoch_change_operations-distributes d g block info epoch credits left
          distributed change key
          (distribute_unless_genesis_lem d g epoch credits left distributed later read distributes)
          c in
      let written =
        pools_written epoch (in_epoch + fees.processing_fees) (left + fees.storage_fees) in
      let in_pools : FeesInPools = record {
        processing_fees = in_epoch + fees.processing_fees;
        storage_fees = left + fees.storage_fees;
      } in
      let pools_eq : pools ≡ (written, in_pools) = ok_inj (
        sym q
        ∙ ap (add_distribute_block_fees_into_pools_operations g.get epoch fees) leaves
        ∙ add_distribute_block_fees_into_pools_operations-cached g.get epoch fees in_epoch left
            processing k (omega arith)) in
      (
        start,
        between,
        distributed,
        left,
        distributes,
        same
            ∙ ap (λ (x : List BatchOp). x ++ (between ++ map write pools.0)) begins
            ∙ ap
                (λ (x : List GroveOp × FeesInPools).
                  (start ++ map write distributed) ++ (between ++ map write x.0))
                pools_eq,
        omega (
          arith,
          credits_written-append distributed written,
          credits_written-pools_written epoch (in_epoch + fees.processing_fees)
              (left + fees.storage_fees) k (omega arith),
        ),
        ap (λ (x : FeesInPools). x.processing_fees) reported
            ∙ ap (λ (x : List GroveOp × FeesInPools). x.1.processing_fees) pools_eq,
        ap (λ (x : FeesInPools). x.storage_fees) reported
            ∙ ap (λ (x : List GroveOp × FeesInPools). x.1.storage_fees) pools_eq,
      )

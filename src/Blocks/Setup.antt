-- ===== src/Blocks/Setup.antt =====
-- The trees of the pools when the chain starts (drive/src/fee_pools/mod.rs), with those that the
-- blocks create.
use rs_platform.Common.{
  ℕ, zero, suc, ◌+◌, ◌≤◌, ◌≡◌, refl, sym, ap, ◌∙◌, List, [], ◌∷◌, ◌++◌, ok, ◌>>=◌, u16_mod, arith,
}
use rs_platform.Pools.{
  Decimal, PoolResult, Epoch, perpetual_storage_epochs, epoch_storage_offset, genesis_epoch_index,
  new_epoch, update_storage_credits_for_distribution_operation,
  update_storage_fee_distribution_pool_operation,
}
use rs_platform.Pools.Epochs.{key_of, new_epoch_lem}
use rs_platform.Pools.EpochInfo.{epoch_at}
use rs_platform.Payouts.{BatchOp, write}
use rs_platform.Blocks.{
  add_init_empty_without_storage_operations, update_unpaid_epoch_index_operation,
}
use rs_platform.Blocks.Trees.{epoch_trees, keys_from, keys_from-append, epoch_trees-append}
use rs_platform.Blocks.Chain.{Chain, Reaches, IsGenesis, Reaches-created}

unfoldable pub add_init_empty_operations : Epoch → List BatchOp
unfolding add_init_empty_without_storage_operations
add_init_empty_operations epoch =
    add_init_empty_without_storage_operations epoch
    ++ (write (update_storage_credits_for_distribution_operation epoch 0) ∷ [])

-- The loop over n epochs from an index on.
unfoldable pub init_empty_epochs : ℕ → ℕ → PoolResult (List BatchOp)
unfolding add_init_empty_operations
init_empty_epochs zero i = ok []
init_empty_epochs (suc n) i = do
  epoch ← new_epoch i
  more ← init_empty_epochs n (suc i)
  ok (add_init_empty_operations epoch ++ more)

unfoldable pub add_create_fee_pool_trees_operations : PoolResult (List BatchOp)
unfolding init_empty_epochs update_unpaid_epoch_index_operation
add_create_fee_pool_trees_operations = do
  epochs ← init_empty_epochs perpetual_storage_epochs genesis_epoch_index
  ok (
      write (update_storage_fee_distribution_pool_operation 0)
      ∷ update_unpaid_epoch_index_operation genesis_epoch_index
      ∷ epochs)

init_empty_epochs_lem :
    (n i : ℕ)
    → i + n + epoch_storage_offset ≤ u16_mod
    → (ops : List BatchOp) × (init_empty_epochs n i ≡ ok ops) × (epoch_trees ops ≡ keys_from n i)
unfolding init_empty_epochs keys_from add_init_empty_operations
    add_init_empty_without_storage_operations
init_empty_epochs_lem zero i h = ([], refl, refl)
init_empty_epochs_lem (suc n) i h =
    let (more, e, trees) = init_empty_epochs_lem n (suc i) (omega arith) in
    let at : Epoch = record { index = i; key = key_of i } in
    (
      add_init_empty_operations at ++ more,
      rw (new_epoch_lem i (omega arith), e) refl,
      ap (λ keys. key_of i ∷ keys) trees,
    )

add_create_fee_pool_trees_operations_lem :
    (ops : List BatchOp) × (add_create_fee_pool_trees_operations ≡ ok ops)
    × (epoch_trees ops ≡ keys_from perpetual_storage_epochs 0)
unfolding add_create_fee_pool_trees_operations update_unpaid_epoch_index_operation
add_create_fee_pool_trees_operations_lem =
    let (epochs, p, trees) = init_empty_epochs_lem perpetual_storage_epochs 0 (omega arith) in
    (
      write (update_storage_fee_distribution_pool_operation 0)
          ∷ update_unpaid_epoch_index_operation genesis_epoch_index
          ∷ epochs,
      rw p refl,
      trees,
    )

module _ (d : Decimal) (genesis_time : ℕ) where
  -- After a chain of blocks from the genesis block, each not before the last and each with its
  -- epoch's thousandth successor within 16 bits, the set-up and the blocks together have created the
  -- trees of all epochs up to the thousandth after the last block's, in order and each once, however
  -- many epochs a block skips.
  pub Reaches-epoch_trees :
      {s t : Chain}
      → IsGenesis d genesis_time s
      → Reaches d genesis_time s t
      → (setup : List BatchOp) × (add_create_fee_pool_trees_operations ≡ ok setup)
        × (epoch_trees (setup ++ t.created)
            ≡ keys_from (perpetual_storage_epochs + suc (epoch_at genesis_time t.time)) 0)
  Reaches-epoch_trees {s} {t} v r =
      let (setup, p, first) = add_create_fee_pool_trees_operations_lem in
      let (index, created) = Reaches-created d genesis_time v r in
      let ahead : epoch_trees t.created
          ≡ keys_from (suc (epoch_at genesis_time t.time)) perpetual_storage_epochs =
        created ∙ ap (λ n. keys_from (suc n) perpetual_storage_epochs) index in
      (
        setup,
        p,
        epoch_trees-append setup t.created
            ∙ rw (first, ahead)
                (sym (
                  keys_from-append perpetual_storage_epochs (suc (epoch_at genesis_time t.time))
                    0)),
      )

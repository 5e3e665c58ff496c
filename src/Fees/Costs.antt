-- ===== src/Fees/Costs.antt =====
-- The costs of drive/src/fee/op.rs against their formulas: no intermediate result overflows.
use rs_platform.Common.{ℕ, ◌+◌, ◌*◌, ◌<◌, ◌≡◌, ok, u32_mod, arith}
use rs_platform.Flags.{StorageRemovedBytes}
use rs_platform.Fees.{OperationCost, ephemeral_cost, storage_cost}

-- The counts of an operation's cost are 32-bit numbers.
pub record FitsCost (total_removed_bytes : StorageRemovedBytes → ℕ) (c : OperationCost)
    : Type 0 where
  pub seek_count : c.seek_count < u32_mod
  pub added_bytes : c.added_bytes < u32_mod
  pub replaced_bytes : c.replaced_bytes < u32_mod
  pub removed_bytes : total_removed_bytes c.removed_bytes < u32_mod
  pub storage_loaded_bytes : c.storage_loaded_bytes < u32_mod
  pub hash_node_calls : c.hash_node_calls < u32_mod

module _ (total_removed_bytes : StorageRemovedBytes → ℕ) where
  -- The formula for the processing fee of an operation.
  abbrev pub processing_formula : OperationCost → ℕ
  processing_formula c =
      4000 * c.seek_count
      + 400
        * (c.added_bytes
            + c.replaced_bytes
            + c.storage_loaded_bytes
            + total_removed_bytes c.removed_bytes)
      + 1000 * c.hash_node_calls

  -- No checked step of either cost fails for 32-bit counts: the processing fee is 4000 credits for
  -- a seek, 400 for a byte added, replaced, removed or loaded and 1000 for a hash, and the storage
  -- fee is 27000 credits for an added byte.
  pub cost_formulas :
      (c : OperationCost)
      → FitsCost total_removed_bytes c
      → (ephemeral_cost total_removed_bytes c ≡ ok (processing_formula c))
        × (storage_cost c ≡ ok (27000 * c.added_bytes))
  unfolding ephemeral_cost storage_cost
  cost_formulas c f = (ground arith, ground arith)

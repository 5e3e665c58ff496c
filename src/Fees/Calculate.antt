-- ===== src/Fees/Calculate.antt =====
-- `calculate_fee`, `FeeResult::checked_add_assign` (drive/src/fee/mod.rs) and
-- `DriveOperation::consume_to_fees` (drive/src/fee/op.rs).
use rs_platform.Common.{
  ℕ, Option, none, some, List, [], ◌∷◌, ok, ◌>>=◌, ok_or, checked_add, checked_mul, u32_mod,
  u64_mod,
}
use rs_platform.Flags.{StorageRemovedBytes}
use rs_platform.Fees.{
  BaseOp, base_cost, all_base_ops, overflow, FeeOutcome, OperationCost, FeeResult, no_fees,
  DriveOperation, pre_calculated_fee_result, operation_cost, ephemeral_cost, storage_cost,
  split_removed_bytes,
}
use rs_platform.Fees.RemovedBytes.{add_removed}

-- What was assigned before an error is lost with the aggregate, which the caller drops.
unfoldable pub checked_add_assign : FeeResult → FeeResult → FeeOutcome FeeResult
checked_add_assign a b = do
  storage ← ok_or (checked_add u64_mod a.storage_fee b.storage_fee) overflow
  processing ← ok_or (checked_add u64_mod a.processing_fee b.processing_fee) overflow
  identities ← add_removed a.removed_from_identities b.removed_from_identities
  system ← ok_or (checked_add u32_mod a.removed_from_system b.removed_from_system) overflow
  ok (record {
    storage_fee = storage;
    processing_fee = processing;
    removed_from_identities = identities;
    removed_from_system = system;
  })

-- The loop over the base operations' counts.
unfoldable pub add_base_costs : (BaseOp → ℕ) → List BaseOp → ℕ → FeeOutcome ℕ
add_base_costs count [] fee = ok fee
add_base_costs count (op ∷ ops) fee = do
  cost ← ok_or (checked_mul u64_mod (base_cost op) (count op)) overflow
  value ← ok_or (checked_add u64_mod fee cost) overflow
  add_base_costs count ops value

unfoldable pub base_fees : Option (BaseOp → ℕ) → FeeOutcome ℕ
base_fees none = ok 0
base_fees (some count) = add_base_costs count all_base_ops 0

-- The loop over the drive operations' fees.
unfoldable pub add_fees : FeeResult → List FeeResult → FeeOutcome FeeResult
add_fees total [] = ok total
add_fees total (fee ∷ fees) = do sum ← checked_add_assign total fee; add_fees sum fees

module _ (total_removed_bytes : StorageRemovedBytes → ℕ) where
  -- The fee of an operation's cost.
  unfoldable pub cost_to_fee : OperationCost → FeeOutcome FeeResult
  cost_to_fee cost = do
    storage ← storage_cost cost
    processing ← ephemeral_cost total_removed_bytes cost
    let (identities, system) = split_removed_bytes cost.removed_bytes
    ok (record {
      storage_fee = storage;
      processing_fee = processing;
      removed_from_identities = identities;
      removed_from_system = system;
    })

module _ {G : Type 0} (total_removed_bytes : StorageRemovedBytes → ℕ) where
  unfoldable pub operation_to_fee : DriveOperation G → FeeOutcome FeeResult
  unfolding operation_cost
  operation_to_fee (pre_calculated_fee_result f) = ok f
  operation_to_fee op = do cost ← operation_cost op; cost_to_fee total_removed_bytes cost

  unfoldable pub consume_to_fees : List (DriveOperation G) → FeeOutcome (List FeeResult)
  consume_to_fees [] = ok []
  consume_to_fees (op ∷ ops) = do
    fee ← operation_to_fee op
    fees ← consume_to_fees ops
    ok (fee ∷ fees)

  unfoldable pub drive_fees : FeeResult → Option (List (DriveOperation G)) → FeeOutcome FeeResult
  drive_fees total none = ok total
  drive_fees total (some ops) = do fees ← consume_to_fees ops; add_fees total fees

  unfoldable pub calculate_fee :
      Option (BaseOp → ℕ) → Option (List (DriveOperation G)) → FeeOutcome FeeResult
  calculate_fee base_operations drive_operations = do
    processing ← base_fees base_operations
    drive_fees (record no_fees { processing_fee = processing }) drive_operations

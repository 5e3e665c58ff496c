-- ===== src/Fees/Tests.antt =====
-- Runs of the fee calculation, and the theorems about it at concrete inputs.
use rs_platform.Common.{
  ℕ, ◌+◌, ◌*◌, ◌≡◌, refl, some, List, [], ◌∷◌, ltb, if◌then◌else◌, ok, err, replicate, u64_mod,
  arith, Bytes,
}
use rs_platform.Common.SortedMap.{get, insert, remove}
use rs_platform.Flags.{basic_storage_removal, lookup_owner}
use rs_platform.Flags.Removal.Total.{total_bytes}
use rs_platform.Fees.{
  BaseOp, base_cost, all_base_ops, overflow, OperationCost, FeeResult, no_fees, DriveOperation,
  calculated_cost_operation, pre_calculated_fee_result, RemovedByIdentity, remove_owner,
  ephemeral_cost, storage_cost, operation_cost, split_removed_bytes,
}
use rs_platform.Fees.RemovedBytes.{add_removed, merge_epochs, IsTable}
use rs_platform.Fees.Costs.{FitsCost, processing_formula, cost_formulas}
use rs_platform.Fees.Calculate.{
  checked_add_assign, add_base_costs, base_fees, add_fees, consume_to_fees, drive_fees,
  calculate_fee, cost_to_fee, operation_to_fee,
}
use rs_platform.Fees.Totals.{
  sum_base, sum_storage, sum_processing, sum_system, base_fees_exact, calculate_fee_sums,
}

abbrev alice : Bytes
alice = replicate 32 1

abbrev bob : Bytes
bob = replicate 32 2

abbrev ours : RemovedByIdentity
ours = (alice, (3, 10) ∷ []) ∷ []

abbrev theirs : RemovedByIdentity
theirs = (alice, (3, 5) ∷ (4, 1) ∷ []) ∷ (bob, (3, 7) ∷ []) ∷ []

abbrev both : RemovedByIdentity
both = (bob, (3, 7) ∷ []) ∷ (alice, (3, 15) ∷ (4, 1) ∷ []) ∷ []

run_add_removed : add_removed ours theirs ≡ ok both
unfolding add_removed merge_epochs lookup_owner remove_owner get remove insert
run_add_removed = refl

ours-IsTable : IsTable ours
unfolding lookup_owner
ours-IsTable = ((tt, tt), refl, tt)

theirs-IsTable : IsTable theirs
unfolding lookup_owner
theirs-IsTable = (omega arith, refl, ((tt, tt), refl, tt))

abbrev cost : OperationCost
cost = record {
  seek_count = 2;
  added_bytes = 10;
  replaced_bytes = 0;
  removed_bytes = basic_storage_removal 3;
  storage_loaded_bytes = 1;
  hash_node_calls = 4;
}

cost-FitsCost : FitsCost total_bytes cost
cost-FitsCost = omega arith

cost_formulas_example :
    (ephemeral_cost total_bytes cost ≡ ok (processing_formula total_bytes cost))
    × (storage_cost cost ≡ ok (27000 * cost.added_bytes))
cost_formulas_example = cost_formulas total_bytes cost cost-FitsCost

abbrev count : BaseOp → ℕ
count op = 2

base_fees_exact_example : base_fees (some count) ≡ (
    if ltb (sum_base count all_base_ops) u64_mod
    then ok (sum_base count all_base_ops)
    else err overflow)
base_fees_exact_example = base_fees_exact count

abbrev ops : List (DriveOperation ℕ)
ops = calculated_cost_operation cost ∷ pre_calculated_fee_result no_fees ∷ []

abbrev fee : FeeResult
fee = record {
  storage_fee = 270000;
  processing_fee = 18280;
  removed_from_identities = [];
  removed_from_system = 3;
}

run_fee : calculate_fee total_bytes (some count) (some ops) ≡ ok fee
unfolding calculate_fee base_fees add_base_costs base_cost drive_fees consume_to_fees
    operation_to_fee cost_to_fee operation_cost storage_cost ephemeral_cost split_removed_bytes
    add_fees checked_add_assign add_removed
run_fee = refl

calculate_fee_sums_example :
    (fees : List FeeResult) × (consume_to_fees total_bytes ops ≡ ok fees)
    × (fee.storage_fee ≡ sum_storage fees)
    × (fee.processing_fee ≡ sum_base count all_base_ops + sum_processing fees)
    × (fee.removed_from_system ≡ sum_system fees)
calculate_fee_sums_example = calculate_fee_sums total_bytes count ops fee run_fee

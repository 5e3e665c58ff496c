-- ===== src/Fees/Totals.antt =====
-- What `calculate_fee` (drive/src/fee/mod.rs) adds up to.
use rs_platform.Common.{
  ℕ, ◌+◌, ◌*◌, ◌<◌, ◌≡◌, ap, ◌∙◌, ltb, if◌then◌else◌, some, List, [], ◌∷◌, ok, err, >>=-eq-ok,
  u64_mod, arith,
}
use rs_platform.Flags.{StorageRemovedBytes}
use rs_platform.Fees.{
  BaseOp, base_cost, all_base_ops, overflow, FeeOutcome, FeeResult, no_fees, DriveOperation,
}
use rs_platform.Fees.RemovedBytes.{add_removed}
use rs_platform.Fees.Calculate.{
  checked_add_assign, add_base_costs, base_fees, add_fees, consume_to_fees, drive_fees,
  calculate_fee,
}

abbrev pub sum_base : (BaseOp → ℕ) → List BaseOp → ℕ
sum_base count [] = 0
sum_base count (op ∷ ops) = base_cost op * count op + sum_base count ops

abbrev pub sum_storage : List FeeResult → ℕ
sum_storage [] = 0
sum_storage (f ∷ fs) = f.storage_fee + sum_storage fs

abbrev pub sum_processing : List FeeResult → ℕ
sum_processing [] = 0
sum_processing (f ∷ fs) = f.processing_fee + sum_processing fs

abbrev pub sum_system : List FeeResult → ℕ
sum_system [] = 0
sum_system (f ∷ fs) = f.removed_from_system + sum_system fs

-- The base operations' fee is the exact sum where that is a 64-bit number, an overflow elsewhere.
add_base_costs_lem :
    (count : BaseOp → ℕ) (ops : List BaseOp) (fee : ℕ)
    → fee < u64_mod
    → add_base_costs count ops fee ≡ (
        if ltb (fee + sum_base count ops) u64_mod
        then ok (fee + sum_base count ops)
        else err overflow)
unfolding add_base_costs
add_base_costs_lem count [] fee h = ground arith
add_base_costs_lem count (op ∷ ops) fee h =
    ground (arith, add_base_costs_lem count ops (fee + base_cost op * count op))

add_base_costs_from_zero :
    (count : BaseOp → ℕ) (ops : List BaseOp)
    → add_base_costs count ops 0
      ≡ (if ltb (sum_base count ops) u64_mod then ok (sum_base count ops) else err overflow)
add_base_costs_from_zero count ops = ground (arith, add_base_costs_lem count ops 0)

checked_value :
    (sum value : ℕ) (r : FeeOutcome ℕ)
    → r ≡ (if ltb sum u64_mod then ok sum else err overflow)
    → r ≡ ok value
    → value ≡ sum
checked_value sum value r e h = ground arith

-- What one sum of two results adds.
checked_add_assign_lem :
    (a b : FeeResult) {r : FeeResult}
    → checked_add_assign a b ≡ ok r
    → (r.storage_fee ≡ a.storage_fee + b.storage_fee)
      × (r.processing_fee ≡ a.processing_fee + b.processing_fee)
      × (r.removed_from_system ≡ a.removed_from_system + b.removed_from_system)
      × (add_removed a.removed_from_identities b.removed_from_identities
          ≡ ok r.removed_from_identities)
unfolding checked_add_assign
checked_add_assign_lem a b e = ground arith

add_fees_lem :
    (total : FeeResult) (fees : List FeeResult) {r : FeeResult}
    → add_fees total fees ≡ ok r
    → (r.storage_fee ≡ total.storage_fee + sum_storage fees)
      × (r.processing_fee ≡ total.processing_fee + sum_processing fees)
      × (r.removed_from_system ≡ total.removed_from_system + sum_system fees)
unfolding add_fees
add_fees_lem total [] e = ground arith
add_fees_lem total (fee ∷ fees) e =
    let (sum, p, q) = >>=-eq-ok (checked_add_assign total fee) _ e in
    let step = checked_add_assign_lem total fee p in
    let rest = add_fees_lem sum fees q in
    (omega (arith, step.0, rest.0), omega (arith, step.1, rest.1), omega (arith, step.2, rest.2))

-- The fee of the base operations is the exact sum of count times cost where that is a 64-bit
-- number, and an overflow error elsewhere.
pub base_fees_exact :
    (count : BaseOp → ℕ)
    → base_fees (some count) ≡ (
        if ltb (sum_base count all_base_ops) u64_mod
        then ok (sum_base count all_base_ops)
        else err overflow)
unfolding base_fees
base_fees_exact count = add_base_costs_from_zero count all_base_ops

module _ {G : Type 0} (total_removed_bytes : StorageRemovedBytes → ℕ) where
  -- Where a fee is calculated, the fee of each drive operation is, its storage fee is the exact sum
  -- of theirs, its bytes removed from the system are the exact sum of theirs, and its processing fee
  -- is the exact sum of theirs and of the cost of each base operation times its number.
  pub calculate_fee_sums :
      (count : BaseOp → ℕ) (ops : List (DriveOperation G)) (r : FeeResult)
      → calculate_fee total_removed_bytes (some count) (some ops) ≡ ok r
      → (fees : List FeeResult) × (consume_to_fees total_removed_bytes ops ≡ ok fees)
        × (r.storage_fee ≡ sum_storage fees)
        × (r.processing_fee ≡ sum_base count all_base_ops + sum_processing fees)
        × (r.removed_from_system ≡ sum_system fees)
  unfolding calculate_fee drive_fees
  calculate_fee_sums count ops r e =
      let (base, p, q) = >>=-eq-ok (base_fees (some count)) _ e in
      let (fees, p', q') = >>=-eq-ok (consume_to_fees total_removed_bytes ops) _ q in
      let sums = add_fees_lem (record no_fees { processing_fee = base }) fees q' in
      let exact =
        checked_value (sum_base count all_base_ops) base (base_fees (some count))
          (base_fees_exact count) p in
      (
        fees,
        p',
        omega (arith, sums.0),
        sums.1 ∙ ap (λ (n : ℕ). n + sum_processing fees) exact,
        omega (arith, sums.2),
      )

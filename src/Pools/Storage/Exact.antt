-- ===== src/Pools/Storage/Exact.antt =====
-- What the loops of dash-abci/src/execution/fee_pools/distribute_storage_pool.rs compute, in closed
-- form: which operations they push and how much they leave.
use rs_platform.Common.{
  ℕ, zero, suc, ◌+◌, ◌-◌, ◌*◌, ◌/◌, ◌%◌, ◌≤◌, ◌<◌, ◌≡◌, ap, List, [], ◌∷◌, ◌++◌, Bytes, ◌==◌,
  Result, ok, length, u16_mod, u64_mod, arith, false, lt→ltb,
}
use native.Mathlib.Nat.{suc-mul, mul-add}
use rs_platform.Pools.{
  Decimal, GroveError, epochs_per_year, epoch_storage_offset, perpetual_storage_epochs, Epoch,
  get_vec_path, Element, GroveOp, update_storage_credits_for_distribution_operation,
  get_epoch_storage_credits_for_distribution,
}
use rs_platform.Pools.Epochs.{key_of, path_of, new_epoch_lem}
use rs_platform.Pools.Storage.{
  fee_distribution_table, zero_if_not_found, distribute_to_epoch, distribute_to_epochs,
  distribute_to_years, distribute_storage_fees, epoch_fee_share,
}

-- The share of one epoch in a year with ratio r / 100000.
abbrev pub share_of : ℕ → ℕ → ℕ
share_of credits r = credits * r / (100000 * epochs_per_year)

abbrev pub total : List ℕ → ℕ
total [] = 0
total (n ∷ ns) = n + total ns

-- The credits that the years of a table take.
abbrev pub spent : List ℕ → ℕ → ℕ
spent [] credits = 0
spent (r ∷ table) credits = epochs_per_year * share_of credits r + spent table credits

spent_bound : (table : List ℕ) (credits : ℕ) → 100000 * spent table credits ≤ credits * total table
spent_bound [] credits = omega arith
spent_bound (r ∷ table) credits =
    omega (arith, spent_bound table credits, mul-add credits r (total table))

-- The table's ratios add up to one, so that the years never take more than there is.
pub spent-le : (credits : ℕ) → spent fee_distribution_table credits ≤ credits
spent-le credits = omega (arith, spent_bound fee_distribution_table credits)

-- The operations, for the committed credits of each epoch's key.
module _ (committed : List Bytes → ℕ) where
  abbrev pub op_for : ℕ → ℕ → GroveOp
  op_for share i =
      update_storage_credits_for_distribution_operation (record { index = i; key = key_of i })
        ((committed (path_of i) + share) % u64_mod)

  unfoldable pub ops_for : ℕ → ℕ → ℕ → List GroveOp
  ops_for zero share i = []
  ops_for (suc n) share i = op_for share i ∷ ops_for n share (suc i)

  unfoldable pub ops_for_years : List ℕ → ℕ → ℕ → List GroveOp
  ops_for_years [] credits i = []
  ops_for_years (r ∷ table) credits i =
      ops_for epochs_per_year (share_of credits r) i
      ++ ops_for_years table credits (i + epochs_per_year)

-- The committed credits are what the drive reads, or 0 for an epoch that it does not find.
abbrev pub Reads : (List Bytes → Bytes → Result GroveError Element) → (List Bytes → ℕ) → Type 0
Reads grove_get committed =
    (epoch : Epoch)
    → zero_if_not_found (get_epoch_storage_credits_for_distribution grove_get epoch)
      ≡ ok (committed (get_vec_path epoch))

module _ (grove_get : List Bytes → Bytes → Result GroveError Element) (committed : List Bytes → ℕ)
    (reads : Reads grove_get committed) where
  distribute_to_epoch_lem :
      (share i left : ℕ)
      → i + epoch_storage_offset < u16_mod
      → share ≤ left
      → distribute_to_epoch grove_get share i left ≡ ok (op_for committed share i, left - share)
  unfolding distribute_to_epoch
  distribute_to_epoch_lem share i left h k =
      rw (new_epoch_lem i h, reads (record { index = i; key = key_of i })) (ground arith)

  distribute_to_epochs_lem :
      (n share i left : ℕ)
      → i + n + epoch_storage_offset ≤ u16_mod
      → n * share ≤ left
      → distribute_to_epochs grove_get n share i left
        ≡ ok (ops_for committed n share i, left - n * share)
  unfolding distribute_to_epochs ops_for
  distribute_to_epochs_lem zero share i left h k = ground arith
  distribute_to_epochs_lem (suc n) share i left h k =
      let split = suc-mul n share in
      rw
        (
          distribute_to_epoch_lem share i left (omega arith) (omega arith),
          distribute_to_epochs_lem n share (suc i) (left - share) (omega arith) (omega arith),
        )
        (ground (arith, split))

  module _ (d : Decimal) where
    open d use {from, from_u64-from, floor_share, to_u64-from}

    epoch_fee_share_lem :
        (credits r : ℕ)
        → credits < u64_mod
        → share_of credits r ≤ credits
        → epoch_fee_share d (from credits) r ≡ ok (share_of credits r)
    epoch_fee_share_lem credits r h k = rw (
      floor_share credits r epochs_per_year h (omega arith) (omega arith),
      to_u64-from (share_of credits r),
      lt→ltb (share_of credits r) u64_mod (omega arith),
    )

    distribute_to_years_lem :
        (table : List ℕ) (year start credits current left : ℕ)
        → start ≡ current + epochs_per_year * year
        → credits < u64_mod
        → start + epochs_per_year * length table + epoch_storage_offset ≤ u16_mod
        → spent table credits ≤ left
        → left ≤ credits
        → distribute_to_years d grove_get table year (from credits) current left
          ≡ ok (ops_for_years committed table credits start, left - spent table credits)
    unfolding distribute_to_years ops_for_years
    distribute_to_years_lem [] year start credits current left e small h k l = ground arith
    distribute_to_years_lem (r ∷ table) year start credits current left e small h k l =
        let share = share_of credits r in
        let no_wrap : (current + epochs_per_year * year) % u16_mod ≡ start = omega arith in
        let count : (start + epochs_per_year) % u16_mod - start ≡ epochs_per_year = omega arith in
        let taken = epochs_per_year * share in
        rw
          (
            epoch_fee_share_lem credits r small (omega arith),
            no_wrap,
            count,
            distribute_to_epochs_lem epochs_per_year share start left (omega arith) (omega arith),
            distribute_to_years_lem table (suc year) (start + epochs_per_year) credits current
                (left - taken) (omega arith) small (omega arith) (omega arith) (omega arith),
          )
          (ap (λ rest. ok (ops_for_years committed (r ∷ table) credits start, rest)) (omega arith))

    -- The whole distribution, for a pool that is not empty and fits in 64 bits, a current epoch
    -- whose next 1000 epochs have keys, and reads that succeed or find nothing: it never fails, it
    -- pushes for each of the years' epochs the committed credits plus the year's share, and it
    -- leaves what the years did not take.
    pub distribute_storage_fees_exact :
        (credits current : ℕ)
        → 0 < credits
        → credits < u64_mod
        → current + perpetual_storage_epochs + epoch_storage_offset ≤ u16_mod
        → distribute_storage_fees d grove_get credits current
          ≡ ok (
            ops_for_years committed fee_distribution_table credits current,
            credits - spent fee_distribution_table credits,
          )
    unfolding distribute_storage_fees
    distribute_storage_fees_exact credits current some_credits small h =
        let not_zero : (credits == 0) ≡ false = ground arith in
        rw (not_zero, from_u64-from credits small)
          (distribute_to_years_lem fee_distribution_table 0 current credits current credits
            (omega arith) small h (spent-le credits) (omega arith))

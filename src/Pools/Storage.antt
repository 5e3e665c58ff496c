-- ===== src/Pools/Storage.antt =====
-- `add_distribute_storage_fee_distribution_pool_to_epochs_operations` of
-- dash-abci/src/execution/fee_pools/distribute_storage_pool.rs, with its table of ratios. Additions
-- that the source does not check wrap around.
use rs_platform.Common.{
  ℕ, zero, suc, ◌+◌, ◌-◌, ◌*◌, ◌%◌, List, [], ◌∷◌, ◌++◌, Bytes, ◌==◌, if◌then◌else◌, Result, ok,
  err, ◌>>=◌, ok_or, checked_sub, u16_mod, u64_mod,
}
use rs_platform.Pools.{
  Decimal, GroveError, path_not_found, path_key_not_found, path_parent_layer_not_found, PoolError,
  grove, overflow, PoolResult, epochs_per_year, Epoch, new_epoch, Element, GroveOp,
  update_storage_credits_for_distribution_operation, get_epoch_storage_credits_for_distribution,
}
pub mod Exact
pub mod Conservation

-- The years' ratios, in units of 1/100000.
abbrev pub fee_distribution_table : List ℕ
fee_distribution_table =
    5000 ∷ 4800 ∷ 4600 ∷ 4400 ∷ 4200 ∷ 4000 ∷ 3850 ∷ 3700 ∷ 3550 ∷ 3400 ∷ 3250 ∷ 3100 ∷ 2950 ∷ 2850
    ∷ 2750 ∷ 2650 ∷ 2550 ∷ 2450 ∷ 2350 ∷ 2250 ∷ 2150 ∷ 2050 ∷ 1950 ∷ 1875 ∷ 1800 ∷ 1725 ∷ 1650
    ∷ 1575 ∷ 1500 ∷ 1425 ∷ 1350 ∷ 1275 ∷ 1200 ∷ 1125 ∷ 1050 ∷ 975 ∷ 900 ∷ 825 ∷ 750 ∷ 675 ∷ 600
    ∷ 525 ∷ 475 ∷ 425 ∷ 375 ∷ 325 ∷ 275 ∷ 225 ∷ 175 ∷ 125 ∷ []

-- The `or_else` on the credits of an epoch that is not created yet.
abbrev pub zero_if_not_found : PoolResult ℕ → PoolResult ℕ
zero_if_not_found (err (grove path_not_found)) = ok 0
zero_if_not_found (err (grove path_key_not_found)) = ok 0
zero_if_not_found (err (grove path_parent_layer_not_found)) = ok 0
zero_if_not_found r = r

module _ (grove_get : List Bytes → Bytes → Result GroveError Element) where
  -- One round of the inner loop: the operation that it pushes and the credits left.
  unfoldable pub distribute_to_epoch : ℕ → ℕ → ℕ → PoolResult (GroveOp × ℕ)
  distribute_to_epoch share index left = do
    epoch ← new_epoch index
    current ← zero_if_not_found (get_epoch_storage_credits_for_distribution grove_get epoch)
    remaining ← ok_or (checked_sub left share) overflow
    let credits = (current + share) % u64_mod
    ok (update_storage_credits_for_distribution_operation epoch credits, remaining)

  -- The loop over a year's epochs: how many are to come, the share of each, and the next index.
  unfoldable pub distribute_to_epochs : ℕ → ℕ → ℕ → ℕ → PoolResult (List GroveOp × ℕ)
  distribute_to_epochs zero share index left = ok ([], left)
  distribute_to_epochs (suc n) share index left = do
    done ← distribute_to_epoch share index left
    rest ← distribute_to_epochs n share (suc index) done.1
    ok (done.0 ∷ rest.0, rest.1)

module _ (d : Decimal) where
  open d use {Number, from, ratio, times, over, floor, to_u64}

  abbrev pub epoch_fee_share : Number → ℕ → PoolResult ℕ
  epoch_fee_share fees r =
      ok_or (to_u64 (floor (over (times fees (ratio r)) (from epochs_per_year)))) overflow

module _ (d : Decimal) (grove_get : List Bytes → Bytes → Result GroveError Element) where
  open d use {Number, from_u64}

  -- The loop over the years that the rest of the table is for.
  unfoldable pub distribute_to_years : List ℕ → ℕ → Number → ℕ → ℕ → PoolResult (List GroveOp × ℕ)
  distribute_to_years [] year fees current_epoch_index left = ok ([], left)
  distribute_to_years (r ∷ table) year fees current_epoch_index left = do
    share ← epoch_fee_share d fees r
    let start = (current_epoch_index + epochs_per_year * year) % u16_mod
    let end = (start + epochs_per_year) % u16_mod
    done ← distribute_to_epochs grove_get (end - start) share start left
    rest ← distribute_to_years table (suc year) fees current_epoch_index done.1
    ok (done.0 ++ rest.0, rest.1)

  -- The pushed operations and the leftover, for the credits of the distribution pool.
  unfoldable pub distribute_storage_fees : ℕ → ℕ → PoolResult (List GroveOp × ℕ)
  distribute_storage_fees credits current_epoch_index = if credits == 0 then ok ([], 0) else do
    fees ← ok_or (from_u64 credits) overflow
    distribute_to_years fee_distribution_table 0 fees current_epoch_index credits

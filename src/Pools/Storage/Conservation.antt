-- ===== src/Pools/Storage/Conservation.antt =====
-- The distribution of dash-abci/src/execution/fee_pools/distribute_storage_pool.rs neither makes nor
-- loses credits, and reaches each of the next 1000 epochs once.
use rs_platform.Common.{
  ℕ, zero, suc, ◌+◌, ◌-◌, ◌*◌, ◌%◌, ◌≤◌, ◌<◌, ◌≡◌, refl, ◌∙◌, List, [], ◌∷◌, ◌++◌, Bytes, map,
  Result, ok, u16_mod, u64_mod, arith, length,
}
use native.Mathlib.Nat.{suc-mul}
use mathlib.Core.List.{map-append}
use rs_platform.Pools.{
  Decimal, GroveError, epochs_per_year, epoch_storage_offset, perpetual_storage_epochs, Element,
  GroveOp, insert_item, be_value, update_storage_credits_for_distribution_operation,
}
use rs_platform.Pools.Epochs.{path_of, be_value-u64_to_be_bytes}
use rs_platform.Pools.Storage.{fee_distribution_table, distribute_storage_fees}
use rs_platform.Pools.Storage.Exact.{
  share_of, spent, spent-le, op_for, ops_for, ops_for_years, Reads, distribute_storage_fees_exact,
}

-- The path of an operation, and the credits that it writes.
abbrev pub op_path : GroveOp → List Bytes
op_path (insert_item path name value) = path

abbrev pub op_credits : GroveOp → ℕ
op_credits (insert_item path name value) = be_value 0 value

abbrev pub credits_written : List GroveOp → ℕ
credits_written [] = 0
credits_written (op ∷ ops) = op_credits op + credits_written ops

-- The paths of n epochs from an index on.
abbrev pub paths_from : ℕ → ℕ → List (List Bytes)
paths_from zero i = []
paths_from (suc n) i = path_of i ∷ paths_from n (suc i)

pub credits_written-append :
    (xs ys : List GroveOp) → credits_written (xs ++ ys) ≡ credits_written xs + credits_written ys
credits_written-append [] ys = omega arith
credits_written-append (x ∷ xs) ys = omega (arith, credits_written-append xs ys)

module _ (committed : List Bytes → ℕ) where
  -- The credits that the operations' epochs had before.
  abbrev pub credits_before : List GroveOp → ℕ
  credits_before [] = 0
  credits_before (op ∷ ops) = committed (op_path op) + credits_before ops

  credits_before-append :
      (xs ys : List GroveOp) → credits_before (xs ++ ys) ≡ credits_before xs + credits_before ys
  credits_before-append [] ys = omega arith
  credits_before-append (x ∷ xs) ys = omega (arith, credits_before-append xs ys)

  op_for-path : (share i : ℕ) → op_path (op_for committed share i) ≡ path_of i
  unfolding update_storage_credits_for_distribution_operation
  op_for-path share i = refl

  op_for-credits :
      (share i : ℕ)
      → committed (path_of i) + share < u64_mod
      → op_credits (op_for committed share i) ≡ committed (path_of i) + share
  unfolding update_storage_credits_for_distribution_operation
  op_for-credits share i h =
      be_value-u64_to_be_bytes ((committed (path_of i) + share) % u64_mod) (omega arith)
      ∙ omega arith

  ops_for-credits :
      (n share i : ℕ)
      → ((path : List Bytes) → committed path + share < u64_mod)
      → credits_written (ops_for committed n share i)
        ≡ n * share + credits_before (ops_for committed n share i)
  unfolding ops_for
  ops_for-credits zero share i fits = omega arith
  ops_for-credits (suc n) share i fits = rw (op_for-path share i) omega (
    arith,
    op_for-credits share i (fits (path_of i)),
    ops_for-credits n share (suc i) fits,
    suc-mul n share,
  )

  ops_for_years-credits :
      (table : List ℕ) (credits i : ℕ)
      → spent table credits ≤ credits
      → ((path : List Bytes) → committed path + credits < u64_mod)
      → credits_written (ops_for_years committed table credits i)
        ≡ spent table credits + credits_before (ops_for_years committed table credits i)
  unfolding ops_for_years
  ops_for_years-credits [] credits i h fits = omega arith
  ops_for_years-credits (r ∷ table) credits i h fits =
      let share = share_of credits r in
      let year = ops_for committed epochs_per_year share i in
      let later = ops_for_years committed table credits (i + epochs_per_year) in
      omega (
        arith,
        credits_written-append year later,
        credits_before-append year later,
        ops_for-credits epochs_per_year share i (λ path. omega (arith, fits path)),
        ops_for_years-credits table credits (i + epochs_per_year) (omega arith) fits,
      )

  paths_from-ops_for : (n share i : ℕ) → map op_path (ops_for committed n share i) ≡ paths_from n i
  unfolding ops_for
  paths_from-ops_for zero share i = refl
  paths_from-ops_for (suc n) share i =
      rw (op_for-path share i, paths_from-ops_for n share (suc i)) refl

  paths_from-append : (m n i : ℕ) → paths_from (m + n) i ≡ paths_from m i ++ paths_from n (i + m)
  paths_from-append zero n i =
      let none_more : 0 + n ≡ n = omega arith in
      let none_later : i + 0 ≡ i = omega arith in rw (none_more, none_later) refl
  paths_from-append (suc m) n i =
      let one_more : suc m + n ≡ suc (m + n) = omega arith in
      let one_later : i + suc m ≡ suc i + m = omega arith in
      rw (one_more, one_later, paths_from-append m n (suc i)) refl

  paths_from-ops_for_years :
      (table : List ℕ) (credits i : ℕ)
      → map op_path (ops_for_years committed table credits i)
        ≡ paths_from (epochs_per_year * length table) i
  unfolding ops_for_years
  paths_from-ops_for_years [] credits i = refl
  paths_from-ops_for_years (r ∷ table) credits i =
      let year = ops_for committed epochs_per_year (share_of credits r) i in
      let later = ops_for_years committed table credits (i + epochs_per_year) in
      let count : epochs_per_year * suc (length table)
          ≡ epochs_per_year + epochs_per_year * length table =
        omega arith in
      map-append op_path year later
      ∙ rw
          (
            count,
            paths_from-append epochs_per_year (epochs_per_year * length table) i,
            paths_from-ops_for epochs_per_year (share_of credits r) i,
            paths_from-ops_for_years table credits (i + epochs_per_year),
          )
          refl

module _ (d : Decimal) (grove_get : List Bytes → Bytes → Result GroveError Element)
    (committed : List Bytes → ℕ) (reads : Reads grove_get committed) where
  -- When every epoch's committed credits plus those of the pool fit in 64 bits, the next 1000
  -- epochs have keys, and the reads succeed or find nothing, the distribution succeeds, and what it
  -- writes to the epochs plus what it leaves is what these epochs had before plus the credits of
  -- the pool; it leaves no more than the pool had.
  pub distribute_storage_fees_conserves :
      (credits current : ℕ)
      → credits < u64_mod
      → current + perpetual_storage_epochs + epoch_storage_offset ≤ u16_mod
      → ((path : List Bytes) → committed path + credits < u64_mod)
      → (ops : List GroveOp) × (left : ℕ) × (distribute_storage_fees d grove_get credits current
          ≡ ok (ops, left))
        × (credits_written ops + left ≡ credits_before committed ops + credits)
        × (left ≤ credits)
  unfolding distribute_storage_fees
  distribute_storage_fees_conserves zero current small h fits = ([], 0, refl, refl, omega arith)
  distribute_storage_fees_conserves (suc n) current small h fits = (
    ops_for_years committed fee_distribution_table (suc n) current,
    suc n - spent fee_distribution_table (suc n),
    distribute_storage_fees_exact grove_get committed reads d (suc n) current (omega arith) small h,
    omega (
      arith,
      spent-le (suc n),
      ops_for_years-credits committed fee_distribution_table (suc n) current (spent-le (suc n))
          fits,
    ),
    omega arith,
  )

  -- With credits in the pool, the distribution writes to each of the 1000 epochs from the current
  -- one on, once each and in ascending order.
  distribute_storage_fees_reaches :
      (credits current : ℕ)
      → 0 < credits
      → credits < u64_mod
      → current + perpetual_storage_epochs + epoch_storage_offset ≤ u16_mod
      → (ops : List GroveOp) × (left : ℕ) × (distribute_storage_fees d grove_get credits current
          ≡ ok (ops, left))
        × (map op_path ops ≡ paths_from perpetual_storage_epochs current)
  distribute_storage_fees_reaches credits current some_credits small h = (
    ops_for_years committed fee_distribution_table credits current,
    credits - spent fee_distribution_table credits,
    distribute_storage_fees_exact grove_get committed reads d credits current some_credits small h,
    paths_from-ops_for_years committed fee_distribution_table credits current,
  )

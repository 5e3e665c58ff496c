-- ===== src/Pools/EpochInfo/Blocks.antt =====
-- What `EpochInfo::calculate` (dash-abci/src/execution/fee_pools/epoch.rs) returns for a block, and
-- for two blocks in a row.
use rs_platform.Common.{
  ℕ, ◌≤◌, ◌<◌, ◌≡◌, sym, ◌∙◌, true, false, none, some, ltb, ◌==◌, if◌then◌else◌, ok, err, u16_mod,
  u64_mod, ◌⊎◌, inl, inr, arith, Bool-cases,
}
use rs_platform.Pools.{Decimal, PoolResult, conversion}
use rs_platform.Pools.EpochInfo.{
  EpochInfo, epoch_at, info_of_indices, epoch_change_time_ms, calculate, floored_index,
  previous_index,
}

-- What is reported at index i after a block at index j.
abbrev pub info_at : ℕ → ℕ → PoolResult EpochInfo
info_at i j =
    if ltb i u16_mod
    then ok (record {
      current_epoch_index = i;
      previous_epoch_index = if i == j then none else some j;
      is_epoch_change = ltb j i;
    })
    else err conversion

-- Two infos that report on the indices i, j and j, k.
abbrev pub Chained : EpochInfo → EpochInfo → Type 0
Chained before after =
    ((after.is_epoch_change ≡ true)
      × (after.previous_epoch_index ≡ some before.current_epoch_index)
      × (before.current_epoch_index < after.current_epoch_index))
    ⊎ ((after.is_epoch_change ≡ false)
        × (after.previous_epoch_index ≡ none)
        × (before.current_epoch_index ≡ after.current_epoch_index))

chained :
    (i j k : ℕ) {before after : EpochInfo}
    → j ≤ k
    → info_at j i ≡ ok before
    → info_at k j ≡ ok after
    → Chained before after
chained i j k h e f = elim (Bool-cases (ltb j k)) [
  | inl later ↦ inl (ground arith, ground arith, ground arith)
  | inr same ↦ inr (ground arith, ground arith, ground arith)
]

module _ (d : Decimal) where
  open d use {
    from, is_greater, is_equal, to_u16, floor_quotient, is_greater-from, is_equal-from, to_u16-from,
  }

  floored_index-from :
      (genesis_time time : ℕ)
      → genesis_time ≤ time
      → time < u64_mod
      → floored_index d genesis_time time ≡ from (epoch_at genesis_time time)
  floored_index-from genesis_time time h k =
      floor_quotient time genesis_time epoch_change_time_ms h k (omega arith)

  info_of_indices-from : (i j : ℕ) → j ≤ i → info_of_indices d (from i) (from j) ≡ info_at i j
  unfolding info_of_indices previous_index
  info_of_indices-from i j h =
      rw (to_u16-from i, to_u16-from j, is_equal-from i j, is_greater-from i j) (ground arith)

  -- For times from genesis on, the decimals count full epoch lifetimes: the current index is that
  -- of the block's time when it fits in 16 bits and the result an error otherwise, the epoch
  -- changes exactly when the previous block's index is smaller, and that index is then returned.
  pub calculate-epoch_at :
      (genesis_time block_time previous_block_time : ℕ)
      → genesis_time ≤ previous_block_time
      → previous_block_time ≤ block_time
      → block_time < u64_mod
      → calculate d genesis_time block_time (some previous_block_time)
        ≡ info_at (epoch_at genesis_time block_time) (epoch_at genesis_time previous_block_time)
  unfolding calculate
  calculate-epoch_at g b p h k small =
      rw (floored_index-from g b (omega arith) small, floored_index-from g p h (omega arith))
        (info_of_indices-from (epoch_at g b) (epoch_at g p) (omega arith))

  -- Two blocks in a row, the first not the first of the chain, with times from genesis on: the
  -- epoch changes at the second exactly when its index is greater, and then the index it reports
  -- as the previous one is the first's current one; otherwise it reports no previous index, and
  -- the same current one.
  pub calculate-chain :
      (genesis_time first second third : ℕ) (before after : EpochInfo)
      → genesis_time ≤ first
      → first ≤ second
      → second ≤ third
      → third < u64_mod
      → calculate d genesis_time second (some first) ≡ ok before
      → calculate d genesis_time third (some second) ≡ ok after
      → Chained before after
  calculate-chain g a b c before after h k l small e f =
      chained (epoch_at g a) (epoch_at g b) (epoch_at g c) (omega arith)
        (sym (calculate-epoch_at g b a h k (omega arith)) ∙ e)
        (sym (calculate-epoch_at g c b (omega arith) l small) ∙ f)

-- ===== src/Pools/EpochInfo.antt =====
-- `EpochInfo::calculate` of dash-abci/src/execution/fee_pools/epoch.rs.
use rs_platform.Common.{
  ℕ, ◌-◌, ◌/◌, ◌≤◌, ◌<◌, ◌≡◌, refl, Bool, true, false, Option, none, some, ltb, ◌==◌, if◌then◌else◌,
  ok, err, ◌>>=◌, ok_or, u16_mod, u64_mod, ◌⊎◌, inl, inr, arith,
}
use rs_platform.Pools.{Decimal, PoolResult, conversion}
pub mod Blocks

abbrev pub epoch_change_time_ms : ℕ
epoch_change_time_ms = 1576800000

pub record EpochInfo : Type 0 where
  pub current_epoch_index : ℕ
  pub previous_epoch_index : Option ℕ
  pub is_epoch_change : Bool

abbrev pub default_epoch_info : EpochInfo
default_epoch_info = record {
  current_epoch_index = 0;
  previous_epoch_index = none;
  is_epoch_change = true;
}

-- Specification: the number of full epoch lifetimes since genesis.
abbrev pub epoch_at : ℕ → ℕ → ℕ
epoch_at genesis_time time = (time - genesis_time) / epoch_change_time_ms

module _ (d : Decimal) where
  open d use {Number, from, minus, over, floor, is_greater, is_equal, to_u16}

  abbrev floored_index : ℕ → ℕ → Number
  floored_index genesis_time time =
      floor (over (minus (from time) (from genesis_time)) (from epoch_change_time_ms))

  unfoldable pub previous_index : Number → Number → PoolResult (Option ℕ)
  previous_index now before =
      if is_equal now before
      then ok none
      else do index ← ok_or (to_u16 before) conversion; ok (some index)

  unfoldable pub info_of_indices : Number → Number → PoolResult EpochInfo
  unfolding previous_index
  info_of_indices now before = do
    current ← ok_or (to_u16 now) conversion
    previous ← previous_index now before
    ok (record {
      current_epoch_index = current;
      previous_epoch_index = previous;
      is_epoch_change = is_greater now before;
    })

  unfoldable pub calculate : ℕ → ℕ → Option ℕ → PoolResult EpochInfo
  calculate genesis_time block_time none = ok default_epoch_info
  calculate genesis_time block_time (some previous_block_time) =
      info_of_indices (floored_index genesis_time block_time)
        (floored_index genesis_time previous_block_time)

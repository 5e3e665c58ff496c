-- ===== src/Blocks/Unpaid.antt =====
-- The choice of the epoch to pay and its payouts: the rest of
-- dash-abci/src/execution/fee_pools/fee_distribution.rs. Unchecked subtractions and products of
-- indices wrap around.
use rs_platform.Common.{
  ℕ, ◌+◌, ◌-◌, ◌*◌, ◌%◌, Option, none, some, List, [], ◌∷◌, ◌++◌, map, Bytes, ltb, ◌==◌,
  if◌then◌else◌, ok, err, ◌>>=◌, ok_or, checked_sub, length, u16_mod,
}
use rs_platform.Flags.{StorageFlags}
use rs_platform.Pools.{
  Decimal, overflow, corrupted_code, PoolResult, genesis_epoch_index, new_epoch,
}
use rs_platform.Payouts.{BatchOp, Identity, RewardShare, Amounts, pay_proposers}
use rs_platform.Blocks.{
  Grove, add_delete_proposers_operations, add_mark_as_paid_operations,
  update_unpaid_epoch_index_operation,
}
use rs_platform.Blocks.Reads.{
  get_epoch_proposers, get_epoch_start_block_height, get_unpaid_epoch_index,
  get_epoch_total_credits_for_distribution, get_first_epoch_start_block_height_between_epochs,
}

pub record ProposersPayouts : Type 0 where
  pub proposers_paid_count : ℕ
  pub paid_epoch_index : ℕ

pub record UnpaidEpoch : Type 0 where
  pub epoch_index : ℕ
  pub start_block_height : ℕ
  pub end_block_height : ℕ
  pub next_unpaid_epoch_index : ℕ

unfoldable pub block_count : UnpaidEpoch → PoolResult ℕ
block_count unpaid = ok_or (checked_sub unpaid.end_block_height unpaid.start_block_height) overflow

module _ (g : Grove) where
  -- The end of the previous epoch: the cached start of the current one, or the committed one.
  unfoldable pub current_start_height : ℕ → Option ℕ → PoolResult ℕ
  current_start_height current (some height) = ok height
  current_start_height current none = do
    epoch ← new_epoch current
    get_epoch_start_block_height g epoch

  -- Without a later start that is committed, the epoch ends where the current one, cached, starts.
  abbrev pub or_cached : ℕ → Option ℕ → Option (ℕ × ℕ) → PoolResult (ℕ × ℕ)
  or_cached current cached (some start) = ok start
  or_cached current (some height) none = ok (current, height)
  or_cached current none none = err corrupted_code

  -- The next unpaid epoch's index, and the height at which the unpaid one ends.
  unfoldable pub next_unpaid : ℕ → ℕ → Option ℕ → PoolResult (ℕ × ℕ)
  unfolding current_start_height
  next_unpaid unpaid current cached =
      if unpaid == current - 1
      then (do height ← current_start_height current cached; ok (current, height))
      else (do
        found ← get_first_epoch_start_block_height_between_epochs g unpaid current
        or_cached current cached found)

  unfoldable pub find_oldest_epoch_needing_payment : ℕ → Option ℕ → PoolResult (Option UnpaidEpoch)
  find_oldest_epoch_needing_payment current cached =
      if current == genesis_epoch_index then ok none else do
        unpaid ← get_unpaid_epoch_index g
        (if unpaid == current then ok none else do
          epoch ← new_epoch unpaid
          start ← get_epoch_start_block_height g epoch
          next ← next_unpaid unpaid current cached
          ok (
              some (record {
                epoch_index = unpaid;
                start_block_height = start;
                end_block_height = next.1;
                next_unpaid_epoch_index = next.0;
              })))

-- The two cases after the payouts: an epoch with fewer proposers than the limit is paid.
unfoldable pub mark_if_paid : UnpaidEpoch → ℕ → ℕ → PoolResult (List BatchOp)
mark_if_paid unpaid count limit =
    if ltb count limit
    then (do
      epoch ← new_epoch unpaid.epoch_index
      ok (
          add_mark_as_paid_operations epoch
          ++ (update_unpaid_epoch_index_operation unpaid.next_unpaid_epoch_index ∷ [])))
    else ok []

abbrev pub payouts_of : ℕ → ℕ → Option ProposersPayouts
payouts_of count index =
    if count == 0
    then none
    else some (record { proposers_paid_count = count; paid_epoch_index = index })

abbrev pub proposers_limit : ℕ → ℕ → ℕ
proposers_limit current unpaid = (current + u16_mod - unpaid) % u16_mod * 50 % u16_mod

module _ (d : Decimal) (a : Amounts d)
    (fetch_identity : Bytes → PoolResult (Identity × Option StorageFlags))
    (to_buffer : Identity → PoolResult Bytes)
    (get_reward_shares_list_for_masternode : Bytes → PoolResult (List RewardShare))
    (g : Grove) where
  open d use {from}

  -- The operations, and how many proposers are paid.
  unfoldable pub add_epoch_pool_to_proposers_payout_operations :
      UnpaidEpoch → ℕ → PoolResult (List BatchOp × ℕ)
  add_epoch_pool_to_proposers_payout_operations unpaid limit = do
    epoch ← new_epoch unpaid.epoch_index
    fees ← get_epoch_total_credits_for_distribution g epoch
    blocks ← block_count unpaid
    proposers ← get_epoch_proposers g epoch limit
    paid ←
        pay_proposers d a fetch_identity to_buffer get_reward_shares_list_for_masternode proposers
          (from fees) (from blocks) (from 0)
    let hashes = map (λ (proposer : Bytes × ℕ). proposer.0) proposers
    ok (paid ++ add_delete_proposers_operations epoch hashes, length proposers)

  unfoldable pub pay_unpaid_epoch :
      ℕ → Option UnpaidEpoch → PoolResult (List BatchOp × Option ProposersPayouts)
  unfolding mark_if_paid
  pay_unpaid_epoch current none = ok ([], none)
  pay_unpaid_epoch current (some unpaid) = do
    let limit = proposers_limit current unpaid.epoch_index
    done ← add_epoch_pool_to_proposers_payout_operations unpaid limit
    marks ← mark_if_paid unpaid done.1 limit
    ok (done.0 ++ marks, payouts_of done.1 unpaid.epoch_index)

  unfoldable pub add_distribute_fees_from_oldest_unpaid_epoch_pool_to_proposers_operations :
      ℕ → Option ℕ → PoolResult (List BatchOp × Option ProposersPayouts)
  unfolding pay_unpaid_epoch
  add_distribute_fees_from_oldest_unpaid_epoch_pool_to_proposers_operations current cached = do
    unpaid ← find_oldest_epoch_needing_payment g current cached
    pay_unpaid_epoch current unpaid

-- ===== src/Blocks/Handlers.antt =====
-- The handlers of dash-abci/src/abci/handlers.rs with the state that they keep between calls: the
-- block execution context and the cached genesis time (drive/src/drive/genesis_time/mod.rs).
use rs_platform.Common.{
  ℕ, ◌≡◌, ◌≢◌, ◌<◌, ◌≤◌, refl, sym, ◌∙◌, Bool, true, false, Option, none, some, List, [], ◌∷◌, ◌++◌,
  Bytes, ◌==◌, if◌then◌else◌, Result, ok, err, ◌>>=◌, >>=-eq-ok, ok_or, ◌%◌, u32_mod, arith,
  Bool-cases, inl, inr,
}
use rs_platform.Flags.{StorageFlags}
use rs_platform.Pools.{
  Decimal, GroveError, path_not_found, path_key_not_found, path_parent_layer_not_found,
  other_grove_error, PoolError, incoherence, corrupted, corrupted_code, PoolResult, item,
  other_element, Element, u64_from_be_bytes, pools_path,
}
use rs_platform.Pools.EpochInfo.{EpochInfo, calculate}
use rs_platform.Pools.BlockFees.{FeesAggregate}
use rs_platform.Payouts.{BatchOp, Identity, RewardShare, Amounts}
use rs_platform.Blocks.{Grove}
use rs_platform.Blocks.Reads.{
  update_genesis_time_operation, genesis_time_of, fetch_genesis_time, key_genesis_time,
}
use rs_platform.Blocks.Unpaid.{ProposersPayouts}
use rs_platform.Blocks.Process.{BlockInfo, ProcessedBlockFeesResult, process_block_fees}
pub mod Sequence

pub record BlockBeginRequest : Type 0 where
  pub block_height : ℕ
  pub block_time_ms : ℕ
  pub previous_block_time_ms : Option ℕ
  pub proposer_pro_tx_hash : Bytes
  pub validator_set_quorum_hash : Bytes

pub record BlockExecutionContext : Type 0 where
  pub block_info : BlockInfo
  pub epoch_info : EpochInfo

pub record BlockBeginResponse : Type 0 where
  pub epoch_info : EpochInfo
  pub unsigned_withdrawal_transactions : List Bytes

pub record BlockEndResponse : Type 0 where
  pub proposers_paid_count : Option ℕ
  pub paid_epoch_index : Option ℕ

-- What the platform keeps in memory.
pub record Platform : Type 0 where
  pub block_execution_context : Option BlockExecutionContext
  pub genesis_time_ms : Option ℕ

unfoldable pub from_block_begin_request : BlockBeginRequest → BlockInfo
from_block_begin_request request = record {
  block_height = request.block_height;
  block_time_ms = request.block_time_ms;
  previous_block_time_ms = request.previous_block_time_ms;
  proposer_pro_tx_hash = request.proposer_pro_tx_hash;
}

abbrev pub from_payouts : Option ProposersPayouts → BlockEndResponse
from_payouts none = record { proposers_paid_count = none; paid_epoch_index = none }
from_payouts (some payouts) = record {
  proposers_paid_count = some payouts.proposers_paid_count;
  paid_epoch_index = some payouts.paid_epoch_index;
}

abbrev pub from_process_block_fees_result : ProcessedBlockFeesResult → BlockEndResponse
from_process_block_fees_result result = from_payouts result.payouts

-- The genesis time from the cache, else from storage, with the platform that has it cached.
module _ (g : Grove) where
  abbrev pub with_cached : Platform → Option ℕ → Platform × Option ℕ
  with_cached platform none = (platform, none)
  with_cached platform (some time) = (record platform { genesis_time_ms = some time }, some time)

  abbrev pub get_cached_or_stored : Platform → Option ℕ → PoolResult (Platform × Option ℕ)
  get_cached_or_stored platform (some time) = ok (platform, some time)
  get_cached_or_stored platform none = do
    time ← fetch_genesis_time g
    ok (with_cached platform time)

  unfoldable pub get_genesis_time : Platform → PoolResult (Platform × Option ℕ)
  get_genesis_time platform = get_cached_or_stored platform platform.genesis_time_ms

  -- The genesis time of a block, and the operation that stores it for the first one.
  unfoldable pub set_genesis_time :
      Platform → BlockBeginRequest → PoolResult (Platform × ℕ × List BatchOp)
  unfolding get_genesis_time
  set_genesis_time platform request =
      if request.block_height == 1
      then ok (
        record platform { genesis_time_ms = some request.block_time_ms },
        request.block_time_ms,
        update_genesis_time_operation request.block_time_ms ∷ [],
      )
      else (do
        found ← get_genesis_time platform
        time ← ok_or found.1 incoherence
        ok (found.0, time, []))

  -- `prepare_withdrawals` fetches and prepares the unsigned withdrawal transactions.
  module _ (d : Decimal) (prepare_withdrawals : ℕ → Bytes → PoolResult (List Bytes)) where
    -- What a call that fails leaves in memory is not modelled.
    unfoldable pub block_begin :
        Platform → BlockBeginRequest → PoolResult (Platform × BlockBeginResponse × List BatchOp)
    unfolding set_genesis_time from_block_begin_request
    block_begin platform request = do
      set ← set_genesis_time platform request
      let block = from_block_begin_request request
      info ← calculate d set.1 block.block_time_ms block.previous_block_time_ms
      let context : BlockExecutionContext = record { block_info = block; epoch_info = info }
      withdrawals ←
          prepare_withdrawals (request.block_height % u32_mod) request.validator_set_quorum_hash
      let response : BlockBeginResponse = record {
        epoch_info = info;
        unsigned_withdrawal_transactions = withdrawals;
      }
      ok (record set.0 { block_execution_context = some context }, response, set.2)

  module _ (d : Decimal) (a : Amounts d)
      (fetch_identity : Bytes → PoolResult (Identity × Option StorageFlags))
      (to_buffer : Identity → PoolResult Bytes)
      (get_reward_shares_list_for_masternode : Bytes → PoolResult (List RewardShare)) where
    unfoldable pub block_end :
        Platform → FeesAggregate → PoolResult (BlockEndResponse × List BatchOp)
    block_end platform fees = do
      context ← ok_or platform.block_execution_context corrupted_code
      done ←
          process_block_fees d a fetch_identity to_buffer get_reward_shares_list_for_masternode g
            context.block_info context.epoch_info fees
      ok (from_process_block_fees_result done.1, done.0)

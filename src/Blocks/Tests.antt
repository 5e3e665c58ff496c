-- ===== src/Blocks/Tests.antt =====
-- Runs of the blocks on concrete inputs.
use rs_platform.Common.{
  All, ℕ, ◌≤◌, ◌<◌, ◌≡◌, ◌⊎◌, refl, true, false, Option, none, some, List, [], ◌∷◌, Bytes, Result,
  ok, if◌then◌else◌, length, arith, ◌==◌,
}
use rs_platform.Common.Int.{bytes_lt, bytes_le}
use rs_platform.Pools.{
  GroveError, Element, item, new_epoch, credits_of, encode_epoch_index_key, PoolResult,
  u64_to_be_bytes, genesis_epoch_index,
}
use rs_platform.Pools.Epochs.{u64_from_be_bytes-u64_to_be_bytes}
use rs_platform.Pools.EpochInfo.{EpochInfo, calculate, default_epoch_info}
use rs_platform.Pools.EpochInfo.Blocks.{calculate-epoch_at}
use rs_platform.Pools.Fractions.{fractions}
use rs_platform.Blocks.{Grove}
use rs_platform.Blocks.Reads.{
  update_genesis_time_operation, get_unpaid_epoch_index, u16_of, get_epoch_start_block_height,
  get_first_epoch_start_block_height_between_epochs,
}
use rs_platform.Blocks.Unpaid.{next_unpaid, UnpaidEpoch, find_oldest_epoch_needing_payment}
use rs_platform.Blocks.Progress.{find_oldest_epoch_needing_payment-within}
use rs_platform.Blocks.Handlers.{
  BlockBeginRequest, BlockBeginResponse, Platform, from_block_begin_request, get_genesis_time,
  set_genesis_time, block_begin,
}
use rs_platform.Blocks.Handlers.Sequence.{LaterBlocks, none_yet, begins, block_begin-genesis_time}

-- Every stored amount and height is 7, and the epoch that is unpaid is 0.
abbrev pub stored : List Bytes → Bytes → Result GroveError Element
stored path (k ∷ []) = if k == 117 then ok (item (0 ∷ 0 ∷ [])) else ok (item (u64_to_be_bytes 7))
stored path key = ok (item (u64_to_be_bytes 7))

abbrev pub nothing : Result GroveError (List (Bytes × Element))
nothing = ok []

pub limit_lem :
    (limit : ℕ) (found : List (Bytes × Element)) → nothing ≡ ok found → length found ≤ limit
limit_lem limit found h = ground arith

abbrev pub no_start : Result GroveError (Option (Bytes × Element))
no_start = ok none

pub start_lem :
    (from to key : Bytes) (element : Element)
    → no_start ≡ ok (some (key, element))
    → (bytes_lt from key ≡ true) × (bytes_le key to ≡ true) × All (λ b. b < 256) key
start_lem from to key element h = cc

abbrev pub sevens : Grove
sevens = record {
  get = stored;
  query_all = λ path limit. nothing;
  query_first_start = λ from to. ok none;
  query_all-limit = λ path limit found h. limit_lem limit found h;
  query_first_start-within = start_lem;
}

abbrev first_unpaid : UnpaidEpoch
first_unpaid = record {
  epoch_index = 0;
  start_block_height = 7;
  end_block_height = 9;
  next_unpaid_epoch_index = 2;
}

found_first : find_oldest_epoch_needing_payment sevens 2 (some 9) ≡ ok (some first_unpaid)
unfolding find_oldest_epoch_needing_payment get_unpaid_epoch_index u16_of new_epoch
    get_epoch_start_block_height next_unpaid get_first_epoch_start_block_height_between_epochs
    credits_of encode_epoch_index_key
found_first = rw (u64_from_be_bytes-u64_to_be_bytes 7 (omega arith)) refl

find_oldest_epoch_needing_payment-within_example :
    ((some first_unpaid ≡ none) × ((2 ≡ genesis_epoch_index) ⊎ (first_unpaid.epoch_index ≡ 2)))
    ⊎ ((u : UnpaidEpoch) × (some first_unpaid ≡ some u)
        × (u.epoch_index ≡ 0)
        × (0 < u.next_unpaid_epoch_index)
        × (u.next_unpaid_epoch_index ≤ 2))
unfolding get_unpaid_epoch_index u16_of
find_oldest_epoch_needing_payment-within_example =
    find_oldest_epoch_needing_payment-within sevens 0 2 (some 9) (some first_unpaid) refl
      (omega arith) found_first

abbrev genesis_time : ℕ
genesis_time = 1655396517902

abbrev platform : Platform
platform = record { block_execution_context = none; genesis_time_ms = none }

abbrev request_at : ℕ → ℕ → Option ℕ → BlockBeginRequest
request_at height time previous = record {
  block_height = height;
  block_time_ms = time;
  previous_block_time_ms = previous;
  proposer_pro_tx_hash = [];
  validator_set_quorum_hash = [];
}

abbrev no_withdrawals : ℕ → Bytes → PoolResult (List Bytes)
no_withdrawals height quorum_hash = ok []

abbrev begun : Platform
begun = record {
  block_execution_context = some (record {
    block_info = from_block_begin_request (request_at 1 genesis_time none);
    epoch_info = default_epoch_info;
  });
  genesis_time_ms = some genesis_time;
}

abbrev first_response : BlockBeginResponse
first_response = record { epoch_info = default_epoch_info; unsigned_withdrawal_transactions = [] }

begins_first :
    block_begin sevens fractions no_withdrawals platform (request_at 1 genesis_time none)
    ≡ ok (begun, first_response, update_genesis_time_operation genesis_time ∷ [])
unfolding block_begin set_genesis_time from_block_begin_request calculate
begins_first = refl

abbrev second_info : EpochInfo
second_info = record {
  current_epoch_index = 0;
  previous_epoch_index = none;
  is_epoch_change = false;
}

abbrev second_request : BlockBeginRequest
second_request = request_at 2 1655396517912 (some genesis_time)

abbrev second_begun : Platform
second_begun = record {
  block_execution_context =
      some
        (record { block_info = from_block_begin_request second_request; epoch_info = second_info });
  genesis_time_ms = some genesis_time;
}

abbrev second_response : BlockBeginResponse
second_response = record { epoch_info = second_info; unsigned_withdrawal_transactions = [] }

second_infos : calculate fractions genesis_time 1655396517912 (some genesis_time) ≡ ok second_info
second_infos =
    calculate-epoch_at fractions genesis_time 1655396517912 genesis_time (omega arith) (omega arith)
      (omega arith)

begins_again :
    block_begin sevens fractions no_withdrawals begun second_request
    ≡ ok (second_begun, second_response, [])
unfolding block_begin set_genesis_time get_genesis_time from_block_begin_request
begins_again = rw second_infos refl

abbrev third_request : BlockBeginRequest
third_request = request_at 3 1655396517922 (some 1655396517912)

abbrev third_begun : Platform
third_begun = record {
  block_execution_context =
      some
        (record { block_info = from_block_begin_request third_request; epoch_info = second_info });
  genesis_time_ms = some genesis_time;
}

third_infos : calculate fractions genesis_time 1655396517922 (some 1655396517912) ≡ ok second_info
third_infos =
    calculate-epoch_at fractions genesis_time 1655396517922 1655396517912 (omega arith)
      (omega arith) (omega arith)

begins_third :
    block_begin sevens fractions no_withdrawals second_begun third_request
    ≡ ok (third_begun, second_response, [])
unfolding block_begin set_genesis_time get_genesis_time from_block_begin_request
begins_third = rw third_infos refl

second_block : LaterBlocks fractions no_withdrawals begun second_begun
second_block = begins sevens second_request second_response [] none_yet refl begins_again

-- The third block.
block_begin-genesis_time_example :
    calculate fractions genesis_time 1655396517922 (some 1655396517912) ≡ ok second_info
block_begin-genesis_time_example =
    block_begin-genesis_time fractions no_withdrawals sevens sevens platform begun second_begun
      third_begun (request_at 1 genesis_time none) third_request first_response second_response
      (update_genesis_time_operation genesis_time ∷ []) [] refl begins_first second_block refl
      begins_third

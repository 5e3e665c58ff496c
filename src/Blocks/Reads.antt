-- ===== src/Blocks/Reads.antt =====
-- What the drive reads for the execution of blocks: drive/src/drive/fee_pools (epochs/proposers.rs,
-- epochs/start_block.rs, epochs/credit_distribution_pools.rs, unpaid_epoch.rs) and
-- drive/src/drive/genesis_time/mod.rs without its cache.
use rs_platform.Common.{
  ℕ, ◌+◌, ◌*◌, ◌%◌, Option, none, some, List, [], ◌∷◌, Bytes, Result, ok, err, ◌>>=◌, ok_or,
  checked_add, u64_mod, Bool, true, length, ◌==◌, if◌then◌else◌,
}
use rs_platform.Pools.{
  GroveError, grove, path_not_found, path_parent_layer_not_found, other_grove_error, corrupted_code,
  path_key_not_found, corrupted, overflow, PoolResult, Element, item, other_element, Epoch,
  get_vec_path, pools_path, insert_item, u64_to_be_bytes, u64_from_be_bytes, credits_of,
  zero_without_key, encode_epoch_index_key, decode_epoch_index_key,
  get_epoch_storage_credits_for_distribution, get_epoch_processing_credits_for_distribution,
}
use rs_platform.Payouts.{BatchOp, write}
use rs_platform.Blocks.{
  Grove, key_start_time, key_fee_multiplier, key_start_block_height, key_unpaid_epoch_index,
  get_proposers_vec_path, update_proposer_block_count_operation,
}

-- `u16::from_be_bytes` of a stored item.
unfoldable pub u16_of : Result GroveError Element → PoolResult ℕ
u16_of (err e) = err (grove e)
u16_of (ok (item (h ∷ l ∷ []))) = ok (h * 256 + l)
u16_of (ok (item _)) = err corrupted
u16_of (ok other_element) = err corrupted

-- The bytes of a stored item that has eight.
unfoldable pub eight_bytes_of : Result GroveError Element → PoolResult Bytes
eight_bytes_of (err e) = err (grove e)
eight_bytes_of (ok (item bytes)) = if length bytes == 8 then ok bytes else err corrupted
eight_bytes_of (ok other_element) = err corrupted

abbrev pub empty_or_missing : Result GroveError Bool → PoolResult Bool
empty_or_missing (ok empty) = ok empty
empty_or_missing (err path_not_found) = ok true
empty_or_missing (err path_parent_layer_not_found) = ok true
empty_or_missing (err path_key_not_found) = err corrupted_code
empty_or_missing (err other_grove_error) = err corrupted_code

-- Whether a tree is empty, as GroveDB answers: a tree that is not there is.
unfoldable pub is_epochs_proposers_tree_empty :
    (List Bytes → Result GroveError Bool) → Epoch → PoolResult Bool
is_epochs_proposers_tree_empty is_empty_tree epoch =
    empty_or_missing (is_empty_tree (get_proposers_vec_path epoch))

-- The conversion of the query's pairs.
unfoldable pub block_counts_of : List (Bytes × Element) → PoolResult (List (Bytes × ℕ))
unfolding credits_of
block_counts_of [] = ok []
block_counts_of (pair ∷ pairs) = do
  count ← credits_of (ok pair.1)
  counts ← block_counts_of pairs
  ok ((pair.0, count) ∷ counts)

abbrev pub proposers_of : Result GroveError (List (Bytes × Element)) → PoolResult (List (Bytes × ℕ))
proposers_of (err e) = err (grove e)
proposers_of (ok pairs) = block_counts_of pairs

abbrev pub key_genesis_time : Bytes
key_genesis_time = 103 ∷ []

unfoldable pub update_genesis_time_operation : ℕ → BatchOp
unfolding u64_to_be_bytes
update_genesis_time_operation genesis_time_ms =
    write (insert_item pools_path key_genesis_time (u64_to_be_bytes genesis_time_ms))

-- The item that is not there falls through to the error for an element that is no item.
unfoldable pub genesis_time_of : Result GroveError Element → PoolResult (Option ℕ)
genesis_time_of (err path_key_not_found) = err corrupted
genesis_time_of (err e) = err (grove e)
genesis_time_of (ok (item bytes)) = do time ← u64_from_be_bytes bytes; ok (some time)
genesis_time_of (ok other_element) = err corrupted

module _ (g : Grove) where
  open g use {get, query_all, query_first_start}

  unfoldable pub get_epochs_proposer_block_count : Epoch → Bytes → PoolResult ℕ
  unfolding credits_of
  get_epochs_proposer_block_count epoch pro_tx_hash =
      credits_of (get (get_proposers_vec_path epoch) pro_tx_hash)

  unfoldable pub get_epoch_proposers : Epoch → ℕ → PoolResult (List (Bytes × ℕ))
  unfolding block_counts_of
  get_epoch_proposers epoch limit = proposers_of (query_all (get_proposers_vec_path epoch) limit)

  unfoldable pub get_epoch_start_block_height : Epoch → PoolResult ℕ
  unfolding credits_of
  get_epoch_start_block_height epoch = credits_of (get (get_vec_path epoch) key_start_block_height)

  unfoldable pub get_epoch_start_time : Epoch → PoolResult ℕ
  unfolding credits_of
  get_epoch_start_time epoch = credits_of (get (get_vec_path epoch) key_start_time)

  -- The multiplier's eight bytes.
  unfoldable pub get_epoch_fee_multiplier : Epoch → PoolResult Bytes
  unfolding eight_bytes_of
  get_epoch_fee_multiplier epoch = eight_bytes_of (get (get_vec_path epoch) key_fee_multiplier)

  unfoldable pub get_unpaid_epoch_index : PoolResult ℕ
  unfolding u16_of
  get_unpaid_epoch_index = u16_of (get pools_path key_unpaid_epoch_index)

  unfoldable pub get_epoch_total_credits_for_distribution : Epoch → PoolResult ℕ
  get_epoch_total_credits_for_distribution epoch = do
    storage ← get_epoch_storage_credits_for_distribution get epoch
    processing ← get_epoch_processing_credits_for_distribution get epoch
    ok_or (checked_add u64_mod storage processing) overflow

  unfoldable pub fetch_genesis_time : PoolResult (Option ℕ)
  unfolding genesis_time_of
  fetch_genesis_time = genesis_time_of (get pools_path key_genesis_time)

  -- The count of the proposer plus one, which wraps around.
  unfoldable pub increment_proposer_block_count_operation :
      Epoch → Bytes → Option ℕ → PoolResult BatchOp
  increment_proposer_block_count_operation epoch pro_tx_hash (some count) =
      ok (update_proposer_block_count_operation epoch pro_tx_hash ((count + 1) % u64_mod))
  increment_proposer_block_count_operation epoch pro_tx_hash none = do
    count ← zero_without_key (get_epochs_proposer_block_count epoch pro_tx_hash)
    ok (update_proposer_block_count_operation epoch pro_tx_hash ((count + 1) % u64_mod))

-- What the first found start height and its epoch's key say.
abbrev pub start_of : Result GroveError (Option (Bytes × Element)) → PoolResult (Option (ℕ × ℕ))
start_of (err e) = err (grove e)
start_of (ok none) = ok none
start_of (ok (some (key, element))) = do
  height ← credits_of (ok element)
  index ← decode_epoch_index_key key
  ok (some (index, height))

module _ (g : Grove) where
  open g use {query_first_start}

  unfoldable pub get_first_epoch_start_block_height_between_epochs :
      ℕ → ℕ → PoolResult (Option (ℕ × ℕ))
  get_first_epoch_start_block_height_between_epochs from_epoch_index to_epoch_index = do
    from_key ← encode_epoch_index_key from_epoch_index
    to_key ← encode_epoch_index_key to_epoch_index
    start_of (query_first_start from_key to_key)

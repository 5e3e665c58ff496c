-- ===== src/Blocks.antt =====
-- The operations of an epoch (drive/src/fee_pools/epochs/operations_factory.rs, mod.rs of
-- drive/src/fee_pools), and what the execution of blocks reads from GroveDB.
use rs_platform.Common.{
  ℕ, zero, suc, ◌+◌, ◌/◌, ◌%◌, ◌≤◌, ◌<◌, ◌≡◌, true, Option, none, some, List, [], ◌∷◌, ◌++◌, map,
  Bytes, Result, ok, err, ◌>>=◌, length, replicate, All, u64_mod,
}
use rs_platform.Common.Int.{bytes_lt, bytes_le}
use rs_platform.Pools.{
  GroveError, grove, path_key_not_found, corrupted, PoolResult, Element, item, other_element, Epoch,
  get_vec_path, pools_path, insert_item, u64_to_be_bytes, key_pool_storage_fees,
  key_pool_processing_fees, credits_of, zero_without_key, new_epoch,
}
use rs_platform.Payouts.{BatchOp, write, insert_empty_tree, delete, delete_tree}
pub mod Reads
pub mod Unpaid
pub mod Progress
pub mod Process
pub mod Conserves
pub mod Trees
pub mod Chain
pub mod Liveness
pub mod Handlers
pub mod Rounds
pub mod Setup
pub mod Tests
pub mod ChangeTests

-- GroveDB, with paths below the tree of pools: an element under a key, the first elements of a tree
-- in the order of their keys, and the first start height of the epochs whose keys lie after one key
-- and up to another, with the epoch's key.
pub record Grove : Type 0 where
  pub get : List Bytes → Bytes → Result GroveError Element
  pub query_all : List Bytes → ℕ → Result GroveError (List (Bytes × Element))
  pub query_first_start : Bytes → Bytes → Result GroveError (Option (Bytes × Element))
  pub query_all-limit :
      (path : List Bytes) (limit : ℕ) (found : List (Bytes × Element))
      → query_all path limit ≡ ok found
      → length found ≤ limit
  pub query_first_start-within :
      (from to key : Bytes) (element : Element)
      → query_first_start from to ≡ ok (some (key, element))
      → (bytes_lt from key ≡ true) × (bytes_le key to ≡ true) × All (λ b. b < 256) key

abbrev pub key_start_time : Bytes
key_start_time = 116 ∷ []

abbrev pub key_start_block_height : Bytes
key_start_block_height = 99 ∷ []

abbrev pub key_proposers : Bytes
key_proposers = 109 ∷ []

abbrev pub key_fee_multiplier : Bytes
key_fee_multiplier = 120 ∷ []

abbrev pub key_unpaid_epoch_index : Bytes
key_unpaid_epoch_index = 117 ∷ []

-- `get_proposers_path` and `get_proposers_vec_path`
abbrev pub get_proposers_vec_path : Epoch → List Bytes
get_proposers_vec_path epoch = epoch.key ∷ key_proposers ∷ []

unfoldable pub update_start_time_operation : Epoch → ℕ → BatchOp
update_start_time_operation epoch time_ms =
    write (insert_item (get_vec_path epoch) key_start_time (u64_to_be_bytes time_ms))

unfoldable pub update_start_block_height_operation : Epoch → ℕ → BatchOp
update_start_block_height_operation epoch height =
    write (insert_item (get_vec_path epoch) key_start_block_height (u64_to_be_bytes height))

-- The multiplier is given by its eight bytes.
unfoldable pub update_fee_multiplier_operation : Epoch → Bytes → BatchOp
update_fee_multiplier_operation epoch multiplier =
    write (insert_item (get_vec_path epoch) key_fee_multiplier multiplier)

unfoldable pub delete_processing_credits_for_distribution_operation : Epoch → BatchOp
delete_processing_credits_for_distribution_operation epoch =
    delete (get_vec_path epoch) key_pool_processing_fees

unfoldable pub delete_storage_credits_for_distribution_operation : Epoch → BatchOp
delete_storage_credits_for_distribution_operation epoch =
    delete (get_vec_path epoch) key_pool_storage_fees

unfoldable pub update_proposer_block_count_operation : Epoch → Bytes → ℕ → BatchOp
update_proposer_block_count_operation epoch pro_tx_hash block_count =
    write (insert_item (get_proposers_vec_path epoch) pro_tx_hash (u64_to_be_bytes block_count))

unfoldable pub init_proposers_tree_operation : Epoch → BatchOp
init_proposers_tree_operation epoch = insert_empty_tree (get_vec_path epoch) key_proposers

unfoldable pub delete_proposers_tree_operation : Epoch → BatchOp
delete_proposers_tree_operation epoch = delete_tree (get_vec_path epoch) key_proposers

unfoldable pub add_delete_proposers_operations : Epoch → List Bytes → List BatchOp
add_delete_proposers_operations epoch pro_tx_hashes =
    map (delete (get_proposers_vec_path epoch)) pro_tx_hashes

unfoldable pub add_init_empty_without_storage_operations : Epoch → List BatchOp
add_init_empty_without_storage_operations epoch = insert_empty_tree pools_path epoch.key ∷ []

unfoldable pub add_init_current_operations : Epoch → Bytes → ℕ → ℕ → List BatchOp
unfolding update_start_block_height_operation init_proposers_tree_operation
    update_fee_multiplier_operation update_start_time_operation
add_init_current_operations epoch multiplier start_block_height start_time_ms =
    update_start_block_height_operation epoch start_block_height
    ∷ init_proposers_tree_operation epoch
    ∷ update_fee_multiplier_operation epoch multiplier
    ∷ update_start_time_operation epoch start_time_ms
    ∷ []

unfoldable pub add_mark_as_paid_operations : Epoch → List BatchOp
unfolding delete_proposers_tree_operation delete_storage_credits_for_distribution_operation
    delete_processing_credits_for_distribution_operation
add_mark_as_paid_operations epoch =
    delete_proposers_tree_operation epoch
    ∷ delete_storage_credits_for_distribution_operation epoch
    ∷ delete_processing_credits_for_distribution_operation epoch
    ∷ []

unfoldable pub u16_to_be_bytes : ℕ → Bytes
u16_to_be_bytes n = n / 256 ∷ n % 256 ∷ []

unfoldable pub update_unpaid_epoch_index_operation : ℕ → BatchOp
unfolding u16_to_be_bytes
update_unpaid_epoch_index_operation index =
    write (insert_item pools_path key_unpaid_epoch_index (u16_to_be_bytes index))

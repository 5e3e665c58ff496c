-- ===== src/Lib.antt =====
-- Models and proofs of the core of rs-platform, the storage ("drive"), the fees and the block
-- execution ("dash-abci") of Dash Platform.
--
-- The parts and how they interact. Every element that the drive stores carries flags: the epochs in
-- which its bytes were paid for, and who paid. Writing over an element merges the flags of the old
-- and the new one, and removing bytes takes them off the flags, which yields the bytes to refund per
-- identity and epoch. The drive's operations cost processing and storage fees, which are summed with
-- these tables of removed bytes. At the end of a block the fees go into pools, and when an epoch
-- ends the storage fees of the pool are distributed to the epochs of the next 50 years. The credits of
-- past epochs are paid to the proposers of their blocks, the oldest unpaid epoch first and at most 50
-- proposers in a block for each epoch since. Queries arrive as where clauses, which are grouped, and
-- become ranges of keys of the best index. Transitions of documents and updates of identities are
-- validated against the state before they are applied, and data triggers check the documents of the
-- system contracts. A document is stored under its identifier, with a reference to it per index.
--
-- Which file models what:
--   Common         Rust's Result, Option, checked arithmetic, byte strings and their order, and
--                  sorted maps for BTreeMap and IntMap
--   Flags          drive/src/drive/flags.rs: StorageFlags as a data type with the source's four
--                  variants, combine_added_bytes, combine_removed_bytes and their helpers
--   Flags/Codec    the same file: serialize, deserialize and the functions that they call
--   Flags/Removal  the same file: split_storage_removed_bytes
--   Fees           drive/src/fee/default_costs.rs, op.rs: the costs of operations
--   Fees/RemovedBytes, Fees/Calculate
--                  drive/src/fee/removed_bytes_from_epochs_by_identities.rs, mod.rs: the tables of
--                  removed bytes, checked_add_assign, consume_to_fees and calculate_fee
--   Query          drive/src/query/conditions.rs: operators, clauses and from_components
--   Query/Group    the same file: group_clauses
--   Query/Path     the same file: to_path_query with split_value_for_between
--   Query/Index    dpp/src/data_contract/extra/index.rs and document_type.rs: the choice of an index
--   Encoding       drive/src/common/encode.rs: the keys of integers
--   Keys           dpp/src/identity/validation/public_keys_validator.rs: the checks on parsed keys
--   Updates        dpp/src/identity/state_transition/identity_update_transition (the validation
--                  against the state, the validator of keys, the application) and dpp/src/identity/
--                  validation/required_purpose_and_security_level_validator.rs
--   Documents      dpp/src/document/state_transition/documents_batch_transition/validation/state/
--                  validate_documents_batch_transition_state.rs and dpp/src/block_time_window: the
--                  checks on document transitions
--   Triggers       dpp/src/data_trigger: the triggers of reward shares, feature flags and contact
--                  requests, and the rejecting one; Triggers/Domain has that of a domain
--   Triggers/Table dpp/src/data_trigger (mod.rs, get_data_triggers_factory.rs) and
--                  execute_data_triggers.rs of the batches: which trigger is run, and what is
--                  reported of it
--   Storage        drive/src/drive/grove_operations.rs: the lookups, insertions and deletions of a
--                  batch, with Drive as the database that answers them
--   Storage/Paths, Storage/Insert, Storage/Delete, Storage/Update
--                  drive/src/drive/document (mod.rs, insert.rs, delete.rs, update.rs): the
--                  operations that add, delete and change a document and its references per index
--   Pools          drive/src/fee_pools and drive/src/drive/fee_pools: keys, paths and amounts
--   Pools/EpochInfo, Pools/Storage, Pools/BlockFees
--                  dash-abci/src/execution/fee_pools/epoch.rs, distribute_storage_pool.rs (with
--                  constants.rs), and fee_distribution.rs from the block's fees on
--   Payouts        dash-abci/src/execution/fee_pools/fee_distribution.rs: the rewards of an epoch's
--                  proposers and of those with whom they share them, and the identities' balances
--   Blocks, Blocks/Reads, Blocks/Setup
--                  drive/src/fee_pools (operations_factory.rs, mod.rs), drive/src/drive/fee_pools and
--                  drive/src/drive/genesis_time: what is written and read of epochs
--   Blocks/Unpaid  fee_distribution.rs again: find_oldest_epoch_needing_payment and the payouts of
--                  the epoch that it finds
--   Blocks/Process, Blocks/Handlers
--                  dash-abci/src/execution/fee_pools/process_block_fees.rs, and block_begin and
--                  block_end of dash-abci/src/abci/handlers.rs with the state that they keep
--   Blocks/Trees, Blocks/Chain
--                  the trees that a change of epoch creates, and blocks one after the other, as a
--                  relation between the chain before and after
-- The other files below these hold the theorems, named for what they show, and the Tests modules
-- hold the runs on concrete inputs.
--
-- How code becomes definitions. A function that mutates an argument returns its new value; an error
-- is a value of Result, and `?` is its bind. Integers are natural numbers: checked operations test
-- their bound, and those that the source leaves unchecked wrap around modulo 2^w, as in a release
-- build. A panic is an error of the model's own (index_too_high, panicked). A map with a hash order
-- is kept in ascending order of its keys, which no modelled result depends on but through the order
-- of a loop.
-- Loops are structural recursion, but for the one that reads the epochs of serialized flags: its
-- fuel is one more than the number of bytes, of which each round takes two at least, and a theorem
-- says that the fuel never runs out.
--
-- Parameters, for code of other packages: JSON values and Base58 (Json), the variable-length
-- integers of integer_encoding (VarInt, read back from what they wrote), the totals of removed
-- bytes of costs, the comparison of values that ciborium's Value brings (ValueOps), the reads of
-- GroveDB (grove_get, and the record Grove of the execution of blocks), the hash of a key, and the
-- numbers of rust_decimal (Decimal, whose laws state the floors of two quotients that 28 digits
-- determine, and Amounts, whose laws bound what rounding does to a reward). Operations of GroveDB's
-- batches are values, which a caller collects. Exact fractions (Pools/Fractions) meet the laws of
-- Decimal and of Amounts.
--
-- The database of the storage of documents is the record Drive. The theorems on deletions and
-- updates ask laws of it: that it answers the deletion of what is there with operations that delete
-- it (GroveDeletes), and that it answers deletions with no insertion of a reference
-- (GroveOnlyDeletes). The theorem on where insertions stand asks that the storage has trees or
-- nothing where an addition walks (IsFreeOrTree).
--
-- Functions of parts that are not modelled are arguments too, of which no law is asked: how a
-- document is read and gives the raw value of a property (DocumentReader), the keys that a document
-- type gives to values, the fetched identities and their serialization, the query for reward
-- shares, the withdrawal transactions that are prepared, and, in dpp, the state repository, and in
-- Documents the uniqueness by indices and the data triggers.
--
-- Not modelled: the estimates of costs without a state, the storage of contracts and identities,
-- how a batch of GroveDB is applied, the parsing of a query, SQL, and the other validation of the
-- protocol (dpp); the bindings, since they only pass calls on.
pub mod Common
pub mod Flags
pub mod Fees
pub mod Query
pub mod Pools
pub mod Encoding
pub mod Keys
pub mod Payouts
pub mod Blocks
pub mod Documents
pub mod Updates
pub mod Storage
pub mod Triggers

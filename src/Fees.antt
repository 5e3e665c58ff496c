-- ===== src/Fees.antt =====
-- drive/src/fee/op.rs, drive/src/fee/mod.rs and drive/src/fee/default_costs.rs: what operations
-- cost, in credits. `OperationCost` and its storage cost are those of the crate `costs`; what the
-- source calls of that crate is a parameter. An epoch has no influence on any cost yet.
pub mod RemovedBytes
pub mod Costs
pub mod Calculate
pub mod Totals
mod Tests
use rs_platform.Common.{
  ℕ, zero, ◌+◌, ◌*◌, ◌%◌, Bool, true, false, Option, none, some, List, [], ◌∷◌, Bytes, map, Result,
  ok, err, ◌>>=◌, ok_or, checked_add, checked_mul, get_or_else, u16_mod, u32_mod, u64_mod, length,
  bytes_eq, if◌then◌else◌,
}
use rs_platform.Common.SortedMap.{SortedMap}
use rs_platform.Flags.{
  StorageRemovedBytes, no_storage_removal, basic_storage_removal, sectioned_storage_removal,
  default_owner, lookup_owner,
}

pub data BaseOp : Type 0 where
  stop add mul sub div sdiv mod_op smod addmod mulmod signextend : BaseOp
  lt gt slt sgt eq iszero and or xor not byte : BaseOp

unfoldable pub base_cost : BaseOp → ℕ
base_cost stop = 0
base_cost add = 12
base_cost mul = 20
base_cost sub = 12
base_cost div = 20
base_cost sdiv = 20
base_cost mod_op = 20
base_cost smod = 20
base_cost addmod = 32
base_cost mulmod = 32
base_cost signextend = 20
base_cost _ = 12

-- The order in which an `EnumMap<BaseOp, _>` is iterated: that of the declaration.
abbrev pub all_base_ops : List BaseOp
all_base_ops =
    stop ∷ add ∷ mul ∷ sub ∷ div ∷ sdiv ∷ mod_op ∷ smod ∷ addmod ∷ mulmod ∷ signextend ∷ lt ∷ gt
    ∷ slt ∷ sgt ∷ eq ∷ iszero ∷ and ∷ or ∷ xor ∷ not ∷ byte ∷ []

pub data FunctionOp : Type 0 where
  sha256 sha256_2 blake3 : FunctionOp

unfoldable pub function_cost : FunctionOp → ℕ
function_cost sha256 = 4000
function_cost sha256_2 = 8000
function_cost blake3 = 1000

abbrev pub storage_disk_usage_credit_per_byte : ℕ
storage_disk_usage_credit_per_byte = 27000

abbrev pub storage_processing_credit_per_byte : ℕ
storage_processing_credit_per_byte = 400

abbrev pub storage_load_credit_per_byte : ℕ
storage_load_credit_per_byte = 400

abbrev pub storage_seek_cost : ℕ
storage_seek_cost = 4000

-- `overflow` is `FeeError::Overflow`, `corrupted_code` is `DriveError::CorruptedCodeExecution`.
pub data FeeError : Type 0 where
  overflow : FeeError
  corrupted_code : FeeError

abbrev pub FeeOutcome : Type 0 → Type 0
FeeOutcome A = Result FeeError A

-- `costs::OperationCost` with its `costs::storage_cost::StorageCost`.
pub record OperationCost : Type 0 where
  pub seek_count : ℕ
  pub added_bytes : ℕ
  pub replaced_bytes : ℕ
  pub removed_bytes : StorageRemovedBytes
  pub storage_loaded_bytes : ℕ
  pub hash_node_calls : ℕ

-- `BTreeMap<Identifier, IntMap<u32>>`, each identifier once; the order is not modelled.
abbrev pub RemovedByIdentity : Type 0
RemovedByIdentity = List (Bytes × SortedMap ℕ)

pub record FeeResult : Type 0 where
  pub storage_fee : ℕ
  pub processing_fee : ℕ
  pub removed_from_identities : RemovedByIdentity
  pub removed_from_system : ℕ

abbrev pub no_fees : FeeResult
no_fees = record {
  storage_fee = 0;
  processing_fee = 0;
  removed_from_identities = [];
  removed_from_system = 0;
}

pub record SizesOfQueryOperation : Type 0 where
  pub key_size : ℕ
  pub path_size : ℕ
  pub value_size : ℕ

pub record SizesOfInsertOperation : Type 0 where
  pub path_size : ℕ
  pub key_size : ℕ
  pub value_size : ℕ

pub record SizesOfDeleteOperation : Type 0 where
  pub path_size : ℕ
  pub key_size : ℕ
  pub value_size : ℕ
  pub multiplier : ℕ

-- The three `OperationCostConvert::cost` give the same, empty cost.
abbrev pub worst_case_cost : OperationCost
worst_case_cost = record {
  seek_count = 0;
  added_bytes = 0;
  replaced_bytes = 0;
  removed_bytes = no_storage_removal;
  storage_loaded_bytes = 0;
  hash_node_calls = 0;
}

-- The `DriveOperation`s, over the operations `G` of GroveDB.
pub data DriveOperation (G : Type 0) : Type 0 where
  grove_operation : G → DriveOperation G
  calculated_cost_operation : OperationCost → DriveOperation G
  pre_calculated_fee_result : FeeResult → DriveOperation G
  cost_calculation_insert_operation : SizesOfInsertOperation → DriveOperation G
  cost_calculation_delete_operation : SizesOfDeleteOperation → DriveOperation G
  cost_calculation_query_operation : SizesOfQueryOperation → DriveOperation G

unfoldable pub operation_cost : {G : Type 0} → DriveOperation G → FeeOutcome OperationCost
operation_cost (grove_operation _) = err corrupted_code
operation_cost (calculated_cost_operation c) = ok c
operation_cost (pre_calculated_fee_result _) = err corrupted_code
operation_cost (cost_calculation_insert_operation _) = ok worst_case_cost
operation_cost (cost_calculation_delete_operation _) = ok worst_case_cost
operation_cost (cost_calculation_query_operation _) = ok worst_case_cost

-- The inner lengths of a path, as `u16`s.
abbrev pub path_sizes : List Bytes → List ℕ
path_sizes [] = []
path_sizes (p ∷ path) = (length p % u16_mod) ∷ path_sizes path

abbrev pub sum_u32 : List ℕ → ℕ
sum_u32 [] = 0
sum_u32 (n ∷ ns) = (n + sum_u32 ns) % u32_mod

unfoldable pub for_delete_path_key_value_max_sizes :
    {G : Type 0} → List ℕ → ℕ → ℕ → ℕ → DriveOperation G
for_delete_path_key_value_max_sizes path key_size value_size multiplier =
    cost_calculation_delete_operation (record {
      path_size = sum_u32 path;
      key_size = key_size;
      value_size = value_size;
      multiplier = multiplier;
    })

unfoldable pub for_delete_path_key_value_size :
    {G : Type 0} → List Bytes → ℕ → ℕ → ℕ → DriveOperation G
unfolding for_delete_path_key_value_max_sizes
for_delete_path_key_value_size path = for_delete_path_key_value_max_sizes (path_sizes path)

-- The GroveDB operations of a list, in order.
unfoldable pub grovedb_operations_batch : {G : Type 0} → List (DriveOperation G) → List G
grovedb_operations_batch [] = []
grovedb_operations_batch (grove_operation g ∷ ops) = g ∷ grovedb_operations_batch ops
grovedb_operations_batch (_ ∷ ops) = grovedb_operations_batch ops

-- `total_removed_bytes` is a method of the crate `costs`.
module _ (total_removed_bytes : StorageRemovedBytes → ℕ) where
  unfoldable pub ephemeral_cost : OperationCost → FeeOutcome ℕ
  unfolding function_cost
  ephemeral_cost c = do
    seek ← ok_or (checked_mul u64_mod c.seek_count storage_seek_cost) overflow
    added ← ok_or (checked_mul u64_mod c.added_bytes storage_processing_credit_per_byte) overflow
    replaced ←
        ok_or (checked_mul u64_mod c.replaced_bytes storage_processing_credit_per_byte) overflow
    removed ←
        ok_or
          (checked_mul u64_mod (total_removed_bytes c.removed_bytes)
            storage_processing_credit_per_byte)
          overflow
    loaded ←
        ok_or (checked_mul u64_mod c.storage_loaded_bytes storage_load_credit_per_byte) overflow
    hashes ← ok_or (checked_mul u64_mod c.hash_node_calls (function_cost blake3)) overflow
    with_added ← ok_or (checked_add u64_mod seek added) overflow
    with_replaced ← ok_or (checked_add u64_mod with_added replaced) overflow
    with_loaded ← ok_or (checked_add u64_mod with_replaced loaded) overflow
    with_removed ← ok_or (checked_add u64_mod with_loaded removed) overflow
    ok_or (checked_add u64_mod with_removed hashes) overflow

unfoldable pub storage_cost : OperationCost → FeeOutcome ℕ
storage_cost c =
    ok_or (checked_mul u64_mod c.added_bytes storage_disk_usage_credit_per_byte) overflow

-- `a.values().sum()` of `u32`s
unfoldable pub sum_values : SortedMap ℕ → ℕ
sum_values [] = 0
sum_values ((_, b) ∷ m) = (b + sum_values m) % u32_mod

unfoldable pub remove_owner : Bytes → RemovedByIdentity → RemovedByIdentity
remove_owner k [] = []
remove_owner k ((j, s) ∷ m) = if bytes_eq k j then m else (j, s) ∷ remove_owner k m

-- The removed bytes to refund by identity, and those of the system, which stand under the
-- identifier of zeros.
unfoldable pub split_removed_bytes : StorageRemovedBytes → RemovedByIdentity × ℕ
unfolding sum_values remove_owner lookup_owner
split_removed_bytes no_storage_removal = ([], 0)
split_removed_bytes (basic_storage_removal amount) = ([], amount)
split_removed_bytes (sectioned_storage_removal s) = (
  remove_owner default_owner s,
  elim (lookup_owner default_owner s) [ none ↦ 0 | some a ↦ sum_values a ],
)

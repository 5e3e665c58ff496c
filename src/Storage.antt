-- ===== src/Storage.antt =====
-- How the drive stores documents: drive/src/drive/document/{mod.rs,insert.rs,delete.rs,update.rs}
-- with the operations of drive/src/drive/grove_operations.rs that they use. The model is that of a
-- call that applies its operations (`apply`), of a document with its serialization
-- (`DocumentRefAndSerialization`); a call that only estimates costs is left out. GroveDB, and how a
-- document is read from CBOR and gives the raw value of a property, are parameters.
use rs_platform.Common.{
  ℕ, ◌+◌, Bool, true, false, not, Option, none, some, List, [], ◌∷◌, ◌++◌, Bytes, Result, ok, err,
  ◌>>=◌, if◌then◌else◌, get_or_else,
}
use rs_platform.Pools.{
  GroveError, path_not_found, path_key_not_found, path_parent_layer_not_found, other_grove_error,
}
use rs_platform.Fees.{OperationCost, DriveOperation, grove_operation, calculated_cost_operation}
use rs_platform.Flags.{StorageFlags, FlagsResult}
use rs_platform.Flags.Codec.{VarInt, serialize, deserialize}
pub mod Paths
pub mod Locations
pub mod Insert
pub mod Delete
pub mod Update
pub mod RoundTrip
mod Tests

-- `Vec<Vec<u8>>`: the keys from the root down.
abbrev pub KeyPath : Type 0
KeyPath = List Bytes

-- The reference paths that the drive writes.
pub data ReferencePath : Type 0 where
  upstream_root_height_reference : ℕ → KeyPath → ReferencePath
  sibling_reference : Bytes → ReferencePath

-- Every element carries its flags, if it has any.
pub data Element : Type 0 where
  item : Bytes → Option Bytes → Element
  reference : ReferencePath → Option ℕ → Option Bytes → Element
  tree : Option Bytes → Element

pub data GroveOp : Type 0 where
  insert_op : KeyPath → Bytes → Element → GroveOp
  delete_op : KeyPath → Bytes → GroveOp
  delete_tree_op : KeyPath → Bytes → GroveOp

abbrev pub Operation : Type 0
Operation = DriveOperation GroveOp

pub record CostContext (A : Type 0) : Type 0 where
  pub value : Result GroveError A
  pub cost : OperationCost

-- GroveDB in a transaction, as the drive asks it, with the setting `has_raw_enabled`. The last
-- two take the operations that the batch has already.
pub record Drive : Type 0 where
  pub has_raw_enabled : Bool
  pub has_raw : KeyPath → Bytes → CostContext Bool
  pub get_raw : KeyPath → Bytes → CostContext Element
  pub get : KeyPath → Bytes → CostContext Element
  pub delete_operation_for_delete_internal :
      KeyPath → Bytes → List GroveOp → CostContext (Option GroveOp)
  pub delete_operations_for_delete_up_tree_while_empty :
      KeyPath → Bytes → Option ℕ → List GroveOp → CostContext (Option (List GroveOp))

-- The errors of the source by their names; `corrupted_indices` and `index_already_exists` are
-- both `CorruptedContractIndexes`, `unreadable` is any error of reading a document.
pub data StorageError : Type 0 where
  grove_db : GroveError → StorageError
  corrupted_indices index_already_exists document_already_exists : StorageError
  read_only_document document_keeps_history document_not_item : StorageError
  deleting_missing_document updating_missing_document unreadable : StorageError

abbrev pub StorageResult : Type 0 → Type 0
StorageResult A = Result StorageError A

-- The properties of an index by their names.
pub record StoredIndex : Type 0 where
  pub properties : List Bytes
  pub unique : Bool

pub record DocumentType : Type 0 where
  pub name : Bytes
  pub documents_mutable : Bool
  pub documents_keep_history : Bool
  pub indices : List StoredIndex

-- Documents `D`: `from_cbor` and `get_raw_for_document_type` take the owner that the call names.
pub record DocumentReader (D : Type 0) : Type 0 where
  pub id : D → Bytes
  pub from_cbor : Bytes → Option Bytes → StorageResult D
  pub get_raw_for_document_type :
      D → Bytes → DocumentType → Option Bytes → StorageResult (Option Bytes)

-- `DocumentAndContractInfo` with its `DocumentRefAndSerialization`.
pub record DocumentInfo (D : Type 0) : Type 0 where
  pub document : D
  pub serialized_document : Bytes
  pub storage_flags : Option StorageFlags
  pub contract_id : Bytes
  pub document_type : DocumentType
  pub owner_id : Option Bytes

-- `map_err(Error::GroveDB)`
abbrev pub from_grove : {A : Type 0} → Result GroveError A → StorageResult A
from_grove (ok value) = ok value
from_grove (err reason) = err (grove_db reason)

unfoldable pub push_drive_operation_result :
    {A : Type 0} → CostContext A → List Operation → StorageResult (A × List Operation)
push_drive_operation_result context operations = do
  value ← from_grove context.value
  ok (value, operations ++ (calculated_cost_operation context.cost ∷ []))

-- What `grove_has_raw` makes of the answer of `get_raw`.
abbrev pub is_found : Result GroveError Element → Result GroveError Bool
is_found (ok element) = ok true
is_found (err path_key_not_found) = ok false
is_found (err path_not_found) = ok false
is_found (err path_parent_layer_not_found) = ok false
is_found (err other_grove_error) = err other_grove_error

abbrev pub raw_lookup : Drive → KeyPath → Bytes → CostContext Bool
raw_lookup drive path key = if drive.has_raw_enabled then drive.has_raw path key else record {
  value = is_found (drive.get_raw path key).value;
  cost = (drive.get_raw path key).cost;
}

unfoldable pub grove_has_raw :
    Drive → KeyPath → Bytes → List Operation → StorageResult (Bool × List Operation)
unfolding push_drive_operation_result
grove_has_raw drive path key = push_drive_operation_result (raw_lookup drive path key)

-- `grove_get`, and `grove_get_direct`, of a call that applies: always `Some`.
unfoldable pub grove_get :
    Drive → KeyPath → Bytes → List Operation → StorageResult (Option Element × List Operation)
unfolding push_drive_operation_result
grove_get drive path key operations = do
  found ← push_drive_operation_result (drive.get path key) operations
  ok (some found.0, found.1)

-- `for_path_key_element`, which `batch_insert` pushes.
unfoldable pub batch_insert : KeyPath → Bytes → Element → List Operation → List Operation
batch_insert path key element operations =
    operations ++ (grove_operation (insert_op path key element) ∷ [])

unfoldable pub batch_insert_if_not_exists :
    Drive → KeyPath → Bytes → Element → List Operation → StorageResult (Bool × List Operation)
unfolding grove_has_raw batch_insert
batch_insert_if_not_exists drive path key element operations = do
  found ← grove_has_raw drive path key operations
  ok (not found.0, if found.0 then found.1 else batch_insert path key element found.1)

module _ (v : VarInt) where
  abbrev pub map_to_some_element_flags : Option StorageFlags → Option Bytes
  map_to_some_element_flags none = none
  map_to_some_element_flags (some flags) = some (serialize v flags)

  unfoldable pub batch_insert_empty_tree_if_not_exists :
      Drive
      → KeyPath
      → Bytes
      → Option StorageFlags
      → List Operation
      → StorageResult (Bool × List Operation)
  unfolding grove_has_raw batch_insert
  batch_insert_empty_tree_if_not_exists drive path key flags operations = do
    found ← grove_has_raw drive path key operations
    let with_tree = batch_insert path key (tree (map_to_some_element_flags flags)) found.1
    ok (not found.0, if found.0 then found.1 else with_tree)

-- The GroveDB operations of a batch.
abbrev pub grovedb_operations_batch : List Operation → List GroveOp
grovedb_operations_batch [] = []
grovedb_operations_batch (grove_operation o ∷ os) = o ∷ grovedb_operations_batch os
grovedb_operations_batch (_ ∷ os) = grovedb_operations_batch os

abbrev pub push_all : Option (List GroveOp) → List Operation → List Operation
push_all none operations = operations
push_all (some []) operations = operations
push_all (some (o ∷ os)) operations = push_all (some os) (operations ++ (grove_operation o ∷ []))

abbrev pub push_one : Option GroveOp → List Operation → List Operation
push_one none operations = operations
push_one (some o) operations = operations ++ (grove_operation o ∷ [])

unfoldable pub batch_delete :
    Drive → KeyPath → Bytes → List Operation → StorageResult (List Operation)
unfolding push_drive_operation_result
batch_delete drive path key operations = do
  deletion ←
      push_drive_operation_result
        (drive.delete_operation_for_delete_internal path key (grovedb_operations_batch operations))
        operations
  ok (push_one deletion.0 deletion.1)

unfoldable pub batch_delete_up_tree_while_empty :
    Drive → KeyPath → Bytes → Option ℕ → List Operation → StorageResult (List Operation)
unfolding push_drive_operation_result
batch_delete_up_tree_while_empty drive path key stop_path_height operations = do
  deletions ←
      push_drive_operation_result
        (drive.delete_operations_for_delete_up_tree_while_empty path key stop_path_height
          (grovedb_operations_batch operations))
        operations
  ok (push_all deletions.0 deletions.1)

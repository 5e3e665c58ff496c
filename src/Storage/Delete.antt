-- ===== src/Storage/Delete.antt =====
-- Deleting a document: drive/src/drive/document/delete.rs.
pub mod Present
pub mod Removes
use rs_platform.Common.{
  ℕ, Bool, true, false, not, Option, none, some, List, [], ◌∷◌, ◌++◌, Bytes, Result, ok, err, ◌>>=◌,
  if◌then◌else◌,
}
use rs_platform.Flags.Codec.{VarInt, deserialize}
use rs_platform.Storage.{
  KeyPath, Element, item, reference, tree, Operation, Drive, StorageError, corrupted_indices,
  document_not_item, deleting_missing_document, read_only_document, document_keeps_history,
  unreadable, StorageResult, StoredIndex, DocumentType, DocumentReader, grove_get, batch_delete,
  batch_delete_up_tree_while_empty,
}
use rs_platform.Storage.Paths.{
  contract_document_type_path, contract_documents_primary_key_path, raw_or_default,
  contract_documents_path_height,
}

-- `from_some_element_flags_ref`; what it reads is not looked at, only whether it fails.
module _ (v : VarInt) where
  abbrev pub check_element_flags : Option Bytes → StorageResult Bool
  check_element_flags none = ok true
  check_element_flags (some bytes) = elim (deserialize v bytes) [
    | ok flags ↦ ok true
    | err reason ↦ err unreadable
  ]

  -- The document of a stored element; `missing` is the error when there is no element.
  module _ {D : Type 0} (reader : DocumentReader D) (owner_id : Option Bytes) where
    abbrev pub document_of_element : StorageError → Option Element → StorageResult D
    document_of_element missing none = err missing
    document_of_element missing (some (item serialized flags)) = do
      document ← reader.from_cbor serialized owner_id
      _ ← check_element_flags flags
      ok document
    document_of_element missing (some (reference path hops flags)) = err document_not_item
    document_of_element missing (some (tree flags)) = err document_not_item

-- The reference of a document in an index whose path with the fields is given: under key 0 of the
-- path, or under the identifier in the tree at key 0.
unfoldable pub delete_reference :
    Drive → Bool → Bytes → KeyPath → List Operation → StorageResult (List Operation)
unfolding batch_delete_up_tree_while_empty
delete_reference drive unique document_id path operations =
    if not unique
    then batch_delete_up_tree_while_empty drive (path ++ ((0 ∷ []) ∷ [])) document_id
        (some contract_documents_path_height) operations
    else batch_delete_up_tree_while_empty drive path (0 ∷ []) (some contract_documents_path_height)
        operations

module _ (v : VarInt) (drive : Drive) {D : Type 0} (reader : DocumentReader D) (contract_id : Bytes)
    (document_type : DocumentType) (owner_id : Option Bytes) where
  module _ (document_id : Bytes) (document : D) where
    -- The path with the properties' names and the document's fields.
    unfoldable pub push_fields : List Bytes → KeyPath → StorageResult KeyPath
    push_fields [] path = ok path
    push_fields (name ∷ names) path = do
      field ← raw_or_default reader document name document_type owner_id
      push_fields names ((path ++ (name ∷ [])) ++ (field ∷ []))

    unfoldable pub delete_from_index :
        StoredIndex → List Bytes → List Operation → StorageResult (List Operation)
    unfolding push_fields delete_reference
    delete_from_index index [] operations = err corrupted_indices
    delete_from_index index (top ∷ names) operations = do
      path ← push_fields (top ∷ names) (contract_document_type_path contract_id document_type.name)
      delete_reference drive index.unique document_id path operations

    unfoldable pub delete_from_indices :
        List StoredIndex → List Operation → StorageResult (List Operation)
    unfolding delete_from_index
    delete_from_indices [] operations = ok operations
    delete_from_indices (index ∷ indices) operations = do
      deleted ← delete_from_index index index.properties operations
      delete_from_indices indices deleted

  -- The deletion of a document whose type allows it.
  unfoldable pub delete_stored_document : Bytes → StorageResult (List Operation)
  unfolding grove_get batch_delete delete_from_indices
  delete_stored_document document_id = do
    let path = contract_documents_primary_key_path contract_id document_type.name
    found ← grove_get drive path document_id []
    document ← document_of_element v reader owner_id deleting_missing_document found.0
    deleted ← batch_delete drive path document_id found.1
    delete_from_indices document_id document document_type.indices deleted

  unfoldable pub delete_document_for_contract_operations : Bytes → StorageResult (List Operation)
  unfolding delete_stored_document
  delete_document_for_contract_operations document_id =
      if not document_type.documents_mutable
      then err read_only_document
      else if document_type.documents_keep_history
      then err document_keeps_history
      else delete_stored_document document_id

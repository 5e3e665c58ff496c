-- ===== src/Storage/Insert.antt =====
-- Adding a document: drive/src/drive/document/insert.rs.
pub mod Kept
pub mod Writes
pub mod Answers
pub mod Outcomes
pub mod Grounded
use rs_platform.Common.{
  ℕ, Bool, true, false, not, ◌||◌, Option, none, some, List, [], ◌∷◌, ◌++◌, Bytes, Result, ok, err,
  ◌>>=◌, bytes_eq, if◌then◌else◌,
}
use rs_platform.Encoding.{encode_unsigned_integer}
use rs_platform.Flags.{StorageFlags}
use rs_platform.Flags.Codec.{VarInt}
use rs_platform.Storage.{
  KeyPath, Element, item, reference, sibling_reference, Operation, Drive, StorageError,
  corrupted_indices, index_already_exists, document_already_exists, StorageResult, StoredIndex,
  DocumentType, DocumentReader, DocumentInfo, batch_insert, batch_insert_if_not_exists,
  batch_insert_empty_tree_if_not_exists, map_to_some_element_flags, grove_has_raw,
}
use rs_platform.Storage.Paths.{
  contract_document_type_path, contract_documents_primary_key_path,
  contract_documents_keeping_history_primary_key_path_for_document_id, make_document_reference,
  is_empty, raw_or_default,
}

-- The `HashSet` of the paths of the trees that the batch inserts.
abbrev pub Cache : Type 0
Cache = List KeyPath

abbrev pub path_eq : KeyPath → KeyPath → Bool
path_eq [] [] = true
path_eq [] (y ∷ ys) = false
path_eq (x ∷ xs) [] = false
path_eq (x ∷ xs) (y ∷ ys) = if bytes_eq x y then path_eq xs ys else false

abbrev pub contains : KeyPath → Cache → Bool
contains path [] = false
contains path (p ∷ cache) = path_eq path p || contains path cache

unfoldable pub is_contained_in_cache : KeyPath → Bytes → Cache → Bool
is_contained_in_cache path key cache = contains (path ++ (key ∷ [])) cache

unfoldable pub add_to_cache : KeyPath → Bytes → Cache → Cache
add_to_cache path key cache = (path ++ (key ∷ [])) ∷ cache

-- The batch so far, and the cache.
abbrev pub Progress : Type 0
Progress = List Operation × Cache

module _ (v : VarInt) (drive : Drive) where
  abbrev pub note_inserted : KeyPath → Bytes → Cache → Bool × List Operation → Progress
  note_inserted path key cache step =
      (step.1, if step.0 then add_to_cache path key cache else cache)

  -- An empty tree that the cache does not have, unless the storage has it.
  unfoldable pub insert_tree_once :
      KeyPath → Bytes → Option StorageFlags → Progress → StorageResult Progress
  unfolding batch_insert_empty_tree_if_not_exists is_contained_in_cache add_to_cache
  insert_tree_once path key flags progress = elim (is_contained_in_cache path key progress.1) [
    | true ↦ ok progress
    | false ↦ (do
      step ← batch_insert_empty_tree_if_not_exists v drive path key flags progress.0
      ok (note_inserted path key progress.1 step))
  ]

  module _ {D : Type 0} (reader : DocumentReader D) (info : DocumentInfo D) where
    abbrev pub document_id : Bytes
    document_id = reader.id info.document

    abbrev pub raw_field : Bytes → StorageResult Bytes
    raw_field property =
        raw_or_default reader info.document property info.document_type info.owner_id

    abbrev pub document_item : Element
    document_item = item info.serialized_document (map_to_some_element_flags v info.storage_flags)

    unfoldable pub document_reference : Element
    unfolding make_document_reference
    document_reference = make_document_reference v document_id info.document_type info.storage_flags

    abbrev pub primary_key_path : KeyPath
    primary_key_path = contract_documents_primary_key_path info.contract_id info.document_type.name

    abbrev pub history_path : KeyPath
    history_path =
        contract_documents_keeping_history_primary_key_path_for_document_id info.contract_id
          info.document_type.name document_id

    -- A version of the document under the time of the block, and key 0 that refers to it.
    unfoldable pub add_version_with_history : ℕ → List Operation → StorageResult (List Operation)
    unfolding batch_insert_empty_tree_if_not_exists batch_insert encode_unsigned_integer
    add_version_with_history time_ms operations = do
      step ←
          batch_insert_empty_tree_if_not_exists v drive primary_key_path document_id
            info.storage_flags operations
      let encoded_time = encode_unsigned_integer time_ms
      let with_item = batch_insert history_path encoded_time document_item step.1
      let current =
          reference (sibling_reference encoded_time) (some 1)
            (map_to_some_element_flags v info.storage_flags)
      ok (batch_insert history_path (0 ∷ []) current with_item)

    abbrev pub unless_stored : Bool × List Operation → StorageResult (List Operation)
    unless_stored step = if step.0 then ok step.1 else err document_already_exists

    unfoldable pub add_document_to_primary_storage :
        ℕ → Bool → List Operation → StorageResult (List Operation)
    unfolding add_version_with_history batch_insert batch_insert_if_not_exists
    add_document_to_primary_storage time_ms insert_without_check operations =
        if info.document_type.documents_keep_history
        then add_version_with_history time_ms operations
        else if insert_without_check
        then ok (batch_insert primary_key_path document_id document_item operations)
        else (do
          step ←
              batch_insert_if_not_exists drive primary_key_path document_id document_item operations
          unless_stored step)

    -- The loop over the properties after the first one, on the path so far and on whether a field
    -- was empty.
    unfoldable pub insert_property_trees :
        List Bytes → KeyPath → Bool → Progress → StorageResult (KeyPath × Bool × Progress)
    unfolding insert_tree_once
    insert_property_trees [] path any_fields_null progress = ok (path, any_fields_null, progress)
    insert_property_trees (name ∷ names) path any_fields_null progress = do
      field ← raw_field name
      named ← insert_tree_once path name info.storage_flags progress
      filled ← insert_tree_once (path ++ (name ∷ [])) field info.storage_flags named
      insert_property_trees names ((path ++ (name ∷ [])) ++ (field ∷ []))
          (any_fields_null || is_empty field) filled

    abbrev pub unless_taken : Cache → Bool × List Operation → StorageResult Progress
    unless_taken cache step = if step.0 then ok (step.1, cache) else err index_already_exists

    -- Under key 0: the reference of a unique index, or the tree of the references by identifier.
    unfoldable pub insert_shared_reference : KeyPath → Progress → StorageResult Progress
    unfolding batch_insert_empty_tree_if_not_exists batch_insert document_reference
    insert_shared_reference path progress = do
      step ←
          batch_insert_empty_tree_if_not_exists v drive path (0 ∷ []) info.storage_flags progress.0
      ok (batch_insert (path ++ ((0 ∷ []) ∷ [])) document_id document_reference step.1, progress.1)

    unfoldable pub insert_unique_reference : KeyPath → Progress → StorageResult Progress
    unfolding batch_insert_if_not_exists document_reference
    insert_unique_reference path progress = do
      step ← batch_insert_if_not_exists drive path (0 ∷ []) document_reference progress.0
      unless_taken progress.1 step

    unfoldable pub insert_reference : Bool → KeyPath → Progress → StorageResult Progress
    unfolding insert_shared_reference insert_unique_reference
    insert_reference shared path progress =
        if shared
        then insert_shared_reference path progress
        else insert_unique_reference path progress

    -- The first property's tree is there since the contract was.
    unfoldable pub add_to_index : StoredIndex → List Bytes → Progress → StorageResult Progress
    unfolding insert_tree_once insert_property_trees insert_reference contract_document_type_path
    add_to_index index [] progress = err corrupted_indices
    add_to_index index (top ∷ names) progress = do
      let path = contract_document_type_path info.contract_id info.document_type.name ++ (top ∷ [])
      field ← raw_field top
      started ← insert_tree_once path field info.storage_flags progress
      built ← insert_property_trees names (path ++ (field ∷ [])) (is_empty field) started
      insert_reference (not index.unique || built.1) built.0 built.2

    unfoldable pub add_to_indices : List StoredIndex → Progress → StorageResult Progress
    unfolding add_to_index
    add_to_indices [] progress = ok progress
    add_to_indices (index ∷ indices) progress = do
      added ← add_to_index index index.properties progress
      add_to_indices indices added

    -- The part of `add_document_for_contract_operations` that adds a new document.
    unfoldable pub add_new_document : ℕ → Bool → List Operation → StorageResult (List Operation)
    unfolding add_document_to_primary_storage add_to_indices
    add_new_document time_ms override_document operations = do
      stored ← add_document_to_primary_storage time_ms override_document operations
      indexed ← add_to_indices info.document_type.indices (stored, [])
      ok indexed.0

-- ===== src/Storage/Update.antt =====
-- Changing a document: drive/src/drive/document/update.rs, and the choice between an insertion and
-- an update in drive/src/drive/document/insert.rs.
pub mod Deletions
pub mod Walks
pub mod Moves
pub mod Agrees
use rs_platform.Common.{
  ℕ, Bool, true, false, not, ◌&&◌, ◌||◌, Option, none, some, List, [], ◌∷◌, ◌++◌, Bytes, Result, ok,
  err, ◌>>=◌, bytes_eq, if◌then◌else◌,
}
use rs_platform.Flags.{StorageFlags}
use rs_platform.Flags.Codec.{VarInt}
use rs_platform.Storage.{
  KeyPath, Element, Operation, Drive, updating_missing_document, corrupted_indices,
  read_only_document, StorageResult, StoredIndex, DocumentReader, DocumentInfo, grove_get,
  grove_has_raw,
}
use rs_platform.Storage.Paths.{contract_document_type_path, is_empty, raw_or_default}
use rs_platform.Storage.Insert.{
  Progress, insert_tree_once, document_id, raw_field, primary_key_path, history_path,
  add_document_to_primary_storage, add_new_document, insert_reference,
}
use rs_platform.Storage.Delete.{document_of_element, delete_reference}

-- The paths with the new and the old fields, whether a field changed, and whether all of the new
-- ones are empty.
pub record Walk : Type 0 where
  pub index_path : KeyPath
  pub old_index_path : KeyPath
  pub change_occurred_on_index : Bool
  pub all_fields_null : Bool
  pub progress : Progress

module _ (v : VarInt) (drive : Drive) {D : Type 0} (reader : DocumentReader D)
    (info : DocumentInfo D) where
  -- The guard of every tree of a changed index.
  unfoldable pub insert_tree_if : Bool → KeyPath → Bytes → Progress → StorageResult Progress
  unfolding insert_tree_once
  insert_tree_if changed path key progress =
      if changed then insert_tree_once v drive path key info.storage_flags progress else ok progress

  module _ (old_document : D) where
    abbrev pub old_raw_field : Bytes → StorageResult Bytes
    old_raw_field property =
        raw_or_default reader old_document property info.document_type info.owner_id

    unfoldable pub start_walk : KeyPath → Bytes → Progress → StorageResult Walk
    unfolding insert_tree_if
    start_walk type_path top progress = do
      field ← raw_field v drive reader info top
      old_field ← old_raw_field top
      let changed = not (bytes_eq field old_field)
      let path = type_path ++ (top ∷ [])
      inserted ← insert_tree_if changed path field progress
      ok record {
        index_path = path ++ (field ∷ []);
        old_index_path = path ++ (old_field ∷ []);
        change_occurred_on_index = changed;
        all_fields_null = is_empty field;
        progress = inserted;
      }

    -- One round of the loop over the properties after the first one.
    unfoldable pub walk_property : Bytes → Walk → StorageResult Walk
    unfolding insert_tree_if
    walk_property name walk = do
      field ← raw_field v drive reader info name
      old_field ← old_raw_field name
      let changed = walk.change_occurred_on_index || not (bytes_eq field old_field)
      named ← insert_tree_if changed walk.index_path name walk.progress
      let path = walk.index_path ++ (name ∷ [])
      filled ← insert_tree_if changed path field named
      ok record {
        index_path = path ++ (field ∷ []);
        old_index_path = (walk.old_index_path ++ (name ∷ [])) ++ (old_field ∷ []);
        change_occurred_on_index = changed;
        all_fields_null = walk.all_fields_null && is_empty field;
        progress = filled;
      }

    unfoldable pub walk_properties : List Bytes → Walk → StorageResult Walk
    unfolding walk_property
    walk_properties [] walk = ok walk
    walk_properties (name ∷ names) walk = do
      next ← walk_property name walk
      walk_properties names next

    -- The old reference goes, the new one comes.
    unfoldable pub move_reference : Bool → Walk → StorageResult Progress
    unfolding delete_reference insert_reference
    move_reference unique walk = do
      deleted ←
          delete_reference drive unique (document_id v drive reader info) walk.old_index_path
            walk.progress.0
      insert_reference v drive reader info (not unique || walk.all_fields_null) walk.index_path
          (deleted, walk.progress.1)

    abbrev pub move_if_changed : Bool → Walk → StorageResult Progress
    move_if_changed unique walk =
        if walk.change_occurred_on_index then move_reference unique walk else ok walk.progress

    unfoldable pub update_index : StoredIndex → List Bytes → Progress → StorageResult Progress
    unfolding start_walk walk_properties move_reference
    update_index index [] progress = err corrupted_indices
    update_index index (top ∷ names) progress = do
      start ←
          start_walk (contract_document_type_path info.contract_id info.document_type.name) top
            progress
      walk ← walk_properties names start
      move_if_changed index.unique walk

    unfoldable pub update_indices : List StoredIndex → Progress → StorageResult Progress
    unfolding update_index
    update_indices [] progress = ok progress
    update_indices (index ∷ indices) progress = do
      updated ← update_index index index.properties progress
      update_indices indices updated

  -- Where the old document is: at key 0 of its history, or under its identifier.
  unfoldable pub get_old_document : StorageResult (Option Element × List Operation)
  unfolding grove_get
  get_old_document =
      if info.document_type.documents_keep_history
      then grove_get drive (history_path v drive reader info) (0 ∷ []) []
      else grove_get drive (primary_key_path v drive reader info) (document_id v drive reader info)
          []

  unfoldable pub update_stored_document : ℕ → StorageResult (List Operation)
  unfolding get_old_document add_document_to_primary_storage update_indices
  update_stored_document time_ms = do
    found ← get_old_document
    stored ← add_document_to_primary_storage v drive reader info time_ms true found.1
    old_document ← document_of_element v reader info.owner_id updating_missing_document found.0
    updated ← update_indices old_document info.document_type.indices (stored, [])
    ok updated.0

  unfoldable pub update_document_for_contract_operations : ℕ → StorageResult (List Operation)
  unfolding update_stored_document
  update_document_for_contract_operations time_ms =
      if not info.document_type.documents_mutable
      then err read_only_document
      else update_stored_document time_ms

  -- A document that is there is updated, when the caller allows it.
  abbrev pub add_or_update : ℕ → Bool × List Operation → StorageResult (List Operation)
  add_or_update time_ms found =
      if found.0
      then (do
        update_operations ← update_document_for_contract_operations time_ms
        ok (found.1 ++ update_operations))
      else add_new_document v drive reader info time_ms true found.1

  unfoldable pub add_document_for_contract_operations : ℕ → Bool → StorageResult (List Operation)
  unfolding add_new_document update_document_for_contract_operations grove_has_raw
  add_document_for_contract_operations time_ms override_document =
      if override_document
      then (do
        found ←
            grove_has_raw drive (primary_key_path v drive reader info)
              (document_id v drive reader info) []
        add_or_update time_ms found)
      else add_new_document v drive reader info time_ms false []

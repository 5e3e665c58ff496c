-- ===== src/Storage/Delete/Removes.antt =====
-- What deleting a document removes (drive/src/drive/document/delete.rs), against the references
-- that adding it wrote.
use rs_platform.Common.{
  ℕ, ◌<◌, ◌≡◌, refl, sym, ◌∙◌, ap, Bool, true, false, not, Option, List, [], ◌∷◌, ◌++◌, append-nil,
  length, All, Bytes, ok, err, if◌then◌else◌, arith,
}
use mathlib.Core.List.{Mem}
use rs_platform.Flags.Codec.{VarInt}
use rs_platform.Fees.{grove_operation, calculated_cost_operation}
use rs_platform.Storage.{
  KeyPath, item, reference, ReferencePath, delete_op, Operation, Drive, StorageResult, StoredIndex,
  DocumentType, DocumentReader, push_drive_operation_result, grove_get, read_only_document,
  document_keeps_history,
}
use rs_platform.Storage.Paths.{
  contract_documents_primary_key_path, contract_document_type_path, raw_or_default,
}
use rs_platform.Storage.Locations.{field_or_empty, named_fields, place, two_keys}
use rs_platform.Storage.Delete.{
  check_element_flags, push_fields, delete_from_index, delete_from_indices, delete_stored_document,
  delete_document_for_contract_operations,
}
use rs_platform.Storage.Delete.Present.{
  GroveDeletes, Extends, Extends-trans, Mem-Extends, Deletes, not_positive,
  delete_reference-present, batch_delete-present,
}

module _ (drive : Drive) (laws : GroveDeletes drive) where
  module _ (v : VarInt) {D : Type 0} (reader : DocumentReader D) (contract_id : Bytes)
      (document_type : DocumentType) (owner_id : Option Bytes) (document_id : Bytes)
      (document : D) where
    abbrev pub stored_field : Bytes → StorageResult Bytes
    stored_field name = raw_or_default reader document name document_type owner_id

    abbrev pub stored_field_of : Bytes → Bytes
    stored_field_of name = field_or_empty (stored_field name)

    abbrev pub IsReadable : Bytes → Type 0
    IsReadable name = stored_field name ≡ ok (stored_field_of name)

    abbrev pub stored_path : List Bytes → KeyPath
    stored_path names =
        contract_document_type_path contract_id document_type.name
        ++ named_fields stored_field_of names

    push_fields-readable :
        (names : List Bytes) (path : KeyPath)
        → All IsReadable names
        → push_fields v drive reader contract_id document_type owner_id document_id document names
            path
          ≡ ok (path ++ named_fields stored_field_of names)
    unfolding push_fields
    push_fields-readable [] path readable = ap ok (sym (append-nil path))
    push_fields-readable (name ∷ names) path readable =
        let rest =
          push_fields-readable names ((path ++ (name ∷ [])) ++ (stored_field_of name ∷ []))
            readable.1 in
        rw (readable.0) (
          rest
          ∙ ap ok (two_keys path name (stored_field_of name) (named_fields stored_field_of names)))

    -- A reference is stored where the deletion looks for it.
    abbrev pub IsReferenced : Bool → List Bytes → Type 0
    IsReferenced unique names =
        let at = place (not unique) (stored_path names) document_id in
        (to : ReferencePath) × (hops : Option ℕ) × (flags : Option Bytes) × ((drive.get_raw at.0
            at.1).value
          ≡ ok (reference to hops flags))

    abbrev pub IsDeletable : StoredIndex → Type 0
    IsDeletable index =
        (0 < length index.properties)
        × All IsReadable index.properties
        × IsReferenced index.unique index.properties

    delete_from_index-present :
        (index : StoredIndex) (names : List Bytes) (os : List Operation)
        → 0 < length names
        → All IsReadable names
        → IsReferenced index.unique names
        → (ps : List Operation) × (delete_from_index v drive reader contract_id document_type
              owner_id document_id document index names os
            ≡ ok ps)
          × Deletes os ps (place (not index.unique) (stored_path names) document_id)
    unfolding delete_from_index contract_document_type_path
    delete_from_index-present index [] os filled readable referenced =
        elim (not_positive filled) [ ]
    delete_from_index-present index (top ∷ names) os filled readable referenced =
        let deletion =
          delete_reference-present drive laws index.unique document_id (stored_path (top ∷ names))
            os referenced.3 (omega arith) in
        let fields =
          push_fields-readable (top ∷ names)
            (contract_document_type_path contract_id document_type.name) readable in
        (deletion.0, rw (fields) (deletion.1), deletion.2)

    delete_from_indices-present :
        (indices : List StoredIndex) (os : List Operation)
        → All IsDeletable indices
        → (ps : List Operation) × (delete_from_indices v drive reader contract_id document_type
              owner_id document_id document indices os
            ≡ ok ps)
          × Extends os ps
          × All
              (λ (index : StoredIndex).
                let at = place (not index.unique) (stored_path index.properties) document_id in
                Mem (grove_operation (delete_op at.0 at.1)) ps)
              indices
    unfolding delete_from_indices
    delete_from_indices-present [] os deletable = (os, refl, ([], sym (append-nil os)), tt)
    delete_from_indices-present (index ∷ indices) os deletable =
        let here =
          delete_from_index-present index index.properties os deletable.0.0 deletable.0.1
            deletable.0.2 in
        let rest = delete_from_indices-present indices here.0 deletable.1 in
        (
          rest.0,
          rw (here.1) (rest.1),
          Extends-trans os here.0 rest.0 here.2.0 rest.2,
          (Mem-Extends here.0 rest.0 rest.2 here.2.1, rest.3),
        )

    abbrev pub deleted_key : StoredIndex → KeyPath × Bytes
    deleted_key index = place (not index.unique) (stored_path index.properties) document_id

    allowed :
        document_type.documents_mutable ≡ true
        → document_type.documents_keep_history ≡ false
        → delete_document_for_contract_operations v drive reader contract_id document_type owner_id
            document_id
          ≡ delete_stored_document v drive reader contract_id document_type owner_id document_id
    unfolding delete_document_for_contract_operations
    allowed mutable forgets =
        let stored =
          delete_stored_document v drive reader contract_id document_type owner_id document_id in
        ap
          (λ (mutable : Bool).
            if not mutable
            then err read_only_document
            else if document_type.documents_keep_history
            then err document_keeps_history
            else stored)
          mutable
        ∙ ap (λ (keeps : Bool). if keeps then err document_keeps_history else stored) forgets

    -- The deletion of a document that is stored with its references succeeds; it deletes the
    -- document and, per index, what stands at the place of its reference.
    pub delete_document-present :
        document_type.documents_mutable ≡ true
        → document_type.documents_keep_history ≡ false
        → {bytes : Bytes} {flags : Option Bytes}
        → (drive.get
            (contract_documents_primary_key_path contract_id document_type.name)
            document_id).value
          ≡ ok (item bytes flags)
        → (drive.get_raw
            (contract_documents_primary_key_path contract_id document_type.name)
            document_id).value
          ≡ ok (item bytes flags)
        → reader.from_cbor bytes owner_id ≡ ok document
        → check_element_flags v flags ≡ ok true
        → All IsDeletable document_type.indices
        → (ps : List Operation) × (delete_document_for_contract_operations v drive reader
              contract_id document_type owner_id document_id
            ≡ ok ps)
          × Mem
              (grove_operation (
                delete_op
                  (contract_documents_primary_key_path contract_id document_type.name)
                  document_id))
              ps
          × All
              (λ (index : StoredIndex).
                Mem (grove_operation (delete_op (deleted_key index).0 (deleted_key index).1)) ps)
              document_type.indices
    unfolding delete_stored_document grove_get push_drive_operation_result
    delete_document-present mutable forgets {bytes} {flags} found raw decoded readable deletable =
        let path = contract_documents_primary_key_path contract_id document_type.name in
        let priced = calculated_cost_operation (drive.get path document_id).cost ∷ [] in
        let item_gone = batch_delete-present drive laws path document_id priced raw in
        let rest = delete_from_indices-present document_type.indices item_gone.0 deletable in
        (
          rest.0,
          allowed mutable forgets ∙ rw (found, decoded, readable, item_gone.1) (rest.1),
          Mem-Extends item_gone.0 rest.0 rest.2 item_gone.2.1,
          rest.3,
        )

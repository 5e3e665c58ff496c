-- ===== src/Storage/Update/Moves.antt =====
-- The references that changing a document writes (drive/src/drive/document/update.rs).
use rs_platform.Common.{
  ℕ, ◌≡◌, sym, ◌∙◌, ap, Bool, true, false, not, ◌||◌, ◌&&◌, Option, List, [], ◌∷◌, ◌++◌,
  append_assoc, append-nil, Bytes, ok, err, >>=-eq-ok, ok_inj, if◌then◌else◌, Bool-cases, inl, inr,
  ◌↔◌,
}
use rs_platform.Flags.Codec.{VarInt}
use rs_platform.Storage.{
  KeyPath, Element, Operation, Drive, StorageResult, StoredIndex, DocumentReader, DocumentInfo,
  grove_get, updating_missing_document, read_only_document,
}
use rs_platform.Storage.Paths.{contract_document_type_path}
use rs_platform.Storage.Locations.{
  Write, references, named_fields, has_empty, all_empty, place, place-injective, two_keys,
}
use rs_platform.Storage.Insert.{
  Progress, document_id, document_reference, history_path, primary_key_path,
  add_document_to_primary_storage,
}
use rs_platform.Storage.Insert.Writes.{
  field_of, index_path, index_entry, insert_reference-references,
  add_document_to_primary_storage-references,
}
use rs_platform.Storage.Delete.{document_of_element, delete_reference}
use rs_platform.Storage.Update.{
  Walk, start_walk, walk_properties, move_reference, update_index, update_indices, get_old_document,
  update_stored_document, update_document_for_contract_operations,
}
use rs_platform.Storage.Update.Deletions.{
  GroveOnlyDeletes, grove_get-references, delete_reference-references,
}
use rs_platform.Storage.Update.Walks.{
  new_field_of, differs, start_walk-Continues, walk_properties-Continues,
}

module _ (drive : Drive) (laws : GroveOnlyDeletes drive) where
  module _ (v : VarInt) {D : Type 0} (reader : DocumentReader D) (info : DocumentInfo D) where
    module _ (old_document : D) where
      -- The reference that an update writes for a changed index: by identifier when the index is
      -- not unique or all of the new fields are empty.
      abbrev pub updated_entry : Bool → List Bytes → Write
      updated_entry unique names =
          let at =
            place (not unique || all_empty (new_field_of v drive reader info old_document) names)
              (index_path v drive reader info names) (document_id v drive reader info) in
          (at.0, at.1, document_reference v drive reader info)

      abbrev pub entry_if_changed : Bool → List Bytes → List Write
      entry_if_changed unique names =
          if (differs v drive reader info old_document) names
          then updated_entry unique names ∷ []
          else []

      abbrev pub updated_entries : List StoredIndex → List Write
      updated_entries [] = []
      updated_entries (index ∷ indices) =
          entry_if_changed index.unique index.properties ++ updated_entries indices

      abbrev pub placed : Bool → KeyPath → List Write
      placed shared path =
          let at = place shared path (document_id v drive reader info) in
          (at.0, at.1, document_reference v drive reader info) ∷ []

      move_reference-references :
          (unique : Bool) (walk : Walk) {r : Progress}
          → move_reference v drive reader info old_document unique walk ≡ ok r
          → references r.0
            ≡ references walk.progress.0
              ++ placed (not unique || walk.all_fields_null) walk.index_path
      unfolding move_reference
      move_reference-references unique walk h =
          let deleted =
            >>=-eq-ok
              (delete_reference drive unique (document_id v drive reader info) walk.old_index_path
                walk.progress.0)
              _ h in
          insert_reference-references v drive reader info (not unique || walk.all_fields_null)
            walk.index_path (deleted.0, walk.progress.1) deleted.2
          ∙ ap
              (λ (ws : List Write).
                ws ++ placed (not unique || walk.all_fields_null) walk.index_path)
              (delete_reference-references drive laws unique (document_id v drive reader info)
                walk.old_index_path walk.progress.0 deleted.1)

      when_changed :
          (changed : Bool) (moved : StorageResult Progress) (progress : Progress) (ws : List Write)
          {r : Progress}
          → ((q : Progress) → moved ≡ ok q → references q.0 ≡ references progress.0 ++ ws)
          → (if changed then moved else ok progress) ≡ ok r
          → references r.0 ≡ references progress.0 ++ (if changed then ws else [])
      when_changed true moved progress ws {r} moves h = moves r h
      when_changed false moved progress ws moves h =
          let same = ok_inj h in
          ap (λ (q : Progress). references q.0) (sym same)
          ∙ sym (append-nil (references progress.0))

      update_index-references :
          (index : StoredIndex) (names : List Bytes) (progress : Progress) {r : Progress}
          → update_index v drive reader info old_document index names progress ≡ ok r
          → references r.0 ≡ references progress.0 ++ entry_if_changed index.unique names
      unfolding update_index
      update_index-references index [] progress h = cc
      update_index-references index (top ∷ names) progress h =
          let type_path = contract_document_type_path info.contract_id info.document_type.name in
          let start =
            >>=-eq-ok (start_walk v drive reader info old_document type_path top progress) _ h in
          let walked =
            >>=-eq-ok (walk_properties v drive reader info old_document names start.0) _ start.2 in
          let one =
            start_walk-Continues v drive reader info old_document type_path top progress start.1 in
          let rest =
            walk_properties-Continues v drive reader info old_document names start.0 walked.1 in
          let walk = walked.0 in
          let moved =
            when_changed walk.change_occurred_on_index
              (move_reference v drive reader info old_document index.unique walk) walk.progress
              (placed (not index.unique || walk.all_fields_null) walk.index_path)
              (λ q e. move_reference-references index.unique walk e) walked.2 in
          let path =
            (rest.0
              ∙ ap
                  (λ (p : KeyPath).
                    p ++ named_fields (new_field_of v drive reader info old_document) names)
                  one.0)
            ∙ two_keys type_path top ((new_field_of v drive reader info old_document) top)
                (named_fields (new_field_of v drive reader info old_document) names) in
          let change =
            rest.2
            ∙ ap (λ (b : Bool). b || (differs v drive reader info old_document) names) one.2 in
          let empty =
            rest.3
            ∙ ap
                (λ (b : Bool). b && all_empty (new_field_of v drive reader info old_document) names)
                one.3 in
          let settled = rw (rest.4 ∙ one.4, path, change, empty) at moved in settled

      update_indices-references :
          (indices : List StoredIndex) (progress : Progress) {r : Progress}
          → update_indices v drive reader info old_document indices progress ≡ ok r
          → references r.0 ≡ references progress.0 ++ updated_entries indices
      unfolding update_indices
      update_indices-references [] progress h =
          let same = ok_inj h in
          ap (λ (q : Progress). references q.0) (sym same)
          ∙ sym (append-nil (references progress.0))
      update_indices-references (index ∷ indices) progress h =
          let updated =
            >>=-eq-ok
              (update_index v drive reader info old_document index index.properties progress) _ h in
          let here = update_index-references index index.properties progress updated.1 in
          (update_indices-references indices updated.0 updated.2
            ∙ ap (λ (ws : List Write). ws ++ updated_entries indices) here)
          ∙ append_assoc (references progress.0) (entry_if_changed index.unique index.properties)
              (updated_entries indices)

    get_old_document-references :
        {element : Option Element} {os : List Operation}
        → get_old_document v drive reader info ≡ ok (element, os)
        → references os ≡ []
    unfolding get_old_document grove_get references
    get_old_document-references h = elim (Bool-cases info.document_type.documents_keep_history) [
      | inl keeps ↦
          let asked = rw (get_old_document, keeps) at h in
          grove_get-references drive laws (history_path v drive reader info) (0 ∷ []) asked
      | inr forgets ↦
          let asked = rw (get_old_document, forgets) at h in
          grove_get-references drive laws (primary_key_path v drive reader info)
            (document_id v drive reader info) asked
    ]

    unless_read_only :
        (mutable : Bool) (updating : StorageResult (List Operation)) {r : List Operation}
        → (if not mutable then err read_only_document else updating) ≡ ok r
        → updating ≡ ok r
    unless_read_only true updating h = h
    unless_read_only false updating h = cc

    -- A successful update of a stored document writes a reference for each index of which a field
    -- changed, in the order of the indices, and for no other index: for a unique index with a field
    -- that is not empty at key 0 of the path of the new fields, else under the document's identifier
    -- in the tree at that key; if GroveDB answers deletions with deletions.
    pub update_document-references :
        (time_ms : ℕ) {element : Option Element} {os : List Operation} {old_document : D}
        {r : List Operation}
        → get_old_document v drive reader info ≡ ok (element, os)
        → document_of_element v reader info.owner_id updating_missing_document element
          ≡ ok old_document
        → update_document_for_contract_operations v drive reader info time_ms ≡ ok r
        → references r ≡ updated_entries old_document info.document_type.indices
    unfolding update_document_for_contract_operations update_stored_document
    update_document-references time_ms {element} {os} {old_document} found decoded h =
        let allowed = unless_read_only info.document_type.documents_mutable _ h in
        let opened = rw (update_stored_document, found) at allowed in
        let stored =
          >>=-eq-ok (add_document_to_primary_storage v drive reader info time_ms true os) _
            opened in
        let updating = rw (decoded) at (stored.2) in
        let updated =
          >>=-eq-ok
            (update_indices v drive reader info old_document info.document_type.indices
              (stored.0, []))
            _ updating in
        let same = ok_inj updated.2 in
        (ap references (sym same)
          ∙ update_indices-references old_document info.document_type.indices (stored.0, [])
              updated.1)
        ∙ ap (λ (ws : List Write). ws ++ updated_entries old_document info.document_type.indices)
            (add_document_to_primary_storage-references v drive reader info time_ms true os stored.1
              ∙ get_old_document-references found)

    pub updated_entry-index_entry :
        (old_document : D) (index : StoredIndex)
        → (updated_entry old_document index.unique index.properties
            ≡ index_entry v drive reader info index)
          ↔ ((not index.unique || all_empty (field_of v drive reader info) index.properties)
              ≡ (not index.unique || has_empty (field_of v drive reader info) index.properties))
    updated_entry-index_entry old_document index =
        let path = index_path v drive reader info index.properties in
        let id = document_id v drive reader info in
        let reference = document_reference v drive reader info in
        (
          λ same. sym (place-injective _ _ path id (ap (λ (w : Write). (w.0, w.1)) same)),
          λ agree.
              ap
                (λ (shared : Bool). ((place shared path id).0, (place shared path id).1, reference))
                agree,
        )

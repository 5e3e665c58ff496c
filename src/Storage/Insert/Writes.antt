-- ===== src/Storage/Insert/Writes.antt =====
-- The references that adding a document writes (drive/src/drive/document/insert.rs).
use rs_platform.Common.{
  ℕ, ◌≡◌, refl, sym, ◌∙◌, ap, Bool, true, false, not, ◌||◌, List, [], ◌∷◌, ◌++◌, append_assoc,
  append-nil, map, Bytes, ok, ◌>>=◌, >>=-eq-ok, ok_inj, if◌then◌else◌, Bool-cases, inl, inr, subst,
}
use rs_platform.Flags.Codec.{VarInt}
use rs_platform.Storage.{
  KeyPath, Operation, Drive, StoredIndex, DocumentReader, DocumentInfo, batch_insert,
  batch_insert_if_not_exists, batch_insert_empty_tree_if_not_exists,
}
use rs_platform.Storage.Paths.{contract_document_type_path, make_document_reference, is_empty}
use rs_platform.Storage.Insert.{
  Progress, insert_tree_once, document_id, raw_field, document_item, document_reference,
  primary_key_path, history_path, add_version_with_history, unless_stored,
  add_document_to_primary_storage, insert_property_trees, unless_taken, insert_shared_reference,
  insert_unique_reference, insert_reference, add_to_index, add_to_indices, add_new_document,
}
use rs_platform.Storage.Locations.{
  Write, reference_of, references, field_or_empty, named_fields, has_empty, place, two_keys,
  or_false, or_assoc,
}
use rs_platform.Storage.Insert.Kept.{
  references-batch_insert, batch_insert_if_not_exists-references,
  batch_insert_empty_tree_if_not_exists-references, insert_tree_once-references,
}

module _ (v : VarInt) (drive : Drive) where
  module _ {D : Type 0} (reader : DocumentReader D) (info : DocumentInfo D) where
    -- The document's field of a property.
    abbrev pub field_of : Bytes → Bytes
    field_of name = field_or_empty (raw_field v drive reader info name)

    abbrev pub index_path : List Bytes → KeyPath
    index_path names =
        contract_document_type_path info.contract_id info.document_type.name
        ++ named_fields field_of names

    -- The reference of an index: a unique index has one per path, unless a field is empty.
    abbrev pub entry : Bool → List Bytes → Write
    entry unique names =
        let at =
          place (not unique || has_empty field_of names) (index_path names)
            (document_id v drive reader info) in
        (at.0, at.1, document_reference v drive reader info)

    abbrev pub index_entry : StoredIndex → Write
    index_entry index = entry index.unique index.properties

    insert_property_trees-path :
        (names : List Bytes) (path : KeyPath) (any : Bool) (progress : Progress)
        {r : KeyPath × Bool × Progress}
        → insert_property_trees v drive reader info names path any progress ≡ ok r
        → (references r.2.0 ≡ references progress.0)
          × (r.0 ≡ path ++ named_fields field_of names)
          × (r.1 ≡ (any || has_empty field_of names))
    unfolding insert_property_trees
    insert_property_trees-path [] path any progress {r} h =
        subst
          (λ (q : KeyPath × Bool × Progress).
            (references q.2.0 ≡ references progress.0)
            × (q.0 ≡ path ++ [])
            × (q.1 ≡ (any || false)))
          (ok_inj h) (refl, sym (append-nil path), or_false any)
    insert_property_trees-path (name ∷ names) path any progress {r} h =
        let field = >>=-eq-ok (raw_field v drive reader info name) _ h in
        let named =
          >>=-eq-ok (insert_tree_once v drive path name info.storage_flags progress) _ field.2 in
        let filled =
          >>=-eq-ok
            (insert_tree_once v drive (path ++ (name ∷ [])) field.0 info.storage_flags named.0) _
            named.2 in
        let rest = insert_property_trees-path names _ _ filled.0 filled.2 in
        let is_field : field_of name ≡ field.0 = ap field_or_empty field.1 in
        rw (is_field) (
          (rest.0 ∙ insert_tree_once-references v drive _ _ _ named.0 filled.1)
              ∙ insert_tree_once-references v drive path name info.storage_flags progress named.1,
          rest.1 ∙ two_keys path name field.0 (named_fields field_of names),
          rest.2 ∙ or_assoc any (is_empty field.0) (has_empty field_of names),
        )

    reference_of-document_reference :
        (path : KeyPath) (key : Bytes)
        → reference_of path key (document_reference v drive reader info)
          ≡ (path, key, document_reference v drive reader info) ∷ []
    unfolding document_reference make_document_reference
    reference_of-document_reference path key =
        elim (Bool-cases info.document_type.documents_keep_history) [
          | inl keeps ↦ rw (keeps) refl
          | inr forgets ↦ rw (forgets) refl
        ]

    reference_appended :
        (path : KeyPath) (key : Bytes) (before after : List Operation)
        → references after ≡ references before
        → references after ++ reference_of path key (document_reference v drive reader info)
          ≡ references before ++ (path, key, document_reference v drive reader info) ∷ []
    reference_appended path key before after kept =
        rw (kept, reference_of-document_reference path key) refl

    pub unless_taken-inserted :
        (cache : List KeyPath) (step : Bool × List Operation) {r : Progress}
        → unless_taken v drive reader info cache step ≡ ok r
        → (step.0 ≡ true) × ((step.1, cache) ≡ r)
    unless_taken-inserted cache (true, os) h = (refl, ok_inj h)
    unless_taken-inserted cache (false, os) h = cc

    pub insert_reference-references :
        (shared : Bool) (path : KeyPath) (progress : Progress) {r : Progress}
        → insert_reference v drive reader info shared path progress ≡ ok r
        → references r.0
          ≡ references progress.0
            ++ (
              (place shared path (document_id v drive reader info)).0,
              (place shared path (document_id v drive reader info)).1,
              document_reference v drive reader info,
            )
              ∷ []
    unfolding insert_reference insert_shared_reference insert_unique_reference
    insert_reference-references true path progress h =
        let step =
          >>=-eq-ok
            (batch_insert_empty_tree_if_not_exists v drive path (0 ∷ []) info.storage_flags
              progress.0)
            _ h in
        let same = ok_inj step.2 in
        ap (λ (q : Progress). references q.0) (sym same)
        ∙ (references-batch_insert (path ++ ((0 ∷ []) ∷ [])) (document_id v drive reader info)
              (document_reference v drive reader info) step.0.1
            ∙ reference_appended _ _ progress.0 step.0.1 (
                batch_insert_empty_tree_if_not_exists-references v drive path (0 ∷ [])
                  info.storage_flags progress.0 step.1))
    insert_reference-references false path progress h =
        let step =
          >>=-eq-ok
            (batch_insert_if_not_exists drive path (0 ∷ []) (document_reference v drive reader info)
              progress.0)
            _ h in
        let free = unless_taken-inserted progress.1 step.0 step.2 in
        let written =
          batch_insert_if_not_exists-references drive path (0 ∷ [])
            (document_reference v drive reader info) progress.0 step.1 in
        let inserted = rw (free.0) at written in
        ap (λ (q : Progress). references q.0) (sym free.1)
        ∙ (inserted ∙ reference_appended path (0 ∷ []) progress.0 progress.0 refl)

    add_to_index-references :
        (index : StoredIndex) (names : List Bytes) (progress : Progress) {r : Progress}
        → add_to_index v drive reader info index names progress ≡ ok r
        → references r.0 ≡ references progress.0 ++ entry index.unique names ∷ []
    unfolding add_to_index
    add_to_index-references index [] progress h = cc
    add_to_index-references index (top ∷ names) progress {r} h =
        let path =
          contract_document_type_path info.contract_id info.document_type.name ++ (top ∷ []) in
        let field = >>=-eq-ok (raw_field v drive reader info top) _ h in
        let started =
          >>=-eq-ok (insert_tree_once v drive path field.0 info.storage_flags progress) _ field.2 in
        let built =
          >>=-eq-ok
            (insert_property_trees v drive reader info names (path ++ (field.0 ∷ []))
              (is_empty field.0) started.0)
            _ started.2 in
        let trees = insert_property_trees-path names _ _ started.0 built.1 in
        let kept =
          trees.0
          ∙ insert_tree_once-references v drive path field.0 info.storage_flags progress
              started.1 in
        let is_field : field_of top ≡ field.0 = ap field_or_empty field.1 in
        let full_path =
          trees.1
          ∙ two_keys (contract_document_type_path info.contract_id info.document_type.name) top
              field.0 (named_fields field_of names) in
        let put = insert_reference-references _ built.0.0 built.0.2 built.2 in
        let settled = rw (kept, trees.2, full_path) at put in rw (is_field) settled

    pub add_to_indices-references :
        (indices : List StoredIndex) (progress : Progress) {r : Progress}
        → add_to_indices v drive reader info indices progress ≡ ok r
        → references r.0 ≡ references progress.0 ++ map index_entry indices
    unfolding add_to_indices
    add_to_indices-references [] progress h =
        let same = ok_inj h in
        ap (λ (q : Progress). references q.0) (sym same) ∙ sym (append-nil (references progress.0))
    add_to_indices-references (index ∷ indices) progress h =
        let added =
          >>=-eq-ok (add_to_index v drive reader info index index.properties progress) _ h in
        let here = add_to_index-references index index.properties progress added.1 in
        (add_to_indices-references indices added.0 added.2
          ∙ ap (λ (ws : List Write). ws ++ map index_entry indices) here)
        ∙ append_assoc (references progress.0) (index_entry index ∷ []) (map index_entry indices)

    add_version_with_history-references :
        (time_ms : ℕ) (os : List Operation) {r : List Operation}
        → add_version_with_history v drive reader info time_ms os ≡ ok r
        → references r ≡ references os
    unfolding add_version_with_history
    add_version_with_history-references time_ms os h =
        let step =
          >>=-eq-ok
            (batch_insert_empty_tree_if_not_exists v drive (primary_key_path v drive reader info)
              (document_id v drive reader info) info.storage_flags os)
            _ h in
        let same = ok_inj step.2 in
        (((ap references (sym same)
              ∙ references-batch_insert (history_path v drive reader info) (0 ∷ []) _ _)
            ∙ append-nil _)
          ∙ references-batch_insert (history_path v drive reader info) _
              (document_item v drive reader info) step.0.1)
        ∙ (append-nil (references step.0.1)
            ∙ batch_insert_empty_tree_if_not_exists-references v drive
                (primary_key_path v drive reader info) (document_id v drive reader info)
                info.storage_flags os step.1)

    pub unless_stored-stored :
        (step : Bool × List Operation) {r : List Operation}
        → unless_stored v drive reader info step ≡ ok r
        → (step.0 ≡ true) × (step.1 ≡ r)
    unless_stored-stored (true, os) h = (refl, ok_inj h)
    unless_stored-stored (false, os) h = cc

    store_once-references :
        (unchecked : Bool) (os : List Operation) {r : List Operation}
        → (if unchecked
            then ok (
                batch_insert
                  (primary_key_path v drive reader info)
                  (document_id v drive reader info)
                  (document_item v drive reader info)
                  os)
            else (batch_insert_if_not_exists drive
                  (primary_key_path v drive reader info)
                  (document_id v drive reader info)
                  (document_item v drive reader info)
                  os
                >>= λ step. unless_stored v drive reader info step))
          ≡ ok r
        → references r ≡ references os
    store_once-references true os h =
        let same = ok_inj h in
        (ap references (sym same)
          ∙ references-batch_insert (primary_key_path v drive reader info)
              (document_id v drive reader info) (document_item v drive reader info) os)
        ∙ append-nil (references os)
    store_once-references false os h =
        let step =
          >>=-eq-ok
            (batch_insert_if_not_exists drive (primary_key_path v drive reader info)
              (document_id v drive reader info) (document_item v drive reader info) os)
            _ h in
        let stored = unless_stored-stored step.0 step.2 in
        let written =
          batch_insert_if_not_exists-references drive (primary_key_path v drive reader info)
            (document_id v drive reader info) (document_item v drive reader info) os step.1 in
        let inserted = rw (stored.0) at written in
        (ap references (sym stored.1) ∙ inserted) ∙ append-nil (references os)

    pub add_document_to_primary_storage-references :
        (time_ms : ℕ) (unchecked : Bool) (os : List Operation) {r : List Operation}
        → add_document_to_primary_storage v drive reader info time_ms unchecked os ≡ ok r
        → references r ≡ references os
    unfolding add_document_to_primary_storage
    add_document_to_primary_storage-references time_ms unchecked os {r} h =
        elim (Bool-cases info.document_type.documents_keep_history) [
          | inl keeps ↦
              let with_history = rw (add_document_to_primary_storage, keeps) at h in
              add_version_with_history-references time_ms os with_history
          | inr forgets ↦
              let without_history = rw (add_document_to_primary_storage, forgets) at h in
              store_once-references unchecked os without_history
        ]

    -- A successful addition of a document writes, after what the batch has already, one reference per
    -- index, in the order of the indices: for a unique index with no empty field at key 0 of the path
    -- of the fields, else under the document's identifier in the tree at that key.
    pub add_new_document-references :
        (time_ms : ℕ) (override_document : Bool) (os : List Operation) {r : List Operation}
        → add_new_document v drive reader info time_ms override_document os ≡ ok r
        → references r ≡ references os ++ map index_entry info.document_type.indices
    unfolding add_new_document
    add_new_document-references time_ms override_document os h =
        let stored =
          >>=-eq-ok
            (add_document_to_primary_storage v drive reader info time_ms override_document os) _
            h in
        let indexed =
          >>=-eq-ok (add_to_indices v drive reader info info.document_type.indices (stored.0, [])) _
            stored.2 in
        let same = ok_inj indexed.2 in
        (ap references (sym same)
          ∙ add_to_indices-references info.document_type.indices (stored.0, []) indexed.1)
        ∙ ap (λ (ws : List Write). ws ++ map index_entry info.document_type.indices)
            (add_document_to_primary_storage-references time_ms override_document os stored.1)

-- ===== src/Storage/Insert/Outcomes.antt =====
-- When adding a document succeeds, and how it fails (drive/src/drive/document/insert.rs), when
-- GroveDB answers and the document gives its fields.
use rs_platform.Common.{
  ℕ, ◌<◌, ◌≡◌, refl, sym, ◌∙◌, ap, Bool, true, false, not, ◌||◌, some, List, [], ◌∷◌, ◌++◌,
  append-nil, length, All, Bytes, ok, err, ◌>>=◌, if◌then◌else◌,
}
use rs_platform.Encoding.{encode_unsigned_integer}
use rs_platform.Flags.Codec.{VarInt}
use rs_platform.Storage.{
  KeyPath, reference, sibling_reference, Operation, Drive, StorageResult, StoredIndex,
  DocumentReader, DocumentInfo, raw_lookup, batch_insert, batch_insert_if_not_exists,
  map_to_some_element_flags, index_already_exists, document_already_exists,
}
use rs_platform.Storage.Paths.{contract_document_type_path, is_empty}
use rs_platform.Storage.Locations.{has_empty, named_fields, two_keys, or_false, or_assoc}
use rs_platform.Storage.Insert.{
  Progress, document_id, raw_field, document_item, document_reference, primary_key_path,
  add_version_with_history, unless_stored, add_document_to_primary_storage, insert_property_trees,
  unless_taken, insert_shared_reference, insert_unique_reference, insert_reference, add_to_index,
  add_to_indices, add_new_document, history_path,
}
use rs_platform.Storage.Insert.Writes.{field_of, index_path}
use rs_platform.Storage.Delete.Present.{not_positive}
use rs_platform.Storage.Insert.Answers.{
  batch_insert_if_not_exists-answer, insert_empty_tree-answer, insert_tree_once-succeeds,
}

module _ (v : VarInt) (drive : Drive) where
  -- GroveDB answers, for every key, whether it is there.
  module _ (answer : KeyPath → Bytes → Bool)
      (answers : (path : KeyPath) (key : Bytes)
        → (raw_lookup drive path key).value ≡ ok (answer path key)) where
    module _ {D : Type 0} (reader : DocumentReader D) (info : DocumentInfo D) where
      abbrev pub IsFieldOf : Bytes → Type 0
      IsFieldOf name = raw_field v drive reader info name ≡ ok (field_of v drive reader info name)

      insert_property_trees-succeeds :
          (names : List Bytes) (path : KeyPath) (any : Bool) (progress : Progress)
          → All IsFieldOf names
          → (next : Progress) × (insert_property_trees v drive reader info names path any progress
              ≡ ok (
                path ++ named_fields (field_of v drive reader info) names,
                (any || has_empty (field_of v drive reader info) names),
                next,
              ))
      unfolding insert_property_trees
      insert_property_trees-succeeds [] path any progress fields = (
        progress,
        ap ok (
            ap (λ (q : KeyPath × Bool). (q.0, q.1, progress))
              (ap (λ (at : KeyPath). (at, any)) (sym (append-nil path))
                ∙ ap (λ (b : Bool). (path ++ [], b)) (or_false any))),
      )
      insert_property_trees-succeeds (name ∷ names) path any progress fields =
          let field = field_of v drive reader info name in
          let named =
            insert_tree_once-succeeds v drive answer answers path name info.storage_flags
              progress in
          let filled =
            insert_tree_once-succeeds v drive answer answers (path ++ (name ∷ [])) field
              info.storage_flags named.0 in
          let rest =
            insert_property_trees-succeeds names ((path ++ (name ∷ [])) ++ (field ∷ []))
              (any || is_empty field) filled.0 fields.1 in
          let same =
            rest.1
            ∙ ap
                (λ (at : KeyPath). ok (
                  at,
                  ((any || is_empty field) || has_empty (field_of v drive reader info) names),
                  rest.0,
                ))
                (two_keys path name field (named_fields (field_of v drive reader info) names)) in
          (
            rest.0,
            rw (fields.0, named.1, filled.1)
                (same
                  ∙ ap
                      (λ (b : Bool). ok (
                        path ++ name ∷ field ∷ named_fields (field_of v drive reader info) names,
                        b,
                        rest.0,
                      ))
                      (or_assoc any (is_empty field)
                        (has_empty (field_of v drive reader info) names))),
          )

      -- Whether the place of a unique reference has something already.
      abbrev pub taken : Bool → List Bytes → Bool
      taken unique names =
          if not unique || has_empty (field_of v drive reader info) names
          then false
          else answer (index_path v drive reader info names) (0 ∷ [])

      abbrev pub any_taken : List StoredIndex → Bool
      any_taken [] = false
      any_taken (index ∷ indices) = taken index.unique index.properties || any_taken indices

      -- What comes of indices that are, or are not, taken.
      abbrev pub Settled : Bool → StorageResult Progress → Type 0
      Settled true result = result ≡ err index_already_exists
      Settled false result = (next : Progress) × (result ≡ ok next)

      unless_taken-Settled :
          (found : Bool) (cache : List KeyPath) (os : List Operation)
          → Settled found (unless_taken v drive reader info cache (not found, os))
      unless_taken-Settled true cache os = refl
      unless_taken-Settled false cache os = ((os, cache), refl)

      insert_reference-Settled :
          (shared : Bool) (path : KeyPath) (progress : Progress)
          → Settled
              (if shared then false else answer path (0 ∷ []))
              (insert_reference v drive reader info shared path progress)
      unfolding insert_reference insert_shared_reference insert_unique_reference
      insert_reference-Settled true path progress =
          let step =
            insert_empty_tree-answer v drive answer answers path (0 ∷ []) info.storage_flags
              progress.0 in
          let written =
            batch_insert (path ++ ((0 ∷ []) ∷ [])) (document_id v drive reader info)
              (document_reference v drive reader info) step.0 in
          ((written, progress.1), rw (step.1) refl)
      insert_reference-Settled false path progress =
          let step =
            batch_insert_if_not_exists-answer v drive answer answers path (0 ∷ [])
              (document_reference v drive reader info) progress.0 in
          rw (step.1) (unless_taken-Settled (answer path (0 ∷ [])) progress.1 step.0)

      add_to_index-Settled :
          (index : StoredIndex) (names : List Bytes) (progress : Progress)
          → 0 < length names
          → All IsFieldOf names
          → Settled
              (taken index.unique names)
              (add_to_index v drive reader info index names progress)
      unfolding add_to_index
      add_to_index-Settled index [] progress filled fields = elim (not_positive filled) [ ]
      add_to_index-Settled index (top ∷ names) progress filled fields =
          let field = field_of v drive reader info top in
          let type_path = contract_document_type_path info.contract_id info.document_type.name in
          let started =
            insert_tree_once-succeeds v drive answer answers (type_path ++ (top ∷ [])) field
              info.storage_flags progress in
          let built =
            insert_property_trees-succeeds names ((type_path ++ (top ∷ [])) ++ (field ∷ []))
              (is_empty field) started.0 fields.1 in
          let here =
            two_keys type_path top field (named_fields (field_of v drive reader info) names) in
          let settled =
            insert_reference-Settled
              (not index.unique || has_empty (field_of v drive reader info) (top ∷ names))
              (index_path v drive reader info (top ∷ names)) built.0 in
          rw (fields.0, started.1, built.1, here) (settled)

      abbrev pub IsGiven : StoredIndex → Type 0
      IsGiven index = (0 < length index.properties) × All IsFieldOf index.properties

      -- One index after the other: the first that is taken settles it.
      then-Settled :
          (first rest : Bool) (result : StorageResult Progress)
          (next : Progress → StorageResult Progress)
          → Settled first result
          → ((progress : Progress) → Settled rest (next progress))
          → Settled (first || rest) (result >>= next)
      then-Settled true rest result next failed more = rw (failed) refl
      then-Settled false rest result next done more = rw (done.1) (more done.0)

      add_to_indices-Settled :
          (indices : List StoredIndex) (progress : Progress)
          → All IsGiven indices
          → Settled (any_taken indices) (add_to_indices v drive reader info indices progress)
      unfolding add_to_indices
      add_to_indices-Settled [] progress given = (progress, refl)
      add_to_indices-Settled (index ∷ indices) progress given =
          then-Settled (taken index.unique index.properties) (any_taken indices)
            (add_to_index v drive reader info index index.properties progress)
            (λ added. add_to_indices v drive reader info indices added)
            (add_to_index-Settled index index.properties progress given.0.0 given.0.1)
            (λ added. add_to_indices-Settled indices added given.1)

      -- Whether the document is there and must not be.
      abbrev pub stored_before : Bool → Bool
      stored_before override_document =
          if info.document_type.documents_keep_history
          then false
          else if override_document
          then false
          else answer (primary_key_path v drive reader info) (document_id v drive reader info)

      -- The result of an addition, of a document that is stored before or not, and into indices that
      -- are taken or not.
      abbrev pub HasOutcome : Bool → Bool → StorageResult (List Operation) → Type 0
      HasOutcome true some_taken result = result ≡ err document_already_exists
      HasOutcome false true result = result ≡ err index_already_exists
      HasOutcome false false result = (added : List Operation) × (result ≡ ok added)

      abbrev pub StoredOutcome : Bool → StorageResult (List Operation) → Type 0
      StoredOutcome true result = result ≡ err document_already_exists
      StoredOutcome false result = (stored : List Operation) × (result ≡ ok stored)

      add_version_with_history-succeeds :
          (time_ms : ℕ) (os : List Operation)
          → (stored : List Operation) × (add_version_with_history v drive reader info time_ms os
              ≡ ok stored)
      unfolding add_version_with_history
      add_version_with_history-succeeds time_ms os =
          let step =
            insert_empty_tree-answer v drive answer answers (primary_key_path v drive reader info)
              (document_id v drive reader info) info.storage_flags os in
          let encoded_time = encode_unsigned_integer time_ms in
          let path = history_path v drive reader info in
          let flags = map_to_some_element_flags v info.storage_flags in
          let with_item =
            batch_insert path encoded_time (document_item v drive reader info) step.0 in
          (
            batch_insert path (0 ∷ []) (reference (sibling_reference encoded_time) (some 1) flags)
                with_item,
            rw (step.1) refl,
          )

      unless_stored-StoredOutcome :
          (found : Bool) (os : List Operation)
          → StoredOutcome found (unless_stored v drive reader info (not found, os))
      unless_stored-StoredOutcome true os = refl
      unless_stored-StoredOutcome false os = (os, refl)

      add_document_to_primary_storage-StoredOutcome :
          (time_ms : ℕ) (override_document : Bool) (os : List Operation)
          → StoredOutcome
              (stored_before override_document)
              (add_document_to_primary_storage v drive reader info time_ms override_document os)
      unfolding add_document_to_primary_storage
      add_document_to_primary_storage-StoredOutcome time_ms override_document os =
          by_mode info.document_type.documents_keep_history override_document
        where
          path : KeyPath
          path = primary_key_path v drive reader info

          id : Bytes
          id = document_id v drive reader info

          checked : StorageResult (List Operation)
          checked = do
            step ← batch_insert_if_not_exists drive path id (document_item v drive reader info) os
            unless_stored v drive reader info step

          checked-outcome : StoredOutcome (answer path id) checked
          checked-outcome =
              let step =
                batch_insert_if_not_exists-answer v drive answer answers path id
                  (document_item v drive reader info) os in
              rw (step.1) (unless_stored-StoredOutcome (answer path id) step.0)

          by_mode :
              (keeps unchecked : Bool)
              → StoredOutcome
                  (if keeps then false else if unchecked then false else answer path id)
                  (if keeps
                    then add_version_with_history v drive reader info time_ms os
                    else if unchecked
                    then ok (batch_insert path id (document_item v drive reader info) os)
                    else checked)
          by_mode true unchecked = add_version_with_history-succeeds time_ms os
          by_mode false true = (batch_insert path id (document_item v drive reader info) os, refl)
          by_mode false false = checked-outcome

      after_storing :
          (stored some_taken : Bool) (result : StorageResult (List Operation))
          (next : List Operation → StorageResult Progress)
          → StoredOutcome stored result
          → ((os : List Operation) → Settled some_taken (next os))
          → HasOutcome stored some_taken (result >>= λ os. next os >>= λ indexed. ok indexed.0)
      after_storing true some_taken result next failed more = rw (failed) refl
      after_storing false true result next done more = rw (done.1, more done.0) refl
      after_storing false false result next done more =
          let indexed = more done.0 in (indexed.0.0, rw (done.1, indexed.1) refl)

      -- When GroveDB answers every lookup, every index has a property and the document gives the
      -- field of every one, then adding a document fails with `CorruptedDocumentAlreadyExists` if its
      -- identifier is taken (which is looked up unless the caller overrides or the type keeps
      -- history), else with "index already exists" if key 0 is taken at the path of a unique index
      -- with no empty field, and else it succeeds.
      pub add_new_document-HasOutcome :
          (time_ms : ℕ) (override_document : Bool) (os : List Operation)
          → All IsGiven info.document_type.indices
          → HasOutcome
              (stored_before override_document)
              (any_taken info.document_type.indices)
              (add_new_document v drive reader info time_ms override_document os)
      unfolding add_new_document
      add_new_document-HasOutcome time_ms override_document os given =
          after_storing (stored_before override_document) (any_taken info.document_type.indices)
            (add_document_to_primary_storage v drive reader info time_ms override_document os)
            (λ stored. add_to_indices v drive reader info info.document_type.indices (stored, []))
            (add_document_to_primary_storage-StoredOutcome time_ms override_document os)
            (λ stored. add_to_indices-Settled info.document_type.indices (stored, []) given)

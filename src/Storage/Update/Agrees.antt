-- ===== src/Storage/Update/Agrees.antt =====
-- Changing a document beside adding it anew (drive/src/drive/document/{update.rs,insert.rs}).
use rs_platform.Common.{
  ℕ, ◌≡◌, refl, sym, ◌∙◌, ap, Bool, true, not, ◌||◌, Option, List, [], ◌∷◌, map, drop, All, ok, ◌↔◌,
}
use rs_platform.Flags.Codec.{VarInt}
use rs_platform.Storage.{
  Element, Operation, Drive, StoredIndex, DocumentReader, DocumentInfo, updating_missing_document,
}
use rs_platform.Storage.Locations.{Write, references, has_empty, all_empty}
use rs_platform.Storage.Insert.{add_new_document}
use rs_platform.Storage.Insert.Writes.{field_of, index_entry, add_new_document-references}
use rs_platform.Storage.Delete.{document_of_element}
use rs_platform.Storage.Update.{get_old_document, update_document_for_contract_operations}
use rs_platform.Storage.Update.Deletions.{GroveOnlyDeletes}
use rs_platform.Storage.Update.Walks.{differs}
use rs_platform.Storage.Update.Moves.{
  updated_entries, updated_entry-index_entry, update_document-references,
}

abbrev first_or : Write → List Write → Write
first_or w [] = w
first_or w (x ∷ xs) = x

module _ (v : VarInt) (drive : Drive) (laws : GroveOnlyDeletes drive) {D : Type 0}
    (reader : DocumentReader D) (info : DocumentInfo D) where
  -- Not unique, or all fields are empty exactly when one is.
  abbrev pub Agrees : StoredIndex → Type 0
  Agrees index =
      (not index.unique || all_empty (field_of v drive reader info) index.properties)
      ≡ (not index.unique || has_empty (field_of v drive reader info) index.properties)

  module _ (old_document : D) where
    abbrev pub Differs : StoredIndex → Type 0
    Differs index = differs v drive reader info old_document index.properties ≡ true

    updated_entries-Agrees :
        (indices : List StoredIndex)
        → All Differs indices
        → (updated_entries drive laws v reader info old_document indices
            ≡ map (index_entry v drive reader info) indices)
          ↔ All Agrees indices
    updated_entries-Agrees [] changed = (λ same. tt, λ agree. refl)
    updated_entries-Agrees (index ∷ indices) changed =
        let here = updated_entry-index_entry drive laws v reader info old_document index in
        let rest = updated_entries-Agrees indices changed.1 in
        let entry = index_entry v drive reader info in
        rw changed.0 (
          λ same. (
            here.0 (ap (first_or (entry index)) same),
            rest.0 (ap (λ (ws : List Write). drop 1 ws) same),
          ),
          λ agree.
              ap (λ (w : Write). w ∷ updated_entries drive laws v reader info old_document indices)
                (here.1 agree.0)
              ∙ ap (λ (ws : List Write). entry index ∷ ws) (rest.1 agree.1),
        )

  -- Where a stored document is changed in a field of every index, and adding the changed document
  -- anew succeeds as well, the update writes the references that the addition writes exactly when
  -- each unique index has either no empty field or only empty fields; if GroveDB answers deletions
  -- with deletions.
  pub update_document-add_new_document :
      (time_ms added_ms : ℕ) (override_document : Bool) {element : Option Element}
      {os updated added : List Operation} {old_document : D}
      → get_old_document v drive reader info ≡ ok (element, os)
      → document_of_element v reader info.owner_id updating_missing_document element
        ≡ ok old_document
      → update_document_for_contract_operations v drive reader info time_ms ≡ ok updated
      → add_new_document v drive reader info added_ms override_document [] ≡ ok added
      → All (Differs old_document) info.document_type.indices
      → (references updated ≡ references added) ↔ All Agrees info.document_type.indices
  unfolding references
  update_document-add_new_document time_ms added_ms override_document {old_document} found decoded
        updates adds changed =
      let moved =
        update_document-references drive laws v reader info time_ms found decoded updates in
      let put =
        add_new_document-references v drive reader info added_ms override_document [] adds in
      let (to, from) = updated_entries-Agrees old_document info.document_type.indices changed in
      (λ same. to (sym moved ∙ same ∙ put), λ agree. moved ∙ from agree ∙ sym put)

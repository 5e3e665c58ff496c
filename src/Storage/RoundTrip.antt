-- ===== src/Storage/RoundTrip.antt =====
-- Adding a document and then deleting it: drive/src/drive/document/{insert.rs,delete.rs}.
use rs_platform.Common.{
  ℕ, ◌<◌, ◌≡◌, refl, sym, ◌∙◌, ap, subst, Bool, true, false, not, ◌||◌, Option, some, List, [], ◌∷◌,
  ◌++◌, map, length, All, Bytes, ok, >>=-eq-ok, if◌then◌else◌, suc, arith,
}
use mathlib.Core.List.{Mem}
use rs_platform.Flags.Codec.{VarInt}
use rs_platform.Fees.{grove_operation}
use rs_platform.Storage.{
  KeyPath, Element, reference, upstream_root_height_reference, ReferencePath, delete_op, Operation,
  Drive, StoredIndex, DocumentReader, DocumentInfo, map_to_some_element_flags,
}
use rs_platform.Storage.Paths.{contract_document_type_path, is_empty, make_document_reference}
use rs_platform.Storage.Locations.{Write, references, field_or_empty, has_empty}
use rs_platform.Storage.Insert.{
  Progress, insert_tree_once, document_id, raw_field, document_item, document_reference,
  primary_key_path, insert_property_trees, add_to_index, add_to_indices, add_new_document,
  add_document_to_primary_storage,
}
use rs_platform.Storage.Insert.Writes.{field_of, index_entry, add_new_document-references}
use rs_platform.Storage.Delete.{check_element_flags, delete_document_for_contract_operations}
use rs_platform.Storage.Delete.Present.{GroveDeletes}
use rs_platform.Storage.Delete.Removes.{IsDeletable, deleted_key, delete_document-present}

positive : (n : ℕ) → 0 < suc n
positive n = omega arith

All-map :
    {A B : Type 0} (P : B → Type 0) (f : A → B) (xs : List A)
    → All P (map f xs) ≡ All (λ x. P (f x)) xs
All-map P f [] = refl
All-map P f (x ∷ xs) = ap (λ (rest : Type 0). P (f x) × rest) (All-map P f xs)

All-zip :
    {A : Type 0} {P Q R : A → Type 0} (step : (a : A) → P a → Q a → R a) (xs : List A)
    → All P xs
    → All Q xs
    → All R xs
All-zip step [] ps qs = tt
All-zip step (x ∷ xs) ps qs = (step x ps.0 qs.0, All-zip step xs ps.1 qs.1)

module _ (v : VarInt) (drive : Drive) {D : Type 0} (reader : DocumentReader D)
    (info : DocumentInfo D) where
  abbrev pub HasField : Bytes → Type 0
  HasField name = raw_field v drive reader info name ≡ ok (field_of v drive reader info name)

  has_field :
      (name : Bytes) {field : Bytes} → raw_field v drive reader info name ≡ ok field → HasField name
  has_field name {field} e = e ∙ ap ok (sym (ap field_or_empty e))

  abbrev pub IsIndexable : StoredIndex → Type 0
  IsIndexable index = (0 < length index.properties) × All HasField index.properties

  insert_property_trees-fields :
      (names : List Bytes) (path : KeyPath) (any : Bool) (progress : Progress)
      {r : KeyPath × Bool × Progress}
      → insert_property_trees v drive reader info names path any progress ≡ ok r
      → All HasField names
  unfolding insert_property_trees
  insert_property_trees-fields [] path any progress h = tt
  insert_property_trees-fields (name ∷ names) path any progress h =
      let field = >>=-eq-ok (raw_field v drive reader info name) _ h in
      let named =
        >>=-eq-ok (insert_tree_once v drive path name info.storage_flags progress) _ field.2 in
      let filled =
        >>=-eq-ok
          (insert_tree_once v drive (path ++ (name ∷ [])) field.0 info.storage_flags named.0) _
          named.2 in
      (has_field name field.1, insert_property_trees-fields names _ _ filled.0 filled.2)

  add_to_index-fields :
      (index : StoredIndex) (names : List Bytes) (progress : Progress) {r : Progress}
      → add_to_index v drive reader info index names progress ≡ ok r
      → (0 < length names) × All HasField names
  unfolding add_to_index
  add_to_index-fields index [] progress h = cc
  add_to_index-fields index (top ∷ names) progress h =
      let path =
        contract_document_type_path info.contract_id info.document_type.name ++ (top ∷ []) in
      let field = >>=-eq-ok (raw_field v drive reader info top) _ h in
      let started =
        >>=-eq-ok (insert_tree_once v drive path field.0 info.storage_flags progress) _ field.2 in
      let built =
        >>=-eq-ok
          (insert_property_trees v drive reader info names (path ++ (field.0 ∷ []))
            (is_empty field.0) started.0)
          _ started.2 in
      (
        positive (length names),
        (has_field top field.1, insert_property_trees-fields names _ _ started.0 built.1),
      )

  add_to_indices-fields :
      (indices : List StoredIndex) (progress : Progress) {r : Progress}
      → add_to_indices v drive reader info indices progress ≡ ok r
      → All IsIndexable indices
  unfolding add_to_indices
  add_to_indices-fields [] progress h = tt
  add_to_indices-fields (index ∷ indices) progress h =
      let added =
        >>=-eq-ok (add_to_index v drive reader info index index.properties progress) _ h in
      (
        add_to_index-fields index index.properties progress added.1,
        add_to_indices-fields indices added.0 added.2,
      )

  pub add_new_document-fields :
      (time_ms : ℕ) (override_document : Bool) (os : List Operation) {r : List Operation}
      → add_new_document v drive reader info time_ms override_document os ≡ ok r
      → All IsIndexable info.document_type.indices
  unfolding add_new_document
  add_new_document-fields time_ms override_document os h =
      let stored =
        >>=-eq-ok (add_document_to_primary_storage v drive reader info time_ms override_document os)
          _ h in
      let indexed =
        >>=-eq-ok (add_to_indices v drive reader info info.document_type.indices (stored.0, [])) _
          stored.2 in
      add_to_indices-fields info.document_type.indices (stored.0, []) indexed.1

  -- A unique index all of whose fields have a value, or an index that is not unique.
  abbrev pub HasOnePlace : StoredIndex → Type 0
  HasOnePlace index =
      (not index.unique || has_empty (field_of v drive reader info) index.properties)
      ≡ not index.unique

  abbrev pub IsReference : Element → Type 0
  IsReference element =
      (to : ReferencePath) × (hops : Option ℕ) × (flags : Option Bytes) × (element
        ≡ reference to hops flags)

  document_reference-IsReference : IsReference (document_reference v drive reader info)
  unfolding document_reference make_document_reference
  document_reference-IsReference =
      elim info.document_type.documents_keep_history
        as (λ keeps. IsReference (
          if keeps
          then reference
              (upstream_root_height_reference 4
                ((0 ∷ []) ∷ document_id v drive reader info ∷ (0 ∷ []) ∷ []))
              (some 2) (map_to_some_element_flags v info.storage_flags)
          else reference
              (upstream_root_height_reference 4 ((0 ∷ []) ∷ document_id v drive reader info ∷ []))
              (some 1) (map_to_some_element_flags v info.storage_flags))) [
                | true ↦ (_, _, _, refl)
                | false ↦ (_, _, _, refl)
              ]

  -- What the storage has for a write.
  abbrev pub IsStored : Drive → Write → Type 0
  IsStored later w = (later.get_raw w.0 w.1).value ≡ ok w.2

  module _ (later : Drive) (laws : GroveDeletes later) where
    -- An index is deletable when its reference stands at its one place.
    index-IsDeletable :
        (index : StoredIndex)
        → IsIndexable index
        → IsStored later (index_entry v drive reader info index) × HasOnePlace index
        → IsDeletable later laws v reader info.contract_id info.document_type info.owner_id
            (document_id v drive reader info)
            info.document
            index
    index-IsDeletable index indexable stored =
        let form = document_reference-IsReference in
        let there = stored.0 in
        let placed = rw (stored.1, form.3) at there in
        (indexable.0, indexable.1, (form.0, form.1, form.2, placed))

    abbrev pub IsDeletedBy : List Operation → Write → Type 0
    IsDeletedBy deleted w = Mem (grove_operation (delete_op w.0 w.1)) deleted

    delete_entry :
        (deleted : List Operation) (index : StoredIndex)
        → HasOnePlace index
        → IsDeletedBy deleted (
          (deleted_key later laws v reader info.contract_id info.document_type info.owner_id
              (document_id v drive reader info)
              info.document
              index).0,
          (deleted_key later laws v reader info.contract_id info.document_type info.owner_id
              (document_id v drive reader info)
              info.document
              index).1,
          document_reference v drive reader info,
        )
        → IsDeletedBy deleted (index_entry v drive reader info index)
    delete_entry deleted index one gone = rw (one) (gone)

    -- When GroveDB deletes what is there, a document was added, its references are stored as the
    -- batch wrote them, the document is stored as it was serialized and reads back with its flags,
    -- its type can change and keeps no history, and no unique index has an empty field, then deleting
    -- it succeeds, and the batch deletes the document and every reference that the addition wrote.
    pub delete_document-add_new_document :
        (time_ms : ℕ) (override_document : Bool) {added : List Operation}
        → add_new_document v drive reader info time_ms override_document [] ≡ ok added
        → All (IsStored later) (references added)
        → (later.get (primary_key_path v drive reader info) (document_id v drive reader info)).value
          ≡ ok (document_item v drive reader info)
        → (later.get_raw
            (primary_key_path v drive reader info)
            (document_id v drive reader info)).value
          ≡ ok (document_item v drive reader info)
        → reader.from_cbor info.serialized_document info.owner_id ≡ ok info.document
        → check_element_flags v (map_to_some_element_flags v info.storage_flags) ≡ ok true
        → info.document_type.documents_mutable ≡ true
        → info.document_type.documents_keep_history ≡ false
        → All HasOnePlace info.document_type.indices
        → (deleted : List Operation) × (delete_document_for_contract_operations v later reader
              info.contract_id info.document_type info.owner_id
              (document_id v drive reader info)
            ≡ ok deleted)
          × Mem
              (grove_operation (
                delete_op (primary_key_path v drive reader info) (document_id v drive reader info)))
              deleted
          × All (IsDeletedBy deleted) (references added)
    unfolding references
    delete_document-add_new_document time_ms override_document {added} adds stored found raw decoded
          flags mutable forgets one_place =
        let indices = info.document_type.indices in
        let entry = index_entry v drive reader info in
        let written : references added ≡ map entry indices =
          add_new_document-references v drive reader info time_ms override_document [] adds in
        let stored_at =
          subst (λ T. T) (All-map (IsStored later) entry indices)
            (subst (λ (ws : List Write). All (IsStored later) ws) written stored) in
        let placed = All-zip (λ index at one. (at, one)) indices stored_at one_place in
        let indexable = add_new_document-fields time_ms override_document [] adds in
        let deletion =
          delete_document-present later laws v reader info.contract_id info.document_type
            info.owner_id (document_id v drive reader info) info.document mutable forgets found raw
            decoded flags (All-zip index-IsDeletable indices indexable placed) in
        let gone = All-zip (delete_entry deletion.0) indices one_place deletion.3 in
        (
          deletion.0,
          deletion.1,
          deletion.2,
          subst (λ (ws : List Write). All (IsDeletedBy deletion.0) ws) (sym written)
              (subst (λ T. T) (sym (All-map (IsDeletedBy deletion.0) entry indices)) gone),
        )

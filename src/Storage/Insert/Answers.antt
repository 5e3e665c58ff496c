-- ===== src/Storage/Insert/Answers.antt =====
-- The lookups of a batch when GroveDB answers (drive/src/drive/grove_operations.rs).
use rs_platform.Common.{
  ◌≡◌, inl, inr, refl, Bool, not, Option, List, [], ◌∷◌, ◌++◌, Bytes, ok, if◌then◌else◌, Bool-cases,
}
use rs_platform.Flags.{StorageFlags}
use rs_platform.Flags.Codec.{VarInt}
use rs_platform.Fees.{calculated_cost_operation}
use rs_platform.Storage.{
  KeyPath, Element, tree, Operation, Drive, push_drive_operation_result, raw_lookup, grove_has_raw,
  batch_insert, batch_insert_if_not_exists, batch_insert_empty_tree_if_not_exists,
  map_to_some_element_flags,
}
use rs_platform.Storage.Insert.{Progress, is_contained_in_cache, insert_tree_once, note_inserted}

module _ (v : VarInt) (drive : Drive) where
  -- GroveDB answers, for every key, whether it is there.
  module _ (answer : KeyPath → Bytes → Bool)
      (answers : (path : KeyPath) (key : Bytes)
        → (raw_lookup drive path key).value ≡ ok (answer path key)) where
    pub grove_has_raw-answer :
        (path : KeyPath) (key : Bytes) (os : List Operation)
        → (ps : List Operation) × (grove_has_raw drive path key os ≡ ok (answer path key, ps))
    unfolding grove_has_raw push_drive_operation_result
    grove_has_raw-answer path key os = (
      os ++ (calculated_cost_operation (raw_lookup drive path key).cost ∷ []),
      rw (answers path key) refl,
    )

    pub batch_insert_if_not_exists-answer :
        (path : KeyPath) (key : Bytes) (element : Element) (os : List Operation)
        → (ps : List Operation) × (batch_insert_if_not_exists drive path key element os
            ≡ ok (not (answer path key), ps))
    unfolding batch_insert_if_not_exists
    batch_insert_if_not_exists-answer path key element os =
        let found = grove_has_raw-answer path key os in
        (
          if answer path key then found.0 else batch_insert path key element found.0,
          rw (found.1) refl,
        )

    pub insert_empty_tree-answer :
        (path : KeyPath) (key : Bytes) (flags : Option StorageFlags) (os : List Operation)
        → (ps : List Operation) × (batch_insert_empty_tree_if_not_exists v drive path key flags os
            ≡ ok (not (answer path key), ps))
    unfolding batch_insert_empty_tree_if_not_exists
    insert_empty_tree-answer path key flags os =
        let found = grove_has_raw-answer path key os in
        let inserted = batch_insert path key (tree (map_to_some_element_flags v flags)) found.0 in
        (if answer path key then found.0 else inserted, rw (found.1) refl)

    pub insert_tree_once-succeeds :
        (path : KeyPath) (key : Bytes) (flags : Option StorageFlags) (progress : Progress)
        → (next : Progress) × (insert_tree_once v drive path key flags progress ≡ ok next)
    unfolding insert_tree_once
    insert_tree_once-succeeds path key flags progress =
        elim (Bool-cases (is_contained_in_cache path key progress.1)) [
          | inl cached ↦ (progress, rw (insert_tree_once, cached) refl)
          | inr fresh ↦
              let step = insert_empty_tree-answer path key flags progress.0 in
              (
                note_inserted v drive path key progress.1 (not (answer path key), step.0),
                rw (insert_tree_once, fresh, step.1) refl,
              )
        ]

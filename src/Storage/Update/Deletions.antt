-- ===== src/Storage/Update/Deletions.antt =====
-- The deletions of a batch write no reference (drive/src/drive/grove_operations.rs).
use rs_platform.Common.{
  ℕ, ◌≡◌, refl, sym, ◌∙◌, ap, Bool, true, false, Option, none, some, List, [], ◌∷◌, ◌++◌,
  append-nil, map, Bytes, Result, ok, err, >>=-eq-ok, ok_inj,
}
use rs_platform.Fees.{grove_operation}
use rs_platform.Storage.{
  KeyPath, Element, GroveOp, Operation, Drive, push_drive_operation_result, push_all,
  batch_delete_up_tree_while_empty, from_grove, grove_get, grovedb_operations_batch, GroveError,
}
use rs_platform.Storage.Paths.{contract_documents_path_height}
use rs_platform.Storage.Locations.{Write, references, references-append}
use rs_platform.Storage.Insert.Kept.{push_drive_operation_result-references}
use rs_platform.Storage.Delete.{delete_reference}
use rs_platform.Storage.Delete.Present.{push_all-map}

-- What GroveDB answers to a deletion writes no reference to a document.
pub record GroveOnlyDeletes (drive : Drive) : Type 0 where
  pub only_deletes :
      (path : KeyPath) (key : Bytes) (height : Option ℕ) (os : List GroveOp)
      {deletions : List GroveOp}
      → (drive.delete_operations_for_delete_up_tree_while_empty path key height os).value
        ≡ ok (some deletions)
      → references (map grove_operation deletions) ≡ []

module _ (drive : Drive) (laws : GroveOnlyDeletes drive) where
  push_all-references :
      (deletions : Option (List GroveOp)) (path : KeyPath) (key : Bytes) (height : Option ℕ)
      (os : List Operation) (ps : List Operation)
      → (drive.delete_operations_for_delete_up_tree_while_empty path key height
          (grovedb_operations_batch os)).value
        ≡ ok deletions
      → references (push_all deletions ps) ≡ references ps
  push_all-references none path key height os ps answer = refl
  push_all-references (some deletions) path key height os ps answer =
      ((ap references (push_all-map deletions ps)
          ∙ references-append ps (map grove_operation deletions))
        ∙ ap (λ (ws : List Write). references ps ++ ws)
            (laws.only_deletes path key height (grovedb_operations_batch os) answer))
      ∙ append-nil (references ps)

  from_grove-ok :
      {A : Type 0} (value : Result GroveError A) {a : A} → from_grove value ≡ ok a → value ≡ ok a
  from_grove-ok (ok value) h = ap ok (ok_inj h)
  from_grove-ok (err reason) h = cc

  batch_delete_up-references :
      (path : KeyPath) (key : Bytes) (height : Option ℕ) (os : List Operation) {r : List Operation}
      → batch_delete_up_tree_while_empty drive path key height os ≡ ok r
      → references r ≡ references os
  unfolding batch_delete_up_tree_while_empty push_drive_operation_result
  batch_delete_up-references path key height os {r} h =
      let context =
        drive.delete_operations_for_delete_up_tree_while_empty path key height
          (grovedb_operations_batch os) in
      let step = >>=-eq-ok (push_drive_operation_result context os) _ h in
      let answer = >>=-eq-ok (from_grove context.value) _ step.1 in
      let same = ok_inj answer.2 in
      let kept = push_drive_operation_result-references context os step.1 in
      let is_answer : context.value ≡ ok step.0.0 =
        from_grove-ok context.value answer.1
        ∙ ap ok (ap (λ (q : Option (List GroveOp) × List Operation). q.0) same) in
      let pushed = ok_inj step.2 in
      (ap references (sym pushed)
        ∙ push_all-references step.0.0 path key height os step.0.1 is_answer)
      ∙ kept

  pub delete_reference-references :
      (unique : Bool) (id : Bytes) (path : KeyPath) (os : List Operation) {r : List Operation}
      → delete_reference drive unique id path os ≡ ok r
      → references r ≡ references os
  unfolding delete_reference
  delete_reference-references true id path os h =
      batch_delete_up-references path (0 ∷ []) (some contract_documents_path_height) os h
  delete_reference-references false id path os h =
      batch_delete_up-references (path ++ ((0 ∷ []) ∷ [])) id (some contract_documents_path_height)
        os h

  pub grove_get-references :
      (path : KeyPath) (key : Bytes) {element : Option Element} {os : List Operation}
      → grove_get drive path key [] ≡ ok (element, os)
      → references os ≡ []
  unfolding grove_get references
  grove_get-references path key h =
      let step = >>=-eq-ok (push_drive_operation_result (drive.get path key) []) _ h in
      let same = ok_inj step.2 in
      ap (λ (q : Option Element × List Operation). references q.1) (sym same)
      ∙ push_drive_operation_result-references (drive.get path key) [] step.1

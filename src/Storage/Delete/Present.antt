-- ===== src/Storage/Delete/Present.antt =====
-- Deletions of what is there (drive/src/drive/grove_operations.rs).
use rs_platform.Common.{
  ℕ, ◌<◌, ◌≡◌, refl, sym, ◌∙◌, ap, subst, Bool, true, false, not, Option, some, List, [], ◌∷◌, ◌++◌,
  append_assoc, append-nil, map, length, length-append, Bytes, ok, arith,
}
use mathlib.Core.List.{
  Mem, mem-append_left, mem-append_right, mem-map_of_mem, mem-cons_of_mem, mem-cons_self,
}
use rs_platform.Fees.{grove_operation, calculated_cost_operation}
use rs_platform.Storage.{
  KeyPath, item, reference, ReferencePath, GroveOp, delete_op, Operation, Drive,
  push_drive_operation_result, push_all, batch_delete, batch_delete_up_tree_while_empty,
  grovedb_operations_batch,
}
use rs_platform.Storage.Paths.{contract_documents_path_height}
use rs_platform.Storage.Locations.{place}
use rs_platform.Storage.Delete.{delete_reference}

-- GroveDB's deletions: of an item, and of a reference with the trees above it that become empty,
-- below the height given.
pub record GroveDeletes (drive : Drive) : Type 0 where
  pub deletes_item :
      (path : KeyPath) (key : Bytes) (os : List GroveOp) {bytes : Bytes} {flags : Option Bytes}
      → (drive.get_raw path key).value ≡ ok (item bytes flags)
      → (drive.delete_operation_for_delete_internal path key os).value
        ≡ ok (some (delete_op path key))
  pub deletes_reference :
      (path : KeyPath) (key : Bytes) (height : ℕ) (os : List GroveOp) {to : ReferencePath}
      {hops : Option ℕ} {flags : Option Bytes}
      → (drive.get_raw path key).value ≡ ok (reference to hops flags)
      → height < length path
      → (deletions : List GroveOp) × ((drive.delete_operations_for_delete_up_tree_while_empty path
            key
            (some height)
            os).value
          ≡ ok (some deletions))
        × Mem (delete_op path key) deletions

-- A batch that goes on from another one.
abbrev pub Extends : List Operation → List Operation → Type 0
Extends os ps = (rest : List Operation) × (ps ≡ os ++ rest)

pub Extends-trans : (os ps qs : List Operation) → Extends os ps → Extends ps qs → Extends os qs
Extends-trans os ps qs (xs, e) (ys, f) =
    (xs ++ ys, (f ∙ ap (λ (zs : List Operation). zs ++ ys) e) ∙ append_assoc os xs ys)

pub Mem-Extends : {o : Operation} (os ps : List Operation) → Extends os ps → Mem o os → Mem o ps
Mem-Extends {o} os ps (xs, e) m =
    subst (λ (zs : List Operation). Mem o zs) (sym e) (mem-append_left xs m)

pub push_all-map :
    (deletions : List GroveOp) (os : List Operation)
    → push_all (some deletions) os ≡ os ++ map grove_operation deletions
push_all-map [] os = sym (append-nil os)
push_all-map (o ∷ deletions) os =
    push_all-map deletions (os ++ (grove_operation o ∷ []))
    ∙ append_assoc os (grove_operation o ∷ []) (map grove_operation deletions)

-- The batch goes on, and deletes what stands at a place.
abbrev pub Deletes : List Operation → List Operation → KeyPath × Bytes → Type 0
Deletes os ps at = Extends os ps × Mem (grove_operation (delete_op at.0 at.1)) ps

pub not_positive : 0 < 0 → ⊥
not_positive h = omega (arith, h)

module _ (drive : Drive) (laws : GroveDeletes drive) where
  delete_up-present :
      (path : KeyPath) (key : Bytes) (height : ℕ) (os : List Operation) {to : ReferencePath}
      {hops : Option ℕ} {flags : Option Bytes}
      → (drive.get_raw path key).value ≡ ok (reference to hops flags)
      → height < length path
      → (ps : List Operation) × (batch_delete_up_tree_while_empty drive path key (some height) os
          ≡ ok ps)
        × Deletes os ps (path, key)
  unfolding batch_delete_up_tree_while_empty push_drive_operation_result
  delete_up-present path key height os present low =
      let answer =
        laws.deletes_reference path key height (grovedb_operations_batch os) present low in
      let cost =
        (drive.delete_operations_for_delete_up_tree_while_empty path key (some height)
          (grovedb_operations_batch os)).cost in
      let more = calculated_cost_operation cost ∷ map grove_operation answer.0 in
      let appended =
        push_all-map answer.0 (os ++ (calculated_cost_operation cost ∷ []))
        ∙ append_assoc os (calculated_cost_operation cost ∷ []) (map grove_operation answer.0) in
      (
        os ++ more,
        rw (answer.1) (ap ok appended),
        (
          (more, refl),
          mem-append_right os (mem-cons_of_mem _ (mem-map_of_mem grove_operation answer.2)),
        ),
      )

  pub delete_reference-present :
      (unique : Bool) (document_id : Bytes) (path : KeyPath) (os : List Operation)
      {to : ReferencePath} {hops : Option ℕ} {flags : Option Bytes}
      → (drive.get_raw
          (place (not unique) path document_id).0
          (place (not unique) path document_id).1).value
        ≡ ok (reference to hops flags)
      → contract_documents_path_height < length path
      → (ps : List Operation) × (delete_reference drive unique document_id path os ≡ ok ps)
        × Deletes os ps (place (not unique) path document_id)
  unfolding delete_reference
  delete_reference-present true document_id path os present low =
      delete_up-present path (0 ∷ []) contract_documents_path_height os present low
  delete_reference-present false document_id path os present low =
      let deeper = length-append path ((0 ∷ []) ∷ []) in
      delete_up-present (path ++ ((0 ∷ []) ∷ [])) document_id contract_documents_path_height os
        present (omega (arith, deeper, low))

  pub batch_delete-present :
      (path : KeyPath) (key : Bytes) (os : List Operation) {bytes : Bytes} {flags : Option Bytes}
      → (drive.get_raw path key).value ≡ ok (item bytes flags)
      → (ps : List Operation) × (batch_delete drive path key os ≡ ok ps) × Deletes os ps (path, key)
  unfolding batch_delete push_drive_operation_result
  batch_delete-present path key os present =
      let cost =
        (drive.delete_operation_for_delete_internal path key (grovedb_operations_batch os)).cost in
      let answer = laws.deletes_item path key (grovedb_operations_batch os) present in
      let priced = os ++ (calculated_cost_operation cost ∷ []) in
      let deletion = grove_operation (delete_op path key) ∷ [] in
      (
        priced ++ deletion,
        rw (answer) refl,
        (
          (
            calculated_cost_operation cost ∷ deletion,
            append_assoc os (calculated_cost_operation cost ∷ []) deletion,
          ),
          mem-append_right priced mem-cons_self,
        ),
      )

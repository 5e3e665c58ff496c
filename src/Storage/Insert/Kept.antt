-- ===== src/Storage/Insert/Kept.antt =====
-- The operations of a batch that write no reference to a document, and those that do
-- (drive/src/drive/grove_operations.rs).
use rs_platform.Common.{
  ◌≡◌, refl, sym, ◌∙◌, ap, Bool, true, false, not, Option, List, [], ◌∷◌, ◌++◌, append-nil, Bytes,
  ok, >>=-eq-ok, ok_inj, if◌then◌else◌, Bool-cases, inl, inr, subst,
}
use rs_platform.Flags.{StorageFlags}
use rs_platform.Flags.Codec.{VarInt}
use rs_platform.Fees.{grove_operation, calculated_cost_operation}
use rs_platform.Storage.{
  KeyPath, Element, tree, insert_op, Operation, CostContext, Drive, push_drive_operation_result,
  from_grove, raw_lookup, grove_has_raw, batch_insert, batch_insert_if_not_exists,
  batch_insert_empty_tree_if_not_exists, map_to_some_element_flags,
}
use rs_platform.Storage.Insert.{Progress, is_contained_in_cache, insert_tree_once}
use rs_platform.Storage.Locations.{Write, reference_of, references, references-append}

pub references-batch_insert :
    (path : KeyPath) (key : Bytes) (element : Element) (os : List Operation)
    → references (batch_insert path key element os) ≡ references os ++ reference_of path key element
unfolding references batch_insert
references-batch_insert path key element os =
    references-append os (grove_operation (insert_op path key element) ∷ [])
    ∙ ap (λ (ws : List Write). references os ++ ws) (append-nil (reference_of path key element))

pub push_drive_operation_result-references :
    {A : Type 0} (context : CostContext A) (os : List Operation) {r : A × List Operation}
    → push_drive_operation_result context os ≡ ok r
    → references r.1 ≡ references os
unfolding push_drive_operation_result references
push_drive_operation_result-references context os {r} h =
    let step = >>=-eq-ok (from_grove context.value) _ h in
    let same : (step.0, os ++ (calculated_cost_operation context.cost ∷ [])) ≡ r = cc in
    subst (λ q. references q.1 ≡ references os) same
      (references-append os (calculated_cost_operation context.cost ∷ [])
        ∙ append-nil (references os))

-- An element goes to the batch unless the key was found.
insert_unless_found :
    (path : KeyPath) (key : Bytes) (element : Element) (os : List Operation)
    (found : Bool × List Operation)
    → references found.1 ≡ references os
    → references (if found.0 then found.1 else batch_insert path key element found.1)
      ≡ (if not found.0 then references os ++ reference_of path key element else references os)
insert_unless_found path key element os (true, found) kept = kept
insert_unless_found path key element os (false, found) kept =
    references-batch_insert path key element found
    ∙ ap (λ (ws : List Write). ws ++ reference_of path key element) kept

pub batch_insert_if_not_exists-references :
    (drive : Drive) (path : KeyPath) (key : Bytes) (element : Element) (os : List Operation)
    {r : Bool × List Operation}
    → batch_insert_if_not_exists drive path key element os ≡ ok r
    → references r.1
      ≡ (if r.0 then references os ++ reference_of path key element else references os)
unfolding batch_insert_if_not_exists grove_has_raw
batch_insert_if_not_exists-references drive path key element os {r} h =
    let step = >>=-eq-ok (grove_has_raw drive path key os) _ h in
    let kept = push_drive_operation_result-references (raw_lookup drive path key) os step.1 in
    subst
      (λ q.
        references q.1
        ≡ (if q.0 then references os ++ reference_of path key element else references os))
      (ok_inj step.2) (insert_unless_found path key element os step.0 kept)

if_same_nil : (b : Bool) (ws : List Write) → (if b then ws ++ [] else ws) ≡ ws
if_same_nil true ws = append-nil ws
if_same_nil false ws = refl

module _ (v : VarInt) where
  pub batch_insert_empty_tree_if_not_exists-references :
      (drive : Drive) (path : KeyPath) (key : Bytes) (flags : Option StorageFlags)
      (os : List Operation) {r : Bool × List Operation}
      → batch_insert_empty_tree_if_not_exists v drive path key flags os ≡ ok r
      → references r.1 ≡ references os
  unfolding batch_insert_empty_tree_if_not_exists grove_has_raw
  batch_insert_empty_tree_if_not_exists-references drive path key flags os {r} h =
      let step = >>=-eq-ok (grove_has_raw drive path key os) _ h in
      let kept = push_drive_operation_result-references (raw_lookup drive path key) os step.1 in
      subst (λ q. references q.1 ≡ references os) (ok_inj step.2)
        (insert_unless_found path key (tree (map_to_some_element_flags v flags)) os step.0 kept
          ∙ if_same_nil (not step.0.0) (references os))

module _ (v : VarInt) (drive : Drive) where
  pub insert_tree_once-references :
      (path : KeyPath) (key : Bytes) (flags : Option StorageFlags) (progress : Progress)
      {r : Progress}
      → insert_tree_once v drive path key flags progress ≡ ok r
      → references r.0 ≡ references progress.0
  unfolding insert_tree_once
  insert_tree_once-references path key flags progress {r} h =
      elim (Bool-cases (is_contained_in_cache path key progress.1)) [
        | inl cached ↦
            let settled = rw (insert_tree_once, cached) at h in
            let same : progress ≡ r = ok_inj settled in
            ap (λ (q : Progress). references q.0) (sym same)
        | inr fresh ↦
            let h' = rw (insert_tree_once, fresh) at h in
            let step =
              >>=-eq-ok (batch_insert_empty_tree_if_not_exists v drive path key flags progress.0) _
                h' in
            subst (λ q. references q.0 ≡ references progress.0) (ok_inj step.2)
              (batch_insert_empty_tree_if_not_exists-references v drive path key flags progress.0
                step.1)
      ]

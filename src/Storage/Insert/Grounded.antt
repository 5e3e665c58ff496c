-- ===== src/Storage/Insert/Grounded.antt =====
-- Where the insertions of a batch that adds a document stand (drive/src/drive/document/insert.rs).
pub mod Document
use rs_platform.Common.{
  ℕ, ◌≡◌, ◌≢◌, ◌⊎◌, inl, inr, refl, sym, ◌∙◌, ap, subst, Bool, true, false, not, ◌||◌, Option, none,
  some, List, [], ◌∷◌, ◌++◌, append_assoc, append-nil, All, Bytes, bytes_eq, bytes_eq→eq, Result,
  ok, err, ◌>>=◌, >>=-eq-ok, ok_inj, if◌then◌else◌, Bool-cases,
}
use mathlib.Core.List.{Mem, mem-append_left, mem-append_right, mem-cons_self}
use rs_platform.Pools.{GroveError}
use rs_platform.Flags.{StorageFlags}
use rs_platform.Flags.Codec.{VarInt}
use rs_platform.Fees.{OperationCost, grove_operation, calculated_cost_operation}
use rs_platform.Storage.{
  KeyPath, Element, tree, insert_op, Operation, CostContext, Drive, StorageResult, StoredIndex,
  DocumentReader, DocumentInfo, from_grove, push_drive_operation_result, raw_lookup, grove_has_raw,
  batch_insert, batch_insert_if_not_exists, batch_insert_empty_tree_if_not_exists,
  map_to_some_element_flags,
}
use rs_platform.Encoding.{encode_unsigned_integer}
use rs_platform.Storage.Paths.{
  contract_document_type_path, contract_documents_primary_key_path,
  contract_documents_keeping_history_primary_key_path_for_document_id, is_empty,
}
use rs_platform.Storage.Insert.{
  Cache, path_eq, contains, is_contained_in_cache, add_to_cache, Progress, note_inserted,
  insert_tree_once, document_id, raw_field, document_item, document_reference, primary_key_path,
  history_path, add_version_with_history, unless_stored, add_document_to_primary_storage,
  insert_property_trees, unless_taken, insert_shared_reference, insert_unique_reference,
  insert_reference, add_to_index, add_to_indices, add_new_document,
}
use rs_platform.Storage.Insert.Writes.{unless_taken-inserted, unless_stored-stored}
use rs_platform.Storage.Delete.Present.{Extends, Extends-trans, Mem-Extends}

from_grove-ok :
    {A : Type 0} (value : Result GroveError A) {a : A} → from_grove value ≡ ok a → value ≡ ok a
from_grove-ok (ok value) h = ap ok (ok_inj h)
from_grove-ok (err reason) h = cc

is_inserted :
    (path : KeyPath) (key : Bytes) (element : Element) (os : List Operation)
    → Mem (grove_operation (insert_op path key element)) (batch_insert path key element os)
unfolding batch_insert
is_inserted path key element os = mem-append_right os mem-cons_self

module _ (drive : Drive) where
  -- What the storage has under a key is a tree.
  abbrev pub TreeAt : KeyPath → Bytes → Type 0
  TreeAt path key = (flags : Option Bytes) × ((drive.get_raw path key).value ≡ ok (tree flags))

  -- The storage has nothing under a key, or a tree.
  abbrev pub IsFreeOrTree : KeyPath → Bytes → Type 0
  IsFreeOrTree path key = ((raw_lookup drive path key).value ≢ ok true) ⊎ TreeAt path key

  -- A tree that the storage has, or that the batch inserts.
  abbrev pub HasTree : List Operation → KeyPath → Type 0
  HasTree os at =
      (path : KeyPath) × (key : Bytes) × (at ≡ path ++ (key ∷ []))
      × (TreeAt path key
          ⊎ ((flags : Option Bytes) × Mem (grove_operation (insert_op path key (tree flags))) os))

  -- A batch in which every insertion stands in a tree that is there before it.
  pub data Grounded : List Operation → Type 0 where
    empty : Grounded []
    priced :
        {os : List Operation} (cost : OperationCost)
        → Grounded os
        → Grounded (os ++ (calculated_cost_operation cost ∷ []))
    inserted :
        {os : List Operation} {path : KeyPath} (key : Bytes) (element : Element)
        → HasTree os path
        → Grounded os
        → Grounded (os ++ (grove_operation (insert_op path key element) ∷ []))

  pub HasTree-Extends :
      (os ps : List Operation) (at : KeyPath) → Extends os ps → HasTree os at → HasTree ps at
  HasTree-Extends os ps at more (path, key, same, inl there) = (path, key, same, inl there)
  HasTree-Extends os ps at more (path, key, same, inr (flags, put)) =
      (path, key, same, inr (flags, Mem-Extends os ps more put))

  -- What a step of the batch keeps.
  abbrev pub Goes : List Operation → List Operation → Type 0
  Goes os ps = Extends os ps × Grounded ps

  grove_has_raw-Goes :
      (path : KeyPath) (key : Bytes) (os : List Operation) {r : Bool × List Operation}
      → Grounded os
      → grove_has_raw drive path key os ≡ ok r
      → Goes os r.1 × ((raw_lookup drive path key).value ≡ ok r.0)
  unfolding grove_has_raw push_drive_operation_result
  grove_has_raw-Goes path key os {r} grounded h =
      let context = raw_lookup drive path key in
      let answer = >>=-eq-ok (from_grove context.value) _ h in
      let more = calculated_cost_operation context.cost ∷ [] in
      let same : (answer.0, os ++ more) ≡ r = ok_inj answer.2 in
      subst (λ q. Goes os q.1 × (context.value ≡ ok q.0)) same
        (((more, refl), priced context.cost grounded), from_grove-ok context.value answer.1)

  pub batch_insert-Goes :
      (path : KeyPath) (key : Bytes) (element : Element) (os : List Operation)
      → HasTree os path
      → Grounded os
      → Goes os (batch_insert path key element os)
  unfolding batch_insert
  batch_insert-Goes path key element os there grounded = (
    (grove_operation (insert_op path key element) ∷ [], refl),
    inserted key element there grounded,
  )

  pub Goes-trans : (os ps qs : List Operation) → Goes os ps → Goes ps qs → Goes os qs
  Goes-trans os ps qs first then_more = (Extends-trans os ps qs first.0 then_more.0, then_more.1)

  pub batch_insert_if_not_exists-Goes :
      (path : KeyPath) (key : Bytes) (element : Element) (os : List Operation)
      {r : Bool × List Operation}
      → HasTree os path
      → Grounded os
      → batch_insert_if_not_exists drive path key element os ≡ ok r
      → Goes os r.1
  unfolding batch_insert_if_not_exists
  batch_insert_if_not_exists-Goes path key element os {r} there grounded h =
      let found = >>=-eq-ok (grove_has_raw drive path key os) _ h in
      let asked = grove_has_raw-Goes path key os grounded found.1 in
      let same = ok_inj found.2 in subst (λ q. Goes os q.1) same (choose found.0 asked.0)
    where
      choose :
          (found : Bool × List Operation)
          → Goes os found.1
          → Goes os (if found.0 then found.1 else batch_insert path key element found.1)
      choose (true, ps) goes = goes
      choose (false, ps) goes =
          Goes-trans os ps (batch_insert path key element ps) goes
            (batch_insert-Goes path key element ps (HasTree-Extends os ps path goes.0 there) goes.1)

  module _ (v : VarInt) where
    pub insert_empty_tree-Goes :
        (path : KeyPath) (key : Bytes) (flags : Option StorageFlags) (os : List Operation)
        {r : Bool × List Operation}
        → IsFreeOrTree path key
        → HasTree os path
        → Grounded os
        → batch_insert_empty_tree_if_not_exists v drive path key flags os ≡ ok r
        → Goes os r.1 × HasTree r.1 (path ++ (key ∷ []))
    unfolding batch_insert_empty_tree_if_not_exists
    insert_empty_tree-Goes path key flags os {r} tree_or_free there grounded h =
        let found = >>=-eq-ok (grove_has_raw drive path key os) _ h in
        let asked = grove_has_raw-Goes path key os grounded found.1 in
        let same = ok_inj found.2 in
        subst (λ q. Goes os q.1 × HasTree q.1 (path ++ (key ∷ []))) same
          (choose found.0 asked.0 asked.1)
      where
        element : Element
        element = tree (map_to_some_element_flags v flags)

        choose :
            (found : Bool × List Operation)
            → Goes os found.1
            → (raw_lookup drive path key).value ≡ ok found.0
            → Goes os (if found.0 then found.1 else batch_insert path key element found.1)
              × HasTree
                  (if found.0 then found.1 else batch_insert path key element found.1)
                  (path ++ (key ∷ []))
        choose (true, ps) goes present = (
          goes,
          (
            path,
            key,
            refl,
            elim tree_or_free [ inl free ↦ absurd (free present) | inr at ↦ inl at ],
          ),
        )
        choose (false, ps) goes absent =
            let put =
              batch_insert-Goes path key element ps (HasTree-Extends os ps path goes.0 there)
                goes.1 in
            (
              Goes-trans os ps (batch_insert path key element ps) goes put,
              (
                path,
                key,
                refl,
                inr (map_to_some_element_flags v flags, is_inserted path key element ps),
              ),
            )

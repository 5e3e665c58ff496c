-- ===== src/Storage/Tests.antt =====
-- Two documents with an owner and a name, an index on the owner and a unique one on both; the second
-- document replaces the first.
use rs_platform.Common.{
  ◌≡◌, ◌∙◌, inl, refl, sym, ap, Bool, true, false, Option, none, some, List, [], ◌∷◌, ◌++◌, map,
  Bytes, Result, ok, err, bytes_eq, if◌then◌else◌, ◌&&◌, arith, All, ◌↔◌,
}
use mathlib.Core.List.{Mem, mem-cons_self}
use rs_platform.Pools.{path_key_not_found}
use rs_platform.Fees.{worst_case_cost, grove_operation}
use rs_platform.Flags.Tests.{fixed}
use rs_platform.Storage.{
  KeyPath, Element, tree, GroveOp, delete_op, Operation, Drive, StorageResult, StoredIndex,
  DocumentType, index_already_exists, DocumentReader, DocumentInfo, GroveError, unreadable,
  raw_lookup,
}
use rs_platform.Storage.Paths.{contract_documents_primary_key_path, contract_document_type_path}
use rs_platform.Storage.Locations.{Write, references}
use rs_platform.Storage.Insert.{add_new_document, path_eq, primary_key_path, document_item}
use rs_platform.Storage.Insert.Writes.{index_entry, add_new_document-references}
use rs_platform.Storage.Insert.Grounded.{Grounded, IsFreeOrTree}
use rs_platform.Storage.Insert.Grounded.Document.{type_path, add_new_document-Grounded}
use rs_platform.Storage.Insert.Outcomes.{add_new_document-HasOutcome}
use rs_platform.Storage.Delete.{delete_document_for_contract_operations}
use rs_platform.Storage.Delete.Present.{GroveDeletes}
use rs_platform.Storage.RoundTrip.{IsDeletedBy, delete_document-add_new_document}
use rs_platform.Storage.Update.{get_old_document, update_document_for_contract_operations}
use rs_platform.Storage.Update.Deletions.{GroveOnlyDeletes}
use rs_platform.Storage.Update.Agrees.{update_document-add_new_document}
use rs_platform.Storage.Update.Moves.{updated_entries, update_document-references}

-- An identifier, an owner and a name.
record Person : Type 0 where
  id : Bytes
  owner : Bytes
  name : Bytes

abbrev owner_property : Bytes
owner_property = 111 ∷ []

abbrev name_property : Bytes
name_property = 110 ∷ []

abbrev person_of : Bytes → StorageResult Person
person_of (i ∷ o ∷ n) = ok record { id = i ∷ []; owner = o ∷ []; name = n }
person_of _ = err unreadable

abbrev field : Person → Bytes → Option Bytes
field person property =
    if bytes_eq property owner_property
    then some person.owner
    else if bytes_eq property name_property
    then some person.name
    else none

abbrev people : DocumentReader Person
people = record {
  id = λ person. person.id;
  from_cbor = λ bytes owner. person_of bytes;
  get_raw_for_document_type = λ person property document_type owner. ok (field person property);
}

abbrev by_owner : StoredIndex
by_owner = record { properties = owner_property ∷ []; unique = false }

abbrev by_owner_and_name : StoredIndex
by_owner_and_name = record { properties = owner_property ∷ name_property ∷ []; unique = true }

abbrev person_type : DocumentType
person_type = record {
  name = 112 ∷ [];
  documents_mutable = true;
  documents_keep_history = false;
  indices = by_owner ∷ by_owner_and_name ∷ [];
}

abbrev info_of : Person → Bytes → DocumentInfo Person
info_of person serialized = record {
  document = person;
  serialized_document = serialized;
  storage_flags = none;
  contract_id = 99 ∷ [];
  document_type = person_type;
  owner_id = none;
}

abbrev ann : DocumentInfo Person
ann = info_of record { id = 7 ∷ []; owner = 8 ∷ []; name = 65 ∷ [] } (7 ∷ 8 ∷ 65 ∷ [])

-- A database with a number of elements.
abbrev find : List Write → KeyPath → Bytes → Result GroveError Element
find [] path key = err path_key_not_found
find (w ∷ ws) path key = if path_eq w.0 path && bytes_eq w.1 key then ok w.2 else find ws path key

abbrev is_there : Result GroveError Element → Bool
is_there (ok element) = true
is_there (err reason) = false

abbrev database : List Write → Drive
database ws = record {
  has_raw_enabled = true;
  has_raw = λ path key. record { value = ok (is_there (find ws path key)); cost = worst_case_cost };
  get_raw = λ path key. record { value = find ws path key; cost = worst_case_cost };
  get = λ path key. record { value = find ws path key; cost = worst_case_cost };
  delete_operation_for_delete_internal =
      λ path key os. record { value = ok (some (delete_op path key)); cost = worst_case_cost };
  delete_operations_for_delete_up_tree_while_empty = λ path key height os. record {
    value = ok (some (delete_op path key ∷ []));
    cost = worst_case_cost;
  };
}

abbrev added_operations : StorageResult (List Operation) → List Operation
added_operations (ok os) = os
added_operations (err reason) = []

abbrev added : List Operation
added = added_operations (add_new_document fixed (database []) people ann 5 false [])

added_returns : add_new_document fixed (database []) people ann 5 false [] ≡ ok added
unfolding add_new_document
added_returns = refl

add_new_document-references_example :
    references added
    ≡ references [] ++ map (index_entry fixed (database []) people ann) person_type.indices
add_new_document-references_example =
    add_new_document-references fixed (database []) people ann 5 false [] added_returns

-- The database with the document and its references.
abbrev stored_writes : List Write
stored_writes =
    (
      primary_key_path fixed (database []) people ann,
      7 ∷ [],
      document_item fixed (database []) people ann,
    )
    ∷ references added

abbrev stored : Drive
stored = database stored_writes

-- Another document with the same owner and name.
abbrev namesake : DocumentInfo Person
namesake = info_of record { id = 9 ∷ []; owner = 8 ∷ []; name = 65 ∷ [] } (9 ∷ 8 ∷ 65 ∷ [])

add_new_document-HasOutcome_example :
    add_new_document fixed stored people namesake 6 false [] ≡ err index_already_exists
unfolding add_new_document contract_documents_primary_key_path references
add_new_document-HasOutcome_example =
    add_new_document-HasOutcome fixed stored (λ path key. is_there (find stored_writes path key))
      (λ path key. refl) people namesake 6 false []
      ((omega arith, (refl, tt)), ((omega arith, (refl, (refl, tt))), tt))

stored_deletes : GroveDeletes stored
stored_deletes = record {
  deletes_item = λ path key os present. refl;
  deletes_reference =
      λ path key height os present low. (delete_op path key ∷ [], refl, mem-cons_self);
}

delete_document-add_new_document_example :
    (gone : List Operation) × (delete_document_for_contract_operations fixed stored people
        (99 ∷ [])
        person_type
        none
        (7 ∷ [])
      ≡ ok gone)
    × Mem
        (grove_operation (delete_op (primary_key_path fixed (database []) people ann) (7 ∷ [])))
        gone
    × All (IsDeletedBy fixed (database []) people ann stored stored_deletes gone) (references added)
unfolding add_new_document contract_documents_primary_key_path references
delete_document-add_new_document_example =
    delete_document-add_new_document fixed (database []) people ann stored stored_deletes 5 false
      added_returns (refl, (refl, tt)) refl refl refl refl refl refl (refl, (refl, tt))

only_deletion :
    (path : KeyPath) (key : Bytes) {deletions : List GroveOp}
    → ◌≡◌ {A = Result GroveError (Option (List GroveOp))}
        (ok (some (delete_op path key ∷ [])))
        (ok (some deletions))
    → references (map grove_operation deletions) ≡ []
unfolding references
only_deletion path key {deletions} h =
    let same : delete_op path key ∷ [] ≡ deletions = cc in
    ap (λ (ds : List GroveOp). references (map grove_operation ds)) (sym same)

stored_only_deletes : GroveOnlyDeletes stored
stored_only_deletes = record {
  only_deletes = λ path key height os answer. only_deletion path key answer;
}

-- The stored document under another name.
abbrev renamed : DocumentInfo Person
renamed = info_of record { id = 7 ∷ []; owner = 8 ∷ []; name = 66 ∷ [] } (7 ∷ 8 ∷ 66 ∷ [])

abbrev updated : List Operation
updated = added_operations (update_document_for_contract_operations fixed stored people renamed 6)

update_document-references_example :
    references updated
    ≡ updated_entries stored stored_only_deletes fixed people renamed ann.document
        person_type.indices
unfolding get_old_document update_document_for_contract_operations
    contract_documents_primary_key_path references contract_document_type_path add_new_document
update_document-references_example =
    update_document-references stored stored_only_deletes fixed people renamed 6 refl refl refl

-- The stored document with another owner and no name.
abbrev handed_over : DocumentInfo Person
handed_over = info_of record { id = 7 ∷ []; owner = 9 ∷ []; name = [] } (7 ∷ 9 ∷ [])

abbrev handed_over_update : List Operation
handed_over_update =
    added_operations (update_document_for_contract_operations fixed stored people handed_over 6)

abbrev handed_over_addition : List Operation
handed_over_addition = added_operations (add_new_document fixed stored people handed_over 6 true [])

update_document-add_new_document_example :
    (references handed_over_update ≡ references handed_over_addition)
    ↔ ((true ≡ true) × ((false ≡ true) × Unit {0}))
unfolding get_old_document update_document_for_contract_operations
    contract_documents_primary_key_path references contract_document_type_path add_new_document
update_document-add_new_document_example =
    update_document-add_new_document fixed stored stored_only_deletes people handed_over 6 6 true
      refl refl refl refl (refl, (refl, tt))

-- The trees that the contract's creation leaves.
abbrev prepared : Drive
prepared = database (
    (type_path (database []) fixed people ann, 0 ∷ [], tree none)
    ∷ (type_path (database []) fixed people ann, owner_property, tree none)
    ∷ [])

abbrev prepared_operations : List Operation
prepared_operations = added_operations (add_new_document fixed prepared people ann 5 false [])

abbrev owners : KeyPath
owners = type_path prepared fixed people ann ++ (owner_property ∷ [])

abbrev of_owner : KeyPath
of_owner = owners ++ ((8 ∷ []) ∷ [])

abbrev names : KeyPath
names = of_owner ++ (name_property ∷ [])

abbrev of_name : KeyPath
of_name = names ++ ((65 ∷ []) ∷ [])

absent :
    (path : KeyPath) (key : Bytes)
    → (raw_lookup prepared path key).value ≡ ok false
    → IsFreeOrTree prepared path key
absent path key missing = inl (λ there. found_not_missing (sym missing ∙ there))
  where
    found_not_missing : ¬ (◌≡◌ {A = Result GroveError Bool} (ok false) (ok true))
    found_not_missing h = cc

add_new_document-Grounded_example : Grounded prepared prepared_operations
unfolding add_new_document contract_document_type_path contract_documents_primary_key_path
add_new_document-Grounded_example =
    add_new_document-Grounded prepared fixed people ann 5 false (none, refl) tt
      (
        ((none, refl), absent owners (8 ∷ []) refl, absent of_owner (0 ∷ []) refl),
        (
          (
            (none, refl),
            absent owners (8 ∷ []) refl,
            (
              absent of_owner name_property refl,
              absent names (65 ∷ []) refl,
              absent of_name (0 ∷ []) refl,
            ),
          ),
          tt,
        ),
      )
      refl

-- ===== src/Storage/Paths.antt =====
-- The paths of drive/src/drive/document/mod.rs, and the reference to a document.
use rs_platform.Common.{
  ℕ, Bool, true, false, Option, some, [], ◌∷◌, ◌++◌, Bytes, ok, ◌>>=◌, get_or_else, if◌then◌else◌,
}
use rs_platform.Flags.{StorageFlags}
use rs_platform.Flags.Codec.{VarInt}
use rs_platform.Storage.{
  KeyPath, Element, reference, upstream_root_height_reference, DocumentType, DocumentReader,
  StorageResult, map_to_some_element_flags,
}

abbrev pub contract_documents_path_height : ℕ
contract_documents_path_height = 4

-- The tree of `RootTree::ContractDocuments` has the key 1.
unfoldable pub contract_document_type_path : Bytes → Bytes → KeyPath
contract_document_type_path contract_id document_type_name =
    (1 ∷ []) ∷ contract_id ∷ (1 ∷ []) ∷ document_type_name ∷ []

unfoldable pub contract_documents_primary_key_path : Bytes → Bytes → KeyPath
contract_documents_primary_key_path contract_id document_type_name =
    (1 ∷ []) ∷ contract_id ∷ (1 ∷ []) ∷ document_type_name ∷ (0 ∷ []) ∷ []

unfoldable pub contract_documents_keeping_history_primary_key_path_for_document_id :
    Bytes → Bytes → Bytes → KeyPath
contract_documents_keeping_history_primary_key_path_for_document_id contract_id document_type_name
      document_id =
    (1 ∷ []) ∷ contract_id ∷ (1 ∷ []) ∷ document_type_name ∷ (0 ∷ []) ∷ document_id ∷ []

-- The reference keeps the first four keys of the path it stands in; a document with history is one
-- hop further, at the sibling under key 0.
unfoldable pub make_document_reference :
    VarInt → Bytes → DocumentType → Option StorageFlags → Element
make_document_reference v document_id document_type storage_flags =
    let direct = (0 ∷ []) ∷ document_id ∷ [] in
    if document_type.documents_keep_history
    then reference (upstream_root_height_reference 4 (direct ++ ((0 ∷ []) ∷ []))) (some 2)
        (map_to_some_element_flags v storage_flags)
    else reference (upstream_root_height_reference 4 direct) (some 1)
        (map_to_some_element_flags v storage_flags)

abbrev pub is_empty : Bytes → Bool
is_empty [] = true
is_empty (b ∷ bs) = false

-- `get_raw_for_document_type` with `unwrap_or_default`.
module _ {D : Type 0} (reader : DocumentReader D) where
  abbrev pub raw_or_default : D → Bytes → DocumentType → Option Bytes → StorageResult Bytes
  raw_or_default document property document_type owner_id = do
    raw ← reader.get_raw_for_document_type document property document_type owner_id
    ok (get_or_else raw [])

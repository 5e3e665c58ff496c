-- ===== src/Documents/Tests.antt =====
-- Runs of the validation of document transitions on concrete inputs.
use rs_platform.Common.{◌≡◌, ◌↔◌, refl, false, none, some, List, [], ◌∷◌, Bytes, ok, arith}
use rs_platform.Common.Int.{pos}
use rs_platform.Documents.{
  create, replace, DocumentTransition, create_transition, replace_transition, Document, reported,
  validate_transition, Checks, validate_document_transitions,
}
use rs_platform.Documents.Allowed.{IsAllowed, validate_transition-IsAllowed}
use rs_platform.Documents.Uniqueness.{
  without_uniqueness_errors, validate_document_transitions-ignores_uniqueness,
}

abbrev replaced : DocumentTransition
replaced =
    replace_transition
      (record { id = 1 ∷ []; document_type = 97 ∷ []; action = replace; data_contract_id = 5 ∷ [] })
      3 (some (pos 1660000100000))

abbrev documents : List Document
documents = record { id = 1 ∷ []; owner_id = 7 ∷ []; revision = 2 } ∷ []

validate_transition-IsAllowed_example :
    (validate_transition replaced documents 1660000000000 (7 ∷ []) ≡ [])
    ↔ IsAllowed replace replaced documents 1660000000000 (7 ∷ [])
validate_transition-IsAllowed_example =
    validate_transition-IsAllowed replaced documents 1660000000000 (7 ∷ []) (omega arith)
      (omega arith)

-- The transition of the run is allowed.
allowed : validate_transition replaced documents 1660000000000 (7 ∷ []) ≡ []
allowed = validate_transition-IsAllowed_example.1 (
  (omega arith, omega arith),
  (record { id = 1 ∷ []; owner_id = 7 ∷ []; revision = 2 }, refl, refl, omega arith),
)

abbrev data_contract : Bytes
data_contract = 5 ∷ []

-- A new document that duplicates a stored one in a unique index.
abbrev new_document : DocumentTransition
new_document =
    create_transition
      (record { id = 2 ∷ []; document_type = 97 ∷ []; action = create; data_contract_id = 5 ∷ [] })
      none none

abbrev checks : Checks
checks = record {
  DataContract = Bytes;
  fetch_data_contract = λ id. ok data_contract;
  fetch_documents = λ transitions. ok documents;
  fetch_latest_block_time = ok 1660000000;
  validate_documents_uniqueness_by_indices =
      λ owner_id transitions contract. ok (reported (2 ∷ []) ∷ []);
  execute_data_triggers = λ owner_id transitions contract. ok [];
}

validate_document_transitions-ignores_uniqueness_example :
    validate_document_transitions checks (5 ∷ []) (7 ∷ []) (new_document ∷ []) false
    ≡ validate_document_transitions
        (without_uniqueness_errors checks)
        (5 ∷ [])
        (7 ∷ [])
        (new_document ∷ [])
        false
validate_document_transitions-ignores_uniqueness_example =
    validate_document_transitions-ignores_uniqueness checks (5 ∷ []) (7 ∷ []) (new_document ∷ [])
      false

-- ===== src/Documents/Uniqueness.antt =====
-- What becomes of the errors of the uniqueness by indices
-- (dpp/src/document/state_transition/documents_batch_transition/validation/state).
use rs_platform.Common.{
  ◌≡◌, ◌*◌, refl, Bool, true, not, List, [], ◌∷◌, Bytes, ok, err, ◌>>=◌, >>=-pointwise,
  if◌then◌else◌,
}
use rs_platform.Documents.{
  DocumentTransition, StateError, is_valid, validate_all, without_deletes, trigger_errors, Checks,
  contract_present, validate_further, validate_document_transitions,
}

-- The same checks, but with no errors of the uniqueness where there were some.
abbrev pub without_uniqueness_errors : Checks → Checks
without_uniqueness_errors checks = record checks {
  validate_documents_uniqueness_by_indices = λ owner_id transitions data_contract. do
    errors ← checks.validate_documents_uniqueness_by_indices owner_id transitions data_contract
    ok [];
}

validate_further_lem :
    (checks : Checks) (owner_id : Bytes) (transitions : List DocumentTransition)
    (contract : checks.DataContract) (result : List StateError)
    → is_valid result ≡ true
    → validate_further checks owner_id transitions contract result
      ≡ validate_further (without_uniqueness_errors checks) owner_id transitions contract result
unfolding validate_further
validate_further_lem checks owner_id transitions contract [] h =
    elim (checks.validate_documents_uniqueness_by_indices owner_id (without_deletes transitions)
        contract)
      as (λ r.
        (r >>= λ validation_result.
        checks.execute_data_triggers owner_id transitions contract >>= λ results.
        ok (trigger_errors results))
        ≡ ((r >>= λ errors. ok []) >>= λ (validation_result : List StateError).
            checks.execute_data_triggers owner_id transitions contract >>= λ results.
            ok (trigger_errors results))) [ ok errors ↦ refl | err e ↦ refl ]
validate_further_lem checks owner_id transitions contract (e ∷ errors) h = cc

branch_lem :
    (checks : Checks) (owner_id : Bytes) (transitions : List DocumentTransition)
    (contract : checks.DataContract) (result : List StateError)
    → (if not (is_valid result)
        then ok result
        else validate_further checks owner_id transitions contract result)
      ≡ (if not (is_valid result)
          then ok result
          else validate_further
              (without_uniqueness_errors checks)
              owner_id
              transitions
              contract
              result)
branch_lem checks owner_id transitions contract [] =
    validate_further_lem checks owner_id transitions contract [] refl
branch_lem checks owner_id transitions contract (e ∷ errors) = refl

-- The result of a batch's validation, for any state, is the same as without the errors of the
-- uniqueness by indices: documents that duplicate a stored one in a unique index are reported in no
-- case.
pub validate_document_transitions-ignores_uniqueness :
    (checks : Checks) (data_contract_id owner_id : Bytes) (transitions : List DocumentTransition)
    (is_dry_run : Bool)
    → validate_document_transitions checks data_contract_id owner_id transitions is_dry_run
      ≡ validate_document_transitions
          (without_uniqueness_errors checks)
          data_contract_id
          owner_id
          transitions
          is_dry_run
unfolding validate_document_transitions
validate_document_transitions-ignores_uniqueness checks data_contract_id owner_id transitions
      is_dry_run =
    >>=-pointwise (contract_present data_contract_id (checks.fetch_data_contract data_contract_id))
      λ contract. >>=-pointwise (checks.fetch_documents transitions) λ documents.
        >>=-pointwise checks.fetch_latest_block_time λ time.
          branch_lem checks owner_id transitions contract
            (if is_dry_run then [] else validate_all transitions documents (time * 1000) owner_id)

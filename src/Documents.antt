-- ===== src/Documents.antt =====
-- The validation of a batch of document transitions against the state
-- (dpp/src/document/state_transition/documents_batch_transition/validation/state:
-- validate_documents_batch_transition_state.rs), with the window of times
-- around a block (dpp/src/block_time_window).
use rs_platform.Common.{
  ℕ, ◌+◌, ◌-◌, ◌*◌, ◌%◌, ◌^◌, Bool, true, false, not, ◌&&◌, Option, none, some, List, [], ◌∷◌, ◌++◌,
  String, Bytes, bytes_eq, leb, ltb, ◌==◌, if◌then◌else◌, Result, ok, err, ◌>>=◌, u32_mod, u64_mod,
}
use rs_platform.Common.Int.{ℤ, pos, negsuc, pos_part, neg_part, codes}
pub mod Allowed
pub mod Uniqueness
pub mod Tests

abbrev pub block_time_window_millis : ℕ
block_time_window_millis = 5 * 60 * 1000

pub record TimeWindowValidationResult : Type 0 where
  pub valid : Bool
  pub time_window_start : ℕ
  pub time_window_end : ℕ

-- Both bounds wrap around.
unfoldable pub validate_time_in_block_time_window : ℕ → ℕ → TimeWindowValidationResult
validate_time_in_block_time_window last_block_header_time_millis time_to_check_millis =
    let start = (last_block_header_time_millis + u64_mod - block_time_window_millis) % u64_mod in
    let end = (last_block_header_time_millis + block_time_window_millis) % u64_mod in
    record {
      valid = leb start time_to_check_millis && leb time_to_check_millis end;
      time_window_start = start;
      time_window_end = end;
    }

pub data Action : Type 0 where
  create replace delete : Action

pub record DocumentBaseTransition : Type 0 where
  pub id : Bytes
  pub document_type : Bytes
  pub action : Action
  pub data_contract_id : Bytes

-- The three variants, with what the validation reads of them.
pub data DocumentTransition : Type 0 where
  create_transition : DocumentBaseTransition → Option ℤ → Option ℤ → DocumentTransition
  replace_transition : DocumentBaseTransition → ℕ → Option ℤ → DocumentTransition
  delete_transition : DocumentBaseTransition → DocumentTransition

-- What the validation reads of a stored document.
pub record Document : Type 0 where
  pub id : Bytes
  pub owner_id : Bytes
  pub revision : ℕ

-- The errors of the state; `reported` are those of the uniqueness and of the data triggers.
pub data StateError : Type 0 where
  document_owner_mismatch : Bytes → Bytes → Bytes → StateError
  invalid_document_revision : Bytes → ℕ → StateError
  document_already_present document_not_found document_timestamp_mismatch : Bytes → StateError
  document_timestamp_window_violation : Bytes → Bytes → ℕ → ℕ → ℕ → StateError
  reported : Bytes → StateError

pub data ProtocolError : Type 0 where
  data_contract_not_present : Bytes → ProtocolError
  repository_error : ProtocolError

-- A validation result is the list of its errors.
abbrev pub is_valid : List StateError → Bool
is_valid [] = true
is_valid (e ∷ errors) = false

abbrev pub base : DocumentTransition → DocumentBaseTransition
base (create_transition b created_at updated_at) = b
base (replace_transition b revision updated_at) = b
base (delete_transition b) = b

abbrev pub get_created_at : DocumentTransition → Option ℤ
get_created_at (create_transition b created_at updated_at) = created_at
get_created_at (replace_transition b revision updated_at) = none
get_created_at (delete_transition b) = none

abbrev pub get_updated_at : DocumentTransition → Option ℤ
get_updated_at (create_transition b created_at updated_at) = updated_at
get_updated_at (replace_transition b revision updated_at) = updated_at
get_updated_at (delete_transition b) = none

-- The revision of `as_transition_replace`.
abbrev pub replace_revision : DocumentTransition → Option ℕ
replace_revision (create_transition b created_at updated_at) = none
replace_revision (replace_transition b revision updated_at) = some revision
replace_revision (delete_transition b) = none

-- The first fetched document with an id.
abbrev pub find_document : Bytes → List Document → Option Document
find_document id [] = none
find_document id (document ∷ documents) =
    let rest = find_document id documents in if bytes_eq document.id id then some document else rest

-- `as u64` on an `i64`
abbrev pub as_u64 : ℤ → ℕ
as_u64 i = (pos_part i + u64_mod - neg_part i) % u64_mod

abbrev pub int_eq : ℤ → ℤ → Bool
int_eq (pos m) (pos n) = m == n
int_eq (pos m) (negsuc n) = false
int_eq (negsuc m) (pos n) = false
int_eq (negsuc m) (negsuc n) = m == n

abbrev pub ownership_errors : Bytes → Bytes → Option Document → List StateError
ownership_errors id owner_id none = []
ownership_errors id owner_id (some document) =
    if bytes_eq document.owner_id owner_id
    then []
    else document_owner_mismatch id owner_id document.owner_id ∷ []

unfoldable pub check_ownership : DocumentTransition → List Document → Bytes → List StateError
check_ownership transition documents owner_id =
    ownership_errors (base transition).id owner_id (find_document (base transition).id documents)

abbrev pub revision_errors : Bytes → Option Document → Option ℕ → List StateError
revision_errors id none revision = []
revision_errors id (some document) none = []
revision_errors id (some document) (some revision) =
    if revision == (document.revision + 1) % u32_mod
    then []
    else invalid_document_revision id document.revision ∷ []

unfoldable pub check_revision : DocumentTransition → List Document → List StateError
check_revision transition documents =
    revision_errors (base transition).id (find_document (base transition).id documents)
      (replace_revision transition)

abbrev pub present_errors : Bytes → Option Document → List StateError
present_errors id none = []
present_errors id (some document) = document_already_present id ∷ []

unfoldable pub check_if_document_is_already_present :
    DocumentTransition → List Document → List StateError
check_if_document_is_already_present transition documents =
    present_errors (base transition).id (find_document (base transition).id documents)

abbrev pub missing_errors : Bytes → Option Document → List StateError
missing_errors id none = document_not_found id ∷ []
missing_errors id (some document) = []

unfoldable pub check_if_document_can_be_found : DocumentTransition → List Document → List StateError
check_if_document_can_be_found transition documents =
    missing_errors (base transition).id (find_document (base transition).id documents)

abbrev pub timestamp_errors : Bytes → Option ℤ → Option ℤ → List StateError
timestamp_errors id none updated_at = []
timestamp_errors id (some created_at) none = []
timestamp_errors id (some created_at) (some updated_at) =
    if int_eq updated_at created_at then [] else document_timestamp_mismatch id ∷ []

unfoldable pub check_if_timestamps_are_equal : DocumentTransition → List StateError
check_if_timestamps_are_equal transition =
    timestamp_errors (base transition).id (get_created_at transition) (get_updated_at transition)

-- The body of the two checks of a time, with its name.
abbrev pub window_errors : Bytes → Bytes → ℕ → Option ℤ → List StateError
window_errors name id last_block_ts_millis none = []
window_errors name id last_block_ts_millis (some time) =
    let window = validate_time_in_block_time_window last_block_ts_millis (as_u64 time) in
    if window.valid
    then []
    else document_timestamp_window_violation name id (as_u64 time) window.time_window_start
        window.time_window_end
      ∷ []

unfoldable pub check_created_inside_time_window : DocumentTransition → ℕ → List StateError
check_created_inside_time_window transition last_block_ts_millis =
    window_errors (codes "createdAt") (base transition).id last_block_ts_millis
      (get_created_at transition)

unfoldable pub check_updated_inside_time_window : DocumentTransition → ℕ → List StateError
check_updated_inside_time_window transition last_block_ts_millis =
    window_errors (codes "updatedAt") (base transition).id last_block_ts_millis
      (get_updated_at transition)

-- The branch of an action.
abbrev pub validate_action :
    Action → DocumentTransition → List Document → ℕ → Bytes → List StateError
validate_action create transition documents last_header_block_time_millis owner_id =
    check_if_timestamps_are_equal transition
    ++ (check_created_inside_time_window transition last_header_block_time_millis
        ++ (check_updated_inside_time_window transition last_header_block_time_millis
            ++ check_if_document_is_already_present transition documents))
validate_action replace transition documents last_header_block_time_millis owner_id =
    let found = check_if_document_can_be_found transition documents in
    check_updated_inside_time_window transition last_header_block_time_millis
    ++ (check_revision transition documents
        ++ (if is_valid found then check_ownership transition documents owner_id else found))
validate_action delete transition documents last_header_block_time_millis owner_id =
    let found = check_if_document_can_be_found transition documents in
    if is_valid found then check_ownership transition documents owner_id else found

unfoldable pub validate_transition :
    DocumentTransition → List Document → ℕ → Bytes → List StateError
unfolding check_if_timestamps_are_equal check_created_inside_time_window
    check_updated_inside_time_window check_if_document_is_already_present check_revision
    check_if_document_can_be_found check_ownership
validate_transition transition documents last_header_block_time_millis owner_id =
    validate_action (base transition).action transition documents last_header_block_time_millis
      owner_id

-- The loop over the transitions.
abbrev pub validate_all : List DocumentTransition → List Document → ℕ → Bytes → List StateError
validate_all [] documents last_header_time_millis owner_id = []
validate_all (transition ∷ transitions) documents last_header_time_millis owner_id =
    validate_transition transition documents last_header_time_millis owner_id
    ++ validate_all transitions documents last_header_time_millis owner_id

abbrev pub is_delete : DocumentTransition → Bool
is_delete (create_transition b created_at updated_at) = false
is_delete (replace_transition b revision updated_at) = false
is_delete (delete_transition b) = true

-- The transitions that are checked for uniqueness.
abbrev pub without_deletes : List DocumentTransition → List DocumentTransition
without_deletes [] = []
without_deletes (transition ∷ transitions) =
    let rest = without_deletes transitions in
    if is_delete transition then rest else transition ∷ rest

-- The errors of the data triggers' results, one after the other.
abbrev pub trigger_errors : List (List StateError) → List StateError
trigger_errors [] = []
trigger_errors (errors ∷ results) = errors ++ trigger_errors results

-- The state repository, the uniqueness by indices, and the data triggers of a batch.
pub record Checks : Type 1 where
  pub DataContract : Type 0
  pub fetch_data_contract : Bytes → Result ProtocolError DataContract
  pub fetch_documents : List DocumentTransition → Result ProtocolError (List Document)
  pub fetch_latest_block_time : Result ProtocolError ℕ
  pub validate_documents_uniqueness_by_indices :
      Bytes → List DocumentTransition → DataContract → Result ProtocolError (List StateError)
  pub execute_data_triggers :
      Bytes → List DocumentTransition → DataContract → Result ProtocolError (List (List StateError))

abbrev pub contract_present : {C : Type 0} → Bytes → Result ProtocolError C → Result ProtocolError C
contract_present id (ok contract) = ok contract
contract_present id (err e) = err (data_contract_not_present id)

module _ (checks : Checks) where
  open checks use {
    DataContract, fetch_data_contract, fetch_documents, fetch_latest_block_time,
    validate_documents_uniqueness_by_indices, execute_data_triggers,
  }

  -- What follows the loop: the uniqueness and the triggers.
  unfoldable pub validate_further :
      Bytes
      → List DocumentTransition
      → DataContract
      → List StateError
      → Result ProtocolError (List StateError)
  validate_further owner_id transitions data_contract result = do
    validation_result ←
        validate_documents_uniqueness_by_indices owner_id (without_deletes transitions)
          data_contract
    (if not (is_valid result) then ok (result ++ validation_result) else do
      results ← execute_data_triggers owner_id transitions data_contract
      ok (result ++ trigger_errors results))

  unfoldable pub validate_document_transitions :
      Bytes → Bytes → List DocumentTransition → Bool → Result ProtocolError (List StateError)
  unfolding validate_further validate_transition
  validate_document_transitions data_contract_id owner_id transitions is_dry_run = do
    data_contract ← contract_present data_contract_id (fetch_data_contract data_contract_id)
    documents ← fetch_documents transitions
    time ← fetch_latest_block_time
    let result =
        if is_dry_run then [] else validate_all transitions documents (time * 1000) owner_id
    (if not (is_valid result)
        then ok result
        else validate_further owner_id transitions data_contract result)

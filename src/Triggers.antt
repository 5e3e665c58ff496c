-- ===== src/Triggers.antt =====
-- The data triggers of documents: dpp/src/data_trigger. JSON values, Base58 and the state repository
-- are parameters. A panic stops the validation; any other failure is an `anyhow::Error`.
pub mod Domain
pub mod Table
pub mod Shares
mod Tests
use rs_platform.Common.{
  ℕ, ◌+◌, ◌-◌, ◌*◌, ◌%◌, ◌^◌, Bool, true, false, not, ◌&&◌, ◌||◌, Option, none, some, List, [], ◌∷◌,
  ◌++◌, Bytes, bytes_eq, leb, ltb, ◌==◌, if◌then◌else◌, Result, ok, err, ◌>>=◌, ok_or, u64_mod,
  length,
}
use rs_platform.Common.Int.{ℤ, pos, negsuc, pos_part, neg_part, ltb_ℤ, codes}
use rs_platform.Documents.{DocumentBaseTransition, as_u64}

-- The transitions with the data of a creation.
pub data Transition (J : Type 0) : Type 0 where
  create_transition : DocumentBaseTransition → Option J → Transition J
  replace_transition : DocumentBaseTransition → Transition J
  delete_transition : DocumentBaseTransition → Transition J

abbrev pub base_of : {J : Type 0} → Transition J → DocumentBaseTransition
base_of (create_transition b data_of) = b
base_of (replace_transition b) = b
base_of (delete_transition b) = b

-- The messages of `DataTriggerConditionError`.
pub data Condition : Type 0 where
  action_not_allowed not_a_masternode no_pay_to_identity too_many_shares : Condition
  percentage_too_large flag_too_early wrong_flag_identity height_out_of_window : Condition
  name_too_long label_mismatch unique_identity_mismatch alias_identity_mismatch : Condition
  wrong_top_level_identity no_parent_domain subdomains_not_allowed not_parent_owner : Condition
  no_preorder : Condition

-- The failures that the functions raise with `bail!`, `anyhow!` and `?`, and the panics.
pub data Failure : Type 0 where
  not_create no_data no_top_level_identity bad_property bad_identifier repository : Failure

pub data Stop : Type 0 where
  failed : Failure → Stop
  panicked : Stop

abbrev pub Run : Type 0 → Type 0
Run A = Result Stop A

-- The two errors, with the contract and the transition.
pub data TriggerError : Type 0 where
  condition_error : Bytes → Bytes → Condition → TriggerError
  execution_error : Bytes → Bytes → Failure → TriggerError

-- `JsonValueExt` and `serde_json::Value`, and strings, which are byte strings here.
pub record Json (J : Type 0) : Type 0 where
  pub get_string : J → Bytes → Run Bytes
  pub get_u64 : J → Bytes → Run ℕ
  pub get_i64 : J → Bytes → Run ℤ
  pub get_bytes : J → Bytes → Run Bytes
  pub get_value : J → Bytes → Run J
  pub get : J → Bytes → Option J
  pub as_bool : J → Option Bool
  pub as_string : J → Option Bytes
  pub to_lowercase : Bytes → Bytes
  pub identifier_from_base58 : Bytes → Run Bytes

pub record StoredDocument (J : Type 0) : Type 0 where
  pub owner_id : Bytes
  pub fields : J

-- `DataTriggerExecutionContext` with its state repository: the `pro_reg_tx_hash`es of the valid
-- masternodes, whether an identity is there, the documents whose properties have given values, and
-- the header of the latest block. An identifier in a query stands for its Base58.
pub record Context (J : Type 0) : Type 0 where
  pub data_contract_id : Bytes
  pub owner_id : Bytes
  pub is_dry_run : Bool
  pub fetch_valid_master_nodes : Run (List Bytes)
  pub fetch_identity : Bytes → Run (Option Bytes)
  pub fetch_documents : Bytes → List (Bytes × Bytes) → Run (List (StoredDocument J))
  pub fetch_latest_platform_block_header : Run J

-- `i64` sums wrap around.
abbrev pub i64_of_u64 : ℕ → ℤ
i64_of_u64 n = if ltb n (2 ^ 63) then pos n else negsuc (u64_mod - 1 - n)

abbrev pub add_i64 : ℤ → ℕ → ℤ
add_i64 a n = i64_of_u64 ((as_u64 a + n) % u64_mod)

abbrev pub sub_i64 : ℤ → ℕ → ℤ
sub_i64 a n = i64_of_u64 ((as_u64 a + u64_mod - n) % u64_mod)

-- The identifier and the data of a creation.
abbrev pub create_data : {J : Type 0} → Transition J → Run J
create_data (create_transition b (some fields)) = ok fields
create_data (create_transition b none) = err (failed no_data)
create_data (replace_transition b) = err (failed not_create)
create_data (delete_transition b) = err (failed not_create)

abbrev pub contains_id : Bytes → List Bytes → Bool
contains_id id [] = false
contains_id id (x ∷ xs) = bytes_eq x id || contains_id id xs

abbrev pub is_some : {A : Type 0} → Option A → Bool
is_some none = false
is_some (some a) = true

abbrev pub max_percentage : ℕ
max_percentage = 10000

abbrev pub max_documents : ℕ
max_documents = 16

abbrev pub blocks_size_window : ℕ
blocks_size_window = 8

module _ {J : Type 0} (json : Json J) (context : Context J) where
  -- `add_error(create_error(..))` when a test fails.
  abbrev pub error_unless : Bool → Transition J → Condition → List TriggerError
  error_unless true transition condition = []
  error_unless false transition condition =
      condition_error context.data_contract_id (base_of transition).id condition ∷ []

  unfoldable pub reject_data_trigger : Transition J → Option Bytes → Run (List TriggerError)
  reject_data_trigger transition top_level_identity =
      ok (error_unless false transition action_not_allowed)

  abbrev pub masternode_errors : Transition J → Run (List TriggerError)
  masternode_errors transition = if context.is_dry_run then ok [] else (do
    nodes ← context.fetch_valid_master_nodes
    ok (error_unless (contains_id context.owner_id nodes) transition not_a_masternode))

  -- The sum wraps around.
  abbrev pub add_percentages : ℕ → List (StoredDocument J) → Run ℕ
  add_percentages total [] = ok total
  add_percentages total (document ∷ documents) = do
    percentage ← json.get_u64 document.fields (codes "percentage")
    add_percentages ((total + percentage) % u64_mod) documents

  -- The tests on the shares that the owner has.
  unfoldable pub share_errors : Transition J → ℕ → List (StoredDocument J) → Run (List TriggerError)
  share_errors transition percentage documents =
      if leb max_documents (length documents)
      then ok (error_unless false transition too_many_shares)
      else (do
        total_percent ← add_percentages percentage documents
        ok (error_unless (leb total_percent max_percentage) transition percentage_too_large))

  unfoldable pub create_masternode_reward_shares_data_trigger :
      Transition J → Option Bytes → Run (List TriggerError)
  unfolding share_errors
  create_masternode_reward_shares_data_trigger transition top_level_identity = do
    fields ← create_data transition
    pay_to_id ← json.get_string fields (codes "payToId")
    percentage ← json.get_u64 fields (codes "percentage")
    masternode ← masternode_errors transition
    pay_to_identifier ← json.identifier_from_base58 pay_to_id
    maybe_identity ← context.fetch_identity pay_to_identifier
    documents ←
        context.fetch_documents (base_of transition).document_type
          ((codes "$owner_id", context.owner_id) ∷ [])
    (if context.is_dry_run then ok [] else (do
      shares ← share_errors transition percentage documents
      ok (
          (masternode ++ error_unless (is_some maybe_identity) transition no_pay_to_identity)
          ++ shares)))

  -- A flag of the past is refused before its identity is looked at.
  unfoldable pub create_feature_flag_data_trigger :
      Transition J → Option Bytes → Run (List TriggerError)
  create_feature_flag_data_trigger transition top_level_identity =
      if context.is_dry_run then ok [] else (do
        identity ← ok_or top_level_identity (failed no_top_level_identity)
        fields ← create_data transition
        header ← context.fetch_latest_platform_block_header
        block_height ← json.get_i64 header (codes "height")
        enable_at_height ← json.get_i64 fields (codes "enableAtHeight")
        (if ltb_ℤ enable_at_height block_height
            then ok (error_unless false transition flag_too_early)
            else ok
                (error_unless (bytes_eq context.owner_id identity) transition wrong_flag_identity)))

  unfoldable pub create_contact_request_data_trigger :
      Transition J → Option Bytes → Run (List TriggerError)
  create_contact_request_data_trigger transition top_level_identity =
      if context.is_dry_run then ok [] else (do
        fields ← create_data transition
        created_at ← json.get_i64 fields (codes "coreHeightCreatedAt")
        header ← context.fetch_latest_platform_block_header
        locked_height ← json.get_i64 header (codes "coreChainLockedHeight")
        let window_start = sub_i64 locked_height blocks_size_window
        let window_end = add_i64 locked_height blocks_size_window
        ok (
            error_unless (not (ltb_ℤ created_at window_start || ltb_ℤ window_end created_at))
              transition height_out_of_window))

-- ===== src/Triggers/Table.antt =====
-- Which trigger is run for a transition, and what becomes of its result:
-- dpp/src/data_trigger/{mod.rs,get_data_triggers_factory.rs} and dpp/src/document/state_transition/
-- documents_batch_transition/validation/state/execute_data_triggers.rs.
use rs_platform.Common.{
  ℕ, Bool, true, false, ◌&&◌, Option, none, some, List, [], ◌∷◌, ◌++◌, Bytes, bytes_eq,
  if◌then◌else◌, Result, ok, err, ◌>>=◌,
}
use rs_platform.Common.Int.{codes}
use rs_platform.Documents.{Action, create, replace, delete, DocumentBaseTransition}
use rs_platform.Triggers.{
  Transition, base_of, Failure, Stop, failed, panicked, Run, TriggerError, execution_error, Json,
  Context, reject_data_trigger, create_masternode_reward_shares_data_trigger,
  create_feature_flag_data_trigger, create_contact_request_data_trigger,
}
use rs_platform.Triggers.Domain.{create_domain_data_trigger}
pub mod Dropped

pub data DataTriggerKind : Type 0 where
  create_data_contract_request data_trigger_create_domain data_trigger_reward_share :
      DataTriggerKind
  data_trigger_reject crate_feature_flag : DataTriggerKind

pub record DataTrigger : Type 0 where
  pub data_contract_id : Bytes
  pub document_type : Bytes
  pub transition_action : Action
  pub data_trigger_kind : DataTriggerKind
  pub top_level_identity : Option Bytes

-- The system contracts' identifiers and owners, which are constants in Base58.
pub record SystemIds : Type 0 where
  pub dpns_contract : Bytes
  pub dpns_owner : Bytes
  pub dashpay_contract : Bytes
  pub feature_flags_contract : Bytes
  pub feature_flags_owner : Bytes
  pub reward_shares_contract : Bytes

abbrev pub action_eq : Action → Action → Bool
action_eq create create = true
action_eq replace replace = true
action_eq delete delete = true
action_eq create replace = false
action_eq create delete = false
action_eq replace create = false
action_eq replace delete = false
action_eq delete create = false
action_eq delete replace = false

unfoldable pub is_matching_trigger_for_data : DataTrigger → Bytes → Bytes → Action → Bool
is_matching_trigger_for_data trigger data_contract_id document_type transition_action =
    (bytes_eq trigger.data_contract_id data_contract_id
      && bytes_eq trigger.document_type document_type)
    && action_eq trigger.transition_action transition_action

abbrev trigger_of : Bytes → Bytes → Action → DataTriggerKind → Option Bytes → DataTrigger
trigger_of data_contract_id document_type action kind identity = record {
  data_contract_id = data_contract_id;
  document_type = document_type;
  transition_action = action;
  data_trigger_kind = kind;
  top_level_identity = identity;
}

-- The document type of feature flags.
abbrev update_consensus_params : Bytes
update_consensus_params = codes "updateConsensusParams"

unfoldable pub data_triggers : SystemIds → List DataTrigger
data_triggers ids =
    trigger_of ids.dpns_contract (codes "domain") create data_trigger_create_domain
      (some ids.dpns_owner)
    ∷ trigger_of ids.dpns_contract (codes "domain") replace data_trigger_reject none
    ∷ trigger_of ids.dpns_contract (codes "domain") delete data_trigger_reject none
    ∷ trigger_of ids.dpns_contract (codes "preorder") delete data_trigger_reject none
    ∷ trigger_of ids.dpns_contract (codes "preorder") delete data_trigger_reject none
    ∷ trigger_of ids.dashpay_contract (codes "contactRequest") create create_data_contract_request
        none
    ∷ trigger_of ids.dashpay_contract (codes "contactRequest") replace data_trigger_reject none
    ∷ trigger_of ids.dashpay_contract (codes "contactRequest") replace data_trigger_reject none
    ∷ trigger_of ids.feature_flags_contract update_consensus_params create crate_feature_flag
        (some ids.feature_flags_owner)
    ∷ trigger_of ids.feature_flags_contract update_consensus_params replace data_trigger_reject none
    ∷ trigger_of ids.feature_flags_contract update_consensus_params delete data_trigger_reject none
    ∷ trigger_of ids.reward_shares_contract update_consensus_params create
        create_data_contract_request none
    ∷ trigger_of ids.reward_shares_contract update_consensus_params replace
        create_data_contract_request none
    ∷ []

abbrev pub filter_matching : Bytes → Bytes → Action → List DataTrigger → List DataTrigger
filter_matching data_contract_id document_type action [] = []
filter_matching data_contract_id document_type action (trigger ∷ triggers) =
    let rest = filter_matching data_contract_id document_type action triggers in
    if is_matching_trigger_for_data trigger data_contract_id document_type action
    then trigger ∷ rest
    else rest

unfoldable pub get_data_triggers : SystemIds → Bytes → Bytes → Action → List DataTrigger
unfolding data_triggers is_matching_trigger_for_data
get_data_triggers ids data_contract_id document_type transition_action =
    filter_matching data_contract_id document_type transition_action (data_triggers ids)

module _ {J : Type 0} (json : Json J) (context : Context J) (hash : Bytes → Bytes)
    (owner_base58 : Bytes) where
  unfoldable pub execute_trigger :
      DataTriggerKind → Transition J → Option Bytes → Run (List TriggerError)
  unfolding create_contact_request_data_trigger create_domain_data_trigger
      create_feature_flag_data_trigger reject_data_trigger
      create_masternode_reward_shares_data_trigger
  execute_trigger create_data_contract_request transition identity =
      create_contact_request_data_trigger json context transition identity
  execute_trigger data_trigger_create_domain transition identity =
      create_domain_data_trigger json context hash owner_base58 transition identity
  execute_trigger crate_feature_flag transition identity =
      create_feature_flag_data_trigger json context transition identity
  execute_trigger data_trigger_reject transition identity =
      reject_data_trigger json context transition identity
  execute_trigger data_trigger_reward_share transition identity =
      create_masternode_reward_shares_data_trigger json context transition identity

  -- Only a failure is reported; the result of a run that ends is not used.
  abbrev pub report_failure : Bytes → Run (List TriggerError) → Run (List TriggerError)
  report_failure id (ok execution_result) = ok []
  report_failure id (err (failed reason)) =
      ok (execution_error context.data_contract_id id reason ∷ [])
  report_failure id (err panicked) = err panicked

  unfoldable pub execute : DataTrigger → Transition J → Run (List TriggerError)
  unfolding execute_trigger
  execute trigger transition =
      report_failure (base_of transition).id
        (execute_trigger trigger.data_trigger_kind transition trigger.top_level_identity)

  -- One result per trigger.
  unfoldable pub execute_data_triggers_sequentially :
      List DataTrigger → Transition J → Run (List (List TriggerError))
  unfolding execute
  execute_data_triggers_sequentially [] transition = ok []
  execute_data_triggers_sequentially (trigger ∷ triggers) transition = do
    result ← execute trigger transition
    results ← execute_data_triggers_sequentially triggers transition
    ok (result ∷ results)

  unfoldable pub execute_data_triggers :
      SystemIds → List (Transition J) → Run (List (List TriggerError))
  unfolding execute_data_triggers_sequentially get_data_triggers
  execute_data_triggers ids [] = ok []
  execute_data_triggers ids (transition ∷ transitions) = do
    let triggers =
        get_data_triggers ids context.data_contract_id (base_of transition).document_type
          (base_of transition).action
    results ← execute_data_triggers_sequentially triggers transition
    more ← execute_data_triggers ids transitions
    ok (results ++ more)

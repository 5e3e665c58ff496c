-- ===== src/Triggers/Tests.antt =====
-- A masternode that shares its rewards, and the creation of a domain, on concrete documents. A JSON
-- value is here a list of the names of its properties with byte strings.
use rs_platform.Common.{
  ℕ, ◌≡◌, ◌↔◌, ◌≤◌, ◌<◌, refl, true, false, Option, none, some, List, [], ◌∷◌, Bytes, bytes_eq, All,
  ok, err, ◌>>=◌, ok_or, if◌then◌else◌, arith,
}
use rs_platform.Common.Int.{codes}
use rs_platform.Documents.{create, replace}
use rs_platform.Triggers.{
  Transition, create_transition, replace_transition, failed, bad_property, Run, Json, Context,
  create_masternode_reward_shares_data_trigger,
}
use rs_platform.Triggers.Shares.{create_masternode_reward_shares_lem}
use rs_platform.Triggers.Table.{SystemIds, execute_data_triggers}
use rs_platform.Triggers.Table.Dropped.{IsExecutionError, execute_data_triggers-IsExecutionError}

abbrev Value : Type 0
Value = List (Bytes × Bytes)

abbrev find : Value → Bytes → Option Bytes
find [] key = none
find (entry ∷ entries) key = if bytes_eq entry.0 key then some entry.1 else find entries key

-- A number is a single digit here.
abbrev digit : Bytes → Run ℕ
digit (n ∷ []) = ok n
digit _ = err (failed bad_property)

abbrev values : Json Value
values = record {
  get_string = λ value key. ok_or (find value key) (failed bad_property);
  get_u64 = λ value key. ok_or (find value key) (failed bad_property) >>= λ bytes. digit bytes;
  get_i64 = λ value key. err (failed bad_property);
  get_bytes = λ value key. ok_or (find value key) (failed bad_property);
  get_value = λ value key. ok [];
  get = λ value key. some [];
  as_bool = λ value. some false;
  as_string = λ value. none;
  to_lowercase = λ name. name;
  identifier_from_base58 = λ name. ok name;
}

abbrev share : Value
share = (codes "payToId", 5 ∷ []) ∷ (codes "percentage", 100 ∷ []) ∷ []

abbrev context : Context Value
context = record {
  data_contract_id = 1 ∷ [];
  owner_id = 2 ∷ [];
  is_dry_run = false;
  fetch_valid_master_nodes = ok ((2 ∷ []) ∷ []);
  fetch_identity = λ id. ok (some id);
  fetch_documents = λ document_type query. ok (record { owner_id = 2 ∷ []; fields = share } ∷ []);
  fetch_latest_platform_block_header = ok [];
}

abbrev new_share : Transition Value
new_share =
    create_transition
      record {
        id = 9 ∷ [];
        document_type = codes "rewardShare";
        action = create;
        data_contract_id = 1 ∷ [];
      }
      (some share)

create_masternode_reward_shares_lem_example :
    (create_masternode_reward_shares_data_trigger values context new_share none ≡ ok [])
    ↔ ((true ≡ true) × (true ≡ true) × (1 < 16) × (200 ≤ 10000))
create_masternode_reward_shares_lem_example =
    create_masternode_reward_shares_lem values context new_share none (100 ∷ []) refl refl refl refl
      refl refl refl refl (refl, tt) (omega arith)

abbrev domain : Value
domain =
    (codes "label", codes "a")
    ∷ (codes "normalizedLabel", codes "a")
    ∷ (codes "normalizedParentDomainName", codes "dash")
    ∷ (codes "preorderSalt", 1 ∷ [])
    ∷ []

abbrev new_domain : Transition Value
new_domain =
    create_transition
      record {
        id = 9 ∷ [];
        document_type = codes "domain";
        action = create;
        data_contract_id = 1 ∷ [];
      }
      (some domain)

abbrev ids : SystemIds
ids = record {
  dpns_contract = 1 ∷ [];
  dpns_owner = 2 ∷ [];
  dashpay_contract = 3 ∷ [];
  feature_flags_contract = 4 ∷ [];
  feature_flags_owner = 5 ∷ [];
  reward_shares_contract = 6 ∷ [];
}

-- A domain is replaced, which its trigger rejects.
abbrev replaced_domain : Transition Value
replaced_domain = replace_transition record {
  id = 9 ∷ [];
  document_type = codes "domain";
  action = replace;
  data_contract_id = 1 ∷ [];
}

execute_data_triggers-IsExecutionError_example : All (All IsExecutionError) ([] ∷ [])
unfolding execute_data_triggers
execute_data_triggers-IsExecutionError_example =
    execute_data_triggers-IsExecutionError values context (λ bytes. bytes) (codes "x") ids
      (replaced_domain ∷ []) refl

-- ===== src/Triggers/Domain.antt =====
-- The trigger of a domain: dpp/src/data_trigger/dpns_triggers/mod.rs.
use rs_platform.Common.{
  ℕ, Bool, true, false, not, ◌&&◌, Option, none, some, List, [], ◌∷◌, ◌++◌, Bytes, bytes_eq, leb,
  ◌==◌, if◌then◌else◌, ok, err, ◌>>=◌, ok_or, length,
}
use rs_platform.Common.Int.{codes}
use rs_platform.Triggers.{
  Transition, base_of, name_too_long, label_mismatch, unique_identity_mismatch,
  alias_identity_mismatch, wrong_top_level_identity, no_parent_domain, subdomains_not_allowed,
  not_parent_owner, no_preorder, no_top_level_identity, bad_property, failed, panicked, Run,
  TriggerError, Json, StoredDocument, Context, create_data, error_unless,
}

abbrev pub max_printable_domain_name_length : ℕ
max_printable_domain_name_length = 253

-- A name up to its first dot, and the rest without it.
abbrev pub parent_label : Bytes → Bytes
parent_label [] = []
parent_label (c ∷ cs) = let rest = parent_label cs in if c == 46 then [] else c ∷ rest

abbrev pub grand_parent : Bytes → Bytes
grand_parent [] = []
grand_parent (c ∷ cs) = let rest = grand_parent cs in if c == 46 then cs else rest

abbrev pub is_empty_name : Bytes → Bool
is_empty_name [] = true
is_empty_name (c ∷ cs) = false

module _ {J : Type 0} (json : Json J) (context : Context J) (hash : Bytes → Bytes)
    (owner_base58 : Bytes) where
  -- A record that names another identity.
  abbrev pub names_owner : Option J → Bool
  names_owner none = true
  names_owner (some value) = elim (json.as_string value) [
    | none ↦ true
    | some id ↦ bytes_eq id owner_base58
  ]

  -- The tests on the name, the records and the level.
  unfoldable pub name_errors : Transition J → Bytes → Bytes → Bytes → J → Bytes → List TriggerError
  name_errors transition label normalized_label parent_name records top_level_identity =
      ((error_unless json context (leb (length normalized_label) max_printable_domain_name_length)
            transition name_too_long
          ++ error_unless json context (bytes_eq normalized_label (json.to_lowercase label))
              transition label_mismatch)
        ++ (error_unless json context
              (names_owner (json.get records (codes "dashUniqueIdentityId"))) transition
              unique_identity_mismatch
            ++ error_unless json context
                (names_owner (json.get records (codes "dashAliasIdentityId"))) transition
                alias_identity_mismatch))
      ++ error_unless json context
          (not (is_empty_name parent_name && not (bytes_eq context.owner_id top_level_identity)))
          transition wrong_top_level_identity

  abbrev pub bool_of : Option Bool → Run Bool
  bool_of none = err panicked
  bool_of (some b) = ok b

  -- `documents[0]`
  abbrev pub first_document : List (StoredDocument J) → Run (StoredDocument J)
  first_document [] = err panicked
  first_document (document ∷ documents) = ok document

  unfoldable pub parent_errors :
      Transition J → Bool → List (StoredDocument J) → Run (List TriggerError)
  parent_errors transition allow_subdomains documents = do
    let absent = error_unless json context (not (length documents == 0)) transition no_parent_domain
    parent ← first_document documents
    value ← json.get_value parent.fields (codes "subdomainRules.allowSubdomains")
    parent_allows ← bool_of (json.as_bool value)
    ok (
        absent
        ++ (error_unless json context (not allow_subdomains) transition subdomains_not_allowed
            ++ error_unless json context
                (not (not parent_allows && not (bytes_eq context.owner_id parent.owner_id)))
                transition not_parent_owner))

  abbrev pub parent_domain_errors : Transition J → Bytes → Bool → Run (List TriggerError)
  parent_domain_errors transition parent_name allow_subdomains =
      if is_empty_name parent_name then ok [] else (do
        documents ← context.fetch_documents (base_of transition).document_type (
            (codes "normalizedParentDomainName", grand_parent parent_name)
            ∷ (codes "normalizedLabel", parent_label parent_name)
            ∷ [])
        (if context.is_dry_run then ok [] else parent_errors transition allow_subdomains documents))

  unfoldable pub create_domain_data_trigger : Transition J → Option Bytes → Run (List TriggerError)
  unfolding name_errors parent_errors
  create_domain_data_trigger transition top_level_identity = do
    fields ← create_data transition
    identity ← ok_or top_level_identity (failed no_top_level_identity)
    label ← json.get_string fields (codes "label")
    normalized_label ← json.get_string fields (codes "normalizedLabel")
    parent_name ← json.get_string fields (codes "normalizedParentDomainName")
    preorder_salt ← json.get_bytes fields (codes "preorderSalt")
    records ← ok_or (json.get fields (codes "records")) (failed bad_property)
    rule ← json.get_value fields (codes "subdomainRules.allowSubdomains")
    allow_subdomains ← ok_or (json.as_bool rule) (failed bad_property)
    level ← parent_domain_errors transition parent_name allow_subdomains
    preorders ←
        context.fetch_documents (codes "preorder")
          ((codes "saltedDomainHash", hash (preorder_salt ++ normalized_label)) ∷ [])
    (if context.is_dry_run
        then ok []
        else ok (
            (name_errors transition label normalized_label parent_name records identity ++ level)
            ++ error_unless json context (not (length preorders == 0)) transition no_preorder))

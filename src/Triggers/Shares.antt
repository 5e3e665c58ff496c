-- ===== src/Triggers/Shares.antt =====
-- What the trigger of reward shares accepts: dpp/src/data_trigger/reward_share_data_triggers/mod.rs.
use rs_platform.Common.{
  ℕ, ◌+◌, ◌%◌, ◌<◌, ◌≤◌, ◌≡◌, ◌↔◌, refl, ◌∙◌, ap, Bool, true, false, Option, List, [], ◌∷◌, ◌++◌,
  Bytes, length, leb, leb→le, if◌then◌else◌, ok, u64_mod, arith, Bool-cases, inl, inr,
}
use rs_platform.Common.Int.{codes}
use rs_platform.Triggers.{
  Transition, base_of, Run, TriggerError, Json, StoredDocument, Context, create_data, error_unless,
  contains_id, is_some, add_percentages, share_errors, max_percentage, max_documents,
  create_masternode_reward_shares_data_trigger, not_a_masternode, no_pay_to_identity,
  too_many_shares, percentage_too_large,
}

leb_false→lt : (a b : ℕ) → leb a b ≡ false → b < a
leb_false→lt a b h = ground arith

lt→leb_false : (a b : ℕ) → b < a → leb a b ≡ false
lt→leb_false a b h = ground arith

le→leb : (a b : ℕ) → a ≤ b → leb a b ≡ true
le→leb a b h = ground arith

abbrev pub sum : List ℕ → ℕ
sum [] = 0
sum (share ∷ shares) = share + sum shares

module _ {J : Type 0} (json : Json J) (context : Context J) where
  -- The percentages of stored shares.
  abbrev pub HasShares : List (StoredDocument J) → List ℕ → Type 0
  HasShares [] [] = Unit
  HasShares [] (share ∷ shares) = ⊥
  HasShares (document ∷ documents) [] = ⊥
  HasShares (document ∷ documents) (share ∷ shares) =
      (json.get_u64 document.fields (codes "percentage") ≡ ok share) × HasShares documents shares

  add_percentages-sum :
      (total : ℕ) (documents : List (StoredDocument J)) (shares : List ℕ)
      → HasShares documents shares
      → total + sum shares < u64_mod
      → add_percentages json context total documents ≡ ok (total + sum shares)
  add_percentages-sum total [] [] has fits = ap ok (omega arith)
  add_percentages-sum total [] (share ∷ shares) has fits = elim has [ ]
  add_percentages-sum total (document ∷ documents) [] has fits = elim has [ ]
  add_percentages-sum total (document ∷ documents) (share ∷ shares) has fits =
      let small : (total + share) % u64_mod ≡ total + share = omega (arith, fits) in
      let rest = add_percentages-sum (total + share) documents shares has.1 (omega (arith, fits)) in
      rw (has.0, small) (rest ∙ ap ok (omega arith))

  -- The errors of the four tests.
  abbrev pub found_errors : Transition J → Bool → Bool → Bool → Bool → List TriggerError
  found_errors transition masternode identity many small =
      (error_unless json context masternode transition not_a_masternode
        ++ error_unless json context identity transition no_pay_to_identity)
      ++ (if many
          then error_unless json context false transition too_many_shares
          else error_unless json context small transition percentage_too_large)

  found_errors-nil :
      (transition : Transition J) (masternode identity many small : Bool)
      → (◌≡◌ {A = Run (List TriggerError)}
          (ok (found_errors transition masternode identity many small))
          (ok []))
        ↔ ((masternode ≡ true) × (identity ≡ true) × (many ≡ false) × (small ≡ true))
  found_errors-nil transition true true false true = (λ h. (refl, refl, refl, refl), λ h. refl)
  found_errors-nil transition false identity many small = (λ h. cc, λ h. cc)
  found_errors-nil transition true false many small = (λ h. cc, λ h. cc)
  found_errors-nil transition true true true small = (λ h. cc, λ h. cc)
  found_errors-nil transition true true false false = (λ h. cc, λ h. cc)

  share_errors-found :
      (transition : Transition J) (percentage : ℕ) (documents : List (StoredDocument J))
      (shares : List ℕ)
      → HasShares documents shares
      → percentage + sum shares < u64_mod
      → share_errors json context transition percentage documents
        ≡ ok (
            if leb max_documents (length documents)
            then error_unless json context false transition too_many_shares
            else error_unless json context
                (leb (percentage + sum shares) max_percentage)
                transition
                percentage_too_large)
  unfolding share_errors
  share_errors-found transition percentage documents shares has fits =
      elim (Bool-cases (leb max_documents (length documents))) [
        | inl many ↦ rw (share_errors, many) refl
        | inr few ↦
            let total = add_percentages-sum percentage documents shares has fits in
            rw (share_errors, few, total) refl
      ]

  bounds :
      (masternode identity : Bool) (n total : ℕ)
      → ((masternode ≡ true)
          × (identity ≡ true)
          × (leb max_documents n ≡ false)
          × (leb total max_percentage ≡ true))
        ↔ ((masternode ≡ true) × (identity ≡ true) × (n < max_documents) × (total ≤ max_percentage))
  bounds masternode identity n total = (
    λ h. (h.0, h.1, leb_false→lt max_documents n h.2, leb→le total max_percentage h.3),
    λ h. (h.0, h.1, lt→leb_false max_documents n h.2, le→leb total max_percentage h.3),
  )

  -- Outside a dry run, when the reads succeed and the percentages do not overflow, the trigger of
  -- reward shares finds no error exactly when the owner is a valid masternode, the identity to pay
  -- exists, the owner has fewer than 16 shares, and these with the new one come to 10000 at most.
  pub create_masternode_reward_shares_lem :
      (transition : Transition J) (top_level_identity : Option Bytes) {fields : J}
      {pay_to_id pay_to_identifier : Bytes} {percentage : ℕ} {nodes : List Bytes}
      {identity : Option Bytes} {documents : List (StoredDocument J)} (shares : List ℕ)
      → context.is_dry_run ≡ false
      → create_data transition ≡ ok fields
      → json.get_string fields (codes "payToId") ≡ ok pay_to_id
      → json.get_u64 fields (codes "percentage") ≡ ok percentage
      → context.fetch_valid_master_nodes ≡ ok nodes
      → json.identifier_from_base58 pay_to_id ≡ ok pay_to_identifier
      → context.fetch_identity pay_to_identifier ≡ ok identity
      → context.fetch_documents
          (base_of transition).document_type
          ((codes "$owner_id", context.owner_id) ∷ [])
        ≡ ok documents
      → HasShares documents shares
      → percentage + sum shares < u64_mod
      → (create_masternode_reward_shares_data_trigger json context transition top_level_identity
          ≡ ok [])
        ↔ ((contains_id context.owner_id nodes ≡ true)
            × (is_some identity ≡ true)
            × (length documents < max_documents)
            × (percentage + sum shares ≤ max_percentage))
  unfolding create_masternode_reward_shares_data_trigger
  create_masternode_reward_shares_lem transition top_level_identity {percentage} {nodes} {identity}
        {documents} shares applies created pay percent listed decoded identified found has fits =
      let masternode = contains_id context.owner_id nodes in
      let total = percentage + sum shares in
      let many = leb max_documents (length documents) in
      let checked = share_errors-found transition percentage documents shares has fits in
      let nil =
        found_errors-nil transition masternode (is_some identity) many (leb total max_percentage) in
      let within = bounds masternode (is_some identity) (length documents) total in
      rw (applies, created, pay, percent, listed, decoded, identified, found, checked)
        (λ h. within.0 (nil.0 h), λ h. nil.1 (within.1 h))

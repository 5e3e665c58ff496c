-- ===== src/Updates/Added.antt =====
-- What the validation of an update of an identity does not look at
-- (dpp/src/identity/state_transition/identity_update_transition).
use rs_platform.Common.{
  ℕ, ◌≡◌, refl, ap, Bool, Option, none, some, List, [], ◌∷◌, Bytes, Result, ok, if◌then◌else◌,
  >>=-pointwise,
}
use rs_platform.Keys.{IdentityPublicKey}
use rs_platform.Payouts.{Identity}
use rs_platform.Updates.{
  IdentityUpdateTransition, UpdateError, FatalError, disabled_at_errors, raw_key_errors,
  validate_stored, validate_found, validate,
}

found_lem :
    (validate_keys : List IdentityPublicKey → Result FatalError (List UpdateError))
    (fetch_identity : Bytes → Result FatalError (Option Identity))
    (fetch_latest_block_time : Result FatalError ℕ) (transition : IdentityUpdateTransition)
    (key other : IdentityPublicKey) (keys others : List IdentityPublicKey) (found : Option Identity)
    → validate_found validate_keys fetch_identity fetch_latest_block_time
        (record transition { add_public_keys = key ∷ keys })
        found
      ≡ validate_found validate_keys fetch_identity fetch_latest_block_time
          (record transition { add_public_keys = other ∷ others })
          found
unfolding validate_stored raw_key_errors disabled_at_errors
found_lem validate_keys fetch_identity fetch_latest_block_time transition key other keys others
      none =
    refl
found_lem validate_keys fetch_identity fetch_latest_block_time transition key other keys others
      (some identity) =
    refl

-- The validation does not look at the added keys: whichever keys are added, as long as there are
-- some, it returns the same.
pub validate-ignores_added :
    (validate_keys : List IdentityPublicKey → Result FatalError (List UpdateError))
    (fetch_identity : Bytes → Result FatalError (Option Identity))
    (fetch_latest_block_time : Result FatalError ℕ) (transition : IdentityUpdateTransition)
    (is_dry_run : Bool) (key other : IdentityPublicKey) (keys others : List IdentityPublicKey)
    → validate validate_keys fetch_identity fetch_latest_block_time
        (record transition { add_public_keys = key ∷ keys })
        is_dry_run
      ≡ validate validate_keys fetch_identity fetch_latest_block_time
          (record transition { add_public_keys = other ∷ others })
          is_dry_run
unfolding validate validate_stored raw_key_errors disabled_at_errors
validate-ignores_added validate_keys fetch_identity fetch_latest_block_time transition is_dry_run
      key other keys others =
    >>=-pointwise (fetch_identity transition.identity_id) λ found.
      ap (λ (r : Result FatalError (List UpdateError)). if is_dry_run then ok [] else r)
        (found_lem validate_keys fetch_identity fetch_latest_block_time transition key other keys
          others found)

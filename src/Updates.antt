-- ===== src/Updates.antt =====
-- Updates of an identity
-- (dpp/src/identity/state_transition/identity_update_transition:
-- validate_identity_update_transition_state.rs, validate_public_keys.rs,
-- apply_identity_update_transition.rs), with the required keys of
-- dpp/src/identity/validation/required_purpose_and_security_level_validator.rs. A raw key is the key
-- that it stands for.
use rs_platform.Common.{
  ℕ, ◌+◌, ◌-◌, ◌*◌, ◌%◌, Bool, true, false, not, ◌&&◌, ◌||◌, Option, none, some, List, [], ◌∷◌,
  ◌++◌, map, Bytes, ltb, ◌==◌, if◌then◌else◌, Result, ok, err, ◌>>=◌, ok_or, length, u64_mod,
}
use rs_platform.Keys.{
  KeyType, ecdsa_secp256k1, bls12_381, ecdsa_hash160, bip13_script_hash, Purpose, authentication,
  encryption, decryption, withdraw, SecurityLevel, master, is_same_level, IdentityPublicKey,
  duplicated_keys, duplicated_key_ids,
}
use rs_platform.Payouts.{Identity}
use rs_platform.Documents.{validate_time_in_block_time_window}
pub mod Master
pub mod Added
pub mod Tests

-- What the validation and the application read of the transition.
pub record IdentityUpdateTransition : Type 0 where
  pub identity_id : Bytes
  pub revision : ℕ
  pub add_public_keys : List IdentityPublicKey
  pub disable_public_keys : List ℕ
  pub public_keys_disabled_at : Option ℕ

pub data UpdateError : Type 0 where
  identity_not_found : Bytes → UpdateError
  invalid_identity_revision : Bytes → ℕ → UpdateError
  invalid_public_key_id public_key_is_read_only public_key_is_disabled : ℕ → UpdateError
  disabled_at_window_violation : ℕ → ℕ → ℕ → UpdateError
  max_public_key_limit_reached : ℕ → UpdateError
  duplicated_public_key_ids duplicated_public_keys : List ℕ → UpdateError
  missing_master_public_key : UpdateError

-- The errors that end the validation or the application.
pub data FatalError : Type 0 where
  repository_fetch_error public_keys_disabled_at_required empty_public_key_data : FatalError
  absent_identity : Bytes → FatalError

abbrev pub get_public_key_by_id : ℕ → List IdentityPublicKey → Option IdentityPublicKey
get_public_key_by_id id [] = none
get_public_key_by_id id (key ∷ keys) =
    let rest = get_public_key_by_id id keys in if key.id == id then some key else rest

abbrev pub is_disabled : IdentityPublicKey → Bool
is_disabled key = elim key.disabled_at [ none ↦ false | some time ↦ true ]

-- The assignment through `get_public_key_by_id_mut`, to the first key with the id.
unfoldable pub set_disabled_at : Option ℕ → ℕ → List IdentityPublicKey → List IdentityPublicKey
set_disabled_at time id [] = []
set_disabled_at time id (key ∷ keys) =
    let rest = set_disabled_at time id keys in
    if key.id == id then record key { disabled_at = time } ∷ keys else key ∷ rest

-- The loop over the ids.
abbrev pub disable_keys : Option ℕ → List ℕ → List IdentityPublicKey → List IdentityPublicKey
disable_keys time [] keys = keys
disable_keys time (id ∷ ids) keys = disable_keys time ids (set_disabled_at time id keys)

abbrev pub key_errors : ℕ → Option IdentityPublicKey → List UpdateError
key_errors id none = invalid_public_key_id id ∷ []
key_errors id (some key) =
    (if key.read_only then public_key_is_read_only id ∷ [] else [])
    ++ (if is_disabled key then public_key_is_disabled id ∷ [] else [])

-- The loop over the keys to disable.
unfoldable pub disable_errors : List ℕ → List IdentityPublicKey → List UpdateError
disable_errors [] keys = []
disable_errors (id ∷ ids) keys =
    key_errors id (get_public_key_by_id id keys) ++ disable_errors ids keys

abbrev pub is_empty {ℓ} : {A : Type ℓ} → List A → Bool
is_empty [] = true
is_empty (x ∷ xs) = false

-- The maximal number of keys stands in a JSON schema.
unfoldable pub validate_public_keys : ℕ → List IdentityPublicKey → List UpdateError
validate_public_keys max_items keys =
    let ids = duplicated_key_ids keys in
    let repeated = duplicated_keys keys in
    if ltb max_items (length keys)
    then max_public_key_limit_reached max_items ∷ []
    else (if is_empty ids then [] else duplicated_public_key_ids ids ∷ [])
      ++ (if is_empty repeated then [] else duplicated_public_keys repeated ∷ [])

abbrev pub is_same_purpose : Purpose → Purpose → Bool
is_same_purpose authentication authentication = true
is_same_purpose encryption encryption = true
is_same_purpose decryption decryption = true
is_same_purpose withdraw withdraw = true
is_same_purpose _ _ = false

-- `PurposeKey`
abbrev pub PurposeKey : Type 0
PurposeKey = Purpose × SecurityLevel

abbrev pub is_same_purpose_key : PurposeKey → PurposeKey → Bool
is_same_purpose_key first second =
    is_same_purpose first.0 second.0 && is_same_level first.1 second.1

abbrev pub or_zero : Option ℕ → ℕ
or_zero none = 0
or_zero (some n) = n

abbrev pub insert_purpose_count : PurposeKey → ℕ → (PurposeKey → Option ℕ) → PurposeKey → Option ℕ
insert_purpose_count combo count counts x =
    if is_same_purpose_key x combo then some count else counts x

-- The loop over the keys that are not disabled; the counts are a hash map.
unfoldable pub count_keys : List IdentityPublicKey → (PurposeKey → Option ℕ) → PurposeKey → Option ℕ
count_keys [] counts = counts
count_keys (key ∷ keys) counts =
    let combo : PurposeKey = (key.purpose, key.security_level) in
    let counted = insert_purpose_count combo (or_zero (counts combo) + 1) counts in
    count_keys keys (if is_disabled key then counts else counted)

abbrev pub missing_error : Option ℕ → List UpdateError
missing_error none = missing_master_public_key ∷ []
missing_error (some count) = []

-- `validate_keys` of `RequiredPurposeAndSecurityLevelValidator`
unfoldable pub validate_required_keys : List IdentityPublicKey → List UpdateError
unfolding count_keys
validate_required_keys keys =
    missing_error (count_keys keys (λ combo. none) (authentication, master))

abbrev pub window_error : ℕ → ℕ → List UpdateError
window_error last disabled_at =
    let window = validate_time_in_block_time_window last disabled_at in
    if window.valid
    then []
    else disabled_at_window_violation disabled_at window.time_window_start window.time_window_end
      ∷ []

-- `validate_keys` is the validator of added keys, `fetch_identity` and `fetch_latest_block_time` are
-- the state repository's.
module _ (validate_keys : List IdentityPublicKey → Result FatalError (List UpdateError))
    (fetch_identity : Bytes → Result FatalError (Option Identity))
    (fetch_latest_block_time : Result FatalError ℕ) where
  -- The check of the time of disabling, when keys are disabled.
  unfoldable pub disabled_at_errors :
      IdentityUpdateTransition → Result FatalError (List UpdateError)
  disabled_at_errors transition = if is_empty transition.disable_public_keys then ok [] else do
    time ← fetch_latest_block_time
    disabled_at ← ok_or transition.public_keys_disabled_at public_keys_disabled_at_required
    ok (window_error (time * 1000) disabled_at)

  -- The validators of keys, on the raw keys that were collected before the addition.
  unfoldable pub raw_key_errors :
      IdentityUpdateTransition → List IdentityPublicKey → Result FatalError (List UpdateError)
  raw_key_errors transition raw_public_keys = do
    added ← if is_empty transition.add_public_keys then ok [] else validate_keys raw_public_keys
    ok (if is_empty added then validate_required_keys raw_public_keys else added)

  -- From the check of the revision on.
  unfoldable pub validate_stored :
      IdentityUpdateTransition → Identity → Result FatalError (List UpdateError)
  unfolding raw_key_errors disabled_at_errors disable_errors
  validate_stored transition identity =
      let not_disabled = disable_errors transition.disable_public_keys identity.public_keys in
      let raw_public_keys =
        disable_keys transition.public_keys_disabled_at transition.disable_public_keys
          identity.public_keys in
      if not (identity.revision == (transition.revision + u64_mod - 1) % u64_mod)
      then ok (invalid_identity_revision transition.identity_id identity.revision ∷ [])
      else if not (is_empty not_disabled)
      then ok not_disabled
      else do
        in_window ← disabled_at_errors transition
        if is_empty in_window then raw_key_errors transition raw_public_keys else ok in_window

  abbrev pub validate_found :
      IdentityUpdateTransition → Option Identity → Result FatalError (List UpdateError)
  validate_found transition none = ok (identity_not_found transition.identity_id ∷ [])
  validate_found transition (some identity) = validate_stored transition identity

  -- `validate` of `IdentityUpdateTransitionStateValidator`
  unfoldable pub validate : IdentityUpdateTransition → Bool → Result FatalError (List UpdateError)
  unfolding validate_stored
  validate transition is_dry_run = do
    found ← fetch_identity transition.identity_id
    if is_dry_run then ok [] else validate_found transition found

-- `hash_of` is RIPEMD-160 after SHA-256.
module _ (hash_of : Bytes → Bytes) where
  abbrev pub hash_for : KeyType → Bytes → Bytes
  hash_for ecdsa_secp256k1 bytes = hash_of bytes
  hash_for bls12_381 bytes = hash_of bytes
  hash_for ecdsa_hash160 bytes = bytes
  hash_for bip13_script_hash bytes = bytes

  unfoldable pub hash : IdentityPublicKey → Result FatalError Bytes
  hash key =
      if is_empty key.data_bytes
      then err empty_public_key_data
      else ok (hash_for key.key_type key.data_bytes)

  unfoldable pub hashes : List IdentityPublicKey → Result FatalError (List Bytes)
  unfolding hash
  hashes [] = ok []
  hashes (key ∷ keys) = do first ← hash key; rest ← hashes keys; ok (first ∷ rest)

  -- The updated identity, and the hashes that are stored for it, if any.
  unfoldable pub apply_found :
      IdentityUpdateTransition → Option Identity → Result FatalError (Identity × List Bytes)
  unfolding hashes
  apply_found transition none = err (absent_identity transition.identity_id)
  apply_found transition (some identity) = do
    let disabled =
        disable_keys transition.public_keys_disabled_at transition.disable_public_keys
          identity.public_keys
    let unsigned =
        map (λ (key : IdentityPublicKey). record key { signature = [] }) transition.add_public_keys
    added ← hashes transition.add_public_keys
    ok (
      record identity { revision = transition.revision; public_keys = disabled ++ unsigned },
      added,
    )

  -- `apply_identity_update_transition`, not in a dry run.
  unfoldable pub apply_identity_update_transition :
      (Bytes → Result FatalError (Option Identity))
      → IdentityUpdateTransition
      → Result FatalError (Identity × List Bytes)
  unfolding apply_found
  apply_identity_update_transition fetch_identity transition = do
    found ← fetch_identity transition.identity_id
    apply_found transition found

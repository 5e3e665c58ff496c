-- ===== src/Keys.antt =====
-- The checks on an identity's public keys after their parsing:
-- dpp/src/identity/validation/public_keys_validator.rs, with the types of
-- dpp/src/identity/identity_public_key.rs. A hash map of counts is a function with default 0.
use rs_platform.Common.{
  ℕ, zero, suc, ◌+◌, Bool, true, false, ◌||◌, Option, none, some, List, [], ◌∷◌, ◌++◌, Bytes,
  bytes_eq, ltb, ◌==◌, if◌then◌else◌, Result, ok, err, ◌>>=◌, length,
}
pub mod Distinct
pub mod Tests

pub data KeyType : Type 0 where
  ecdsa_secp256k1 bls12_381 ecdsa_hash160 bip13_script_hash : KeyType

pub data Purpose : Type 0 where
  authentication encryption decryption withdraw : Purpose

pub data SecurityLevel : Type 0 where
  master critical high medium : SecurityLevel

pub record IdentityPublicKey : Type 0 where
  pub id : ℕ
  pub purpose : Purpose
  pub security_level : SecurityLevel
  pub key_type : KeyType
  pub data_bytes : Bytes
  pub read_only : Bool
  pub disabled_at : Option ℕ
  pub signature : Bytes

pub data KeyError : Type 0 where
  duplicated_ids duplicated_data : List ℕ → KeyError
  invalid_data : ℕ → KeyError
  invalid_security_level : ℕ → Purpose → SecurityLevel → List SecurityLevel → KeyError

-- The error that ends the validation.
pub data NonConsensusError : Type 0 where
  invalid_vector_size : NonConsensusError

-- Every purpose has an entry.
abbrev pub allowed_security_levels : Purpose → List SecurityLevel
allowed_security_levels authentication = master ∷ critical ∷ high ∷ medium ∷ []
allowed_security_levels encryption = medium ∷ []
allowed_security_levels decryption = medium ∷ []
allowed_security_levels withdraw = critical ∷ []

abbrev pub is_same_level : SecurityLevel → SecurityLevel → Bool
is_same_level master master = true
is_same_level critical critical = true
is_same_level high high = true
is_same_level medium medium = true
is_same_level _ _ = false

abbrev pub contains_level : List SecurityLevel → SecurityLevel → Bool
contains_level [] level = false
contains_level (l ∷ ls) level = is_same_level l level || contains_level ls level

abbrev pub insert_count {ℓ} : {K : Type ℓ} → (K → K → Bool) → K → ℕ → (K → ℕ) → K → ℕ
insert_count is_same k n counts x = if is_same x k then n else counts x

-- The loop over the keys, from some counts on: the ids of the keys that were counted before.
module _ {ℓ} {K : Type ℓ} (is_same : K → K → Bool) (field_of : IdentityPublicKey → K) where
  unfoldable pub duplicated : (K → ℕ) → List IdentityPublicKey → List ℕ
  duplicated counts [] = []
  duplicated counts (key ∷ keys) =
      let count = counts (field_of key) + 1 in
      let rest = duplicated (insert_count is_same (field_of key) count counts) keys in
      if ltb 1 count then key.id ∷ rest else rest

abbrev pub eq_nat : ℕ → ℕ → Bool
eq_nat m n = m == n

unfoldable pub duplicated_keys : List IdentityPublicKey → List ℕ
duplicated_keys keys = duplicated bytes_eq (λ key. key.data_bytes) (λ _. 0) keys

unfoldable pub duplicated_key_ids : List IdentityPublicKey → List ℕ
duplicated_key_ids keys = duplicated eq_nat (λ key. key.id) (λ _. 0) keys

abbrev pub report : (List ℕ → KeyError) → List ℕ → List KeyError
report error [] = []
report error (i ∷ is) = error (i ∷ is) ∷ []

abbrev pub report_data : Bool → ℕ → List KeyError
report_data true i = []
report_data false i = invalid_data i ∷ []

-- `parses_ecdsa` is `PublicKey::from_slice`, `validates_bls` the BLS module's check.
module _ (parses_ecdsa validates_bls : Bytes → Bool) where
  abbrev pub data_errors : KeyType → IdentityPublicKey → Result NonConsensusError (List KeyError)
  data_errors ecdsa_secp256k1 key =
      if length key.data_bytes == 33
      then ok (report_data (parses_ecdsa key.data_bytes) key.id)
      else err invalid_vector_size
  data_errors bls12_381 key = ok (report_data (validates_bls key.data_bytes) key.id)
  data_errors ecdsa_hash160 key = ok []
  data_errors bip13_script_hash key = ok []

  -- The loop over the keys' data.
  unfoldable pub all_data_errors : List IdentityPublicKey → Result NonConsensusError (List KeyError)
  all_data_errors [] = ok []
  all_data_errors (key ∷ keys) = do
    errors ← data_errors key.key_type key
    rest ← all_data_errors keys
    ok (errors ++ rest)

-- The loop over the keys' purposes and levels.
unfoldable pub level_errors : List IdentityPublicKey → List KeyError
level_errors [] = []
level_errors (key ∷ keys) =
    let levels = allowed_security_levels key.purpose in
    let rest = level_errors keys in
    if contains_level levels key.security_level
    then rest
    else invalid_security_level key.id key.purpose key.security_level levels ∷ rest

module _ (parses_ecdsa validates_bls : Bytes → Bool) where
  -- What `validate_keys` does with the parsed keys.
  unfoldable pub validate_parsed_keys :
      List IdentityPublicKey → Result NonConsensusError (List KeyError)
  unfolding duplicated_key_ids duplicated_keys
  validate_parsed_keys keys = do
    let ids = report duplicated_ids (duplicated_key_ids keys)
    let repeated = report duplicated_data (duplicated_keys keys)
    in_data ← all_data_errors parses_ecdsa validates_bls keys
    ok (ids ++ (repeated ++ (in_data ++ level_errors keys)))

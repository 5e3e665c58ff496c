-- ===== src/Keys/Distinct.antt =====
-- When the checks of dpp/src/identity/validation/public_keys_validator.rs report nothing.
use rs_platform.Common.{
  ℕ, ◌+◌, ◌≡◌, refl, ◌∙◌, Bool, true, false, not, ◌&&◌, List, [], ◌∷◌, ◌++◌, Bytes, bytes_eq, ◌==◌,
  Result, ok, err, ◌>>=◌, length, arith,
}
use rs_platform.Keys.{
  KeyType, ecdsa_secp256k1, bls12_381, ecdsa_hash160, bip13_script_hash, IdentityPublicKey,
  KeyError, duplicated_ids, duplicated_data, contains_level, allowed_security_levels, insert_count,
  duplicated, eq_nat, duplicated_keys, duplicated_key_ids, report, data_errors, all_data_errors,
  level_errors, validate_parsed_keys, NonConsensusError,
}

abbrev pub is_empty {ℓ} : {A : Type ℓ} → List A → Bool
is_empty [] = true
is_empty (x ∷ xs) = false

module _ {ℓ} {K : Type ℓ} (is_same : K → K → Bool) (field_of : IdentityPublicKey → K) where
  -- No key of the list has the field's value.
  unfoldable pub is_absent : K → List IdentityPublicKey → Bool
  is_absent k [] = true
  is_absent k (key ∷ keys) = not (is_same (field_of key) k) && is_absent k keys

  unfoldable pub all_distinct : List IdentityPublicKey → Bool
  all_distinct [] = true
  all_distinct (key ∷ keys) = is_absent (field_of key) keys && all_distinct keys

  none_counted : (K → ℕ) → List IdentityPublicKey → Bool
  none_counted counts [] = true
  none_counted counts (key ∷ keys) = counts (field_of key) == 0 && none_counted counts keys

  none_counted-insert_count :
      (counts : K → ℕ) (k : K) (n : ℕ) (keys : List IdentityPublicKey)
      → none_counted (insert_count is_same k (n + 1) counts) keys
        ≡ (none_counted counts keys && is_absent k keys)
  unfolding none_counted is_absent
  none_counted-insert_count counts k n [] = refl
  none_counted-insert_count counts k n (key ∷ keys) =
      ground (arith, none_counted-insert_count counts k n keys)

  duplicated_lem :
      (counts : K → ℕ) (keys : List IdentityPublicKey)
      → is_empty (duplicated is_same field_of counts keys)
        ≡ (none_counted counts keys && all_distinct keys)
  unfolding duplicated none_counted all_distinct
  duplicated_lem counts [] = refl
  duplicated_lem counts (key ∷ keys) =
      let n = counts (field_of key) in
      ground (
        arith,
        duplicated_lem (insert_count is_same (field_of key) (n + 1) counts) keys,
        none_counted-insert_count counts (field_of key) n keys,
      )

  none_counted_zero : (keys : List IdentityPublicKey) → none_counted (λ _. 0) keys ≡ true
  unfolding none_counted
  none_counted_zero [] = refl
  none_counted_zero (key ∷ keys) = none_counted_zero keys

-- Specification: a key whose data its type accepts, and whose level its purpose allows.
abbrev pub accepts : (Bytes → Bool) → (Bytes → Bool) → KeyType → Bytes → Bool
accepts parses_ecdsa validates_bls ecdsa_secp256k1 bytes = length bytes == 33 && parses_ecdsa bytes
accepts parses_ecdsa validates_bls bls12_381 bytes = validates_bls bytes
accepts parses_ecdsa validates_bls ecdsa_hash160 bytes = true
accepts parses_ecdsa validates_bls bip13_script_hash bytes = true

abbrev pub all_keys : (IdentityPublicKey → Bool) → List IdentityPublicKey → Bool
all_keys test [] = true
all_keys test (key ∷ keys) = test key && all_keys test keys

abbrev pub has_allowed_level : IdentityPublicKey → Bool
has_allowed_level key = contains_level (allowed_security_levels key.purpose) key.security_level

abbrev pub reports_nothing : Result NonConsensusError (List KeyError) → Bool
reports_nothing (ok []) = true
reports_nothing (ok (e ∷ es)) = false
reports_nothing (err e) = false

level_errors_lem :
    (keys : List IdentityPublicKey) → is_empty (level_errors keys) ≡ all_keys has_allowed_level keys
unfolding level_errors
level_errors_lem [] = refl
level_errors_lem (key ∷ keys) = ground (arith, level_errors_lem keys)

reports_nothing-both :
    (m n : Result NonConsensusError (List KeyError))
    → reports_nothing (m >>= λ xs. n >>= λ ys. ok (xs ++ ys))
      ≡ (reports_nothing m && reports_nothing n)
reports_nothing-both (err e) n = refl
reports_nothing-both (ok []) (err e) = refl
reports_nothing-both (ok []) (ok []) = refl
reports_nothing-both (ok []) (ok (y ∷ ys)) = refl
reports_nothing-both (ok (x ∷ xs)) (err e) = refl
reports_nothing-both (ok (x ∷ xs)) (ok ys) = refl

reports_nothing-around :
    (xs ys : List KeyError) (m : Result NonConsensusError (List KeyError)) (zs : List KeyError)
    → reports_nothing (m >>= λ es. ok (xs ++ (ys ++ (es ++ zs))))
      ≡ (is_empty xs && (is_empty ys && (reports_nothing m && is_empty zs)))
reports_nothing-around [] [] (err e) zs = refl
reports_nothing-around [] [] (ok []) [] = refl
reports_nothing-around [] [] (ok []) (z ∷ zs) = refl
reports_nothing-around [] [] (ok (e ∷ es)) zs = refl
reports_nothing-around [] (y ∷ ys) (err e) zs = refl
reports_nothing-around [] (y ∷ ys) (ok es) zs = refl
reports_nothing-around (x ∷ xs) ys (err e) zs = refl
reports_nothing-around (x ∷ xs) ys (ok es) zs = refl

report_lem : (error : List ℕ → KeyError) (is : List ℕ) → is_empty (report error is) ≡ is_empty is
report_lem error [] = refl
report_lem error (i ∷ is) = refl

not_duplicated :
    {K : Type 0} (is_same : K → K → Bool) (field_of : IdentityPublicKey → K)
    (error : List ℕ → KeyError) (keys : List IdentityPublicKey)
    → is_empty (report error (duplicated is_same field_of (λ _. 0) keys))
      ≡ all_distinct is_same field_of keys
not_duplicated is_same field_of error keys =
    report_lem error (duplicated is_same field_of (λ _. 0) keys)
    ∙ duplicated_lem is_same field_of (λ _. 0) keys
    ∙ rw (none_counted_zero is_same field_of keys) refl

module _ (parses_ecdsa validates_bls : Bytes → Bool) where
  abbrev pub has_valid_data : IdentityPublicKey → Bool
  has_valid_data key = accepts parses_ecdsa validates_bls key.key_type key.data_bytes

  data_errors_lem :
      (key_type : KeyType) (key : IdentityPublicKey)
      → reports_nothing (data_errors parses_ecdsa validates_bls key_type key)
        ≡ accepts parses_ecdsa validates_bls key_type key.data_bytes
  data_errors_lem ecdsa_secp256k1 key = ground arith
  data_errors_lem bls12_381 key = ground arith
  data_errors_lem ecdsa_hash160 key = refl
  data_errors_lem bip13_script_hash key = refl

  all_data_errors_lem :
      (keys : List IdentityPublicKey)
      → reports_nothing (all_data_errors parses_ecdsa validates_bls keys)
        ≡ all_keys has_valid_data keys
  unfolding all_data_errors
  all_data_errors_lem [] = refl
  all_data_errors_lem (key ∷ keys) =
      reports_nothing-both (data_errors parses_ecdsa validates_bls key.key_type key)
        (all_data_errors parses_ecdsa validates_bls keys)
      ∙ rw (data_errors_lem key.key_type key, all_data_errors_lem keys) refl

  -- The keys pass without a report exactly when no two have the same id, no two have the same data,
  -- each has data that its type accepts (33 bytes that parse for ECDSA, what the BLS module
  -- accepts for BLS, anything for hashes), and each has a level that its purpose allows.
  pub validate_parsed_keys-reports_nothing :
      (keys : List IdentityPublicKey)
      → reports_nothing (validate_parsed_keys parses_ecdsa validates_bls keys) ≡ (
          all_distinct eq_nat (λ key. key.id) keys
          && (all_distinct bytes_eq (λ key. key.data_bytes) keys
              && (all_keys has_valid_data keys && all_keys has_allowed_level keys)))
  unfolding validate_parsed_keys duplicated_key_ids duplicated_keys
  validate_parsed_keys-reports_nothing keys =
      let same_id = report duplicated_ids (duplicated eq_nat (λ key. key.id) (λ _. 0) keys) in
      let same_data =
        report duplicated_data (duplicated bytes_eq (λ key. key.data_bytes) (λ _. 0) keys) in
      reports_nothing-around same_id same_data (all_data_errors parses_ecdsa validates_bls keys)
        (level_errors keys)
      ∙ rw
          (
            not_duplicated eq_nat (λ key. key.id) duplicated_ids keys,
            not_duplicated bytes_eq (λ key. key.data_bytes) duplicated_data keys,
            all_data_errors_lem keys,
            level_errors_lem keys,
          )
          refl

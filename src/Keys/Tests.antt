-- ===== src/Keys/Tests.antt =====
-- The checks of some keys.
use rs_platform.Common.{◌≡◌, refl, Bool, true, false, none, [], ◌∷◌, Bytes, ok}
use rs_platform.Keys.{
  bls12_381, authentication, withdraw, master, high, IdentityPublicKey, invalid_security_level,
  critical, duplicated_ids, level_errors, validate_parsed_keys, duplicated, duplicated_keys,
  duplicated_key_ids, all_data_errors,
}
use rs_platform.Keys.Distinct.{
  is_absent, all_distinct, reports_nothing, validate_parsed_keys-reports_nothing,
}

abbrev first_key : IdentityPublicKey
first_key = record {
  id = 0;
  purpose = authentication;
  security_level = master;
  key_type = bls12_381;
  data_bytes = 1 ∷ 2 ∷ [];
  read_only = false;
  disabled_at = none;
  signature = [];
}

abbrev second_key : IdentityPublicKey
second_key = record first_key { id = 1; data_bytes = 3 ∷ [] }

abbrev misplaced_key : IdentityPublicKey
misplaced_key = record second_key { purpose = withdraw; security_level = high; id = 0 }

abbrev refuses : Bytes → Bool
refuses bytes = false

abbrev accepts_all : Bytes → Bool
accepts_all bytes = true

misplaced :
    validate_parsed_keys refuses accepts_all (first_key ∷ misplaced_key ∷ [])
    ≡ ok (duplicated_ids (0 ∷ []) ∷ invalid_security_level 0 withdraw high (critical ∷ []) ∷ [])
unfolding validate_parsed_keys level_errors all_data_errors duplicated_keys duplicated_key_ids
    duplicated
misplaced = refl

validate_parsed_keys-reports_nothing_example :
    reports_nothing (validate_parsed_keys refuses accepts_all (first_key ∷ second_key ∷ [])) ≡ true
unfolding all_distinct is_absent
validate_parsed_keys-reports_nothing_example =
    validate_parsed_keys-reports_nothing refuses accepts_all (first_key ∷ second_key ∷ [])

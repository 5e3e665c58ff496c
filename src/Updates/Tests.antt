-- ===== src/Updates/Tests.antt =====
-- Runs of the updates of an identity on concrete inputs.
use rs_platform.Common.{
  ℕ, ◌+◌, ◌%◌, ◌≡◌, refl, true, false, Option, none, some, List, [], ◌∷◌, Bytes, Result, ok,
  u64_mod, arith,
}
use rs_platform.Keys.{bls12_381, authentication, master, high, IdentityPublicKey}
use rs_platform.Payouts.{Identity}
use rs_platform.Documents.{validate_time_in_block_time_window}
use rs_platform.Updates.{
  IdentityUpdateTransition, UpdateError, FatalError, disable_errors, set_disabled_at, validate,
  validate_stored, disabled_at_errors, raw_key_errors, validate_required_keys, count_keys, hash,
  hashes, apply_found, apply_identity_update_transition,
}
use rs_platform.Updates.Master.{has_master, apply_identity_update_transition-has_master}
use rs_platform.Updates.Added.{validate-ignores_added}

abbrev master_key : IdentityPublicKey
master_key = record {
  id = 0;
  purpose = authentication;
  security_level = master;
  key_type = bls12_381;
  data_bytes = 1 ∷ 2 ∷ [];
  read_only = false;
  disabled_at = none;
  signature = [];
}

abbrev old_key : IdentityPublicKey
old_key = record master_key { id = 1; security_level = high; data_bytes = 3 ∷ [] }

abbrev new_key : IdentityPublicKey
new_key = record master_key { id = 2; data_bytes = 4 ∷ []; signature = 9 ∷ [] }

abbrev stored : Identity
stored = record {
  protocol_version = 1;
  id = 7 ∷ [];
  public_keys = master_key ∷ old_key ∷ [];
  balance = 100;
  revision = 4;
}

abbrev fetch : Bytes → Result FatalError (Option Identity)
fetch id = ok (some stored)

abbrev update : IdentityUpdateTransition
update = record {
  identity_id = 7 ∷ [];
  revision = 5;
  add_public_keys = new_key ∷ [];
  disable_public_keys = 1 ∷ [];
  public_keys_disabled_at = some 1660000100000;
}

abbrev no_errors : List IdentityPublicKey → Result FatalError (List UpdateError)
no_errors keys = ok []

abbrev block_time : Result FatalError ℕ
block_time = ok 1660000000

accepted : validate no_errors fetch block_time update false ≡ ok []
unfolding validate validate_stored disabled_at_errors raw_key_errors disable_errors set_disabled_at
    validate_required_keys count_keys validate_time_in_block_time_window
accepted = refl

abbrev updated : Identity
updated = record stored {
  public_keys =
      master_key
      ∷ record old_key { disabled_at = some 1660000100000 }
      ∷ record new_key { signature = [] }
      ∷ [];
  revision = 5;
}

-- A hash for the run.
abbrev hash_of : Bytes → Bytes
hash_of bytes = 0 ∷ bytes

applied : apply_identity_update_transition hash_of fetch update ≡ ok (updated, (0 ∷ 4 ∷ []) ∷ [])
unfolding apply_identity_update_transition apply_found hashes hash set_disabled_at
applied = refl

apply_identity_update_transition-has_master_example :
    (has_master updated.public_keys ≡ true) × (updated.revision ≡ (stored.revision + 1) % u64_mod)
apply_identity_update_transition-has_master_example =
    apply_identity_update_transition-has_master no_errors fetch block_time hash_of update stored
      updated ((0 ∷ 4 ∷ []) ∷ []) (omega arith) refl accepted applied

-- A key with the id of a stored one is added like a new one.
validate-ignores_added_example :
    validate no_errors fetch block_time (record update { add_public_keys = new_key ∷ [] }) false
    ≡ validate no_errors fetch block_time
        (record update { add_public_keys = master_key ∷ [] })
        false
validate-ignores_added_example =
    validate-ignores_added no_errors fetch block_time update false new_key master_key [] []

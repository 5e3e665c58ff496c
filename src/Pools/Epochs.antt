-- ===== src/Pools/Epochs.antt =====
-- The keys of epochs (drive/src/fee_pools/epochs/paths.rs) and stored 64-bit amounts.
use rs_platform.Common.{
  ℕ, ◌+◌, ◌/◌, ◌%◌, ◌<◌, ◌≡◌, List, [], ◌∷◌, Bytes, ltb, if◌then◌else◌, ok, err, ◌>>=◌, ap, ◌-◌,
  u16_mod, u64_mod, arith,
}
use rs_platform.Pools.{
  index_too_high, epoch_storage_offset, encode_epoch_index_key, decode_epoch_index_key, new_epoch,
  be_value, u64_to_be_bytes, u64_from_be_bytes,
}

-- An index is encoded exactly when it stays below 2^16 with the offset 256, and is then read back
-- from its key; it is an error otherwise.
decode_epoch_index_key-encode_epoch_index_key :
    (index : ℕ)
    → (encode_epoch_index_key index >>= decode_epoch_index_key)
      ≡ (if ltb index (u16_mod - epoch_storage_offset) then ok index else err index_too_high)
unfolding encode_epoch_index_key decode_epoch_index_key
decode_epoch_index_key-encode_epoch_index_key index = ground arith

-- The key that an index has when it is not too high.
abbrev pub key_of : ℕ → Bytes
key_of index = (index + epoch_storage_offset) / 256 ∷ (index + epoch_storage_offset) % 256 ∷ []

abbrev pub path_of : ℕ → List Bytes
path_of index = key_of index ∷ []

pub new_epoch_lem :
    (i : ℕ)
    → i + epoch_storage_offset < u16_mod
    → new_epoch i ≡ ok (record { index = i; key = key_of i })
unfolding new_epoch encode_epoch_index_key
new_epoch_lem i h = ground arith

pub be_value-u64_to_be_bytes : (n : ℕ) → n < u64_mod → be_value 0 (u64_to_be_bytes n) ≡ n
unfolding u64_to_be_bytes
be_value-u64_to_be_bytes n h = omega arith

pub u64_from_be_bytes-u64_to_be_bytes :
    (n : ℕ) → n < u64_mod → u64_from_be_bytes (u64_to_be_bytes n) ≡ ok n
unfolding u64_from_be_bytes u64_to_be_bytes
u64_from_be_bytes-u64_to_be_bytes n h = ap ok (be_value-u64_to_be_bytes n h)

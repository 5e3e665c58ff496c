-- ===== src/Flags/Tests.antt =====
-- Runs of the storage flags' operations, and the theorems about them at concrete inputs.
use rs_platform.Common.{
  ℕ, ◌+◌, ◌*◌, ◌/◌, ◌%◌, ◌^◌, ◌<◌, ◌≡◌, ◌≢◌, ◌↔◌, refl, Option, none, some, [], ◌∷◌, ◌++◌, Bytes,
  ok, err, length, replicate, u32_mod, arith,
}
use rs_platform.Common.SortedMap.{get, insert, remove, IsSorted}
use rs_platform.Flags.{
  StorageFlags, single_epoch, multi_epoch, multi_epoch_owned, EpochMap, base_epoch, owner_id,
  fuel_exhausted, combine_added_bytes, combine_removed_bytes, sectioned_storage_removal,
  default_owner, epoch_index_map, remove_sections, combine_same_base_epoch,
  combine_with_higher_base_epoch, combine_with_higher_base_epoch_remove_bytes, combine_owner_id,
  combine_owners, combine_non_base_epoch_bytes, combine_maps, add_bytes, rebuild, subtract_removed,
  lookup_owner, StorageRemovedBytes,
}
use rs_platform.Flags.Codec.{VarInt, serialize, deserialize}
use rs_platform.Flags.Codec.RoundTrip.{deserialize-serialize}
use rs_platform.Flags.Codec.Owned.{deserialize_total, multi_epoch_owned_not_read_back}
use rs_platform.Flags.Merge.{map_of, bytes_at, extra_at, combine_added_bytes-bytes_at}
use rs_platform.Flags.Subtract.{Covers, remove_sections_succeeds, combine_removed_bytes-bytes_at}
use rs_platform.Flags.Removal.{split_storage_removed_bytes, sectioned_removal, take_sections}
use rs_platform.Flags.Removal.Total.{AccountsFor, split_storage_removed_bytes-AccountsFor}

-- A coding in four bytes, which meets the laws of `VarInt`.
abbrev pub encode_fixed : ℕ → Bytes
encode_fixed n = n / 2 ^ 24 ∷ n / 2 ^ 16 % 256 ∷ n / 256 % 256 ∷ n % 256 ∷ []

abbrev pub decode_fixed : Bytes → Option (ℕ × ℕ)
decode_fixed (a ∷ b ∷ c ∷ d ∷ rest) = some (a * 2 ^ 24 + b * 2 ^ 16 + c * 256 + d, 4)
decode_fixed _ = none

pub fixed_law :
    (n : ℕ) (rest : Bytes)
    → n < u32_mod
    → decode_fixed (encode_fixed n ++ rest) ≡ some (n, length (encode_fixed n))
fixed_law n rest h = ground arith

abbrev pub fixed : VarInt
fixed = record {
  encode_var_vec = encode_fixed;
  decode_var = decode_fixed;
  encode_not_empty = λ n. omega arith;
  decode-encode = fixed_law;
}

abbrev later : EpochMap
later = (7, 20) ∷ (9, 40) ∷ []

abbrev owner : Bytes
owner = replicate 32 1

deserialize-serialize_example :
    deserialize fixed (serialize fixed (multi_epoch 5 later)) ≡ ok (some (multi_epoch 5 later))
deserialize-serialize_example =
    deserialize-serialize fixed (multi_epoch 5 later)
      (omega arith, (omega arith, omega arith, λ e. cc))

deserialize_total_example : deserialize fixed (3 ∷ 0 ∷ []) ≢ err fuel_exhausted
deserialize_total_example = deserialize_total fixed (3 ∷ 0 ∷ [])

multi_epoch_owned_not_read_back_example :
    deserialize fixed (serialize fixed (multi_epoch_owned 5 later owner))
    ≢ ok (some (multi_epoch_owned 5 later owner))
unfolding get
multi_epoch_owned_not_read_back_example =
    multi_epoch_owned_not_read_back fixed 5 later 1 1 1 1 (replicate 28 1) refl

abbrev merged : StorageFlags
merged = multi_epoch 5 ((6, 8) ∷ (7, 20) ∷ (9, 40) ∷ [])

run_merge : combine_added_bytes (multi_epoch 5 later) (single_epoch 6) 8 ≡ ok merged
unfolding combine_added_bytes combine_same_base_epoch combine_with_higher_base_epoch base_epoch
    combine_owner_id combine_owners owner_id combine_non_base_epoch_bytes combine_maps
    epoch_index_map add_bytes get remove insert rebuild
run_merge = refl

later-IsSorted : IsSorted (map_of (multi_epoch 5 later))
unfolding epoch_index_map
later-IsSorted = omega arith

single-IsSorted : (n : ℕ) → IsSorted (map_of (single_epoch n))
unfolding epoch_index_map
single-IsSorted n = tt

combine_added_bytes-bytes_at_example :
    (base_epoch merged ≡ base_epoch (multi_epoch 5 later))
    × IsSorted (map_of merged)
    × ((j : ℕ)
        → bytes_at j (map_of merged) % u32_mod
          ≡ (bytes_at j (map_of (multi_epoch 5 later))
              + bytes_at j (map_of (single_epoch 6))
              + extra_at (base_epoch (multi_epoch 5 later)) (base_epoch (single_epoch 6)) 8 j)
            % u32_mod)
combine_added_bytes-bytes_at_example =
    combine_added_bytes-bytes_at (multi_epoch 5 later) (single_epoch 6) merged 8 later-IsSorted
      (single-IsSorted 6) run_merge

remove_sections_succeeds_example :
    ((m : EpochMap) × (remove_sections later ((7, 5) ∷ []) ≡ ok m)) ↔ Covers later ((7, 5) ∷ [])
remove_sections_succeeds_example =
    remove_sections_succeeds later ((7, 5) ∷ []) (omega arith) (omega arith)

abbrev reduced : StorageFlags
reduced = multi_epoch 5 ((7, 15) ∷ (9, 40) ∷ [])

run_removal :
    combine_removed_bytes
      (multi_epoch 5 later)
      (single_epoch 6)
      (sectioned_storage_removal ((default_owner, (7, 5) ∷ []) ∷ []))
    ≡ ok reduced
unfolding combine_removed_bytes combine_same_base_epoch combine_with_higher_base_epoch_remove_bytes
    base_epoch combine_owner_id combine_owners owner_id combine_non_base_epoch_bytes combine_maps
    epoch_index_map get insert rebuild subtract_removed remove_sections lookup_owner
run_removal = refl

combine_removed_bytes-bytes_at_example :
    (base_epoch reduced ≡ base_epoch (multi_epoch 5 later))
    × ((j : ℕ)
        → (bytes_at j (map_of reduced) + bytes_at j ((7, 5) ∷ [])) % u32_mod
          ≡ (bytes_at j (map_of (multi_epoch 5 later)) + bytes_at j (map_of (single_epoch 6)))
            % u32_mod)
unfolding base_epoch
combine_removed_bytes-bytes_at_example =
    combine_removed_bytes-bytes_at (multi_epoch 5 later) (single_epoch 6) reduced default_owner
      ((7, 5) ∷ []) later-IsSorted (single-IsSorted 6) (omega arith) (omega arith) (omega arith)
      run_removal

-- Ten bytes, all held by epoch 7: its section is recorded with no bytes at all.
run_split :
    split_storage_removed_bytes (multi_epoch 5 later) 10 70
    ≡ ok (
      sectioned_storage_removal ((default_owner, (7, 0) ∷ []) ∷ []),
      sectioned_storage_removal ((default_owner, (5, 10) ∷ (7, 20) ∷ (9, 40) ∷ []) ∷ []),
    )
unfolding split_storage_removed_bytes sectioned_removal take_sections insert
run_split = refl

split_storage_removed_bytes-AccountsFor_example :
    (ks vs : StorageRemovedBytes) × (split_storage_removed_bytes (multi_epoch 5 later) 10 70
      ≡ ok (ks, vs))
    × AccountsFor 10 (map_of (multi_epoch 5 later)) ks
    × AccountsFor 70 (map_of (multi_epoch 5 later)) vs
unfolding base_epoch epoch_index_map
split_storage_removed_bytes-AccountsFor_example =
    split_storage_removed_bytes-AccountsFor (multi_epoch 5 later) 10 70 (omega arith) (omega arith)

-- ===== src/Flags/Codec.antt =====
-- `serialize` and `deserialize` of drive/src/drive/flags.rs. The variable-length integers are
-- those of the crate `integer_encoding`, a parameter here.
use rs_platform.Common.{
  ℕ, zero, suc, ◌+◌, ◌*◌, ◌/◌, ◌%◌, ◌<◌, ◌≡◌, Bool, true, false, Option, none, some, List, [], ◌∷◌,
  ◌++◌, Bytes, ltb, ◌==◌, if◌then◌else◌, Result, ok, err, ◌>>=◌, ok_or, length, take, drop, u32_mod,
}
use rs_platform.Common.SortedMap.{get, insert}
use rs_platform.Flags.{
  StorageFlags, single_epoch, multi_epoch, single_epoch_owned, multi_epoch_owned, FlagsError,
  wrong_size, unknown_flags_type, fuel_exhausted, FlagsResult, EpochMap,
}
pub mod RoundTrip
pub mod Owned

-- `VarInt` for `u32`: `decode_var` reads a prefix and returns the value and the bytes it took, and
-- reads back what `encode_var_vec` wrote, whatever follows.
pub record VarInt : Type 0 where
  pub encode_var_vec : ℕ → Bytes
  pub decode_var : Bytes → Option (ℕ × ℕ)
  pub encode_not_empty : (n : ℕ) → 0 < length (encode_var_vec n)
  pub decode-encode :
      (n : ℕ) (rest : Bytes)
      → n < u32_mod
      → decode_var (encode_var_vec n ++ rest) ≡ some (n, length (encode_var_vec n))

-- `u16::to_be_bytes` and `u16::from_be_bytes`
unfoldable pub to_be_bytes : ℕ → Bytes
to_be_bytes n = n / 256 % 256 ∷ n % 256 ∷ []

unfoldable pub from_be_bytes : Bytes → FlagsResult ℕ
from_be_bytes (h ∷ l ∷ []) = ok (h * 256 + l)
from_be_bytes _ = err wrong_size

unfoldable pub type_byte : StorageFlags → ℕ
type_byte (single_epoch _) = 0
type_byte (multi_epoch _ _) = 1
type_byte (single_epoch_owned _ _) = 2
type_byte (multi_epoch_owned _ _ _) = 3

unfoldable pub append_to_vec_base_epoch : StorageFlags → Bytes → Bytes
unfolding to_be_bytes
append_to_vec_base_epoch (single_epoch base) buffer = buffer ++ to_be_bytes base
append_to_vec_base_epoch (multi_epoch base _) buffer = buffer ++ to_be_bytes base
append_to_vec_base_epoch (single_epoch_owned base _) buffer = buffer ++ to_be_bytes base
append_to_vec_base_epoch (multi_epoch_owned base _ _) buffer = buffer ++ to_be_bytes base

unfoldable pub maybe_append_to_vec_owner_id : StorageFlags → Bytes → Bytes
maybe_append_to_vec_owner_id (single_epoch_owned _ owner) buffer = buffer ++ owner
maybe_append_to_vec_owner_id (multi_epoch_owned _ _ owner) buffer = buffer ++ owner
maybe_append_to_vec_owner_id (single_epoch _) buffer = buffer
maybe_append_to_vec_owner_id (multi_epoch _ _) buffer = buffer

unfoldable pub deserialize_single_epoch : Bytes → FlagsResult StorageFlags
unfolding from_be_bytes
deserialize_single_epoch bytes =
    if length bytes == 3
    then (do epoch ← from_be_bytes (take 2 (drop 1 bytes)); ok (single_epoch epoch))
    else err wrong_size

unfoldable pub deserialize_single_epoch_owned : Bytes → FlagsResult StorageFlags
unfolding from_be_bytes
deserialize_single_epoch_owned bytes =
    if length bytes == 35
    then (do
      let owner = take 32 (drop 1 bytes)
      epoch ← from_be_bytes (take 2 (drop 33 bytes))
      ok (single_epoch_owned epoch owner))
    else err wrong_size

module _ (v : VarInt) where
  open v use {encode_var_vec, decode_var}

  -- The `for_each` over a map's entries.
  unfoldable pub epoch_map_bytes : EpochMap → Bytes
  unfolding to_be_bytes
  epoch_map_bytes [] = []
  epoch_map_bytes ((epoch, bytes) ∷ m) =
      to_be_bytes epoch ++ (encode_var_vec bytes ++ epoch_map_bytes m)

  unfoldable pub maybe_append_to_vec_epoch_map : StorageFlags → Bytes → Bytes
  unfolding epoch_map_bytes
  maybe_append_to_vec_epoch_map (multi_epoch _ m) buffer = buffer ++ epoch_map_bytes m
  maybe_append_to_vec_epoch_map (multi_epoch_owned _ m _) buffer = buffer ++ epoch_map_bytes m
  maybe_append_to_vec_epoch_map (single_epoch _) buffer = buffer
  maybe_append_to_vec_epoch_map (single_epoch_owned _ _) buffer = buffer

  unfoldable pub serialize : StorageFlags → Bytes
  unfolding type_byte maybe_append_to_vec_owner_id append_to_vec_base_epoch
      maybe_append_to_vec_epoch_map
  serialize flags =
      let buffer = type_byte flags ∷ [] in
      let with_owner = maybe_append_to_vec_owner_id flags buffer in
      let with_base = append_to_vec_base_epoch flags with_owner in
      maybe_append_to_vec_epoch_map flags with_base

  -- The `while offset + 2 < len` loop on the bytes from `offset` on. Each round takes two bytes at
  -- least, so the length of the bytes is enough fuel.
  unfoldable pub read_epoch_map : ℕ → Bytes → EpochMap → FlagsResult EpochMap
  unfolding from_be_bytes
  read_epoch_map zero bytes m = err fuel_exhausted
  read_epoch_map (suc fuel) bytes m = elim (ltb 2 (length bytes)) [
    | true ↦ (do
      epoch ← from_be_bytes (take 2 bytes)
      used ← ok_or (decode_var (drop 2 bytes)) wrong_size
      read_epoch_map fuel (drop used.1 (drop 2 bytes)) (insert epoch used.0 m))
    | false ↦ ok m
  ]

  unfoldable pub deserialize_multi_epoch : Bytes → FlagsResult StorageFlags
  deserialize_multi_epoch bytes = if ltb (length bytes) 6 then err wrong_size else do
    base ← from_be_bytes (take 2 (drop 1 bytes))
    m ← read_epoch_map (suc (length bytes)) (drop 3 bytes) []
    ok (multi_epoch base m)

  -- The loop starts at offset 3, as in `deserialize_multi_epoch`.
  unfoldable pub deserialize_multi_epoch_owned : Bytes → FlagsResult StorageFlags
  deserialize_multi_epoch_owned bytes = if ltb (length bytes) 38 then err wrong_size else do
    let owner = take 32 (drop 1 bytes)
    base ← from_be_bytes (take 2 (drop 33 bytes))
    m ← read_epoch_map (suc (length bytes)) (drop 3 bytes) []
    ok (multi_epoch_owned base m owner)

  unfoldable pub deserialize : Bytes → FlagsResult (Option StorageFlags)
  unfolding deserialize_single_epoch deserialize_single_epoch_owned deserialize_multi_epoch
      deserialize_multi_epoch_owned
  deserialize [] = ok none
  deserialize (first ∷ rest) =
      if first == 0
      then (do flags ← deserialize_single_epoch (first ∷ rest); ok (some flags))
      else if first == 1
      then (do flags ← deserialize_multi_epoch (first ∷ rest); ok (some flags))
      else if first == 2
      then (do flags ← deserialize_single_epoch_owned (first ∷ rest); ok (some flags))
      else if first == 3
      then (do flags ← deserialize_multi_epoch_owned (first ∷ rest); ok (some flags))
      else err unknown_flags_type

-- ===== src/Flags/Codec/RoundTrip.antt =====
-- What `deserialize` makes of the bytes that `serialize` wrote (drive/src/drive/flags.rs).
use rs_platform.Common.{
  ℕ, zero, suc, ◌+◌, ◌*◌, ◌/◌, ◌%◌, ◌≤◌, ◌<◌, ◌≡◌, ◌≢◌, refl, ap, some, [], ◌∷◌, ◌++◌, Bytes, ok,
  ◌>>=◌, length, take, drop, length-append, take-append_length, drop-append_length, u16_mod,
  u32_mod, arith, All, ok_or, lt→ltb, subst, append_assoc, append-nil,
}
use rs_platform.Common.SortedMap.{insert, IsSorted, Above}
use rs_platform.Flags.{
  StorageFlags, single_epoch, multi_epoch, single_epoch_owned, multi_epoch_owned, wrong_size,
  EpochMap,
}
use rs_platform.Flags.Codec.{
  VarInt, to_be_bytes, from_be_bytes, epoch_map_bytes, serialize, read_epoch_map, deserialize,
}

-- The values of a map fit their machine types.
abbrev pub FitsEntry : ℕ × ℕ → Type 0
FitsEntry (epoch, bytes) = (epoch < u16_mod) × (bytes < u32_mod)

-- Flags as the program holds them: values that fit, ascending keys, and a map that is not empty.
abbrev pub IsMap : EpochMap → Type 0
IsMap m = All FitsEntry m × IsSorted m × (m ≢ [])

-- All flags but those with an owner and a map, which do not survive.
abbrev pub IsStorable : StorageFlags → Type 0
IsStorable (single_epoch base) = base < u16_mod
IsStorable (multi_epoch base m) = (base < u16_mod) × IsMap m
IsStorable (single_epoch_owned base owner) = (base < u16_mod) × (length owner ≡ 32)
IsStorable (multi_epoch_owned base m owner) = ⊥

pub from_be_bytes-to_be_bytes : (n : ℕ) → n < u16_mod → from_be_bytes (to_be_bytes n) ≡ ok n
unfolding from_be_bytes to_be_bytes
from_be_bytes-to_be_bytes n h = ap ok (omega arith)

join_bytes : (n : ℕ) → n < u16_mod → n / 256 % 256 * 256 + n % 256 ≡ n
join_bytes n h = omega arith

Above-append : (lo k v : ℕ) (xs m : EpochMap) → Above lo (xs ++ (k, v) ∷ m) → lo ≤ k
Above-append lo k v [] m h = h.0
Above-append lo k v ((j, w) ∷ xs) m h = Above-append lo k v xs m h.1

-- A key above all others goes to the end.
insert-append :
    (k v : ℕ) (xs m : EpochMap) → IsSorted (xs ++ (k, v) ∷ m) → insert k v xs ≡ xs ++ (k, v) ∷ []
unfolding insert
insert-append k v [] m h = refl
insert-append k v ((j, w) ∷ xs) m h =
    ground (arith, insert-append k v xs m h.1, Above-append (suc j) k v xs m h.0)

module _ (owner : Bytes) (base : ℕ) (h : length owner ≡ 32) where
  length-owner : length (owner ++ to_be_bytes base) ≡ 34
  unfolding to_be_bytes
  length-owner = omega (arith, length-append owner (to_be_bytes base))

  take-owner : take 32 (owner ++ to_be_bytes base) ≡ owner
  take-owner =
      subst (λ n. take n (owner ++ to_be_bytes base) ≡ owner) h
        (take-append_length owner (to_be_bytes base))

  drop-owner : drop 32 (owner ++ to_be_bytes base) ≡ to_be_bytes base
  drop-owner =
      subst (λ n. drop n (owner ++ to_be_bytes base) ≡ to_be_bytes base) h
        (drop-append_length owner (to_be_bytes base))

module _ (v : VarInt) where
  open v use {encode_var_vec, decode_var, encode_not_empty, decode-encode}

  read_step :
      (fuel : ℕ) (c d : ℕ) (rest : Bytes) (acc : EpochMap)
      → 0 < length rest
      → read_epoch_map v (suc fuel) (c ∷ d ∷ rest) acc ≡ (
          ok_or (decode_var rest) wrong_size >>= λ used.
          read_epoch_map v fuel (drop used.1 rest) (insert (c * 256 + d) used.0 acc))
  unfolding read_epoch_map from_be_bytes
  read_step fuel c d rest acc h =
      rw (lt→ltb 2 (length (c ∷ d ∷ rest)) (omega arith), read_epoch_map)

  read_end : (fuel : ℕ) (acc : EpochMap) → read_epoch_map v (suc fuel) [] acc ≡ ok acc
  unfolding read_epoch_map
  read_end fuel acc = refl

  entry_room : (b : ℕ) (m : EpochMap) → 0 < length (encode_var_vec b ++ epoch_map_bytes v m)
  entry_room b m =
      omega (arith, encode_not_empty b, length-append (encode_var_vec b) (epoch_map_bytes v m))

  entry_length :
      (k b : ℕ) (m : EpochMap)
      → 3 + length (epoch_map_bytes v m) ≤ length (epoch_map_bytes v ((k, b) ∷ m))
  unfolding epoch_map_bytes to_be_bytes
  entry_length k b m =
      omega (arith, encode_not_empty b, length-append (encode_var_vec b) (epoch_map_bytes v m))

  -- The loop reads a map back, behind the entries that it has already.
  read_epoch_map-epoch_map_bytes :
      (fuel : ℕ) (m acc : EpochMap)
      → length (epoch_map_bytes v m) < fuel
      → All FitsEntry m
      → IsSorted (acc ++ m)
      → read_epoch_map v fuel (epoch_map_bytes v m) acc ≡ ok (acc ++ m)
  unfolding epoch_map_bytes to_be_bytes
  read_epoch_map-epoch_map_bytes zero m acc h f s = absurd (omega arith)
  read_epoch_map-epoch_map_bytes (suc fuel) [] acc h f s = rw (append-nil acc) (read_end fuel acc)
  read_epoch_map-epoch_map_bytes (suc fuel) ((k, b) ∷ m) acc h f s =
      rw
        (
          read_step fuel (k / 256 % 256) (k % 256) (encode_var_vec b ++ epoch_map_bytes v m) acc
              (entry_room b m),
          decode-encode b (epoch_map_bytes v m) f.0.1,
          drop-append_length (encode_var_vec b) (epoch_map_bytes v m),
          join_bytes k f.0.0,
          insert-append k b acc m s,
        )
        (rw (← append_assoc acc ((k, b) ∷ []) m) (
          read_epoch_map-epoch_map_bytes fuel m (acc ++ (k, b) ∷ [])
            (omega (arith, entry_length k b m)) f.1 (rw (append_assoc acc ((k, b) ∷ []) m) s)))

  map_length : (m : EpochMap) → m ≢ [] → 3 ≤ length (epoch_map_bytes v m)
  map_length [] h = absurd (h refl)
  map_length ((k, b) ∷ m) h = omega (arith, entry_length k b m)

  single_epoch_lem :
      (base : ℕ)
      → base < u16_mod
      → deserialize v (serialize v (single_epoch base)) ≡ ok (some (single_epoch base))
  unfolding deserialize serialize to_be_bytes
  single_epoch_lem base h = ground (arith, join_bytes base h)

  multi_epoch_lem :
      (base : ℕ) (m : EpochMap)
      → IsStorable (multi_epoch base m)
      → deserialize v (serialize v (multi_epoch base m)) ≡ ok (some (multi_epoch base m))
  unfolding deserialize serialize to_be_bytes from_be_bytes
  multi_epoch_lem base m h = ground (
    arith,
    join_bytes base h.0,
    map_length m h.1.2,
    read_epoch_map-epoch_map_bytes
        (suc (length (1 ∷ base / 256 % 256 ∷ base % 256 ∷ epoch_map_bytes v m))) m [] (omega arith)
        h.1.0 h.1.1,
  )

  owned_lem :
      (base : ℕ) (owner : Bytes)
      → IsStorable (single_epoch_owned base owner)
      → deserialize v (serialize v (single_epoch_owned base owner))
        ≡ ok (some (single_epoch_owned base owner))
  unfolding deserialize serialize to_be_bytes
  owned_lem base owner h = ground (
    arith,
    join_bytes base h.0,
    length-owner owner base h.1,
    take-owner owner base h.1,
    drop-owner owner base h.1,
  )

  -- For every variable-length coding, flags that fit their types are read back from their bytes,
  -- unless they have both an owner and a map.
  pub deserialize-serialize :
      (flags : StorageFlags)
      → IsStorable flags
      → deserialize v (serialize v flags) ≡ ok (some flags)
  deserialize-serialize (single_epoch base) h = single_epoch_lem base h
  deserialize-serialize (multi_epoch base m) h = multi_epoch_lem base m h
  deserialize-serialize (single_epoch_owned base owner) h = owned_lem base owner h
  deserialize-serialize (multi_epoch_owned base m owner) h = absurd h

-- ===== src/Flags/Codec/Owned.antt =====
-- The loop of `deserialize_multi_epoch` and `deserialize_multi_epoch_owned`
-- (drive/src/drive/flags.rs): its fuel, and the offset that it starts at for owned flags.
use rs_platform.Common.{
  ℕ, zero, suc, ◌+◌, ◌*◌, ◌≤◌, ◌<◌, ◌≡◌, ◌≢◌, inl, inr, none, some, [], ◌∷◌, ◌++◌, Bytes, ok, err,
  length, drop, length-drop-le, arith, Option-cases,
}
use rs_platform.Common.SortedMap.{get, insert, get-insert_self, get-insert}
use rs_platform.Flags.{multi_epoch_owned, fuel_exhausted, EpochMap}
use rs_platform.Flags.Codec.{
  VarInt, to_be_bytes, from_be_bytes, epoch_map_bytes, serialize, read_epoch_map, deserialize,
  deserialize_multi_epoch_owned,
}

module _ (v : VarInt) where
  open v use {encode_var_vec, decode_var}

  -- With more fuel than bytes the loop never runs out.
  read_epoch_map-total :
      (fuel : ℕ) (bytes : Bytes) (m : EpochMap)
      → length bytes < fuel
      → read_epoch_map v fuel bytes m ≢ err fuel_exhausted
  unfolding read_epoch_map from_be_bytes
  read_epoch_map-total zero bytes m h = absurd (omega arith)
  read_epoch_map-total (suc fuel) [] m h = cc
  read_epoch_map-total (suc fuel) (c ∷ []) m h = ground arith
  read_epoch_map-total (suc fuel) (c ∷ d ∷ rest) m h = elim (Option-cases (decode_var rest)) [
    | inl none_left ↦ ground arith
    | inr (used, e) ↦ ground (
      arith,
      length-drop-le used.1 rest,
      read_epoch_map-total fuel (drop used.1 rest) (insert (c * 256 + d) used.0 m),
    )
  ]

  -- For every input, `deserialize` ends: it never runs out of the fuel that it gives its loop.
  pub deserialize_total : (bytes : Bytes) → deserialize v bytes ≢ err fuel_exhausted
  unfolding deserialize from_be_bytes
  deserialize_total [] = cc
  deserialize_total (first ∷ rest) = ground (
    arith,
    length-drop-le 2 rest,
    read_epoch_map-total (suc (length (first ∷ rest))) (drop 2 rest) [],
  )

  -- A key that the map has stays in it.
  read_epoch_map-keeps :
      (k fuel : ℕ) (bytes : Bytes) (m m' : EpochMap)
      → read_epoch_map v fuel bytes m ≡ ok m'
      → get k m ≢ none
      → get k m' ≢ none
  unfolding read_epoch_map from_be_bytes
  read_epoch_map-keeps k zero bytes m m' e h = cc
  read_epoch_map-keeps k (suc fuel) [] m m' e h = ground arith
  read_epoch_map-keeps k (suc fuel) (c ∷ []) m m' e h = ground arith
  read_epoch_map-keeps k (suc fuel) (c ∷ d ∷ rest) m m' e h =
      elim (Option-cases (decode_var rest)) [
        | inl none_left ↦ ground arith
        | inr (used, e2) ↦ ground (
          arith,
          get-insert (c * 256 + d) k used.0 m,
          read_epoch_map-keeps k fuel (drop used.1 rest) (insert (c * 256 + d) used.0 m) m',
        )
      ]

  -- The first two bytes become a key.
  read_epoch_map-first :
      (fuel c d : ℕ) (rest : Bytes) (m' : EpochMap)
      → 0 < length rest
      → read_epoch_map v fuel (c ∷ d ∷ rest) [] ≡ ok m'
      → get (c * 256 + d) m' ≢ none
  unfolding read_epoch_map from_be_bytes
  read_epoch_map-first zero c d rest m' h e = cc
  read_epoch_map-first (suc fuel) c d rest m' h e = elim (Option-cases (decode_var rest)) [
    | inl none_left ↦ ground arith
    | inr (used, e2) ↦ ground (
      arith,
      get-insert_self (c * 256 + d) used.0 [],
      read_epoch_map-keeps (c * 256 + d) fuel (drop used.1 rest) (insert (c * 256 + d) used.0 [])
          m',
    )
  ]

  -- What a successful read of owned flags with a map has checked and read.
  deserialize_multi_epoch_owned-eq-ok :
      (bytes : Bytes) (base : ℕ) (m : EpochMap) (owner : Bytes)
      → deserialize_multi_epoch_owned v bytes ≡ ok (multi_epoch_owned base m owner)
      → (38 ≤ length bytes) × (read_epoch_map v (suc (length bytes)) (drop 3 bytes) [] ≡ ok m)
  unfolding deserialize_multi_epoch_owned
  deserialize_multi_epoch_owned-eq-ok bytes base m owner e = ground arith

  -- Owned flags with a map are read from the owner's third byte on: unless its third and fourth
  -- byte happen to name an epoch of the map, the flags that are read are not those written.
  pub multi_epoch_owned_not_read_back :
      (base : ℕ) (m : EpochMap) (a b c d : ℕ) (rest : Bytes)
      → get (c * 256 + d) m ≡ none
      → deserialize v (serialize v (multi_epoch_owned base m (a ∷ b ∷ c ∷ d ∷ rest)))
        ≢ ok (some (multi_epoch_owned base m (a ∷ b ∷ c ∷ d ∷ rest)))
  unfolding deserialize serialize to_be_bytes
  multi_epoch_owned_not_read_back base m a b c d rest h e =
      let bytes : Bytes = 3 ∷ a ∷ b ∷ c ∷ d ∷ ((rest ++ to_be_bytes base) ++ epoch_map_bytes v m) in
      let parts =
        deserialize_multi_epoch_owned-eq-ok bytes base m (a ∷ b ∷ c ∷ d ∷ rest) (ground arith) in
      read_epoch_map-first (suc (length bytes)) c d
        ((rest ++ to_be_bytes base) ++ epoch_map_bytes v m) m (omega (arith, parts.0)) parts.1 h

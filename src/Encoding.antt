-- ===== src/Encoding.antt =====
-- The keys of integers: drive/src/common/encode.rs. `encode_float` is not modelled.
use rs_platform.Common.{
  ℕ, ◌+◌, ◌-◌, ◌^◌, ◌<◌, ◌≤◌, List, [], ◌∷◌, Bytes, ltb, if◌then◌else◌, u64_mod,
}
use rs_platform.Common.Int.{ℤ, pos, negsuc}
use rs_platform.Pools.{u64_to_be_bytes}
pub mod Order
pub mod Tests

-- `wtr[0] ^= 0b1000_0000`
unfoldable pub flip_sign_bit : Bytes → Bytes
flip_sign_bit [] = []
flip_sign_bit (b ∷ bs) = (if ltb b 128 then b + 128 else b - 128) ∷ bs

unfoldable pub encode_unsigned_integer : ℕ → Bytes
encode_unsigned_integer val = flip_sign_bit (u64_to_be_bytes val)

-- The two's complement that `write_i64` writes.
abbrev pub twos_complement : ℤ → ℕ
twos_complement (pos n) = n
twos_complement (negsuc n) = u64_mod - 1 - n

unfoldable pub encode_signed_integer : ℤ → Bytes
encode_signed_integer val = flip_sign_bit (u64_to_be_bytes (twos_complement val))

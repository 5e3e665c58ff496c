-- ===== src/Encoding/Tests.antt =====
-- Keys of some integers.
use rs_platform.Common.{◌≡◌, refl, true, [], ◌∷◌, arith}
use rs_platform.Common.Int.{pos, negsuc, bytes_lt}
use rs_platform.Pools.{u64_to_be_bytes}
use rs_platform.Encoding.{flip_sign_bit, encode_unsigned_integer, encode_signed_integer}
use rs_platform.Encoding.Order.{encode_signed_integer-order}

encoded_one : encode_unsigned_integer 1 ≡ 128 ∷ 0 ∷ 0 ∷ 0 ∷ 0 ∷ 0 ∷ 0 ∷ 1 ∷ []
unfolding encode_unsigned_integer flip_sign_bit u64_to_be_bytes
encoded_one = refl

encode_signed_integer-order_example :
    bytes_lt (encode_signed_integer (negsuc 4)) (encode_signed_integer (pos 3)) ≡ true
encode_signed_integer-order_example =
    encode_signed_integer-order (negsuc 4) (pos 3) (omega arith) (omega arith)

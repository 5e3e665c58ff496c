-- ===== src/Encoding/Order.antt =====
-- How the keys of drive/src/common/encode.rs are ordered.
use rs_platform.Common.{
  ℕ, ◌+◌, ◌-◌, ◌*◌, ◌%◌, ◌^◌, ◌<◌, ◌≡◌, refl, sym, ◌∙◌, true, false, [], ◌∷◌, Bytes, ltb, leb,
  if◌then◌else◌, length, u64_mod, arith,
}
use rs_platform.Common.Int.{ℤ, pos, negsuc, bytes_lt, ltb_ℤ}
use rs_platform.Pools.{u64_to_be_bytes, be_value}
use rs_platform.Encoding.{flip_sign_bit, encode_unsigned_integer, encode_signed_integer}

abbrev AreDigits : Bytes → Type 0
AreDigits [] = Unit
AreDigits (b ∷ bs) = (b < 256) × AreDigits bs

-- A smaller prefix decides, whatever follows.
be_value-lt :
    (a b : ℕ) (xs ys : Bytes)
    → length xs ≡ length ys
    → AreDigits xs
    → a < b
    → be_value a xs < be_value b ys
be_value-lt a b [] [] e h l = l
be_value-lt a b [] (y ∷ ys) e h l = omega arith
be_value-lt a b (x ∷ xs) [] e h l = omega arith
be_value-lt a b (x ∷ xs) (y ∷ ys) e h l =
    be_value-lt (a * 256 + x) (b * 256 + y) xs ys (omega arith) h.1 (omega (arith, h.0))

-- Big-endian bytes of one length are ordered like their values.
bytes_lt-be_value :
    (a : ℕ) (xs ys : Bytes)
    → length xs ≡ length ys
    → AreDigits xs
    → AreDigits ys
    → bytes_lt xs ys ≡ ltb (be_value a xs) (be_value a ys)
unfolding bytes_lt
bytes_lt-be_value a [] [] e h k = ground arith
bytes_lt-be_value a [] (y ∷ ys) e h k = ground arith
bytes_lt-be_value a (x ∷ xs) [] e h k = ground arith
bytes_lt-be_value a (x ∷ xs) (y ∷ ys) e h k =
    let tails : length xs ≡ length ys = omega arith in
    ground (
      arith,
      bytes_lt-be_value (a * 256 + x) xs ys tails h.1 k.1,
      be_value-lt (a * 256 + x) (a * 256 + y) xs ys tails h.1,
      be_value-lt (a * 256 + y) (a * 256 + x) ys xs (sym tails) k.1,
    )

flipped_value :
    (n : ℕ) → n < u64_mod → be_value 0 (flip_sign_bit (u64_to_be_bytes n)) ≡ (n + 2 ^ 63) % u64_mod
unfolding flip_sign_bit u64_to_be_bytes
flipped_value n h = ground arith

flipped_digits : (n : ℕ) → n < u64_mod → AreDigits (flip_sign_bit (u64_to_be_bytes n))
unfolding flip_sign_bit u64_to_be_bytes
flipped_digits n h = ground arith

flipped_length :
    (m n : ℕ)
    → length (flip_sign_bit (u64_to_be_bytes m)) ≡ length (flip_sign_bit (u64_to_be_bytes n))
unfolding flip_sign_bit u64_to_be_bytes
flipped_length m n = refl

flipped_order :
    (m n : ℕ)
    → m < u64_mod
    → n < u64_mod
    → bytes_lt (flip_sign_bit (u64_to_be_bytes m)) (flip_sign_bit (u64_to_be_bytes n))
      ≡ ltb ((m + 2 ^ 63) % u64_mod) ((n + 2 ^ 63) % u64_mod)
flipped_order m n h k =
    bytes_lt-be_value 0 (flip_sign_bit (u64_to_be_bytes m)) (flip_sign_bit (u64_to_be_bytes n))
      (flipped_length m n) (flipped_digits m h) (flipped_digits n k)
    ∙ rw (flipped_value m h, flipped_value n k) refl

abbrev pub IsI64 : ℤ → Type 0
IsI64 (pos n) = n < 2 ^ 63
IsI64 (negsuc n) = n < 2 ^ 63

-- The keys of two 64-bit signed integers are ordered like the integers.
pub encode_signed_integer-order :
    (a b : ℤ)
    → IsI64 a
    → IsI64 b
    → bytes_lt (encode_signed_integer a) (encode_signed_integer b) ≡ ltb_ℤ a b
unfolding encode_signed_integer
encode_signed_integer-order (pos m) (pos n) h k =
    flipped_order m n (omega arith) (omega arith) ∙ ground arith
encode_signed_integer-order (pos m) (negsuc n) h k =
    flipped_order m (u64_mod - 1 - n) (omega arith) (omega arith) ∙ ground arith
encode_signed_integer-order (negsuc m) (pos n) h k =
    flipped_order (u64_mod - 1 - m) n (omega arith) (omega arith) ∙ ground arith
encode_signed_integer-order (negsuc m) (negsuc n) h k =
    flipped_order (u64_mod - 1 - m) (u64_mod - 1 - n) (omega arith) (omega arith) ∙ ground arith

-- For two 64-bit unsigned integers m < n, the key of m comes before that of n unless 2^63 lies
-- between them (m < 2^63 ≤ n), and then it comes after it.
encode_unsigned_integer-order :
    (m n : ℕ)
    → m < n
    → n < u64_mod
    → (bytes_lt (encode_unsigned_integer m) (encode_unsigned_integer n)
        ≡ (if ltb m (2 ^ 63) then ltb n (2 ^ 63) else true))
      × (bytes_lt (encode_unsigned_integer n) (encode_unsigned_integer m)
          ≡ (if ltb m (2 ^ 63) then leb (2 ^ 63) n else false))
unfolding encode_unsigned_integer
encode_unsigned_integer-order m n h k = (
  flipped_order m n (omega arith) k ∙ ground arith,
  flipped_order n m k (omega arith) ∙ ground arith,
)

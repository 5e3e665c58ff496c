-- ===== src/Pools.antt =====
-- What dash-abci/src/execution/fee_pools and drive/src/fee_pools share: decimals, epochs and their
-- keys in the tree of pools, errors, constants, and how credits are read and written.
use rs_platform.Common.{
  ℕ, zero, suc, ◌+◌, ◌-◌, ◌*◌, ◌/◌, ◌%◌, ◌^◌, ◌≤◌, ◌<◌, ◌≡◌, Bool, Option, none, some, List, [],
  ◌∷◌, Bytes, ltb, ◌==◌, if◌then◌else◌, Result, ok, err, ◌>>=◌, ok_or, checked_add, checked_sub,
  length, u16_mod, u64_mod,
}
pub mod BlockFees
pub mod EpochInfo
pub mod Epochs
pub mod Storage
pub mod Fractions
pub mod Tests

-- The numbers of the crate `rust_decimal`, as far as the pools use them. They have 28 digits, so
-- that the two quotients whose floor is taken are exact enough for it: the one of 64-bit numbers,
-- and the one of a 64-bit number times a ratio of five decimals. `ratio m` is m / 100000.
pub record Decimal : Type 1 where
  pub Number : Type 0
  pub from : ℕ → Number
  pub from_u64 : ℕ → Option Number
  pub ratio : ℕ → Number
  pub minus : Number → Number → Number
  pub times : Number → Number → Number
  pub over : Number → Number → Number
  pub floor : Number → Number
  pub is_greater : Number → Number → Bool
  pub is_equal : Number → Number → Bool
  pub to_u16 : Number → Option ℕ
  pub to_u64 : Number → Option ℕ
  pub from_u64-from : (n : ℕ) → n < u64_mod → from_u64 n ≡ some (from n)
  pub floor_quotient :
      (a b c : ℕ)
      → b ≤ a
      → a < u64_mod
      → 0 < c
      → floor (over (minus (from a) (from b)) (from c)) ≡ from ((a - b) / c)
  pub floor_share :
      (n m c : ℕ)
      → n < u64_mod
      → 0 < c
      → c ≤ 100
      → floor (over (times (from n) (ratio m)) (from c)) ≡ from (n * m / (100000 * c))
  pub is_greater-from : (a b : ℕ) → is_greater (from a) (from b) ≡ ltb b a
  pub is_equal-from : (a b : ℕ) → is_equal (from a) (from b) ≡ (a == b)
  pub to_u16-from : (n : ℕ) → to_u16 (from n) ≡ (if ltb n u16_mod then some n else none)
  pub to_u64-from : (n : ℕ) → to_u64 (from n) ≡ (if ltb n u64_mod then some n else none)

-- The errors of GroveDB that the pools tell apart.
pub data GroveError : Type 0 where
  path_not_found path_key_not_found path_parent_layer_not_found other_grove_error : GroveError

-- `index_too_high` is the panic of `Epoch::new`.
pub data PoolError : Type 0 where
  grove : GroveError → PoolError
  corrupted overflow conversion index_too_high index_too_low : PoolError
  missing_data incoherence corrupted_code : PoolError

abbrev pub PoolResult : Type 0 → Type 0
PoolResult = Result PoolError

abbrev pub genesis_epoch_index : ℕ
genesis_epoch_index = 0

abbrev pub epochs_per_year : ℕ
epochs_per_year = 20

abbrev pub perpetual_storage_years : ℕ
perpetual_storage_years = 50

abbrev pub perpetual_storage_epochs : ℕ
perpetual_storage_epochs = perpetual_storage_years * epochs_per_year

abbrev pub epoch_storage_offset : ℕ
epoch_storage_offset = 256

-- The w bytes of `to_be_bytes`, and what `from_be_bytes` reads from some bytes.
abbrev pub be_value : ℕ → Bytes → ℕ
be_value acc [] = acc
be_value acc (b ∷ bs) = be_value (acc * 256 + b) bs

unfoldable pub u64_to_be_bytes : ℕ → Bytes
u64_to_be_bytes n =
    n / 2 ^ 56
    ∷ n / 2 ^ 48 % 256
    ∷ n / 2 ^ 40 % 256
    ∷ n / 2 ^ 32 % 256
    ∷ n / 2 ^ 24 % 256
    ∷ n / 2 ^ 16 % 256
    ∷ n / 2 ^ 8 % 256
    ∷ n % 256
    ∷ []

unfoldable pub u64_from_be_bytes : Bytes → PoolResult ℕ
u64_from_be_bytes bytes = if length bytes == 8 then ok (be_value 0 bytes) else err corrupted

unfoldable pub encode_epoch_index_key : ℕ → PoolResult Bytes
encode_epoch_index_key index = do
  with_offset ← ok_or (checked_add u16_mod index epoch_storage_offset) index_too_high
  ok (with_offset / 256 ∷ with_offset % 256 ∷ [])

unfoldable pub decode_epoch_index_key : Bytes → PoolResult ℕ
decode_epoch_index_key (h ∷ l ∷ []) =
    ok_or (checked_sub (h * 256 + l) epoch_storage_offset) index_too_low
decode_epoch_index_key _ = err corrupted

pub record Epoch : Type 0 where
  pub index : ℕ
  pub key : Bytes

unfoldable pub new_epoch : ℕ → PoolResult Epoch
unfolding encode_epoch_index_key
new_epoch index = do key ← encode_epoch_index_key index; ok (record { index = index; key = key })

-- A stored element: an item, or one of the other kinds.
pub data Element : Type 0 where
  item : Bytes → Element
  other_element : Element

-- The insertion of an item under a key, at a path below the tree of pools.
pub data GroveOp : Type 0 where
  insert_item : List Bytes → Bytes → Bytes → GroveOp

-- `get_path` and `get_vec_path`, below the tree of pools.
abbrev pub get_vec_path : Epoch → List Bytes
get_vec_path epoch = epoch.key ∷ []

abbrev pub pools_path : List Bytes
pools_path = []

abbrev pub key_pool_processing_fees : Bytes
key_pool_processing_fees = 112 ∷ []

abbrev pub key_storage_fee_pool : Bytes
key_storage_fee_pool = 115 ∷ []

abbrev pub key_pool_storage_fees : Bytes
key_pool_storage_fees = 115 ∷ []

unfoldable pub update_storage_credits_for_distribution_operation : Epoch → ℕ → GroveOp
unfolding u64_to_be_bytes
update_storage_credits_for_distribution_operation epoch credits =
    insert_item (get_vec_path epoch) key_pool_storage_fees (u64_to_be_bytes credits)

unfoldable pub update_processing_credits_for_distribution_operation : Epoch → ℕ → GroveOp
unfolding u64_to_be_bytes
update_processing_credits_for_distribution_operation epoch credits =
    insert_item (get_vec_path epoch) key_pool_processing_fees (u64_to_be_bytes credits)

unfoldable pub update_storage_fee_distribution_pool_operation : ℕ → GroveOp
unfolding u64_to_be_bytes
update_storage_fee_distribution_pool_operation credits =
    insert_item pools_path key_storage_fee_pool (u64_to_be_bytes credits)

-- The match on a stored amount.
unfoldable pub credits_of : Result GroveError Element → PoolResult ℕ
unfolding u64_from_be_bytes
credits_of (err e) = err (grove e)
credits_of (ok (item bytes)) = u64_from_be_bytes bytes
credits_of (ok other_element) = err corrupted

-- A missing key counts as 0.
abbrev pub zero_without_key : PoolResult ℕ → PoolResult ℕ
zero_without_key (err (grove path_key_not_found)) = ok 0
zero_without_key r = r

-- `grove_get path key` is GroveDB's element under a key, at a path below the tree of pools.
module _ (grove_get : List Bytes → Bytes → Result GroveError Element) where
  unfoldable pub get_epoch_storage_credits_for_distribution : Epoch → PoolResult ℕ
  unfolding credits_of
  get_epoch_storage_credits_for_distribution epoch =
      credits_of (grove_get (get_vec_path epoch) key_pool_storage_fees)

  unfoldable pub get_epoch_processing_credits_for_distribution : Epoch → PoolResult ℕ
  unfolding credits_of
  get_epoch_processing_credits_for_distribution epoch =
      credits_of (grove_get (get_vec_path epoch) key_pool_processing_fees)

  unfoldable pub get_aggregate_storage_fees_from_distribution_pool : PoolResult ℕ
  unfolding credits_of
  get_aggregate_storage_fees_from_distribution_pool =
      zero_without_key (credits_of (grove_get pools_path key_storage_fee_pool))

-- ===== src/Payouts.antt =====
-- The payouts of dash-abci/src/execution/fee_pools/fee_distribution.rs: what each proposer of an
-- epoch and each identity that a proposer shares its reward with is paid.
use rs_platform.Common.{
  ℕ, zero, suc, ◌+◌, ◌-◌, ◌*◌, ◌/◌, ◌^◌, ◌≤◌, ◌<◌, ◌≡◌, Bool, true, false, Option, none, some, List,
  [], ◌∷◌, ◌++◌, map, Bytes, ltb, ◌==◌, if◌then◌else◌, Result, ok, err, ◌>>=◌, ok_or, checked_add,
  length, u16_mod, u64_mod,
}
use rs_platform.Common.Int.{ℤ, pos, negsuc, neg_part, pos_part}
use rs_platform.Keys.{IdentityPublicKey}
use rs_platform.Flags.{StorageFlags}
use rs_platform.Pools.{Decimal, GroveOp, PoolError, overflow, missing_data, incoherence, PoolResult}
pub mod Shares
pub mod Total
pub mod Tests

-- The operations of a batch: those on the pools, with paths below their tree, and the two that
-- insert an identity, its tree and its serialized form, with their flags.
pub data BatchOp : Type 0 where
  write : GroveOp → BatchOp
  insert_empty_tree delete delete_tree : List Bytes → Bytes → BatchOp
  insert_identity_tree : Bytes → Option StorageFlags → BatchOp
  insert_identity : Bytes → Bytes → Option StorageFlags → BatchOp

-- `Identity` of dpp/src/identity/identity.rs, less the two fields that are not stored.
pub record Identity : Type 0 where
  pub protocol_version : ℕ
  pub id : Bytes
  pub public_keys : List IdentityPublicKey
  pub balance : ℕ
  pub revision : ℕ

-- A property of a document: the value's type is what the payouts look at.
pub data Property : Type 0 where
  byte_value : Bytes → Property
  integer_value : ℤ → Property
  other_value : Property

-- The properties `payToId` and `percentage` of a document of the reward shares contract.
pub record RewardShare : Type 0 where
  pub pay_to_id : Option Property
  pub percentage : Option Property

-- What the payouts rely on beyond `Decimal`. The numbers that arise are amounts, at least 0 and with
-- room in 96 bits; `whole x` is the part of one before the point. Sums and products are rounded to
-- 28 digits, so that only bounds are known of them; a whole number is taken off exactly.
pub record Amounts (d : Decimal) : Type 1 where
  pub from_i64 : ℤ → d.Number
  pub plus : d.Number → d.Number → d.Number
  pub IsAmount : d.Number → Type 0
  pub whole : d.Number → ℕ
  pub from-IsAmount : (n : ℕ) → n < u64_mod → IsAmount (d.from n) × (whole (d.from n) ≡ n)
  pub reward-IsAmount :
      (total count blocks : ℕ)
      → total * count < 2 ^ 96
      → 0 < blocks
      → IsAmount (d.over (d.times (d.from total) (d.from count)) (d.from blocks))
        × (total * count / blocks
            ≤ whole (d.over (d.times (d.from total) (d.from count)) (d.from blocks)))
        × (whole (d.over (d.times (d.from total) (d.from count)) (d.from blocks))
            ≤ total * count / blocks + 1)
  pub floor_whole : (x : d.Number) → IsAmount x → d.floor x ≡ d.from (whole x)
  pub minus_whole :
      (x : d.Number) (n : ℕ)
      → IsAmount x
      → n ≤ whole x
      → IsAmount (d.minus x (d.from n)) × (whole (d.minus x (d.from n)) ≡ whole x - n)
  pub part_whole :
      (x : d.Number) (p : ℕ)
      → IsAmount x
      → p ≤ 10000
      → IsAmount (d.times x (d.over (from_i64 (pos p)) (d.from 10000)))
        × (whole (d.times x (d.over (from_i64 (pos p)) (d.from 10000))) ≤ whole x)
  pub plus_whole :
      (x y : d.Number)
      → IsAmount x
      → IsAmount y
      → whole x + whole y + 1 < 2 ^ 96
      → IsAmount (plus x y)
        × (whole x + whole y ≤ whole (plus x y))
        × (whole (plus x y) ≤ whole x + whole y + 1)

abbrev pub bytes_property : Option Property → PoolResult Bytes
bytes_property none = err missing_data
bytes_property (some (byte_value bytes)) = ok bytes
bytes_property (some (integer_value i)) = err incoherence
bytes_property (some other_value) = err incoherence

-- The conversion to `i64` included.
abbrev pub i64_property : Option Property → PoolResult ℤ
i64_property none = err missing_data
i64_property (some (byte_value bytes)) = err incoherence
i64_property (some (integer_value i)) =
    if ltb (pos_part i) (2 ^ 63)
    then (if ltb (2 ^ 63) (neg_part i) then err overflow else ok i)
    else err overflow
i64_property (some other_value) = err incoherence

-- `fetch_identity` is the drive's, `to_buffer` the serialization of an identity.
module _ (fetch_identity : Bytes → PoolResult (Identity × Option StorageFlags))
    (to_buffer : Identity → PoolResult Bytes) where
  unfoldable pub add_insert_identity_operations :
      Identity → Option StorageFlags → PoolResult (List BatchOp)
  add_insert_identity_operations identity flags = do
    bytes ← to_buffer identity
    ok (insert_identity_tree identity.id flags ∷ insert_identity identity.id bytes flags ∷ [])

  unfoldable pub add_pay_reward_to_identity_operations : Bytes → ℕ → PoolResult (List BatchOp)
  unfolding add_insert_identity_operations
  add_pay_reward_to_identity_operations id reward = do
    fetched ← fetch_identity id
    balance ← ok_or (checked_add u64_mod fetched.0.balance reward) overflow
    add_insert_identity_operations (record fetched.0 { balance = balance }) fetched.1

module _ (d : Decimal) (a : Amounts d)
    (fetch_identity : Bytes → PoolResult (Identity × Option StorageFlags))
    (to_buffer : Identity → PoolResult Bytes) where
  open d use {Number, from, minus, times, over, floor, to_u64}
  open a use {from_i64, plus}

  -- The loop over a masternode's reward shares: the operations, and the reward that is left.
  unfoldable pub pay_shares : List RewardShare → Number → PoolResult (List BatchOp × Number)
  pay_shares [] reward = ok ([], reward)
  pay_shares (share ∷ shares) reward = do
    pay_to ← bytes_property share.pay_to_id
    percentage ← i64_property share.percentage
    let floored = floor (times reward (over (from_i64 percentage) (from 10000)))
    amount ← ok_or (to_u64 floored) overflow
    paid ← add_pay_reward_to_identity_operations fetch_identity to_buffer pay_to amount
    more ← pay_shares shares (minus reward floored)
    ok (paid ++ more.0, more.1)

module _ (d : Decimal) (a : Amounts d)
    (fetch_identity : Bytes → PoolResult (Identity × Option StorageFlags))
    (to_buffer : Identity → PoolResult Bytes)
    (get_reward_shares_list_for_masternode : Bytes → PoolResult (List RewardShare)) where
  open d use {Number, from, minus, times, over, floor, to_u64}
  open a use {plus}

  -- The loop over the proposers: how many there are after the current ones, the total fees, the
  -- blocks of the epoch, and the fractions left so far, which the last proposer is given.
  unfoldable pub pay_proposers :
      List (Bytes × ℕ) → Number → Number → Number → PoolResult (List BatchOp)
  pay_proposers [] fees blocks leftovers = ok []
  pay_proposers (proposer ∷ proposers) fees blocks leftovers = do
    shares ← get_reward_shares_list_for_masternode proposer.0
    let reward = over (times fees (from proposer.1)) blocks
    shared ← pay_shares d a fetch_identity to_buffer shares reward
    let floored = floor shared.1
    let left = plus leftovers (minus shared.1 floored)
    let given = if length proposers == 0 then plus floored left else floored
    amount ← ok_or (to_u64 (floor given)) overflow
    paid ← add_pay_reward_to_identity_operations fetch_identity to_buffer proposer.0 amount
    more ← pay_proposers proposers fees blocks left
    ok (shared.0 ++ (paid ++ more))

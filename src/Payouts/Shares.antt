-- ===== src/Payouts/Shares.antt =====
-- A reward and the shares of it (dash-abci/src/execution/fee_pools/fee_distribution.rs): the
-- operations are those of a list of payments that add up to the reward.
use rs_platform.Common.{
  Option, ℕ, ◌+◌, ◌≤◌, ◌<◌, ◌≡◌, refl, sym, some, List, [], ◌∷◌, ◌++◌, map, append_assoc, Bytes, ok,
  ◌>>=◌, >>=_assoc, >>=-ok, ◌^◌, ok_or, u64_mod, arith, lt→ltb, All,
}
use rs_platform.Common.Int.{pos}
use rs_platform.Flags.{StorageFlags}
use rs_platform.Pools.{Decimal, PoolResult, overflow}
use rs_platform.Payouts.{
  BatchOp, Identity, byte_value, integer_value, RewardShare, Amounts,
  add_pay_reward_to_identity_operations, pay_shares,
}

-- A share as the contract's schema has it: who is paid, and how many hundredths of a percent.
abbrev pub to_document : Bytes × ℕ → RewardShare
to_document share = record {
  pay_to_id = some (byte_value share.0);
  percentage = some (integer_value (pos share.1));
}

abbrev pub IsShare : Bytes × ℕ → Type 0
IsShare share = share.1 ≤ 10000

abbrev pub amount_sum : List (Bytes × ℕ) → ℕ
amount_sum [] = 0
amount_sum (payment ∷ payments) = payment.1 + amount_sum payments

pub amount_sum-append :
    (xs ys : List (Bytes × ℕ)) → amount_sum (xs ++ ys) ≡ amount_sum xs + amount_sum ys
amount_sum-append [] ys = omega arith
amount_sum-append (x ∷ xs) ys = omega (arith, amount_sum-append xs ys)

-- The operations of payments, one after the other.
module _ (fetch_identity : Bytes → PoolResult (Identity × Option StorageFlags))
    (to_buffer : Identity → PoolResult Bytes) where
  unfoldable pub pay_all : List (Bytes × ℕ) → PoolResult (List BatchOp)
  pay_all [] = ok []
  pay_all (payment ∷ payments) = do
    paid ← add_pay_reward_to_identity_operations fetch_identity to_buffer payment.0 payment.1
    more ← pay_all payments
    ok (paid ++ more)

  pub pay_all-append :
      (xs ys : List (Bytes × ℕ))
      → pay_all (xs ++ ys) ≡ (pay_all xs >>= λ first. pay_all ys >>= λ second. ok (first ++ second))
  unfolding pay_all
  pay_all-append [] ys = sym (>>=-ok (pay_all ys))
  pay_all-append (x ∷ xs) ys = simp (pay_all-append xs ys, >>=_assoc, append_assoc)

module _ (d : Decimal) (a : Amounts d) where
  open d use {Number, from, minus, times, over, floor, to_u64, to_u64-from}
  open a use {from_i64, IsAmount, whole, floor_whole, minus_whole, part_whole}

  abbrev pub part : Number → ℕ → Number
  part reward p = times reward (over (from_i64 (pos p)) (from 10000))

  pub share_payments : List (Bytes × ℕ) → Number → List (Bytes × ℕ)
  share_payments [] reward = []
  share_payments (share ∷ shares) reward =
      let amount = whole (part reward share.1) in
      (share.0, amount) ∷ share_payments shares (minus reward (from amount))

  pub rest_of : List (Bytes × ℕ) → Number → Number
  rest_of [] reward = reward
  rest_of (share ∷ shares) reward =
      rest_of shares (minus reward (from (whole (part reward share.1))))

  -- The payments and what is left of the reward add up to the reward.
  pub share_payments_sum :
      (shares : List (Bytes × ℕ)) (reward : Number)
      → IsAmount reward
      → All IsShare shares
      → IsAmount (rest_of shares reward)
        × (amount_sum (share_payments shares reward) + whole (rest_of shares reward) ≡ whole reward)
  unfolding share_payments rest_of
  share_payments_sum [] reward h k = (h, omega arith)
  share_payments_sum (share ∷ shares) reward h k =
      let amount = whole (part reward share.1) in
      let (smaller, within) = part_whole reward share.1 h k.0 in
      let (left, less) = minus_whole reward amount h within in
      let (rest, sum) = share_payments_sum shares (minus reward (from amount)) left k.1 in
      (rest, omega arith)

  pub to_u64_whole : (n : ℕ) → n < u64_mod → ok_or (to_u64 (from n)) overflow ≡ ok n
  to_u64_whole n h = rw (to_u64-from n, lt→ltb n u64_mod h)

  module _ (fetch_identity : Bytes → PoolResult (Identity × Option StorageFlags))
      (to_buffer : Identity → PoolResult Bytes) where
    pub pay_shares_lem :
        (shares : List (Bytes × ℕ)) (reward : Number)
        → IsAmount reward
        → whole reward < u64_mod
        → All IsShare shares
        → pay_shares d a fetch_identity to_buffer (map to_document shares) reward ≡ (
            pay_all fetch_identity to_buffer (share_payments shares reward) >>= λ ops.
            ok (ops, rest_of shares reward))
    unfolding pay_shares pay_all share_payments rest_of
    pay_shares_lem [] reward h small k = refl
    pay_shares_lem (share ∷ shares) reward h small k =
        let amount = whole (part reward share.1) in
        let (smaller, within) = part_whole reward share.1 h k.0 in
        let (left, less) = minus_whole reward amount h within in
        rw
          (
            lt→ltb share.1 (2 ^ 63) (omega arith),
            floor_whole (part reward share.1) smaller,
            to_u64_whole amount (omega arith),
            pay_shares_lem shares (minus reward (from amount)) left (omega arith) k.1,
          )
          (simp >>=_assoc)

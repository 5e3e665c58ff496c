-- ===== src/Payouts/Total.antt =====
-- The loop over an epoch's proposers (dash-abci/src/execution/fee_pools/fee_distribution.rs): what
-- all payments of a block add up to.
use rs_platform.Common.{
  Option, ℕ, suc, ◌+◌, ◌*◌, ◌/◌, ◌^◌, ◌≤◌, ◌<◌, ◌≡◌, refl, Bool, true, false, List, [], ◌∷◌, ◌++◌,
  map, Bytes, ◌==◌, if◌then◌else◌, ok, >>=_assoc, ok_or, length, u64_mod, arith, All,
}
use native.Mathlib.Nat.{mul-add, mul-le-mul_left, mul-div-le, mul_comm, le_of_mul-le-mul_left}
use rs_platform.Flags.{StorageFlags}
use rs_platform.Pools.{Decimal, PoolResult, overflow}
use rs_platform.Payouts.{Identity, RewardShare, Amounts, pay_proposers}
use rs_platform.Payouts.Shares.{
  to_document, IsShare, amount_sum, amount_sum-append, pay_all, pay_all-append, share_payments,
  rest_of, share_payments_sum, to_u64_whole, pay_shares_lem,
}

-- The blocks that the proposers proposed.
abbrev pub block_sum : List (Bytes × ℕ) → ℕ
block_sum [] = 0
block_sum (proposer ∷ proposers) = proposer.1 + block_sum proposers

-- The proposers' exact shares of the fees, rounded down one by one.
abbrev pub exact_sum : List (Bytes × ℕ) → ℕ → ℕ → ℕ
exact_sum [] fees blocks = 0
exact_sum (proposer ∷ proposers) fees blocks =
    fees * proposer.1 / blocks + exact_sum proposers fees blocks

exact_sum_scaled :
    (proposers : List (Bytes × ℕ)) (fees blocks : ℕ)
    → blocks * exact_sum proposers fees blocks ≤ fees * block_sum proposers
exact_sum_scaled [] fees blocks = grind arith
exact_sum_scaled (proposer ∷ proposers) fees blocks = omega (
  arith,
  exact_sum_scaled proposers fees blocks,
  mul-div-le (fees * proposer.1) blocks,
  mul-add blocks (fees * proposer.1 / blocks) (exact_sum proposers fees blocks),
  mul-add fees proposer.1 (block_sum proposers),
)

exact_sum-le :
    (proposers : List (Bytes × ℕ)) (fees blocks : ℕ)
    → 0 < blocks
    → block_sum proposers ≤ blocks
    → exact_sum proposers fees blocks ≤ fees
exact_sum-le proposers fees blocks h k =
    le_of_mul-le-mul_left {k = blocks}
      (omega (
        arith,
        exact_sum_scaled proposers fees blocks,
        mul-le-mul_left fees k,
        mul_comm fees blocks,
      ))
      h

module _ (d : Decimal) (a : Amounts d) (shares : Bytes → List (Bytes × ℕ)) where
  open d use {Number, from, minus, times, over, floor, to_u64}
  open a use {
    plus, IsAmount, whole, from-IsAmount, reward-IsAmount, floor_whole, minus_whole, plus_whole,
  }

  abbrev reward_of : ℕ → ℕ → ℕ → Number
  reward_of fees blocks count = over (times (from fees) (from count)) (from blocks)

  abbrev left_after : Number → Number → Number
  left_after rest left = plus left (minus rest (from (whole rest)))

  abbrev given_to : Bool → Number → Number → ℕ
  given_to true rest left = whole (plus (from (whole rest)) left)
  given_to false rest left = whole rest

  -- The payments of a block, in order.
  pub payments : List (Bytes × ℕ) → ℕ → ℕ → Number → List (Bytes × ℕ)
  payments [] fees blocks left = []
  payments (proposer ∷ proposers) fees blocks left =
      let reward = reward_of fees blocks proposer.1 in
      let rest = rest_of d a (shares proposer.0) reward in
      let next = left_after rest left in
      let own : Bytes × ℕ = (proposer.0, given_to (length proposers == 0) rest next) in
      share_payments d a (shares proposer.0) reward ++ (own ∷ payments proposers fees blocks next)

  abbrev pub IsRewardable : ℕ → Bytes × ℕ → Type 0
  IsRewardable blocks proposer = (proposer.1 ≤ blocks) × All IsShare (shares proposer.0)

  -- Fees and counts that overflow neither the decimals nor 64 bits.
  abbrev pub Fits : List (Bytes × ℕ) → ℕ → ℕ → Number → Type 0
  Fits proposers fees blocks left =
      (0 < blocks)
      × (fees * blocks < 2 ^ 96)
      × (fees + whole left + length proposers + 4 < u64_mod)
      × IsAmount left

  -- One round of the loop: a reward, what its shares leave of it, and the fractions before and
  -- after.
  record Round (exact shared : ℕ) (reward rest left next : Number) : Type 0 where
    reward_good : IsAmount reward
    reward_low : exact ≤ whole reward
    reward_high : whole reward ≤ exact + 1
    rest_good : IsAmount rest
    split : shared + whole rest ≡ whole reward
    next_good : IsAmount next
    next_low : whole left ≤ whole next
    next_high : whole next ≤ whole left + 1
    given_good : IsAmount (plus (from (whole rest)) next)
    given_low : whole rest + whole next ≤ whole (plus (from (whole rest)) next)
    given_high : whole (plus (from (whole rest)) next) ≤ whole rest + whole next + 1

  exact_le : (fees count blocks : ℕ) → 0 < blocks → count ≤ blocks → fees * count / blocks ≤ fees
  exact_le fees count blocks h k =
      le_of_mul-le-mul_left {k = blocks}
        (grind
          (arith, mul-div-le (fees * count) blocks, mul-le-mul_left fees k, mul_comm fees blocks))
        h

  round_lem :
      (proposer : Bytes × ℕ) (proposers : List (Bytes × ℕ)) (fees blocks : ℕ) (left : Number)
      → Fits (proposer ∷ proposers) fees blocks left
      → IsRewardable blocks proposer
      → let reward = reward_of fees blocks proposer.1 in
        let rest = rest_of d a (shares proposer.0) reward in
        Round
          (fees * proposer.1 / blocks)
          (amount_sum (share_payments d a (shares proposer.0) reward))
          reward
          rest
          left
          (left_after rest left)
  round_lem proposer proposers fees blocks left (h, k, l, i) (m, s) =
      let reward = reward_of fees blocks proposer.1 in
      let rest = rest_of d a (shares proposer.0) reward in
      let next = left_after rest left in
      let most = exact_le fees proposer.1 blocks h m in
      let product = mul-le-mul_left fees m in
      let (good, lower, upper) = reward-IsAmount fees proposer.1 blocks (omega arith) h in
      let (rest_good, sum) = share_payments_sum d a (shares proposer.0) reward good s in
      let (fraction_good, nothing) = minus_whole rest (whole rest) rest_good (omega arith) in
      let fraction = minus rest (from (whole rest)) in
      let (next_good, next_low, next_high) =
        plus_whole left fraction i fraction_good (omega arith) in
      let (floor_good, same) = from-IsAmount (whole rest) (omega arith) in
      let (given_good, given_low, given_high) =
        plus_whole (from (whole rest)) next floor_good next_good (omega arith) in
      record {
        reward_good = good;
        reward_low = lower;
        reward_high = upper;
        rest_good = rest_good;
        split = sum;
        next_good = next_good;
        next_low = omega arith;
        next_high = omega arith;
        given_good = given_good;
        given_low = omega arith;
        given_high = omega arith;
      }

  given_lem :
      (last : Bool) (rest next : Number)
      → IsAmount (plus (from (whole rest)) next)
      → whole (plus (from (whole rest)) next) < u64_mod
      → whole rest < u64_mod
      → ok_or
          (to_u64 (floor (if last then plus (from (whole rest)) next else from (whole rest))))
          overflow
        ≡ ok (given_to last rest next)
  given_lem true rest next h k l =
      rw (floor_whole (plus (from (whole rest)) next) h)
        (to_u64_whole d a (given_to true rest next) k)
  given_lem false rest next h k l =
      let (good, same) = from-IsAmount (whole rest) l in
      rw (floor_whole (from (whole rest)) good, same) (to_u64_whole d a (whole rest) l)

  payments_sum :
      (proposers : List (Bytes × ℕ)) (fees blocks : ℕ) (left : Number)
      → Fits proposers fees blocks left
      → All (IsRewardable blocks) proposers
      → (exact_sum proposers fees blocks ≤ amount_sum (payments proposers fees blocks left))
        × (amount_sum (payments proposers fees blocks left)
            ≤ exact_sum proposers fees blocks + whole left + 2 * length proposers + 1)
  unfolding payments
  payments_sum [] fees blocks left h k = (omega arith, omega arith)
  payments_sum (proposer ∷ []) fees blocks left h k =
      let round = round_lem proposer [] fees blocks left h k.0 in
      let reward = reward_of fees blocks proposer.1 in
      let rest = rest_of d a (shares proposer.0) reward in
      let next = left_after rest left in
      let shared = share_payments d a (shares proposer.0) reward in
      let own : Bytes × ℕ = (proposer.0, given_to true rest next) in
      let sum = amount_sum-append shared (own ∷ []) in (omega arith, omega arith)
  payments_sum (proposer ∷ second ∷ proposers) fees blocks left h k =
      let round = round_lem proposer (second ∷ proposers) fees blocks left h k.0 in
      let reward = reward_of fees blocks proposer.1 in
      let rest = rest_of d a (shares proposer.0) reward in
      let next = left_after rest left in
      let shared = share_payments d a (shares proposer.0) reward in
      let later : Fits (second ∷ proposers) fees blocks next =
        (h.0, h.1, omega arith, round.next_good) in
      let (low, high) = payments_sum (second ∷ proposers) fees blocks next later k.1 in
      let more : (suc (length proposers) == 0) ≡ false = ground arith in
      let own : Bytes × ℕ = (proposer.0, whole rest) in
      let sum = amount_sum-append shared (own ∷ payments (second ∷ proposers) fees blocks next) in
      rw more (omega arith, omega arith)

  module _ (fetch_identity : Bytes → PoolResult (Identity × Option StorageFlags))
      (to_buffer : Identity → PoolResult Bytes) (get_shares : Bytes → PoolResult (List RewardShare))
      (reads : (id : Bytes) → get_shares id ≡ ok (map to_document (shares id))) where
    pay_proposers_lem :
        (proposers : List (Bytes × ℕ)) (fees blocks : ℕ) (left : Number)
        → Fits proposers fees blocks left
        → All (IsRewardable blocks) proposers
        → pay_proposers d a fetch_identity to_buffer get_shares proposers
            (from fees)
            (from blocks)
            left
          ≡ pay_all fetch_identity to_buffer (payments proposers fees blocks left)
    unfolding pay_proposers payments pay_all
    pay_proposers_lem [] fees blocks left h k = refl
    pay_proposers_lem (proposer ∷ proposers) fees blocks left h k =
        let round = round_lem proposer proposers fees blocks left h k.0 in
        let reward = reward_of fees blocks proposer.1 in
        let rest = rest_of d a (shares proposer.0) reward in
        let next = left_after rest left in
        let later : Fits proposers fees blocks next = (h.0, h.1, omega arith, round.next_good) in
        let shared = share_payments d a (shares proposer.0) reward in
        let most = exact_le fees proposer.1 blocks h.0 k.0.0 in
        let own : Bytes × ℕ = (proposer.0, given_to (length proposers == 0) rest next) in
        rw
          (
            reads proposer.0,
            pay_shares_lem d a fetch_identity to_buffer (shares proposer.0) reward round.reward_good
                (omega arith) k.0.1,
            pay_all-append fetch_identity to_buffer shared
                (own ∷ payments proposers fees blocks next),
          )
          (simp >>=_assoc (
            rw
              (
                floor_whole rest round.rest_good,
                given_lem (length proposers == 0) rest next round.given_good (omega arith)
                    (omega arith),
                pay_proposers_lem proposers fees blocks next later k.1,
              )
              refl))

    -- When the reward shares are as their contract has them, the proposers' blocks are no more than
    -- the epoch's, and the fees fit, the operations for an epoch's proposers are those of payments,
    -- and fail only as the payments do. The payments add up to the proposers' exact shares of the
    -- fees, each rounded down, at least, and exceed them, and the fees, by no more than one credit
    -- and two for each proposer.
    pub pay_proposers_total :
        (proposers : List (Bytes × ℕ)) (fees blocks : ℕ)
        → 0 < blocks
        → fees * blocks < 2 ^ 96
        → fees + length proposers + 4 < u64_mod
        → block_sum proposers ≤ blocks
        → All (IsRewardable blocks) proposers
        → (paid : List (Bytes × ℕ)) × (pay_proposers d a fetch_identity to_buffer get_shares
              proposers
              (from fees)
              (from blocks)
              (from 0)
            ≡ pay_all fetch_identity to_buffer paid)
          × (exact_sum proposers fees blocks ≤ amount_sum paid)
          × (amount_sum paid ≤ exact_sum proposers fees blocks + 2 * length proposers + 1)
          × (amount_sum paid ≤ fees + 2 * length proposers + 1)
    pay_proposers_total proposers fees blocks h k l m r =
        let (zero_good, nothing) = from-IsAmount 0 (omega arith) in
        let fits : Fits proposers fees blocks (from 0) = (h, k, omega arith, zero_good) in
        let (low, high) = payments_sum proposers fees blocks (from 0) fits r in
        (
          payments proposers fees blocks (from 0),
          pay_proposers_lem proposers fees blocks (from 0) fits r,
          low,
          omega arith,
          omega (arith, exact_sum-le proposers fees blocks h m),
        )

-- ===== src/Payouts/Tests.antt =====
-- Runs of the payouts on concrete inputs.
use rs_platform.Common.{
  none, Option, ℕ, ◌+◌, ◌*◌, ◌≤◌, ◌≡◌, refl, List, [], ◌∷◌, Bytes, map, ok, length, arith,
}
use rs_platform.Flags.{StorageFlags}
use rs_platform.Pools.{PoolResult, u64_to_be_bytes}
use rs_platform.Pools.Fractions.{fractions, amounts}
use rs_platform.Payouts.{Identity, RewardShare, pay_proposers}
use rs_platform.Payouts.Shares.{to_document, amount_sum, pay_all}
use rs_platform.Payouts.Total.{exact_sum, pay_proposers_total}

abbrev stored : Bytes → Identity
stored id = record { protocol_version = 1; id = id; public_keys = []; balance = 100; revision = 0 }

abbrev fetch : Bytes → PoolResult (Identity × Option StorageFlags)
fetch id = ok (stored id, none)

-- An identity's balance in the place of its serialized form.
abbrev balance_of : Identity → PoolResult Bytes
balance_of identity = ok (u64_to_be_bytes identity.balance)

-- Every proposer shares a half of its reward with one identity.
abbrev halves : Bytes → List (Bytes × ℕ)
halves id = (9 ∷ [], 5000) ∷ []

abbrev get_halves : Bytes → PoolResult (List RewardShare)
get_halves id = ok (map to_document (halves id))

abbrev proposers : List (Bytes × ℕ)
proposers = (1 ∷ [], 3) ∷ (2 ∷ [], 1) ∷ []

pay_proposers_total_example :
    (paid : List (Bytes × ℕ)) × (pay_proposers fractions amounts fetch balance_of get_halves
        proposers
        (fractions.from 1001)
        (fractions.from 4)
        (fractions.from 0)
      ≡ pay_all fetch balance_of paid)
    × (exact_sum proposers 1001 4 ≤ amount_sum paid)
    × (amount_sum paid ≤ exact_sum proposers 1001 4 + 2 * length proposers + 1)
    × (amount_sum paid ≤ 1001 + 2 * length proposers + 1)
pay_proposers_total_example =
    pay_proposers_total fractions amounts halves fetch balance_of get_halves (λ id. refl) proposers
      1001 4 (omega arith) (omega arith) (omega arith) (omega arith)
      ((omega arith, omega arith), (omega arith, omega arith))

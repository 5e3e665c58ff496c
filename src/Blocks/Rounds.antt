-- ===== src/Blocks/Rounds.antt =====
-- A run of the payouts of an epoch with many proposers.
use rs_platform.Common.{
  ℕ, zero, suc, ◌+◌, ◌*◌, ◌≤◌, ◌<◌, ◌≡◌, refl, true, Option, none, some, List, [], ◌∷◌, Bytes, map,
  Result, ok, err, length, take, arith, All,
}
use rs_platform.Common.Int.{bytes_lt, bytes_le}
use rs_platform.Flags.{StorageFlags}
use rs_platform.Pools.{
  GroveError, Element, item, Epoch, PoolResult, u64_to_be_bytes, u64_from_be_bytes, new_epoch,
  credits_of, get_epoch_processing_credits_for_distribution,
  get_epoch_storage_credits_for_distribution,
}
use rs_platform.Pools.Epochs.{key_of}
use rs_platform.Pools.Fractions.{fractions, amounts}
use rs_platform.Payouts.{
  BatchOp, Identity, RewardShare, pay_proposers, pay_shares, add_pay_reward_to_identity_operations,
}
use rs_platform.Blocks.{Grove, add_delete_proposers_operations}
use rs_platform.Blocks.Reads.{
  get_epoch_proposers, block_counts_of, get_epoch_total_credits_for_distribution,
}
use rs_platform.Blocks.Unpaid.{
  UnpaidEpoch, add_epoch_pool_to_proposers_payout_operations, mark_if_paid, block_count,
}
use rs_platform.Blocks.Liveness.{
  stored, CountFits, Holds, PayoutRound, pays, none_yet, one_more, UnpaidRounds-bound,
}

-- Proposers of one block each, with their numbers as hashes.
abbrev numbered : ℕ → List (Bytes × ℕ)
numbered zero = []
numbered (suc n) = (n ∷ [], 1) ∷ numbered n

abbrev proposers : List (Bytes × ℕ)
proposers = numbered 60

abbrev first_proposers : ℕ → Result GroveError (List (Bytes × Element))
first_proposers limit = ok (map stored (take limit proposers))

length-stored :
    (limit : ℕ) (some_proposers : List (Bytes × ℕ))
    → length (map stored (take limit some_proposers)) ≤ limit
length-stored zero some_proposers = omega arith
length-stored (suc n) [] = omega arith
length-stored (suc n) (proposer ∷ rest) = omega (arith, length-stored n rest)

limit_lem :
    (limit : ℕ) (found : List (Bytes × Element))
    → first_proposers limit ≡ ok found
    → length found ≤ limit
limit_lem limit found h = ground (arith, length-stored limit proposers)

abbrev no_start : Result GroveError (Option (Bytes × Element))
no_start = ok none

start_lem :
    (from to key : Bytes) (element : Element)
    → no_start ≡ ok (some (key, element))
    → (bytes_lt from key ≡ true) × (bytes_le key to ≡ true) × All (λ b. b < 256) key
start_lem from to key element h = cc

abbrev sixties : Grove
sixties = record {
  get = λ path key. ok (item (u64_to_be_bytes 60));
  query_all = λ path limit. first_proposers limit;
  query_first_start = λ from to. no_start;
  query_all-limit = λ path limit found h. limit_lem limit found h;
  query_first_start-within = start_lem;
}

abbrev unpaid : UnpaidEpoch
unpaid = record {
  epoch_index = 0;
  start_block_height = 1;
  end_block_height = 61;
  next_unpaid_epoch_index = 1;
}

abbrev stored_identity : Bytes → Identity
stored_identity id = record {
  protocol_version = 1;
  id = id;
  public_keys = [];
  balance = 100;
  revision = 0;
}

abbrev fetch : Bytes → PoolResult (Identity × Option StorageFlags)
fetch id = ok (stored_identity id, none)

abbrev one_byte : Identity → PoolResult Bytes
one_byte identity = ok []

abbrev no_shares : Bytes → PoolResult (List RewardShare)
no_shares id = ok []

abbrev payout : PoolResult (List BatchOp × ℕ)
payout =
    add_epoch_pool_to_proposers_payout_operations fractions amounts fetch one_byte no_shares sixties
      unpaid 50

abbrev ops_of : PoolResult (List BatchOp × ℕ) → List BatchOp
ops_of (err e) = []
ops_of (ok done) = done.0

pays_fifty : payout ≡ ok (ops_of payout, 50)
unfolding add_epoch_pool_to_proposers_payout_operations new_epoch
    get_epoch_total_credits_for_distribution credits_of
    get_epoch_processing_credits_for_distribution get_epoch_storage_credits_for_distribution
    block_count get_epoch_proposers block_counts_of u64_from_be_bytes u64_to_be_bytes pay_proposers
    pay_shares add_pay_reward_to_identity_operations
pays_fifty = refl

number_lem : (n : ℕ) → n ≤ 60 → All CountFits (numbered n)
number_lem zero h = tt
number_lem (suc n) h = (omega arith, number_lem n (omega arith))

abbrev genesis_epoch : Epoch
genesis_epoch = record { index = 0; key = key_of 0 }

holds : Holds sixties genesis_epoch proposers
holds = (number_lem 60 (omega arith), λ limit. refl)

round : PayoutRound fractions amounts fetch one_byte no_shares proposers (numbered 10)
unfolding mark_if_paid new_epoch add_epoch_pool_to_proposers_payout_operations
    get_epoch_total_credits_for_distribution credits_of
    get_epoch_processing_credits_for_distribution get_epoch_storage_credits_for_distribution
    block_count get_epoch_proposers block_counts_of u64_from_be_bytes u64_to_be_bytes pay_proposers
    pay_shares add_pay_reward_to_identity_operations add_delete_proposers_operations
round =
    pays sixties unpaid genesis_epoch 1 50 50 (ops_of payout) refl refl holds (omega arith)
      pays_fifty refl refl

UnpaidRounds-bound_example : 1 * 50 + length (numbered 10) ≤ length proposers
UnpaidRounds-bound_example =
    UnpaidRounds-bound fractions amounts fetch one_byte no_shares (one_more none_yet round)
